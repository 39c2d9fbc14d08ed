-- ===== src/Tests/Analyses.antt =====
-- The analyses of src/control_flow_rules.zig on small macro bodies.
use sa_plugin_sla.Prelude.{ℕ, ◌+◌, ◌<◌, true, ◌≡◌, refl, ◌↔◌, [], ◌∷◌}
use sa_plugin_sla.Compiler.Syntax.{
  identifier, if_expr, match_expr, move_expr, try_expr, expr_stmt, Nodes, end, next, null, no_block,
  chain, no_cases, case,
}
use sa_plugin_sla.Compiler.Consumption.{
  never, sequence, is_identifier, node_consumption, macro_param_consumption,
  macro_param_consumes_value,
}
use sa_plugin_sla.Compiler.Paths.{NodePath, Paths, Describes}
use sa_plugin_sla.Compiler.Regular.{is_regular}
use sa_plugin_sla.Compiler.Branches.{
  active, consumed, uninitialized, intersect_live_branch_value_states, node_has_try_source,
  macro_param_is_try_source,
}
use sa_plugin_sla.Compiler.ConsumptionExact.{macro_param_consumption-Describes}
use sa_plugin_sla.Compiler.TryLaws.{try_source-macro_param_consumes}
use sa_plugin_sla.Compiler.BranchLaws.{all_are, some_is, intersect_live_iff}
use sa_plugin_sla.Compiler.ScrutineeLaws.{match_scrutinee-missed, second_link, let_chain-missed}

-- `if let .. = c && let .. = d { ^x }`
abbrev moved_in_branch : Nodes
moved_in_branch =
    next
      (if_expr (identifier "c") (chain (next (identifier "d") end))
        (next (expr_stmt (move_expr (identifier "x"))) end) no_block)
      end

macro_param_consumption-Describes_example :
    Describes (macro_param_consumption moved_in_branch "x") (Paths "x" moved_in_branch)
unfolding is_regular node_consumption sequence is_identifier
macro_param_consumption-Describes_example =
    macro_param_consumption-Describes moved_in_branch "x" refl

-- `x?`
abbrev tried : Nodes
tried = next (expr_stmt (try_expr (identifier "x"))) end

try_source-macro_param_consumes_example : macro_param_consumes_value tried "x" ≡ true
unfolding macro_param_is_try_source node_has_try_source is_identifier
try_source-macro_param_consumes_example = try_source-macro_param_consumes tried "x" refl

intersect_live_iff_example :
    let merged = intersect_live_branch_value_states (active ∷ consumed ∷ []) in
    ((merged ≡ active) ↔ (all_are active (active ∷ consumed ∷ []) ≡ true))
    × ((merged ≡ uninitialized) ↔ (some_is uninitialized (active ∷ consumed ∷ []) ≡ true))
intersect_live_iff_example = intersect_live_iff active (consumed ∷ [])

match_scrutinee-missed_example :
    let macro = next (match_expr (move_expr (identifier "x")) (case null end no_cases)) end in
    (macro_param_consumption macro "x" ≡ never) × ((n : ℕ) → Paths "x" macro n → 0 < n)
unfolding node_consumption
match_scrutinee-missed_example = match_scrutinee-missed "x" end refl

let_chain-missed_example :
    let macro = second_link (identifier "c") "x" end in
    (macro_param_consumption macro "x" ≡ never)
    × ((n : ℕ) → NodePath "x" (identifier "c") n → Paths "x" macro (n + 1))
unfolding node_consumption
let_chain-missed_example = let_chain-missed "x" (identifier "c") end refl refl
