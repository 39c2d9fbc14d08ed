-- ===== src/Compiler/ScrutineeLaws.antt =====
-- What the analysis of consumption does not see.
use sa_plugin_sla.Prelude.{
  ℕ, ◌+◌, inr, ◌<◌, String, ◌≡◌, refl, sym, subst, true, arith, str_eq, eq_iff,
}
use sa_plugin_sla.Compiler.Syntax.{
  Node, identifier, if_expr, match_expr, move_expr, Nodes, end, next, null, no_block, chain,
  no_cases, case,
}
use sa_plugin_sla.Compiler.Consumption.{
  never, sequence, branch, is_identifier, node_consumption, body_consumption,
  macro_param_consumption,
}
use sa_plugin_sla.Compiler.Paths.{Exactly, Once_if, NodePath, Paths}

moved-once : (x : String) (n : ℕ) → NodePath x (move_expr (identifier x)) n → n ≡ 1
unfolding NodePath is_identifier
moved-once x n p =
    let e : str_eq x x ≡ true = (eq_iff x x).1 refl in
    subst (λ b. Once_if b (Exactly 0) n → n ≡ 1) (sym e) (λ q. q) p

-- A `match` on the moved parameter consumes it on every path, but the analysis reports that it is
-- never consumed, as long as the only case does not consume it either.
pub match_scrutinee-missed :
    (x : String) (body : Nodes)
    → body_consumption x never body ≡ never
    → let macro = next (match_expr (move_expr (identifier x)) (case null body no_cases)) end in
      (macro_param_consumption macro x ≡ never) × ((n : ℕ) → Paths x macro n → 0 < n)
unfolding macro_param_consumption node_consumption NodePath sequence
match_scrutinee-missed x body h =
    (rw h, λ n (k, m, (i, j, p, q, e), z, e'). omega (arith, moved-once x i p))

moved-once-path : (x : String) → NodePath x (move_expr (identifier x)) 1
unfolding NodePath is_identifier
moved-once-path x =
    let e : str_eq x x ≡ true = (eq_iff x x).1 refl in
    subst (λ b. Once_if b (Exactly 0) 1) (sym e) refl

-- `if let .. = value && let .. = ^x { body }`, with no `else`.
abbrev pub second_link : Node → String → Nodes → Nodes
second_link value x body =
    next (if_expr value (chain (next (move_expr (identifier x)) end)) body no_block) end

-- Where the first link of an `if let` and the block behind it consume nothing by the analysis,
-- and the second link tests the moved parameter, the analysis reports that it is never consumed.
-- But for each path through the first value there is one through the whole that consumes the
-- parameter once more.
pub let_chain-missed :
    (x : String) (value : Node) (body : Nodes)
    → node_consumption x value ≡ never
    → body_consumption x never body ≡ never
    → let macro = second_link value x body in
      (macro_param_consumption macro x ≡ never)
      × ((n : ℕ) → NodePath x value n → Paths x macro (n + 1))
unfolding macro_param_consumption node_consumption NodePath sequence branch
let_chain-missed x value body hv hb = (
  rw (hv, hb) refl,
  λ n p. (
    n + 1,
    0,
    (n, 1, p, inr (1, 0, moved-once-path x, inr refl, omega arith), refl),
    refl,
    omega arith,
  ),
)
