-- ===== src/Compiler/Branches.antt =====
-- src/control_flow_rules.zig: how the states of values are merged where branches meet, and
-- whether a body contains a `?`.
use sa_plugin_sla.Prelude.{
  if◌then◌else◌, ℕ, zero, suc, String, Bool, true, false, ◌&&◌, ◌||◌, List, [], ◌∷◌, str_eq,
}
use sa_plugin_sla.Compiler.Syntax.{
  Node, identifier, let_stmt, assign_stmt, block_stmt, expr_stmt, return_stmt, for_stmt, while_stmt,
  if_expr, unsafe_expr, move_expr, try_expr, Nodes, end, next, MaybeNode, null, present, MaybeBlock,
  no_block, block,
}
use sa_plugin_sla.Compiler.Consumption.{is_identifier}

pub data BranchStateMergeAction : Type 0 where
  restore_pre restore_then restore_else keep_current : BranchStateMergeAction

unfoldable pub plan_branch_state_merge : Bool → Bool → BranchStateMergeAction
plan_branch_state_merge then_terminated else_terminated =
    if then_terminated && else_terminated
    then restore_pre
    else if then_terminated
    then restore_else
    else if else_terminated
    then restore_then
    else keep_current

pub data MultiBranchStateMergeAction : Type 0 where
  restore_pre restore_single intersect_live : MultiBranchStateMergeAction

unfoldable pub plan_multi_branch_state_merge : ℕ → MultiBranchStateMergeAction
plan_multi_branch_state_merge zero = restore_pre
plan_multi_branch_state_merge (suc zero) = restore_single
plan_multi_branch_state_merge (suc (suc n)) = intersect_live

pub data ValueState : Type 0 where
  uninitialized active consumed : ValueState

abbrev pub same_state : ValueState → ValueState → Bool
same_state uninitialized uninitialized = true
same_state active active = true
same_state consumed consumed = true
same_state _ _ = false

-- The loop over the states behind the first one: its two flags.
unfoldable pub intersect_from : ValueState → Bool → Bool → List ValueState → Bool × Bool
intersect_from first all_same has_uninitialized [] = (all_same, has_uninitialized)
intersect_from first all_same has_uninitialized (state ∷ states) =
    intersect_from first (all_same && same_state state first)
      (has_uninitialized || same_state state uninitialized) states

unfoldable pub intersect_live_branch_value_states : List ValueState → ValueState
unfolding intersect_from
intersect_live_branch_value_states [] = active
intersect_live_branch_value_states (first ∷ states) =
    let (all_same, has_uninitialized) =
      intersect_from first true (same_state first uninitialized) states in
    if all_same then first else if has_uninitialized then uninitialized else consumed

pub data FunctionExitCleanupAction : Type 0 where
  release transfer_result : FunctionExitCleanupAction

unfoldable pub plan_function_exit_cleanup : String → Node → FunctionExitCleanupAction
plan_function_exit_cleanup cleanup_name (identifier name) =
    if str_eq cleanup_name name then transfer_result else release
plan_function_exit_cleanup cleanup_name (move_expr (identifier name)) =
    if str_eq cleanup_name name then transfer_result else release
plan_function_exit_cleanup cleanup_name _ = release

unfoldable mutual
  pub node_has_try : Node → Bool
  node_has_try (try_expr e) = true
  node_has_try (block_stmt body) = macro_body_has_try body
  node_has_try (unsafe_expr body) = macro_body_has_try body
  node_has_try (if_expr cond let_chain then_block else_block) =
      node_has_try cond || macro_body_has_try then_block || else_has_try else_block
  node_has_try (for_stmt x start till body) = macro_body_has_try body
  node_has_try (while_stmt cond body) = macro_body_has_try body
  node_has_try (expr_stmt e) = node_has_try e
  node_has_try (assign_stmt target value) = node_has_try value
  node_has_try (let_stmt x value) = node_has_try value
  node_has_try (return_stmt value) = maybe_has_try value
  node_has_try _ = false

  pub macro_body_has_try : Nodes → Bool
  macro_body_has_try end = false
  macro_body_has_try (next node nodes) = node_has_try node || macro_body_has_try nodes

  pub maybe_has_try : MaybeNode → Bool
  maybe_has_try null = false
  maybe_has_try (present node) = node_has_try node

  pub else_has_try : MaybeBlock → Bool
  else_has_try no_block = false
  else_has_try (block nodes) = macro_body_has_try nodes

unfoldable mutual
  unfolding is_identifier

  pub node_has_try_source : String → Node → Bool
  node_has_try_source name (try_expr e) = is_identifier name e
  node_has_try_source name (block_stmt body) = is_try_source name body
  node_has_try_source name (unsafe_expr body) = is_try_source name body
  node_has_try_source name (if_expr cond let_chain then_block else_block) =
      node_has_try_source name cond
      || is_try_source name then_block
      || else_has_try_source name else_block
  node_has_try_source name (for_stmt x start till body) = is_try_source name body
  node_has_try_source name (while_stmt cond body) = is_try_source name body
  node_has_try_source name (expr_stmt e) = node_has_try_source name e
  node_has_try_source name (assign_stmt target value) = node_has_try_source name value
  node_has_try_source name (let_stmt x value) = node_has_try_source name value
  node_has_try_source name (return_stmt value) = maybe_has_try_source name value
  node_has_try_source name _ = false

  pub is_try_source : String → Nodes → Bool
  is_try_source name end = false
  is_try_source name (next node nodes) = node_has_try_source name node || is_try_source name nodes

  pub maybe_has_try_source : String → MaybeNode → Bool
  maybe_has_try_source name null = false
  maybe_has_try_source name (present node) = node_has_try_source name node

  pub else_has_try_source : String → MaybeBlock → Bool
  else_has_try_source name no_block = false
  else_has_try_source name (block nodes) = is_try_source name nodes

unfoldable pub macro_param_is_try_source : Nodes → String → Bool
unfolding node_has_try_source
macro_param_is_try_source body name = is_try_source name body
