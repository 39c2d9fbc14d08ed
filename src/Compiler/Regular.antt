-- ===== src/Compiler/Regular.antt =====
-- The bodies that the analysis of consumption sees whole.
use sa_plugin_sla.Prelude.{String, Bool, true, false, ◌&&◌}
use sa_plugin_sla.Compiler.Syntax.{
  Node, identifier, literal, other, let_stmt, assign_stmt, block_stmt, expr_stmt, return_stmt,
  for_stmt, while_stmt, release_stmt, if_expr, switch_expr, match_expr, unsafe_expr, await_expr,
  binary_expr, call_expr, borrow_expr, move_expr, deref_expr, cast_expr, field_expr, struct_literal,
  enum_literal, tuple_literal, array_literal, repeat_array_literal, index_expr, slice_expr,
  try_expr, Nodes, end, next, MaybeNode, null, present, MaybeBlock, no_block, block, LetChain,
  no_chain, chain, Cases, no_cases, case, Fields, no_fields, field,
}
use sa_plugin_sla.Compiler.Consumption.{MacroParamConsumption, never, node_consumption}

-- The analysis does not look into the value that a `switch` or `match` tests, into the guards of
-- cases, into the links of an `if let` behind the first one, into the condition of a `while` and
-- the bounds of a `for`, into the target of an assignment and into a called expression, nor into
-- the nodes of other kinds. A body is regular for a parameter if it has none of these nodes and
-- nothing in those places consumes the parameter.
abbrev pub is_never : MacroParamConsumption → Bool
is_never never = true
is_never effect = false

unfoldable mutual
  unfolding node_consumption

  pub is_regular : String → Node → Bool
  is_regular x (move_expr e) = is_regular x e
  is_regular x (try_expr e) = is_regular x e
  is_regular x (release_stmt y) = true
  is_regular x (block_stmt body) = are_regular x body
  is_regular x (unsafe_expr body) = are_regular x body
  is_regular x (expr_stmt e) = is_regular x e
  is_regular x (if_expr cond let_chain then_block else_block) =
      is_regular x cond
      && (chain_silent x let_chain && (are_regular x then_block && else_regular x else_block))
  is_regular x (switch_expr val cases) =
      is_never (node_consumption x val) && (is_regular x val && cases_regular x cases)
  is_regular x (match_expr val cases) =
      is_never (node_consumption x val) && (is_regular x val && cases_regular x cases)
  is_regular x (for_stmt y start stop body) =
      is_never (node_consumption x start)
      && (is_regular x start && (maybe_silent x stop && are_regular x body))
  is_regular x (while_stmt cond body) =
      is_never (node_consumption x cond) && (is_regular x cond && are_regular x body)
  is_regular x (call_expr f args callee) = maybe_silent x callee && are_regular x args
  is_regular x (struct_literal fields update) = maybe_regular x update && fields_regular x fields
  is_regular x (enum_literal e v fields) = fields_regular x fields
  is_regular x (tuple_literal elements) = are_regular x elements
  is_regular x (array_literal elements) = are_regular x elements
  is_regular x (repeat_array_literal value n) = is_regular x value
  is_regular x (binary_expr left right) = is_regular x left && is_regular x right
  is_regular x (field_expr e f) = is_regular x e
  is_regular x (index_expr target index) = is_regular x target && is_regular x index
  is_regular x (slice_expr target start stop) =
      is_regular x target && (is_regular x start && is_regular x stop)
  is_regular x (cast_expr e) = is_regular x e
  is_regular x (borrow_expr e) = is_regular x e
  is_regular x (deref_expr e) = is_regular x e
  is_regular x (await_expr e) = is_regular x e
  is_regular x (assign_stmt target value) =
      is_never (node_consumption x target) && (is_regular x target && is_regular x value)
  is_regular x (let_stmt y value) = is_regular x value
  is_regular x (return_stmt value) = maybe_regular x value
  is_regular x (identifier y) = true
  is_regular x literal = true
  is_regular x other = false

  pub are_regular : String → Nodes → Bool
  are_regular x end = true
  are_regular x (next node nodes) = is_regular x node && are_regular x nodes

  pub maybe_regular : String → MaybeNode → Bool
  maybe_regular x null = true
  maybe_regular x (present node) = is_regular x node

  pub maybe_silent : String → MaybeNode → Bool
  maybe_silent x null = true
  maybe_silent x (present node) = is_never (node_consumption x node) && is_regular x node

  pub chain_silent : String → LetChain → Bool
  chain_silent x no_chain = true
  chain_silent x (chain links) = links_silent x links

  pub links_silent : String → Nodes → Bool
  links_silent x end = true
  links_silent x (next value links) =
      is_never (node_consumption x value) && (is_regular x value && links_silent x links)

  pub else_regular : String → MaybeBlock → Bool
  else_regular x no_block = true
  else_regular x (block nodes) = are_regular x nodes

  pub cases_regular : String → Cases → Bool
  cases_regular x no_cases = true
  cases_regular x (case guard body cases) =
      maybe_silent x guard && (are_regular x body && cases_regular x cases)

  pub fields_regular : String → Fields → Bool
  fields_regular x no_fields = true
  fields_regular x (field f value fields) = is_regular x value && fields_regular x fields
