-- ===== src/Compiler/Consumption.antt =====
-- src/control_flow_rules.zig: whether the body of a macro consumes the value of a parameter.
use sa_plugin_sla.Prelude.{String, Bool, true, false, str_eq}
use sa_plugin_sla.Compiler.Syntax.{
  Node, identifier, literal, other, let_stmt, assign_stmt, block_stmt, expr_stmt, return_stmt,
  for_stmt, while_stmt, release_stmt, if_expr, switch_expr, match_expr, unsafe_expr, await_expr,
  binary_expr, call_expr, borrow_expr, move_expr, deref_expr, cast_expr, field_expr, struct_literal,
  enum_literal, tuple_literal, array_literal, repeat_array_literal, index_expr, slice_expr,
  try_expr, Nodes, end, next, MaybeNode, null, present, MaybeBlock, no_block, block, Cases,
  no_cases, case, Fields, no_fields, field,
}

pub data MacroParamConsumption : Type 0 where
  never always conditional : MacroParamConsumption

unfoldable pub sequence : MacroParamConsumption → MacroParamConsumption → MacroParamConsumption
sequence always right = always
sequence left always = always
sequence conditional right = conditional
sequence left conditional = conditional
sequence never never = never

unfoldable pub branch : MacroParamConsumption → MacroParamConsumption → MacroParamConsumption
branch never never = never
branch always always = always
branch left right = conditional

-- A loop may run its body not at all.
unfoldable pub looped : MacroParamConsumption → MacroParamConsumption
looped never = never
looped effect = conditional

unfoldable pub is_identifier : String → Node → Bool
is_identifier name (identifier x) = str_eq x name
is_identifier name _ = false

unfoldable pub always_if : Bool → MacroParamConsumption → MacroParamConsumption
always_if true effect = always
always_if false effect = effect

unfoldable mutual
  unfolding sequence branch looped is_identifier always_if

  pub node_consumption : String → Node → MacroParamConsumption
  node_consumption name (move_expr e) = always_if (is_identifier name e) (node_consumption name e)
  node_consumption name (release_stmt x) = always_if (str_eq x name) never
  node_consumption name (block_stmt body) = body_consumption name never body
  node_consumption name (if_expr cond let_chain then_block else_block) =
      sequence (node_consumption name cond)
        (branch (body_consumption name never then_block) (else_consumption name else_block))
  node_consumption name (switch_expr val cases) = first_consumption name cases
  node_consumption name (match_expr val cases) = first_consumption name cases
  node_consumption name (unsafe_expr body) = body_consumption name never body
  node_consumption name (for_stmt x start stop body) = looped (body_consumption name never body)
  node_consumption name (while_stmt cond body) = looped (body_consumption name never body)
  node_consumption name (expr_stmt e) = node_consumption name e
  node_consumption name (call_expr f args callee) = body_consumption name never args
  node_consumption name (struct_literal fields update) =
      fields_consumption name (maybe_consumption name update) fields
  node_consumption name (enum_literal e v fields) = fields_consumption name never fields
  node_consumption name (tuple_literal elements) = body_consumption name never elements
  node_consumption name (array_literal elements) = body_consumption name never elements
  node_consumption name (repeat_array_literal value len) = node_consumption name value
  node_consumption name (binary_expr left right) =
      sequence (node_consumption name left) (node_consumption name right)
  node_consumption name (field_expr e f) = node_consumption name e
  node_consumption name (index_expr target index) =
      sequence (node_consumption name target) (node_consumption name index)
  node_consumption name (slice_expr target start stop) =
      sequence (node_consumption name target)
        (sequence (node_consumption name start) (node_consumption name stop))
  node_consumption name (cast_expr e) = node_consumption name e
  node_consumption name (borrow_expr e) = node_consumption name e
  node_consumption name (deref_expr e) = node_consumption name e
  node_consumption name (try_expr e) = always_if (is_identifier name e) (node_consumption name e)
  node_consumption name (await_expr e) = node_consumption name e
  node_consumption name (assign_stmt target value) = node_consumption name value
  node_consumption name (let_stmt x value) = node_consumption name value
  node_consumption name (return_stmt value) = maybe_consumption name value
  node_consumption name (identifier x) = never
  node_consumption name literal = never
  node_consumption name other = never

  -- The loop over a body, an argument list or the elements of a literal, from the effect so far.
  pub body_consumption : String → MacroParamConsumption → Nodes → MacroParamConsumption
  body_consumption name effect end = effect
  body_consumption name effect (next node nodes) =
      body_consumption name (sequence effect (node_consumption name node)) nodes

  pub maybe_consumption : String → MaybeNode → MacroParamConsumption
  maybe_consumption name null = never
  maybe_consumption name (present node) = node_consumption name node

  pub else_consumption : String → MaybeBlock → MacroParamConsumption
  else_consumption name no_block = never
  else_consumption name (block nodes) = body_consumption name never nodes

  pub first_consumption : String → Cases → MacroParamConsumption
  first_consumption name no_cases = never
  first_consumption name (case guard body cases) =
      cases_consumption name (body_consumption name never body) cases

  pub cases_consumption : String → MacroParamConsumption → Cases → MacroParamConsumption
  cases_consumption name effect no_cases = effect
  cases_consumption name effect (case guard body cases) =
      cases_consumption name (branch effect (body_consumption name never body)) cases

  pub fields_consumption : String → MacroParamConsumption → Fields → MacroParamConsumption
  fields_consumption name effect no_fields = effect
  fields_consumption name effect (field f value fields) =
      fields_consumption name (sequence effect (node_consumption name value)) fields

unfoldable pub macro_param_consumption : Nodes → String → MacroParamConsumption
unfolding node_consumption
macro_param_consumption body name = body_consumption name never body

unfoldable pub consumes : MacroParamConsumption → Bool
consumes never = false
consumes effect = true

unfoldable pub macro_param_consumes_value : Nodes → String → Bool
unfolding macro_param_consumption consumes
macro_param_consumes_value body name = consumes (macro_param_consumption body name)
