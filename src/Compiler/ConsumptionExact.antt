-- ===== src/Compiler/ConsumptionExact.antt =====
-- The analysis of consumption against the paths through a body.
use sa_plugin_sla.Prelude.{String, ◌≡◌, true, str_eq, &&-true}
use sa_plugin_sla.Compiler.Syntax.{
  Node, identifier, literal, other, let_stmt, assign_stmt, block_stmt, expr_stmt, return_stmt,
  for_stmt, while_stmt, release_stmt, if_expr, switch_expr, match_expr, unsafe_expr, await_expr,
  binary_expr, call_expr, borrow_expr, move_expr, deref_expr, cast_expr, field_expr, struct_literal,
  enum_literal, tuple_literal, array_literal, repeat_array_literal, index_expr, slice_expr,
  try_expr, Nodes, end, next, MaybeNode, null, present, MaybeBlock, no_block, block, LetChain,
  no_chain, chain, Cases, no_cases, case, Fields, no_fields, field,
}
use sa_plugin_sla.Compiler.Consumption.{
  never, is_identifier, node_consumption, maybe_consumption, else_consumption,
  macro_param_consumption,
}
use sa_plugin_sla.Compiler.Paths.{Exactly, NodePath, Paths, MaybePath, ElsePaths, Describes}
use sa_plugin_sla.Compiler.Regular.{
  is_never, is_regular, are_regular, maybe_regular, maybe_silent, chain_silent, links_silent,
  else_regular, cases_regular, fields_regular,
}
use sa_plugin_sla.Compiler.ConsumptionLaws.{
  Describes-nothing, Describes-sequence, Describes-branch, Describes-loop, Describes-if,
  Describes-behind, Describes-before,
}
use sa_plugin_sla.Compiler.ConsumptionFacts.{
  silent, unstart, LinkFacts, ChainFacts, chain-Describes, NodeFacts, CaseFacts, FieldFacts,
  body_of-NodeFacts, first-Describes, fields-Describes,
}

mutual
  unfolding node_consumption NodePath is_regular

  node-Describes :
      (x : String) (n : Node)
      → is_regular x n ≡ true
      → Describes (node_consumption x n) (NodePath x n)
  node-Describes x (move_expr e) h =
      Describes-if (is_identifier x e) (node_consumption x e) (NodePath x e) (node-Describes x e h)
  node-Describes x (try_expr e) h =
      Describes-if (is_identifier x e) (node_consumption x e) (NodePath x e) (node-Describes x e h)
  node-Describes x (release_stmt y) h =
      Describes-if (str_eq y x) never (Exactly 0) Describes-nothing
  node-Describes x (block_stmt body) h = body_of-NodeFacts x body (node_facts x body h)
  node-Describes x (unsafe_expr body) h = body_of-NodeFacts x body (node_facts x body h)
  node-Describes x (expr_stmt e) h = node-Describes x e h
  node-Describes x (if_expr cond links t e) h =
      let (hc, h') = &&-true (is_regular x cond) _ h in
      let (hl, h'') = &&-true (chain_silent x links) _ h' in
      let (ht, he) = &&-true (are_regular x t) _ h'' in
      Describes-sequence _ _ _ _ (node-Describes x cond hc) (
        chain-Describes x links _ (Paths x t) (ElsePaths x e) (chain_facts x links hl) (
          Describes-branch _ _ _ _ (body_of-NodeFacts x t (node_facts x t ht))
            (else-Describes x e he)))
  node-Describes x (switch_expr val cases) h =
      let (hn, h') = &&-true (is_never (node_consumption x val)) _ h in
      let (hv, hc) = &&-true (is_regular x val) _ h' in
      Describes-behind _ _ _ (silent x val (node-Describes x val hv) hn)
        (first-Describes x cases (case_facts x cases hc))
  node-Describes x (match_expr val cases) h =
      let (hn, h') = &&-true (is_never (node_consumption x val)) _ h in
      let (hv, hc) = &&-true (is_regular x val) _ h' in
      Describes-behind _ _ _ (silent x val (node-Describes x val hv) hn)
        (first-Describes x cases (case_facts x cases hc))
  node-Describes x (for_stmt y start till body) h =
      let (hn, h') = &&-true (is_never (node_consumption x start)) _ h in
      let (hs, h'') = &&-true (is_regular x start) _ h' in
      let (ht, hb) = &&-true (maybe_silent x till) _ h'' in
      Describes-behind _ _ _ (silent x start (node-Describes x start hs) hn) (
        Describes-behind _ _ _ (silent_maybe-Describes x till ht)
          (Describes-loop _ _ (body_of-NodeFacts x body (node_facts x body hb))))
  node-Describes x (while_stmt cond body) h =
      let (hn, h') = &&-true (is_never (node_consumption x cond)) _ h in
      let (hc, hb) = &&-true (is_regular x cond) _ h' in
      let quiet = silent x cond (node-Describes x cond hc) hn in
      Describes-behind _ _ _ quiet (
        Describes-loop _ _
          (Describes-before _ _ _ quiet (body_of-NodeFacts x body (node_facts x body hb))))
  node-Describes x (call_expr f args callee) h =
      let (hc, ha) = &&-true (maybe_silent x callee) _ h in
      Describes-behind _ _ _ (silent_maybe-Describes x callee hc)
        (body_of-NodeFacts x args (node_facts x args ha))
  node-Describes x (struct_literal fields update) h =
      let (hu, hf) = &&-true (maybe_regular x update) _ h in
      fields-Describes x fields _ _ (maybe-Describes x update hu) (field_facts x fields hf)
  node-Describes x (enum_literal e v fields) h =
      unstart _ _
        (fields-Describes x fields never (Exactly 0) Describes-nothing (field_facts x fields h))
  node-Describes x (tuple_literal elements) h =
      body_of-NodeFacts x elements (node_facts x elements h)
  node-Describes x (array_literal elements) h =
      body_of-NodeFacts x elements (node_facts x elements h)
  node-Describes x (repeat_array_literal value n) h = node-Describes x value h
  node-Describes x (binary_expr l r) h =
      let (hl, hr) = &&-true (is_regular x l) _ h in
      Describes-sequence _ _ _ _ (node-Describes x l hl) (node-Describes x r hr)
  node-Describes x (field_expr e f) h = node-Describes x e h
  node-Describes x (index_expr t i) h =
      let (ht, hi) = &&-true (is_regular x t) _ h in
      Describes-sequence _ _ _ _ (node-Describes x t ht) (node-Describes x i hi)
  node-Describes x (slice_expr t s e) h =
      let (ht, h') = &&-true (is_regular x t) _ h in
      let (hs, he) = &&-true (is_regular x s) _ h' in
      Describes-sequence _ _ _ _ (node-Describes x t ht)
        (Describes-sequence _ _ _ _ (node-Describes x s hs) (node-Describes x e he))
  node-Describes x (cast_expr e) h = node-Describes x e h
  node-Describes x (borrow_expr e) h = node-Describes x e h
  node-Describes x (deref_expr e) h = node-Describes x e h
  node-Describes x (await_expr e) h = node-Describes x e h
  node-Describes x (assign_stmt target value) h =
      let (hn, h') = &&-true (is_never (node_consumption x target)) _ h in
      let (ht, hv) = &&-true (is_regular x target) _ h' in
      Describes-behind _ _ _ (silent x target (node-Describes x target ht) hn)
        (node-Describes x value hv)
  node-Describes x (let_stmt y value) h = node-Describes x value h
  node-Describes x (return_stmt value) h = maybe-Describes x value h
  node-Describes x (identifier y) h = Describes-nothing
  node-Describes x literal h = Describes-nothing
  node-Describes x other h = cc

  node_facts : (x : String) (ns : Nodes) → are_regular x ns ≡ true → NodeFacts x ns
  node_facts x end h = tt
  node_facts x (next n ns) h =
      let (hn, hs) = &&-true (is_regular x n) _ h in (node-Describes x n hn, node_facts x ns hs)

  maybe-Describes :
      (x : String) (m : MaybeNode)
      → maybe_regular x m ≡ true
      → Describes (maybe_consumption x m) (MaybePath x m)
  maybe-Describes x null h = Describes-nothing
  maybe-Describes x (present n) h = node-Describes x n h

  silent_maybe-Describes :
      (x : String) (m : MaybeNode) → maybe_silent x m ≡ true → Describes never (MaybePath x m)
  silent_maybe-Describes x null h = Describes-nothing
  silent_maybe-Describes x (present n) h =
      let (hn, hr) = &&-true (is_never (node_consumption x n)) _ h in
      silent x n (node-Describes x n hr) hn

  chain_facts : (x : String) (c : LetChain) → chain_silent x c ≡ true → ChainFacts x c
  chain_facts x no_chain h = tt
  chain_facts x (chain links) h = link_facts x links h

  link_facts : (x : String) (ns : Nodes) → links_silent x ns ≡ true → LinkFacts x ns
  link_facts x end h = tt
  link_facts x (next n ns) h =
      let (hn, h') = &&-true (is_never (node_consumption x n)) _ h in
      let (hr, hs) = &&-true (is_regular x n) _ h' in
      (silent x n (node-Describes x n hr) hn, link_facts x ns hs)

  else-Describes :
      (x : String) (e : MaybeBlock)
      → else_regular x e ≡ true
      → Describes (else_consumption x e) (ElsePaths x e)
  else-Describes x no_block h = Describes-nothing
  else-Describes x (block ns) h = body_of-NodeFacts x ns (node_facts x ns h)

  case_facts : (x : String) (cs : Cases) → cases_regular x cs ≡ true → CaseFacts x cs
  case_facts x no_cases h = tt
  case_facts x (case g body cs) h =
      let (hg, h') = &&-true (maybe_silent x g) _ h in
      let (hb, hc) = &&-true (are_regular x body) _ h' in
      (
        Describes-behind _ _ _ (silent_maybe-Describes x g hg)
            (body_of-NodeFacts x body (node_facts x body hb)),
        case_facts x cs hc,
      )

  field_facts : (x : String) (fs : Fields) → fields_regular x fs ≡ true → FieldFacts x fs
  field_facts x no_fields h = tt
  field_facts x (field f value fs) h =
      let (hn, hs) = &&-true (is_regular x value) _ h in
      (node-Describes x value hn, field_facts x fs hs)

-- For a regular body the analysis is exact: it answers `never` only if no path through the body
-- consumes the parameter, `always` only if every path does, and `conditional` only if some path
-- does and some path does not. A path is taken to go on behind a `return` and a `?`.
pub macro_param_consumption-Describes :
    (body : Nodes) (name : String)
    → are_regular name body ≡ true
    → Describes (macro_param_consumption body name) (Paths name body)
unfolding macro_param_consumption
macro_param_consumption-Describes body name h = body_of-NodeFacts name body (node_facts name body h)
