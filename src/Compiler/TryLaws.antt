-- ===== src/Compiler/TryLaws.antt =====
-- Laws of `?` in macro bodies.
use sa_plugin_sla.Prelude.{
  Bool-cases, String, ◌≡◌, refl, ◌∙◌, inl, inr, Bool, true, false, ◌||◌, arith,
}
use sa_plugin_sla.Compiler.Syntax.{
  Node, let_stmt, assign_stmt, block_stmt, expr_stmt, return_stmt, for_stmt, while_stmt, if_expr,
  unsafe_expr, try_expr, Nodes, end, next, MaybeNode, null, present, MaybeBlock, no_block, block,
}
use sa_plugin_sla.Compiler.Consumption.{
  MacroParamConsumption, never, sequence, branch, looped, is_identifier, always_if,
  node_consumption, body_consumption, maybe_consumption, else_consumption, macro_param_consumption,
  consumes, macro_param_consumes_value,
}
use sa_plugin_sla.Compiler.Branches.{
  node_has_try_source, is_try_source, maybe_has_try_source, else_has_try_source,
  macro_param_is_try_source,
}

consumes-sequence :
    (a b : MacroParamConsumption) → consumes (sequence a b) ≡ (consumes a || consumes b)
unfolding sequence consumes
consumes-sequence a b = ground arith

consumes-branch : (a b : MacroParamConsumption) → consumes (branch a b) ≡ (consumes a || consumes b)
unfolding branch consumes
consumes-branch a b = ground arith

consumes-looped : (a : MacroParamConsumption) → consumes (looped a) ≡ consumes a
unfolding looped consumes
consumes-looped a = ground arith

-- The loop over a body keeps what it has found.
body-consumes :
    (x : String) (effect : MacroParamConsumption) (ns : Nodes)
    → consumes effect ≡ true
    → consumes (body_consumption x effect ns) ≡ true
unfolding node_consumption
body-consumes x effect end h = h
body-consumes x effect (next n ns) h =
    body-consumes x (sequence effect (node_consumption x n)) ns
      (rw (consumes-sequence effect (node_consumption x n), h))

always_if-consumes :
    (b : Bool) (a : MacroParamConsumption) → b ≡ true → consumes (always_if b a) ≡ true
unfolding always_if consumes
always_if-consumes true a h = refl
always_if-consumes false a h = ground arith

either_of_three :
    (p q r p' q' r' : Bool)
    → (p ≡ true → p' ≡ true)
    → (q ≡ true → q' ≡ true)
    → (r ≡ true → r' ≡ true)
    → (p || q || r) ≡ true
    → (p' || (q' || r')) ≡ true
either_of_three p q r p' q' r' f g k h = ground arith

mutual
  unfolding node_consumption node_has_try_source

  node_try_source-consumes :
      (x : String) (n : Node)
      → node_has_try_source x n ≡ true
      → consumes (node_consumption x n) ≡ true
  node_try_source-consumes x (try_expr e) h =
      always_if-consumes (is_identifier x e) (node_consumption x e) h
  node_try_source-consumes x (block_stmt body) h = try_source-consumes x never body h
  node_try_source-consumes x (unsafe_expr body) h = try_source-consumes x never body h
  node_try_source-consumes x (if_expr c links t e) h =
      rw
        (
          consumes-sequence (node_consumption x c)
              (branch (body_consumption x never t) (else_consumption x e)),
          consumes-branch (body_consumption x never t) (else_consumption x e),
        )
        (either_of_three (node_has_try_source x c) (is_try_source x t) (else_has_try_source x e) _ _
          _ (node_try_source-consumes x c) (try_source-consumes x never t)
          (else_try_source-consumes x e) h)
  node_try_source-consumes x (for_stmt y start till body) h =
      consumes-looped (body_consumption x never body) ∙ try_source-consumes x never body h
  node_try_source-consumes x (while_stmt cond body) h =
      consumes-looped (body_consumption x never body) ∙ try_source-consumes x never body h
  node_try_source-consumes x (expr_stmt e) h = node_try_source-consumes x e h
  node_try_source-consumes x (assign_stmt target value) h = node_try_source-consumes x value h
  node_try_source-consumes x (let_stmt y value) h = node_try_source-consumes x value h
  node_try_source-consumes x (return_stmt value) h = maybe_try_source-consumes x value h
  node_try_source-consumes x _ h = cc

  try_source-consumes :
      (x : String) (effect : MacroParamConsumption) (ns : Nodes)
      → is_try_source x ns ≡ true
      → consumes (body_consumption x effect ns) ≡ true
  try_source-consumes x effect end h = cc
  try_source-consumes x effect (next n ns) h = elim (Bool-cases (node_has_try_source x n)) [
    | inl e ↦ body-consumes x (sequence effect (node_consumption x n)) ns (
        consumes-sequence effect (node_consumption x n)
        ∙ rw (node_try_source-consumes x n e) (ground arith))
    | inr e ↦ try_source-consumes x (sequence effect (node_consumption x n)) ns (rw e at h)
  ]

  maybe_try_source-consumes :
      (x : String) (m : MaybeNode)
      → maybe_has_try_source x m ≡ true
      → consumes (maybe_consumption x m) ≡ true
  maybe_try_source-consumes x null h = cc
  maybe_try_source-consumes x (present n) h = node_try_source-consumes x n h

  else_try_source-consumes :
      (x : String) (e : MaybeBlock)
      → else_has_try_source x e ≡ true
      → consumes (else_consumption x e) ≡ true
  else_try_source-consumes x no_block h = cc
  else_try_source-consumes x (block ns) h = try_source-consumes x never ns h

-- The two analyses agree: a parameter that macroParamIsTrySource finds under a `?` is one that
-- macroParamConsumesValue reports.
pub try_source-macro_param_consumes :
    (body : Nodes) (name : String)
    → macro_param_is_try_source body name ≡ true
    → macro_param_consumes_value body name ≡ true
unfolding macro_param_is_try_source macro_param_consumes_value macro_param_consumption
try_source-macro_param_consumes body name h = try_source-consumes name never body h
