-- ===== src/Compiler/Paths.antt =====
-- What the analysis is about: the paths through a body, and how often each of them consumes the
-- parameter. A path evaluates the children of a node in order, takes one of the branches, and
-- goes round a loop any number of times. It goes on behind a `return` and a `?`, and a node of
-- another kind consumes nothing.
use sa_plugin_sla.Prelude.{ℕ, ◌+◌, ◌<◌, String, ◌≡◌, ◌⊎◌, Bool, true, false, str_eq}
use sa_plugin_sla.Compiler.Syntax.{
  Node, identifier, literal, other, let_stmt, assign_stmt, block_stmt, expr_stmt, return_stmt,
  for_stmt, while_stmt, release_stmt, if_expr, switch_expr, match_expr, unsafe_expr, await_expr,
  binary_expr, call_expr, borrow_expr, move_expr, deref_expr, cast_expr, field_expr, struct_literal,
  enum_literal, tuple_literal, array_literal, repeat_array_literal, index_expr, slice_expr,
  try_expr, Nodes, end, next, MaybeNode, null, present, MaybeBlock, no_block, block, LetChain,
  no_chain, chain, Cases, no_cases, case, Fields, no_fields, field,
}
use sa_plugin_sla.Compiler.Consumption.{
  MacroParamConsumption, never, always, conditional, is_identifier,
}

abbrev pub Counts : Type 1
Counts = ℕ → Type 0

abbrev pub Exactly : ℕ → Counts
Exactly m n = n ≡ m

-- One after the other.
abbrev pub Both : Counts → Counts → Counts
Both P Q n = (k m : ℕ) × P k × Q m × (n ≡ k + m)

abbrev pub Either : Counts → Counts → Counts
Either P Q n = P n ⊎ Q n

abbrev pub Neither : Counts
Neither n = ⊥

pub data Rounds (P : Counts) : ℕ → Type 0 where
  halt : Rounds P 0
  again : {k m : ℕ} → P k → Rounds P m → Rounds P (k + m)

-- Naming the parameter under `^` or `?` consumes it once.
abbrev pub Once_if : Bool → Counts → Counts
Once_if true P = Exactly 1
Once_if false P = P

unfoldable mutual
  unfolding is_identifier

  pub NodePath : String → Node → Counts
  NodePath x (move_expr e) = Once_if (is_identifier x e) (NodePath x e)
  NodePath x (try_expr e) = Once_if (is_identifier x e) (NodePath x e)
  NodePath x (release_stmt y) = Once_if (str_eq y x) (Exactly 0)
  NodePath x (block_stmt body) = Paths x body
  NodePath x (unsafe_expr body) = Paths x body
  NodePath x (expr_stmt e) = NodePath x e
  NodePath x (if_expr cond let_chain then_block else_block) =
      Both (NodePath x cond) (ChainPaths x let_chain (Paths x then_block) (ElsePaths x else_block))
  NodePath x (switch_expr val cases) = Both (NodePath x val) (FirstPaths x cases)
  NodePath x (match_expr val cases) = Both (NodePath x val) (FirstPaths x cases)
  NodePath x (for_stmt y start stop body) =
      Both (NodePath x start) (Both (MaybePath x stop) (Rounds (Paths x body)))
  NodePath x (while_stmt cond body) =
      Both (NodePath x cond) (Rounds (Both (Paths x body) (NodePath x cond)))
  NodePath x (call_expr f args callee) = Both (MaybePath x callee) (Paths x args)
  NodePath x (struct_literal fields update) = Both (MaybePath x update) (FieldPaths x fields)
  NodePath x (enum_literal e v fields) = FieldPaths x fields
  NodePath x (tuple_literal elements) = Paths x elements
  NodePath x (array_literal elements) = Paths x elements
  NodePath x (repeat_array_literal value n) = NodePath x value
  NodePath x (binary_expr left right) = Both (NodePath x left) (NodePath x right)
  NodePath x (field_expr e f) = NodePath x e
  NodePath x (index_expr target index) = Both (NodePath x target) (NodePath x index)
  NodePath x (slice_expr target start stop) =
      Both (NodePath x target) (Both (NodePath x start) (NodePath x stop))
  NodePath x (cast_expr e) = NodePath x e
  NodePath x (borrow_expr e) = NodePath x e
  NodePath x (deref_expr e) = NodePath x e
  NodePath x (await_expr e) = NodePath x e
  NodePath x (assign_stmt target value) = Both (NodePath x target) (NodePath x value)
  NodePath x (let_stmt y value) = NodePath x value
  NodePath x (return_stmt value) = MaybePath x value
  NodePath x (identifier y) = Exactly 0
  NodePath x literal = Exactly 0
  NodePath x other = Exactly 0

  pub Paths : String → Nodes → Counts
  Paths x end = Exactly 0
  Paths x (next node nodes) = Both (NodePath x node) (Paths x nodes)

  pub MaybePath : String → MaybeNode → Counts
  MaybePath x null = Exactly 0
  MaybePath x (present node) = NodePath x node

  pub ElsePaths : String → MaybeBlock → Counts
  ElsePaths x no_block = Exactly 0
  ElsePaths x (block nodes) = Paths x nodes

  pub ChainPaths : String → LetChain → Counts → Counts → Counts
  ChainPaths x no_chain Then Else = Either Then Else
  ChainPaths x (chain links) Then Else = LinkPaths x links Then Else

  -- Behind a link: its pattern fails, or the next link is tested; behind the last one, either
  -- block.
  pub LinkPaths : String → Nodes → Counts → Counts → Counts
  LinkPaths x end Then Else = Either Then Else
  LinkPaths x (next value links) Then Else =
      Either Else (Both (NodePath x value) (LinkPaths x links Then Else))

  -- With no case at all there is nothing to take.
  pub FirstPaths : String → Cases → Counts
  FirstPaths x no_cases = Exactly 0
  FirstPaths x (case guard body cases) =
      Either (Both (MaybePath x guard) (Paths x body)) (CasePaths x cases)

  pub CasePaths : String → Cases → Counts
  CasePaths x no_cases = Neither
  CasePaths x (case guard body cases) =
      Either (Both (MaybePath x guard) (Paths x body)) (CasePaths x cases)

  pub FieldPaths : String → Fields → Counts
  FieldPaths x no_fields = Exactly 0
  FieldPaths x (field f value fields) = Both (NodePath x value) (FieldPaths x fields)

-- What an answer of the analysis says of the paths.
abbrev pub Describes : MacroParamConsumption → Counts → Type 0
Describes never P = P 0 × ((n : ℕ) → P n → n ≡ 0)
Describes always P = ((n : ℕ) × P n) × ((n : ℕ) → P n → 0 < n)
Describes conditional P = P 0 × ((n : ℕ) × P n × (0 < n))
