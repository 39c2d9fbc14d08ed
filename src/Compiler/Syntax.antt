-- ===== src/Compiler/Syntax.antt =====
-- The nodes of src/ast.zig that the analyses of src/control_flow_rules.zig look into, with the
-- children and the names that they have there. All other kinds of nodes are `other`. Types,
-- patterns, operators and literals are left out: nothing here reads them.
use sa_plugin_sla.Prelude.{ℕ, String}

mutual
  pub data Node : Type 0 where
    identifier : String → Node
    literal : Node
    other : Node
    -- name, value
    let_stmt : String → Node → Node
    -- target, value
    assign_stmt : Node → Node → Node
    block_stmt : Nodes → Node
    expr_stmt : Node → Node
    return_stmt : MaybeNode → Node
    -- var_name, start, end, body
    for_stmt : String → Node → MaybeNode → Nodes → Node
    -- cond, body
    while_stmt : Node → Nodes → Node
    release_stmt : String → Node
    -- cond, let_chain, then_block, else_block
    if_expr : Node → LetChain → Nodes → MaybeBlock → Node
    -- val, cases
    switch_expr : Node → Cases → Node
    match_expr : Node → Cases → Node
    unsafe_expr : Nodes → Node
    await_expr : Node → Node
    -- left, right
    binary_expr : Node → Node → Node
    -- func_name, args, callee
    call_expr : String → Nodes → MaybeNode → Node
    borrow_expr : Node → Node
    move_expr : Node → Node
    deref_expr : Node → Node
    cast_expr : Node → Node
    -- expr, field_name
    field_expr : Node → String → Node
    -- fields, update_expr
    struct_literal : Fields → MaybeNode → Node
    -- enum_name, variant_name, fields
    enum_literal : String → String → Fields → Node
    tuple_literal : Nodes → Node
    array_literal : Nodes → Node
    -- value, len
    repeat_array_literal : Node → ℕ → Node
    -- target, index
    index_expr : Node → Node → Node
    -- target, start, end
    slice_expr : Node → Node → Node → Node
    try_expr : Node → Node

  pub data Nodes : Type 0 where
    end : Nodes
    next : Node → Nodes → Nodes

  pub data MaybeNode : Type 0 where
    null : MaybeNode
    present : Node → MaybeNode

  pub data MaybeBlock : Type 0 where
    no_block : MaybeBlock
    block : Nodes → MaybeBlock

  -- The `let_chain` of an `if`, which a plain `if` has not: the values that the links behind the
  -- first one test. The first link tests `cond`, as the parser builds it.
  pub data LetChain : Type 0 where
    no_chain : LetChain
    chain : Nodes → LetChain

  -- The cases of a `switch` or a `match`: the guard, which only a `match` has, and the body.
  pub data Cases : Type 0 where
    no_cases : Cases
    case : MaybeNode → Nodes → Cases → Cases

  pub data Fields : Type 0 where
    no_fields : Fields
    field : String → Node → Fields → Fields
