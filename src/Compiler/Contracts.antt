-- ===== src/Compiler/Contracts.antt =====
-- src/contract_parser.zig: the declarations of external functions in `.sai` files. `none` is a
-- parse error.
use mathlib.Core.Option
use sa_plugin_sla.Prelude.{
  ◌==◌, if◌then◌else◌, ℕ, ◌+◌, ◌-◌, Bool, true, false, not, ◌||◌, Option, none, some, List, [], ◌∷◌,
  ◌++◌,
}
use sa_plugin_sla.Compiler.Text.{
  Bytes, codes, is_blank, is_line_blank, drop_while, take_while, is_empty, trim_end, trim,
  split_scalar, starts_with, bytes_eq, skip, last_is, without_last,
}

pub record Param : Type 0 where
  pub name : Bytes
  pub ty : Bytes
  pub is_borrow : Bool
  pub is_move : Bool
  pub is_raw : Bool

pub record ExternalFunction : Type 0 where
  pub name : Bytes
  pub params : List Param
  pub ret_ty : Bytes
  pub return_fallible : Bool
  pub is_variadic : Bool

abbrev pub extern_word : Bytes
extern_word = codes "@extern"

abbrev pub dots : Bytes
dots = codes "..."

-- The text up to the parenthesis that closes the ones that are open, and the text behind it.
unfoldable pub close_paren : ℕ → Bytes → Option (Bytes × Bytes)
close_paren depth [] = none
close_paren depth (c ∷ cs) =
    if c == b'('
    then Option.map (λ (r : Bytes × Bytes). (c ∷ r.0, r.1)) (close_paren (depth + 1) cs)
    else if c == b')'
    then if depth == 1
      then some ([], cs)
      else Option.map (λ (r : Bytes × Bytes). (c ∷ r.0, r.1)) (close_paren (depth - 1) cs)
    else Option.map (λ (r : Bytes × Bytes). (c ∷ r.0, r.1)) (close_paren depth cs)

-- The mark in front of a parameter's name.
unfoldable pub marked_param : Bytes → Bytes → Param
marked_param [] ty = record {
  name = [];
  ty = ty;
  is_borrow = false;
  is_move = false;
  is_raw = false;
}
marked_param (c ∷ name) ty =
    if c == b'&'
    then record { name = name; ty = ty; is_borrow = true; is_move = false; is_raw = false }
    else if c == b'^'
    then record { name = name; ty = ty; is_borrow = false; is_move = true; is_raw = false }
    else if c == b'*'
    then record { name = name; ty = ty; is_borrow = false; is_move = false; is_raw = true }
    else record { name = c ∷ name; ty = ty; is_borrow = false; is_move = false; is_raw = false }

-- `&out_ptr: ptr`. What follows a second colon is not looked at.
unfoldable pub parse_param : Bytes → Option Param
unfolding split_scalar trim marked_param
parse_param p = elim (split_scalar b':' p) [
  | name ∷ ty ∷ more ↦ some (marked_param (trim is_blank name) (trim is_blank ty))
  | name ∷ [] ↦ none
  | [] ↦ none
]

-- Whether nothing is left to split.
abbrev pub rest_is_empty : List Bytes → Bool
rest_is_empty [] = true
rest_is_empty (piece ∷ []) = is_empty piece
rest_is_empty (piece ∷ another ∷ pieces) = false

abbrev pub no_params : List Param → Bool
no_params [] = true
no_params (p ∷ ps) = false

unfoldable pub parse_params : List Param → Bool → List Bytes → Option (List Param × Bool)
unfolding parse_param trim
parse_params params variadic [] = some (params, variadic)
parse_params params variadic (piece ∷ pieces) =
    let text = trim is_blank piece in
    elim (is_empty text) [
      | true ↦ parse_params params variadic pieces
      | false ↦ elim (bytes_eq text dots) [
        | true ↦
            if not (rest_is_empty pieces) || no_params params
            then none
            else parse_params params true pieces
        | false ↦ elim (parse_param text) [
          | none ↦ none
          | some p ↦ parse_params (params ++ p ∷ []) variadic pieces
        ]
      ]
    ]

-- A type with its `!`, if it ends with one.
unfoldable pub fallible_type : Bytes → Bytes × Bool
unfolding trim_end last_is
fallible_type ret_ty =
    if last_is b'!' ret_ty then (trim_end is_blank (without_last ret_ty), true) else (ret_ty, false)

-- The type behind the arrow, and whether it ends with `!`; without an arrow it is `void`.
unfoldable pub parse_return : Bytes → Bytes × Bool
unfolding trim drop_while fallible_type
parse_return s =
    let after = drop_while is_blank s in
    if starts_with after (b'-' ∷ b'>' ∷ [])
    then fallible_type (trim is_blank (drop_while is_blank (skip 2 after)))
    else (codes "void", false)

abbrev pub is_name_byte : ℕ → Bool
is_name_byte c = not (c == b'(' || is_blank c)

abbrev pub is_not_open : ℕ → Bool
is_not_open c = not (c == b'(')

-- The declaration from its name on.
unfoldable pub extern_from_name : Bytes → Option ExternalFunction
unfolding take_while drop_while close_paren split_scalar parse_params parse_return
extern_from_name after = elim (drop_while is_not_open (drop_while is_name_byte after)) [
  | [] ↦ none
  | c ∷ inside ↦ elim (close_paren 1 inside) [
    | none ↦ none
    | some (params_str, behind) ↦
        let (ret_ty, return_fallible) = parse_return behind in
        Option.map
          (λ (r : List Param × Bool). record {
            name = take_while is_name_byte after;
            params = r.0;
            ret_ty = ret_ty;
            return_fallible = return_fallible;
            is_variadic = r.1;
          })
          (parse_params [] false (split_scalar b',' params_str))
  ]
]

unfoldable pub parse_extern_line : Bytes → Option ExternalFunction
unfolding drop_while extern_from_name
parse_extern_line line = extern_from_name (drop_while is_blank (skip 7 line))

-- The loop over the lines, with the functions found so far.
unfoldable pub parse_sai_lines : List ExternalFunction → List Bytes → Option (List ExternalFunction)
unfolding trim parse_extern_line
parse_sai_lines functions [] = some functions
parse_sai_lines functions (raw_line ∷ lines) =
    let line = trim is_line_blank raw_line in
    elim (is_empty line || starts_with line (codes "//")) [
      | true ↦ parse_sai_lines functions lines
      | false ↦ elim (starts_with line extern_word) [
        | false ↦ parse_sai_lines functions lines
        | true ↦ elim (parse_extern_line line) [
          | none ↦ none
          | some f ↦ parse_sai_lines (functions ++ f ∷ []) lines
        ]
      ]
    ]

unfoldable pub parse_sai : Bytes → Option (List ExternalFunction)
unfolding parse_sai_lines split_scalar
parse_sai content = parse_sai_lines [] (split_scalar b'\n' content)
