-- ===== src/Compiler/Defines.antt =====
-- src/contract_parser.zig: the constants in `.sal` files. `none` is a parse error.
use sa_plugin_sla.Prelude.{
  ◌==◌, if◌then◌else◌, ℤ, pos, ℕ, Bool, true, false, not, ◌||◌, Option, none, some, List, [], ◌∷◌,
  ◌++◌,
}
use sa_plugin_sla.Compiler.Text.{
  Bytes, codes, is_blank, is_line_blank, drop_while, take_while, is_empty, trim, split_scalar,
  starts_with, skip, parse_i64,
}

pub record LayoutDefine : Type 0 where
  pub name : Bytes
  pub val_str : Bytes
  pub val_int : ℤ

abbrev pub def_word : Bytes
def_word = codes "#def"

abbrev pub is_def_name_byte : ℕ → Bool
is_def_name_byte c = not (is_blank c || c == b'=')

abbrev pub is_not_equals : ℕ → Bool
is_not_equals c = not (c == b'=')

abbrev pub without_plus : Bytes → Bytes
without_plus [] = []
without_plus (c ∷ s) = if c == b'+' then s else c ∷ s

abbrev pub or_zero : Option ℤ → ℤ
or_zero none = pos 0
or_zero (some z) = z

unfoldable pub parse_def_line : Bytes → Option LayoutDefine
unfolding drop_while take_while trim parse_i64
parse_def_line line =
    let after = drop_while is_blank (skip 4 line) in
    elim (drop_while is_not_equals (drop_while is_def_name_byte after)) [
      | [] ↦ none
      | c ∷ behind ↦
          let val_str = trim is_blank behind in
          some (record {
            name = take_while is_def_name_byte after;
            val_str = val_str;
            val_int = or_zero (parse_i64 (without_plus val_str));
          })
    ]

unfoldable pub parse_sal_lines : List LayoutDefine → List Bytes → Option (List LayoutDefine)
unfolding trim parse_def_line
parse_sal_lines defines [] = some defines
parse_sal_lines defines (raw_line ∷ lines) =
    let line = trim is_line_blank raw_line in
    elim (is_empty line || starts_with line (codes "//")) [
      | true ↦ parse_sal_lines defines lines
      | false ↦ elim (starts_with line def_word) [
        | false ↦ parse_sal_lines defines lines
        | true ↦ elim (parse_def_line line) [
          | none ↦ none
          | some d ↦ parse_sal_lines (defines ++ d ∷ []) lines
        ]
      ]
    ]

unfoldable pub parse_sal : Bytes → Option (List LayoutDefine)
unfolding parse_sal_lines split_scalar
parse_sal content = parse_sal_lines [] (split_scalar b'\n' content)
