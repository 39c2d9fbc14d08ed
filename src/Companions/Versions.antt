-- ===== src/Companions/Versions.antt =====
-- 206_pkg_version_resolution: the versions of two manifests decide which one is selected.
use sa_plugin_sla.Prelude.{
  leb, ltb, ◌==◌, if◌then◌else◌, negsuc, ℕ, ◌+◌, ◌*◌, String, Bool, ◌&&◌, ◌||◌, Option, none, some,
  List, [], ◌∷◌,
}
use sa_plugin_sla.Rust.{done, unwrap, ◌>>=◌, Exit, print, int_line}
use sa_plugin_sla.Compiler.Text.{
  Bytes, codes, drop_while, is_empty, last_is, without_last, split_scalar, starts_with, digit_value,
}
use sa_plugin_sla.Companions.Text.{contains}
use sa_plugin_sla.Dispatch.Requests.{as_i32}

-- `char::is_whitespace`
abbrev pub is_whitespace : ℕ → Bool
is_whitespace c =
    leb 9 c && leb c 13
    || c == 32
    || c == 133
    || c == 160
    || c == 5760
    || leb 8192 c && leb c 8202
    || c == 8232
    || c == 8233
    || c == 8239
    || c == 8287
    || c == 12288

-- `str::lines`: what stands before a newline, less one carriage return, and what stands behind the
-- last one, if anything does.
unfoldable pub without_return : Bytes → Bytes
unfolding last_is
without_return line = if last_is b'\r' line then without_last line else line

abbrev pub end_lines : List Bytes → List Bytes
end_lines [] = []
end_lines (line ∷ []) = if is_empty line then [] else line ∷ []
end_lines (line ∷ next ∷ more) = without_return line ∷ end_lines (next ∷ more)

unfoldable pub lines : Bytes → List Bytes
unfolding split_scalar
lines text = end_lines (split_scalar b'\n' text)

-- `str::parse::<u32>`
unfoldable pub u32_digits : ℕ → Bytes → Option ℕ
u32_digits acc [] = some acc
u32_digits acc (c ∷ cs) = elim (digit_value c) [
  | none ↦ none
  | some d ↦
      let rest = u32_digits (acc * 10 + d) cs in
      if ltb (acc * 10 + d) 4294967296 then rest else none
]

unfoldable pub parse_u32 : Bytes → Option ℕ
unfolding u32_digits
parse_u32 [] = none
parse_u32 (c ∷ s) =
    if c == b'+' then if is_empty s then none else u32_digits 0 s else u32_digits 0 (c ∷ s)

unfoldable pub is_version_line : Bytes → Bool
unfolding drop_while
is_version_line line = starts_with (drop_while is_whitespace line) (codes "version = ")

abbrev pub find_line : (Bytes → Bool) → List Bytes → Option Bytes
find_line p [] = none
find_line p (line ∷ more) = if p line then some line else find_line p more

-- `.nth(1)`
abbrev pub second : List Bytes → Option Bytes
second [] = none
second (a ∷ []) = none
second (a ∷ b ∷ more) = some b

-- The first three parts, each as a number.
unfoldable pub three_numbers : List Bytes → Option (ℕ × ℕ × ℕ)
unfolding parse_u32
three_numbers (a ∷ b ∷ c ∷ more) = elim (parse_u32 a) [
  | none ↦ none
  | some major ↦ elim (parse_u32 b) [
    | none ↦ none
    | some minor ↦ elim (parse_u32 c) [ none ↦ none | some patch ↦ some (major, minor, patch) ]
  ]
]
three_numbers _ = none

unfoldable pub manifest_version : Bytes → Option (ℕ × ℕ × ℕ)
unfolding split_scalar is_version_line lines three_numbers
manifest_version text = elim (find_line is_version_line (lines text)) [
  | none ↦ none
  | some version_line ↦ elim (second (split_scalar b'"' version_line)) [
    | none ↦ none
    | some version ↦ three_numbers (split_scalar b'.' version)
  ]
]

-- `>` on triples.
abbrev pub newer : (ℕ × ℕ × ℕ) → (ℕ × ℕ × ℕ) → Bool
newer (a, b, c) (x, y, z) = ltb x a || a == x && (ltb y b || b == y && ltb z c)

unfoldable pub pkg_version_resolution_main : String → String → String → String → Exit
unfolding manifest_version as_i32 contains
pkg_version_resolution_main root old_pkg new_pkg resolver =
    let root_lists_both = contains root "versions/v1_2_3" && contains root "versions/v1_4_0" in
    let resolver_imports_both =
      contains resolver "v1_2_3/index.sa" && contains resolver "v1_4_0/index.sa" in
    print int_line (do
      old_version ← unwrap (manifest_version (codes old_pkg))
      new_version ← unwrap (manifest_version (codes new_pkg))
      done (
          if root_lists_both && resolver_imports_both && newer new_version old_version
          then as_i32 new_version.1
          else negsuc 0))
