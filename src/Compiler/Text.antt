-- ===== src/Compiler/Text.antt =====
-- Texts as lists of bytes, and what src/contract_parser.zig uses of `std.mem` and `std.fmt`.
use sa_plugin_sla.Prelude.{
  leb, ◌==◌, if◌then◌else◌, ℤ, pos, sub_ℕ, ℕ, zero, suc, ◌+◌, ◌-◌, ◌*◌, String, Bool, true, false,
  ◌&&◌, ◌||◌, Option, none, some, List, [], ◌∷◌,
}
use Prim.Native.Char.{code}

abbrev pub Bytes : Type 0
Bytes = List ℕ

abbrev pub codes : String → Bytes
codes String.[] = []
codes (String.◌∷◌ c s) = code c ∷ codes s

-- A space or a tab.
abbrev pub is_blank : ℕ → Bool
is_blank c = c == b' ' || c == b'\t'

-- A space, a tab or a carriage return.
abbrev pub is_line_blank : ℕ → Bool
is_line_blank c = is_blank c || c == b'\r'

unfoldable pub drop_while : (ℕ → Bool) → Bytes → Bytes
drop_while p [] = []
drop_while p (c ∷ cs) = if p c then drop_while p cs else c ∷ cs

unfoldable pub take_while : (ℕ → Bool) → Bytes → Bytes
take_while p [] = []
take_while p (c ∷ cs) = if p c then c ∷ take_while p cs else []

abbrev pub is_empty : Bytes → Bool
is_empty [] = true
is_empty (c ∷ cs) = false

unfoldable pub trim_end : (ℕ → Bool) → Bytes → Bytes
trim_end p [] = []
trim_end p (c ∷ cs) = let rest = trim_end p cs in if p c && is_empty rest then [] else c ∷ rest

unfoldable pub trim : (ℕ → Bool) → Bytes → Bytes
unfolding drop_while trim_end
trim p s = trim_end p (drop_while p s)

-- The byte in front of the first piece.
abbrev pub grow : ℕ → List Bytes → List Bytes
grow c [] = (c ∷ []) ∷ []
grow c (piece ∷ pieces) = (c ∷ piece) ∷ pieces

-- `std.mem.splitScalar`: the pieces between the separators, one more than there are separators.
unfoldable pub split_scalar : ℕ → Bytes → List Bytes
split_scalar sep [] = [] ∷ []
split_scalar sep (c ∷ cs) =
    let pieces = split_scalar sep cs in if c == sep then [] ∷ pieces else grow c pieces

abbrev pub starts_with : Bytes → Bytes → Bool
starts_with s [] = true
starts_with [] (p ∷ prefix) = false
starts_with (c ∷ s) (p ∷ prefix) = c == p && starts_with s prefix

abbrev pub bytes_eq : Bytes → Bytes → Bool
bytes_eq [] [] = true
bytes_eq (x ∷ xs) (y ∷ ys) = x == y && bytes_eq xs ys
bytes_eq _ _ = false

abbrev pub skip : ℕ → Bytes → Bytes
skip zero s = s
skip (suc n) [] = []
skip (suc n) (c ∷ s) = skip n s

abbrev pub take : ℕ → Bytes → Bytes
take zero s = []
take (suc n) [] = []
take (suc n) (c ∷ s) = c ∷ take n s

-- `std.fmt.parseInt` in base 10: a sign, then digits, with underscores between them.
abbrev pub digit_value : ℕ → Option ℕ
digit_value c = if leb b'0' c && leb c b'9' then some (c - b'0') else none

unfoldable pub parse_digits : ℕ → Bytes → Option ℕ
parse_digits acc [] = some acc
parse_digits acc (c ∷ cs) =
    if c == b'_'
    then parse_digits acc cs
    else elim (digit_value c) [ none ↦ none | some d ↦ parse_digits (acc * 10 + d) cs ]

unfoldable pub last_is : ℕ → Bytes → Bool
last_is x [] = false
last_is x (c ∷ []) = c == x
last_is x (c ∷ d ∷ cs) = last_is x (d ∷ cs)

-- The bytes but the last one.
abbrev pub without_last : Bytes → Bytes
without_last [] = []
without_last (c ∷ []) = []
without_last (c ∷ d ∷ cs) = c ∷ without_last (d ∷ cs)

unfoldable pub parse_magnitude : Bytes → Option ℕ
unfolding parse_digits last_is
parse_magnitude s =
    if is_empty s || starts_with s (b'_' ∷ []) || last_is b'_' s then none else parse_digits 0 s

unfoldable pub signed_i64 : Bool → Option ℕ → Option ℤ
signed_i64 negative none = none
signed_i64 true (some n) = if leb n 9223372036854775808 then some (sub_ℕ 0 n) else none
signed_i64 false (some n) = if leb n 9223372036854775807 then some (pos n) else none

unfoldable pub parse_i64 : Bytes → Option ℤ
unfolding parse_magnitude signed_i64
parse_i64 [] = none
parse_i64 (c ∷ s) =
    if c == b'-'
    then signed_i64 true (parse_magnitude s)
    else if c == b'+'
    then signed_i64 false (parse_magnitude s)
    else signed_i64 false (parse_magnitude (c ∷ s))
