-- ===== src/Errors/TryBlock.antt =====
-- 309_try_block_macro: numbers are read from texts, and the first error ends a `try` block.
use sa_plugin_sla.Prelude.{
  ltb, ◌==◌, if◌then◌else◌, ℤ, pos, sub_ℕ, ℕ, ◌+◌, ◌*◌, ◌||◌, String, none, some, [], ◌∷◌,
}
use sa_plugin_sla.Rust.{Outcome, done, panic, Exit, exit_ok, lit, int_line, add_i32}
use sa_plugin_sla.Errors.Results.{Result, ok, err}
use sa_plugin_sla.Compiler.Text.{Bytes, codes, is_empty, digit_value}

-- `IntErrorKind`
pub data IntErrorKind : Type 0 where
  empty invalid_digit pos_overflow neg_overflow : IntErrorKind

-- The digits of a number of magnitude at most `limit`.
unfoldable pub i32_digits : ℕ → IntErrorKind → ℕ → Bytes → Result ℕ IntErrorKind
i32_digits limit too_large acc [] = ok acc
i32_digits limit too_large acc (c ∷ cs) = elim (digit_value c) [
  | none ↦ err invalid_digit
  | some d ↦
      let rest = i32_digits limit too_large (acc * 10 + d) cs in
      if ltb limit (acc * 10 + d) then err too_large else rest
]

abbrev pub signed : (ℕ → ℤ) → Result ℕ IntErrorKind → Result ℤ IntErrorKind
signed f (err e) = err e
signed f (ok n) = ok (f n)

-- `str::parse::<i32>`
unfoldable pub parse_i32 : Bytes → Result ℤ IntErrorKind
unfolding i32_digits
parse_i32 [] = err empty
parse_i32 (c ∷ s) =
    if (c == b'+') || (c == b'-')
    then if is_empty s
      then err invalid_digit
      else if c == b'+'
      then signed pos (i32_digits 2147483647 pos_overflow 0 s)
      else signed (sub_ℕ 0) (i32_digits 2147483648 neg_overflow 0 s)
    else signed pos (i32_digits 2147483647 pos_overflow 0 (c ∷ s))

abbrev pub to_string : IntErrorKind → String
to_string empty = "cannot parse integer from empty string"
to_string invalid_digit = "invalid digit found in string"
to_string pos_overflow = "number too large to fit in target type"
to_string neg_overflow = "number too small to fit in target type"

unfoldable pub parse_num : Bytes → Result ℤ String
unfolding parse_i32
parse_num s = elim (parse_i32 s) [ err e ↦ err (to_string e) | ok z ↦ ok z ]

-- The `try` block at any two texts.
unfoldable pub try_sum : Bytes → Bytes → Outcome (Result ℤ String)
unfolding parse_num add_i32
try_sum left right = elim (parse_num left) [
  | err e ↦ done (err e)
  | ok a ↦ elim (parse_num right) [
    | err e ↦ done (err e)
    | ok b ↦ elim (add_i32 a b) [ done sum ↦ done (ok sum) | panic p ↦ panic p ]
  ]
]

unfoldable pub compute : Outcome (Result ℤ String)
unfolding try_sum
compute = try_sum (codes "10") (codes "20")

unfoldable pub try_block_macro_main : Exit
unfolding compute
try_block_macro_main = elim compute [
  | done (ok v) ↦ exit_ok (int_line v ∷ [])
  | done (err e) ↦ exit_ok ((lit "err: " ∷ lit e ∷ []) ∷ [])
  | panic p ↦ record { stdout = []; status = panic p }
]
