-- ===== src/Errors/TryLaws.antt =====
-- 309_try_block_macro reads decimal numbers back, and refuses those that do not fit.
use sa_plugin_sla.Prelude.{
  ltb, if◌then◌else◌, pos, sub_ℕ, ℕ, zero, suc, ◌+◌, ◌-◌, ◌*◌, ◌/◌, ◌%◌, ◌≤◌, ◌<◌, ◌≡◌, refl, true,
  false, [], ◌∷◌, ◌++◌, arith,
}
use sa_plugin_sla.Compiler.Text.{Bytes, is_empty}
use sa_plugin_sla.Compiler.TextLaws.{every}
use sa_plugin_sla.Companions.Decimal.{
  decimal_fuel, decimal, is_digit, digit_value-digit, decimal-digits, is_empty-decimal,
}
use sa_plugin_sla.Errors.Results.{Result, ok, err}
use sa_plugin_sla.Errors.TryBlock.{
  IntErrorKind, pos_overflow, neg_overflow, i32_digits, signed, parse_i32, to_string, parse_num,
}

-- What a number of magnitude at most `limit` is read as.
abbrev pub within : ℕ → IntErrorKind → ℕ → Result ℕ IntErrorKind
within limit e n = if ltb limit n then err e else ok n

i32_digits-snoc :
    (limit : ℕ) (e : IntErrorKind) (acc : ℕ) (s : Bytes) (m d : ℕ)
    → i32_digits limit e acc s ≡ within limit e m
    → d < 10
    → i32_digits limit e acc (s ++ ((b'0' + d) ∷ [])) ≡ within limit e (m * 10 + d)
unfolding i32_digits
i32_digits-snoc limit e acc [] m d h hd = ground (arith, digit_value-digit d)
i32_digits-snoc limit e acc (c ∷ s) m d h hd =
    ground (arith, i32_digits-snoc limit e (acc * 10 + (c - b'0')) s m d)

i32_digits-decimal_fuel :
    (limit : ℕ) (e : IntErrorKind) (fuel n : ℕ)
    → 10 ≤ limit
    → n ≤ fuel
    → i32_digits limit e 0 (decimal_fuel fuel n) ≡ within limit e n
unfolding decimal_fuel i32_digits
i32_digits-decimal_fuel limit e zero n hl h = ground arith
i32_digits-decimal_fuel limit e (suc fuel) n hl h =
    let front = i32_digits-decimal_fuel limit e fuel (n / 10) hl (omega arith) in
    let joined =
      i32_digits-snoc limit e 0 (decimal_fuel fuel (n / 10)) (n / 10) (n % 10) front
        (omega arith) in
    let whole : n / 10 * 10 + n % 10 ≡ n = omega arith in ground (arith, joined, whole)

i32_digits-decimal :
    (limit : ℕ) (e : IntErrorKind) (n : ℕ)
    → 10 ≤ limit
    → i32_digits limit e 0 (decimal n) ≡ within limit e n
unfolding decimal
i32_digits-decimal limit e n hl = i32_digits-decimal_fuel limit e n n hl (omega arith)

unsigned_digits :
    (s : Bytes)
    → every is_digit s ≡ true
    → is_empty s ≡ false
    → parse_i32 s ≡ signed pos (i32_digits 2147483647 pos_overflow 0 s)
unfolding parse_i32
unsigned_digits [] h ne = cc
unsigned_digits (c ∷ s) h ne = ground arith

negative_digits :
    (s : Bytes)
    → is_empty s ≡ false
    → parse_i32 (b'-' ∷ s) ≡ signed (sub_ℕ 0) (i32_digits 2147483648 neg_overflow 0 s)
unfolding parse_i32
negative_digits [] ne = cc
negative_digits (c ∷ s) ne = refl

-- By 309_try_block_macro every number in decimal, with a minus sign or without one, is read back if it is an i32, and is
-- refused with the error for its direction if it is not.
pub parse_num-decimal :
    (n : ℕ)
    → (parse_num (decimal n)
        ≡ (if ltb 2147483647 n then err (to_string pos_overflow) else ok (pos n)))
      × (parse_num (b'-' ∷ decimal n)
          ≡ (if ltb 2147483648 n then err (to_string neg_overflow) else ok (sub_ℕ 0 n)))
unfolding parse_num
parse_num-decimal n =
    let up = i32_digits-decimal 2147483647 pos_overflow n (omega arith) in
    let down = i32_digits-decimal 2147483648 neg_overflow n (omega arith) in
    let unsigned = unsigned_digits (decimal n) (decimal-digits n) (is_empty-decimal n) in
    let negative = negative_digits (decimal n) (is_empty-decimal n) in
    (ground (arith, unsigned, up), ground (arith, is_empty-decimal n, down))
