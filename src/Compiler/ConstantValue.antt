-- ===== src/Compiler/ConstantValue.antt =====
-- `std.fmt.parseInt(i64, ..)`, as src/contract_parser.zig uses it, on decimal numbers.
use sa_plugin_sla.Prelude.{
  leb, if◌then◌else◌, pos, sub_ℕ, ℕ, zero, suc, ◌+◌, ◌-◌, ◌*◌, ◌/◌, ◌%◌, ◌≤◌, ◌<◌, ◌≡◌, refl, ap,
  ◌∙◌, true, false, some, none, [], ◌∷◌, ◌++◌, arith,
}
use sa_plugin_sla.Compiler.Text.{
  Bytes, is_empty, parse_digits, parse_magnitude, signed_i64, parse_i64,
}
use sa_plugin_sla.Compiler.TextLaws.{every, every-implies, is_not, last_is-word}
use sa_plugin_sla.Companions.Decimal.{
  decimal_fuel, decimal, is_digit, digit_value-digit, decimal-digits, is_empty-decimal,
}

parse_digits-snoc :
    (acc : ℕ) (s : Bytes) (m d : ℕ)
    → parse_digits acc s ≡ some m
    → d < 10
    → parse_digits acc (s ++ ((b'0' + d) ∷ [])) ≡ some (m * 10 + d)
unfolding parse_digits
parse_digits-snoc acc [] m d h hd = ground (arith, digit_value-digit d)
parse_digits-snoc acc (c ∷ s) m d h hd =
    ground (arith, parse_digits-snoc acc s m d, parse_digits-snoc (acc * 10 + (c - b'0')) s m d)

parse_digits-decimal_fuel : (fuel n : ℕ) → n ≤ fuel → parse_digits 0 (decimal_fuel fuel n) ≡ some n
unfolding decimal_fuel parse_digits
parse_digits-decimal_fuel zero n h = ground arith
parse_digits-decimal_fuel (suc fuel) n h =
    let front = parse_digits-decimal_fuel fuel (n / 10) (omega arith) in
    let joined =
      parse_digits-snoc 0 (decimal_fuel fuel (n / 10)) (n / 10) (n % 10) front (omega arith) in
    let whole : n / 10 * 10 + n % 10 ≡ n = omega arith in ground (arith, joined, whole)

digit-not : (x c : ℕ) → is_digit x ≡ false → is_digit c ≡ true → is_not x c ≡ true
digit-not x c h e = ground arith

magnitude_of_digits :
    (s : Bytes)
    → every is_digit s ≡ true
    → is_empty s ≡ false
    → parse_magnitude s ≡ parse_digits 0 s
unfolding parse_magnitude
magnitude_of_digits [] h ne = cc
magnitude_of_digits (c ∷ s) h ne =
    let last =
      last_is-word b'_' (c ∷ s)
        (every-implies is_digit (is_not b'_') (c ∷ s) (λ d. digit-not b'_' d refl) h) in
    ground (arith, last)

unsigned_of_digits :
    (s : Bytes)
    → every is_digit s ≡ true
    → is_empty s ≡ false
    → parse_i64 s ≡ signed_i64 false (parse_magnitude s)
unfolding parse_i64
unsigned_of_digits [] h ne = cc
unsigned_of_digits (c ∷ s) h ne = ground arith

magnitude_of_decimal : (n : ℕ) → parse_magnitude (decimal n) ≡ some n
unfolding decimal
magnitude_of_decimal n =
    magnitude_of_digits (decimal n) (decimal-digits n) (is_empty-decimal n)
    ∙ parse_digits-decimal_fuel n n (omega arith)

pub parse_i64-decimal :
    (n : ℕ)
    → (parse_i64 (decimal n) ≡ (if leb n 9223372036854775807 then some (pos n) else none))
      × (parse_i64 (b'-' ∷ decimal n)
          ≡ (if leb n 9223372036854775808 then some (sub_ℕ 0 n) else none))
unfolding signed_i64 parse_i64
parse_i64-decimal n = (
  unsigned_of_digits (decimal n) (decimal-digits n) (is_empty-decimal n)
      ∙ ap (signed_i64 false) (magnitude_of_decimal n),
  ap (signed_i64 true) (magnitude_of_decimal n),
)
