-- ===== src/Companions/Decimal.antt =====
-- The decimal digits of a number, and `str::parse::<u32>` on them.
use sa_plugin_sla.Prelude.{
  leb, ltb, if◌then◌else◌, ℕ, zero, suc, ◌+◌, ◌-◌, ◌*◌, ◌/◌, ◌%◌, ◌≤◌, ◌<◌, ◌≡◌, refl, ◌∙◌, Bool,
  true, false, ◌&&◌, some, [], ◌∷◌, ◌++◌, arith,
}
use sa_plugin_sla.Compiler.Text.{Bytes, is_empty, digit_value}
use sa_plugin_sla.Compiler.TextLaws.{every, every-append, is_empty-append}
use sa_plugin_sla.Companions.Versions.{u32_digits, parse_u32}

-- The digits of a number, the fuel at least the number.
unfoldable pub decimal_fuel : ℕ → ℕ → Bytes
decimal_fuel zero n = (b'0' + n) ∷ []
decimal_fuel (suc fuel) n =
    let front = decimal_fuel fuel (n / 10) in
    if ltb n 10 then (b'0' + n) ∷ [] else front ++ ((b'0' + n % 10) ∷ [])

unfoldable pub decimal : ℕ → Bytes
unfolding decimal_fuel
decimal n = decimal_fuel n n

abbrev pub is_digit : ℕ → Bool
is_digit c = leb b'0' c && leb c b'9'

pub digit_value-digit : (d : ℕ) → d < 10 → digit_value (b'0' + d) ≡ some d
digit_value-digit d h = ground arith

u32_digits-snoc :
    (acc : ℕ) (s : Bytes) (m d : ℕ)
    → u32_digits acc s ≡ some m
    → d < 10
    → m * 10 + d < 4294967296
    → u32_digits acc (s ++ ((b'0' + d) ∷ [])) ≡ some (m * 10 + d)
unfolding u32_digits
u32_digits-snoc acc [] m d h hd hm = ground (arith, digit_value-digit d)
u32_digits-snoc acc (c ∷ s) m d h hd hm =
    ground (arith, u32_digits-snoc (acc * 10 + (c - b'0')) s m d)

decimal_fuel-read :
    (fuel n : ℕ) → n ≤ fuel → n < 4294967296 → u32_digits 0 (decimal_fuel fuel n) ≡ some n
unfolding decimal_fuel u32_digits
decimal_fuel-read zero n h hn = ground arith
decimal_fuel-read (suc fuel) n h hn =
    let front = decimal_fuel-read fuel (n / 10) (omega arith) (omega arith) in
    let joined =
      u32_digits-snoc 0 (decimal_fuel fuel (n / 10)) (n / 10) (n % 10) front (omega arith)
        (omega arith) in
    let whole : n / 10 * 10 + n % 10 ≡ n = omega arith in ground (arith, joined, whole)

decimal_fuel-digits : (fuel n : ℕ) → n ≤ fuel → every is_digit (decimal_fuel fuel n) ≡ true
unfolding decimal_fuel
decimal_fuel-digits zero n h = ground arith
decimal_fuel-digits (suc fuel) n h = ground (
  arith,
  every-append is_digit (decimal_fuel fuel (n / 10)) ((b'0' + n % 10) ∷ [])
      (decimal_fuel-digits fuel (n / 10) (omega arith)) (ground arith),
)

is_empty-decimal_fuel : (fuel n : ℕ) → is_empty (decimal_fuel fuel n) ≡ false
unfolding decimal_fuel
is_empty-decimal_fuel zero n = refl
is_empty-decimal_fuel (suc fuel) n =
    ground (arith, is_empty-append (decimal_fuel fuel (n / 10)) ((b'0' + n % 10) ∷ []) refl)

pub is_empty-decimal : (n : ℕ) → is_empty (decimal n) ≡ false
unfolding decimal
is_empty-decimal n = is_empty-decimal_fuel n n

digits_are_read :
    (s : Bytes) → every is_digit s ≡ true → is_empty s ≡ false → parse_u32 s ≡ u32_digits 0 s
unfolding parse_u32
digits_are_read [] h ne = cc
digits_are_read (c ∷ s) h ne = ground arith

pub decimal-digits : (n : ℕ) → every is_digit (decimal n) ≡ true
unfolding decimal
decimal-digits n = decimal_fuel-digits n n (omega arith)

pub parse_u32-decimal : (n : ℕ) → n < 4294967296 → parse_u32 (decimal n) ≡ some n
unfolding decimal
parse_u32-decimal n h =
    digits_are_read (decimal_fuel n n) (decimal_fuel-digits n n (omega arith))
      (is_empty-decimal_fuel n n)
    ∙ decimal_fuel-read n n (omega arith) h
