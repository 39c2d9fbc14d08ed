-- ===== src/Prelude/Bits.antt =====
-- Facts about `bit_and` and `bit_or` at variables, from their digits.
use Prim.Native.Nat.{
  bitwise, ℕ, zero, suc, ◌+◌, ◌*◌, ◌/◌, ◌%◌, ◌^◌, ◌≤◌, ◌<◌, min, max, bit_and, bit_or, digits,
  bit_and-bitwise, bit_or-bitwise,
}
use mathlib.Core.Path.{◌≡◌, refl, ap, sym, ◌∙◌}
use mathlib.Core.Bool.{Bool, true, false}
use native.Mathlib.Decide.{dec_lt}
use sa_plugin_sla.Prelude.Bools.{if◌then◌else◌}
use native.Mathlib.Nat.{pow-suc}
use native.Mathlib.Omega.{arith}

-- A test that holds below a bound, found out by running it there.
unfoldable pub holds_below : (ℕ → Bool) → ℕ → Bool
holds_below test zero = true
holds_below test (suc bound) = if test bound then holds_below test bound else false

pub holds_below-at :
    (test : ℕ → Bool) (bound i : ℕ) → i < bound → holds_below test bound ≡ true → test i ≡ true
unfolding holds_below
holds_below-at test zero i l h = absurd (omega arith)
holds_below-at test (suc bound) i l h = ground (arith, holds_below-at test bound i)

-- `digits` has a fuel; from the first operand on, more of it makes no difference.
module _ (rest : ℕ → ℕ) (join : ℕ → ℕ → ℕ) where
  digits-grow : (n a b : ℕ) → a ≤ n → digits rest join (suc n) a b ≡ digits rest join n a b
  digits-grow zero zero b h = refl
  digits-grow zero (suc a) b h = absurd (omega arith)
  digits-grow (suc n) zero b h = refl
  digits-grow (suc n) (suc a) b h =
      ap (λ r. r * 2 + join (suc a % 2) (b % 2)) (digits-grow n (suc a / 2) (b / 2) (omega arith))

  digits-enough : (n a b : ℕ) → a ≤ n → digits rest join n a b ≡ digits rest join a a b
  digits-enough zero zero b h = refl
  digits-enough zero (suc a) b h = absurd (omega arith)
  digits-enough (suc n) a b h = elim (dec_lt n a) [
    | yes l ↦ let e : suc n ≡ a = omega arith in ap (λ m. digits rest join m a b) e
    | no l ↦ digits-grow n a b (omega arith) ∙ digits-enough n a b (omega arith)
  ]

  lowest_digit :
      (a b : ℕ)
      → bitwise rest join (suc a) b
        ≡ bitwise rest join (suc a / 2) (b / 2) * 2 + join (suc a % 2) (b % 2)
  lowest_digit a b =
      ap (λ r. r * 2 + join (suc a % 2) (b % 2)) (digits-enough a (suc a / 2) (b / 2) (omega arith))

zero-bit_or : (b : ℕ) → bit_or 0 b ≡ b
zero-bit_or b = bit_or-bitwise 0 b

bit_and_lowest : (a b : ℕ) → bit_and a b ≡ bit_and (a / 2) (b / 2) * 2 + min (a % 2) (b % 2)
bit_and_lowest zero b = omega (arith, bit_and-bitwise 0 b, bit_and-bitwise 0 (b / 2))
bit_and_lowest (suc a) b =
    bit_and-bitwise (suc a) b
    ∙ lowest_digit (λ b. 0) min a b
    ∙ ap (λ r. r * 2 + min (suc a % 2) (b % 2)) (sym (bit_and-bitwise (suc a / 2) (b / 2)))

bit_or_lowest : (a b : ℕ) → bit_or a b ≡ bit_or (a / 2) (b / 2) * 2 + max (a % 2) (b % 2)
bit_or_lowest zero b = omega (arith, zero-bit_or b, zero-bit_or (b / 2))
bit_or_lowest (suc a) b =
    bit_or-bitwise (suc a) b
    ∙ lowest_digit (λ b. b) max a b
    ∙ ap (λ r. r * 2 + max (suc a % 2) (b % 2)) (sym (bit_or-bitwise (suc a / 2) (b / 2)))

-- Nothing is left of `a` under an empty mask; `n` bounds the recursion.
bit_and-empty : (n a : ℕ) → a ≤ n → bit_and a 0 ≡ 0
bit_and-empty zero a h = let e : a ≡ 0 = omega arith in rw (e, bit_and-bitwise 0 0)
bit_and-empty (suc n) a h = elim (dec_lt 0 a) [
  | no l ↦ let e : a ≡ 0 = omega arith in rw (e, bit_and-bitwise 0 0)
  | yes l ↦ omega (arith, bit_and_lowest a 0, bit_and-empty n (a / 2) (omega arith))
]

bit_and-one : (a : ℕ) → bit_and a 1 ≡ a % 2
bit_and-one a = omega (arith, bit_and_lowest a 1, bit_and-empty (a / 2) (a / 2) (omega arith))

-- The mask of seven ones.
pub bit_and-0x7f : (a : ℕ) → bit_and a 0x7f ≡ a % 128
bit_and-0x7f a = omega (
  arith,
  bit_and_lowest a 127,
  bit_and_lowest (a / 2) 63,
  bit_and_lowest (a / 2 / 2) 31,
  bit_and_lowest (a / 2 / 2 / 2) 15,
  bit_and_lowest (a / 2 / 2 / 2 / 2) 7,
  bit_and_lowest (a / 2 / 2 / 2 / 2 / 2) 3,
  bit_and-one (a / 2 / 2 / 2 / 2 / 2 / 2),
)

bit_or-even : (a x : ℕ) → bit_or a (x * 2) ≡ bit_or (a / 2) x * 2 + a % 2
bit_or-even a x =
    let e : x * 2 / 2 ≡ x = omega arith in rw (bit_or_lowest a (x * 2), e) (omega arith)

-- Where the digits do not overlap, `|` adds.
pub bit_or-disjoint : (k a b : ℕ) → a < 2 ^ k → bit_or a (b * 2 ^ k) ≡ a + b * 2 ^ k
bit_or-disjoint zero a b h =
    let e : a ≡ 0 = omega arith in rw (e, zero-bit_or (b * 2 ^ 0)) (omega arith)
bit_or-disjoint (suc k) a b h =
    let e : b * 2 ^ suc k ≡ b * 2 ^ k * 2 = omega (arith, ap (λ (t : ℕ). b * t) (pow-suc 2 k)) in
    rw (e, bit_or-even a (b * 2 ^ k), bit_or-disjoint k (a / 2) b (omega (arith, pow-suc 2 k)))
      (omega arith)
