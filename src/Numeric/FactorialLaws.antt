-- ===== src/Numeric/FactorialLaws.antt =====
-- Laws of 24_factorial.
use sa_plugin_sla.Prelude.{
  leb, if◌then◌else◌, pos, ℕ, zero, suc, ◌+◌, ◌-◌, ◌*◌, ◌≤◌, ◌<◌, ◌≡◌, refl, ap, some, arith,
}
use sa_plugin_sla.Rust.{overflow, done, panic, sub_i32-pos, mul_i32-pos, mul_i32-overflow}
use sa_plugin_sla.Numeric.Recursion.{factorial_fuel, factorial}
use native.Mathlib.Decide.{dec_lt}
use native.Mathlib.Nat.{le_of_eq}

unfoldable pub fact : ℕ → ℕ
fact zero = 1
fact (suc n) = suc n * fact n

fact-le-suc : (n : ℕ) → fact n ≤ fact (suc n)
unfolding fact
fact-le-suc n = grind arith

fact_mono : (k n : ℕ) → fact n ≤ fact (k + n)
fact_mono zero n = le_of_eq (ap fact (omega arith))
fact_mono (suc k) n =
    let e : suc k + n ≡ suc (k + n) = omega arith in
    rw e (omega (arith, fact_mono k n, fact-le-suc (k + n)))

fact-le-12 : (n : ℕ) → n ≤ 12 → fact n ≤ 479001600
unfolding fact
fact-le-12 n h = let e : 12 - n + n ≡ 12 = omega arith in (rw e at (fact_mono (12 - n) n))

factorial_fuel-small :
    (fuel n : ℕ) → n < fuel → n ≤ 12 → factorial_fuel fuel (pos n) ≡ some (done (pos (fact n)))
unfolding factorial_fuel fact
factorial_fuel-small zero n h k = elim h [ ]
factorial_fuel-small (suc fuel) zero h k = refl
factorial_fuel-small (suc fuel) (suc zero) h k = refl
factorial_fuel-small (suc fuel) (suc (suc n)) h k = ground (
  arith,
  sub_i32-pos (suc (suc n)) 1,
  factorial_fuel-small fuel (suc n),
  mul_i32-pos (suc (suc n)) (fact (suc n)),
  fact-le-12 (suc (suc n)),
)

factorial_fuel-large :
    (fuel n : ℕ)
    → n < fuel
    → 12 < n
    → n ≤ 2147483647
    → factorial_fuel fuel (pos n) ≡ some (panic overflow)
unfolding factorial_fuel fact
factorial_fuel-large zero n h k l = elim h [ ]
factorial_fuel-large (suc fuel) zero h k l = absurd (omega arith)
factorial_fuel-large (suc fuel) (suc n) h k l = elim (dec_lt 12 n) [
  | yes p ↦ ground (arith, sub_i32-pos (suc n) 1, factorial_fuel-large fuel n)
  | no p ↦
      let e : n ≡ 12 = omega arith in
      rw e (
        ground
          (arith, sub_i32-pos 13 1, factorial_fuel-small fuel 12, mul_i32-overflow 13 (fact 12)))
]

-- `factorial` returns n! for n up to 12, and panics with an overflow for every larger `i32`. The fuel
-- never runs out.
pub factorial-eq-fact :
    (n : ℕ)
    → n ≤ 2147483647
    → factorial (pos n) ≡ some (if leb n 12 then done (pos (fact n)) else panic overflow)
unfolding factorial
factorial-eq-fact n h =
    ground (arith, factorial_fuel-small (suc n) n, factorial_fuel-large (suc n) n)
