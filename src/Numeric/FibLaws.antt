-- ===== src/Numeric/FibLaws.antt =====
-- Laws of 25_fibonacci.
use sa_plugin_sla.Prelude.{
  leb, if◌then◌else◌, pos, ℕ, zero, suc, ◌+◌, ◌-◌, ◌≤◌, ◌<◌, ◌≡◌, refl, ap, some, arith,
}
use sa_plugin_sla.Rust.{overflow, done, panic, sub_i32-pos, add_i32-pos, add_i32-overflow}
use sa_plugin_sla.Numeric.Recursion.{fib_fuel, fib}
use native.Mathlib.Decide.{dec_lt}
use native.Mathlib.Nat.{le_of_eq}

-- Two neighbouring Fibonacci numbers.
unfoldable pub fib_pair : ℕ → ℕ × ℕ
fib_pair zero = (0, 1)
fib_pair (suc n) = let (a, b) = fib_pair n in (b, a + b)

abbrev pub fibonacci : ℕ → ℕ
fibonacci n = (fib_pair n).0

fibonacci-suc-suc : (n : ℕ) → fibonacci (suc (suc n)) ≡ fibonacci n + fibonacci (suc n)
unfolding fib_pair
fibonacci-suc-suc n = refl

fibonacci-le-suc : (n : ℕ) → fibonacci n ≤ fibonacci (suc n)
unfolding fib_pair
fibonacci-le-suc zero = omega arith
fibonacci-le-suc (suc n) = omega arith

fibonacci_mono : (k n : ℕ) → fibonacci n ≤ fibonacci (k + n)
fibonacci_mono zero n = le_of_eq (ap fibonacci (omega arith))
fibonacci_mono (suc k) n =
    let e : suc k + n ≡ suc (k + n) = omega arith in
    rw e (omega (arith, fibonacci_mono k n, fibonacci-le-suc (k + n)))

fibonacci-le-46 : (n : ℕ) → n ≤ 46 → fibonacci n ≤ 1836311903
unfolding fib_pair
fibonacci-le-46 n h = let e : 46 - n + n ≡ 46 = omega arith in (rw e at (fibonacci_mono (46 - n) n))

fib_fuel-small :
    (fuel n : ℕ) → n < fuel → n ≤ 46 → fib_fuel fuel (pos n) ≡ some (done (pos (fibonacci n)))
unfolding fib_fuel
fib_fuel-small zero n h k = elim h [ ]
fib_fuel-small (suc fuel) zero h k = unfold fib_pair in refl
fib_fuel-small (suc fuel) (suc zero) h k = unfold fib_pair in refl
fib_fuel-small (suc fuel) (suc (suc n)) h k = ground (
  arith,
  sub_i32-pos (suc (suc n)) 1,
  sub_i32-pos (suc (suc n)) 2,
  fib_fuel-small fuel (suc n),
  fib_fuel-small fuel n,
  add_i32-pos (fibonacci (suc n)) (fibonacci n),
  fibonacci-suc-suc n,
  fibonacci-le-46 (suc (suc n)),
)

fib_fuel-large :
    (fuel n : ℕ)
    → n < fuel
    → 46 < n
    → n ≤ 2147483647
    → fib_fuel fuel (pos n) ≡ some (panic overflow)
unfolding fib_fuel
fib_fuel-large zero n h k l = elim h [ ]
fib_fuel-large (suc fuel) zero h k l = absurd (omega arith)
fib_fuel-large (suc fuel) (suc n) h k l = elim (dec_lt 46 n) [
  | yes p ↦ ground (arith, sub_i32-pos (suc n) 1, fib_fuel-large fuel n)
  | no p ↦
      let e : n ≡ 46 = omega arith in
      rw e (
        ground (
          arith,
          sub_i32-pos 47 1,
          sub_i32-pos 47 2,
          fib_fuel-small fuel 46,
          fib_fuel-small fuel 45,
          add_i32-overflow (fibonacci 46) (fibonacci 45),
          fibonacci_values,
        ))
]
  where
    fibonacci_values : (fibonacci 46 ≡ 1836311903) × (fibonacci 45 ≡ 1134903170)
    fibonacci_values = unfold fib_pair in (refl, refl)

-- `fib` returns the n-th Fibonacci number for n up to 46, and panics with an overflow for every larger
-- `i32`. The fuel never runs out.
pub fib-eq-fibonacci :
    (n : ℕ)
    → n ≤ 2147483647
    → fib (pos n) ≡ some (if leb n 46 then done (pos (fibonacci n)) else panic overflow)
unfolding fib
fib-eq-fibonacci n h = ground (arith, fib_fuel-small (suc n) n, fib_fuel-large (suc n) n)
