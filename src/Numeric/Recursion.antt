-- ===== src/Numeric/Recursion.antt =====
-- The recursive functions of demos/rosetta 24_factorial and 25_fibonacci. A call has fuel for its
-- depth, and `none` means that the fuel ran out.
use mathlib.Core.Option
use sa_plugin_sla.Prelude.{ℤ, pos, pos_part, leb_ℤ, ℕ, zero, suc, true, false, Option, none, some}
use sa_plugin_sla.Rust.{
  Outcome, done, panic, ◌>>=◌, Exit, print, int_line, add_i32, sub_i32, mul_i32,
}

-- `n * factorial(n - 1)`: the argument is computed first, then the call, then the product.
unfoldable pub factorial_fuel : ℕ → ℤ → Option (Outcome ℤ)
factorial_fuel zero n = none
factorial_fuel (suc fuel) n = elim (leb_ℤ n (pos 1)) [
  | true ↦ some (done (pos 1))
  | false ↦ elim (sub_i32 n (pos 1)) [
    | panic e ↦ some (panic e)
    | done m ↦ Option.map (λ (r : Outcome ℤ). r >>= λ v. mul_i32 n v) (factorial_fuel fuel m)
  ]
]

-- The fuel of a call for `n`.
unfoldable pub fuel_for : ℤ → ℕ
fuel_for n = suc (pos_part n)

unfoldable pub factorial : ℤ → Option (Outcome ℤ)
unfolding factorial_fuel fuel_for
factorial n = factorial_fuel (fuel_for n) n

unfoldable pub fib_fuel : ℕ → ℤ → Option (Outcome ℤ)
fib_fuel zero n = none
fib_fuel (suc fuel) n = elim (leb_ℤ n (pos 1)) [
  | true ↦ some (done n)
  | false ↦ elim (sub_i32 n (pos 1)) [
    | panic e ↦ some (panic e)
    | done m ↦ elim (fib_fuel fuel m) [
      | none ↦ none
      | some (panic e) ↦ some (panic e)
      | some (done left) ↦ elim (sub_i32 n (pos 2)) [
        | panic e ↦ some (panic e)
        | done k ↦
            Option.map (λ (r : Outcome ℤ). r >>= λ right. add_i32 left right) (fib_fuel fuel k)
      ]
    ]
  ]
]

unfoldable pub fib : ℤ → Option (Outcome ℤ)
unfolding fib_fuel fuel_for
fib n = fib_fuel (fuel_for n) n

abbrev print_fuel : Option (Outcome ℤ) → Option Exit
print_fuel r = Option.map (λ (o : Outcome ℤ). print int_line o) r

unfoldable pub factorial_main : Option Exit
unfolding factorial
factorial_main = print_fuel (factorial (pos 5))

unfoldable pub fibonacci_main : Option Exit
unfolding fib
fibonacci_main = print_fuel (fib (pos 8))
