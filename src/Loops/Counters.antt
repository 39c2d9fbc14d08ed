-- ===== src/Loops/Counters.antt =====
-- The loops, as functions of their variables.
use sa_plugin_sla.Prelude.{
  if◌then◌else◌, ℤ, pos, ltb_ℤ, leb_ℤ, eqb_ℤ, ℕ, zero, suc, true, false, ◌&&◌, Option, none, some,
  List, [], ◌∷◌,
}
use sa_plugin_sla.Rust.{
  Outcome, done, panic, ◌>>=◌, Exit, print, int_line, add_i32, mul_i32, rem_i32, total,
}

-- 21_while_loop
unfoldable pub while_loop : ℕ → ℤ → ℤ → Option (Outcome ℤ)
while_loop zero i sum = none
while_loop (suc fuel) i sum =
    if leb_ℤ i (pos 5)
    then elim (add_i32 sum i) [
      | panic e ↦ some (panic e)
      | done sum' ↦ elim (add_i32 i (pos 1)) [
        | panic e ↦ some (panic e)
        | done i' ↦ while_loop fuel i' sum'
      ]
    ]
    else some (done sum)

unfoldable pub print_fuel : Option (Outcome ℤ) → Option Exit
print_fuel none = none
print_fuel (some o) = some (print int_line o)

unfoldable pub while_loop_main : ℕ → Option Exit
unfolding while_loop print_fuel
while_loop_main fuel = print_fuel (while_loop fuel (pos 1) (pos 0))

-- 22_break_continue: an even counter goes on with the next round, and one above 5 ends the loop.
unfoldable pub break_continue : ℕ → ℤ → ℤ → Option (Outcome ℤ)
break_continue zero i sum = none
break_continue (suc fuel) i sum = elim (add_i32 i (pos 1)) [
  | panic e ↦ some (panic e)
  | done i' ↦ elim (rem_i32 i' (pos 2)) [
    | panic e ↦ some (panic e)
    | done parity ↦ elim (eqb_ℤ parity (pos 0)) [
      | true ↦ break_continue fuel i' sum
      | false ↦ elim (ltb_ℤ (pos 5) i') [
        | true ↦ some (done sum)
        | false ↦ elim (add_i32 sum i') [
          | panic e ↦ some (panic e)
          | done sum' ↦ break_continue fuel i' sum'
        ]
      ]
    ]
  ]
]

unfoldable pub break_continue_main : ℕ → Option Exit
unfolding break_continue print_fuel
break_continue_main fuel = print_fuel (break_continue fuel (pos 0) (pos 0))

-- 23_nested_loops: `for y in 1..=2 { for x in 1..=3 { sum += x * y; } }`
unfoldable pub row : ℤ → List ℤ → ℤ → Outcome ℤ
row y [] sum = done sum
row y (x ∷ xs) sum = do product ← mul_i32 x y; sum' ← add_i32 sum product; row y xs sum'

unfoldable pub rows : List ℤ → List ℤ → ℤ → Outcome ℤ
unfolding row
rows [] xs sum = done sum
rows (y ∷ ys) xs sum = row y xs sum >>= λ sum'. rows ys xs sum'

unfoldable pub nested_loops_main : Exit
unfolding rows
nested_loops_main = print int_line (rows (pos 1 ∷ pos 2 ∷ []) (pos 1 ∷ pos 2 ∷ pos 3 ∷ []) (pos 0))

-- 103_labeled_break: the inner loop ends by a `break` of its own, or by one of the outer loop.
pub data Broke : Type 0 where
  inner : ℤ → Broke
  outer : ℤ → Broke

unfoldable pub inner_loop : ℕ → ℤ → ℤ → ℤ → Option (Outcome Broke)
inner_loop zero o i total = none
inner_loop (suc fuel) o i total = elim (add_i32 i (pos 1)) [
  | panic e ↦ some (panic e)
  | done i' ↦ elim (eqb_ℤ o (pos 2) && eqb_ℤ i' (pos 2)) [
    | true ↦ some (done (outer total))
    | false ↦ elim (add_i32 o i' >>= λ step. add_i32 total step) [
      | panic e ↦ some (panic e)
      | done total' ↦ elim (leb_ℤ (pos 3) i') [
        | true ↦ some (done (inner total'))
        | false ↦ inner_loop fuel o i' total'
      ]
    ]
  ]
]

unfoldable pub outer_loop : ℕ → ℤ → ℤ → Option (Outcome ℤ)
outer_loop zero o total = none
outer_loop (suc fuel) o total = elim (add_i32 o (pos 1)) [
  | panic e ↦ some (panic e)
  | done o' ↦ elim (inner_loop 3 o' (pos 0) total) [
    | none ↦ none
    | some (panic e) ↦ some (panic e)
    | some (done (outer total')) ↦ some (done total')
    | some (done (inner total')) ↦ elim (leb_ℤ (pos 3) o') [
      | true ↦ some (done total')
      | false ↦ outer_loop fuel o' total'
    ]
  ]
]

unfoldable pub labeled_break_main : ℕ → Option Exit
unfolding outer_loop inner_loop print_fuel
labeled_break_main fuel = print_fuel (outer_loop fuel (pos 0) (pos 0))

-- 197_profile_guided_opt
unfoldable pub hot : ℤ
hot = pos 3

unfoldable pub cold : ℤ
cold = pos 1

unfoldable pub repeat_add : ℕ → ℤ → ℤ → Outcome ℤ
repeat_add zero step total = done total
repeat_add (suc n) step total = add_i32 total step >>= λ total'. repeat_add n step total'

unfoldable pub profile_main : Exit
unfolding hot cold repeat_add
profile_main = print int_line (do total ← repeat_add 3 hot (pos 0); add_i32 total cold)
