-- ===== src/Loops/Laws.antt =====
-- Laws of 21_while_loop, 22_break_continue and 103_labeled_break.
use sa_plugin_sla.Prelude.{
  pos, ℕ, zero, suc, ◌+◌, ◌-◌, ◌*◌, ◌%◌, ◌≤◌, ◌<◌, ◌≡◌, ap, ◌∙◌, ◌≢◌, some, arith,
}
use sa_plugin_sla.Rust.{done, total, add_i32-pos, rem_i32-pos}
use sa_plugin_sla.Loops.Counters.{while_loop, break_continue, inner, outer, inner_loop, outer_loop}

-- From any counter up to 6, and with fuel for the rounds left, the loop ends and adds the numbers from
-- the counter to 5, if the sum leaves room for them.
pub while_loop-sum :
    (rounds i sum fuel : ℕ)
    → i + rounds ≡ 6
    → rounds < fuel
    → sum + rounds * 6 ≤ 2147483647
    → (n : ℕ) × (while_loop fuel (pos i) (pos sum) ≡ some (done (pos n)))
      × (2 * n ≡ 2 * sum + rounds * (i + 5))
unfolding while_loop
while_loop-sum rounds i sum zero e h k = absurd (omega arith)
while_loop-sum zero i sum (suc fuel) e h k = (sum, ground arith, omega arith)
while_loop-sum (suc rounds) i sum (suc fuel) e h k =
    let (n, rest, eq) =
      while_loop-sum rounds (i + 1) (sum + i) fuel (omega arith) (omega arith) (omega arith) in
    (n, ground (arith, add_i32-pos sum i, add_i32-pos i 1, rest), omega (arith, eq))

module _ (fuel i sum : ℕ) where
  odd_round :
      i % 2 ≡ 0
      → i < 5
      → sum + i + 1 ≤ 2147483647
      → break_continue (suc fuel) (pos i) (pos sum)
        ≡ break_continue fuel (pos (i + 1)) (pos (sum + (i + 1)))
  unfolding break_continue
  odd_round e l h = ground (arith, add_i32-pos i 1, rem_i32-pos (i + 1) 2, add_i32-pos sum (i + 1))

  even_round :
      i % 2 ≡ 1
      → i < 1000
      → break_continue (suc fuel) (pos i) (pos sum) ≡ break_continue fuel (pos (i + 1)) (pos sum)
  unfolding break_continue
  even_round e l = ground (arith, add_i32-pos i 1, rem_i32-pos (i + 1) 2)

  last_round :
      i % 2 ≡ 0
      → 5 ≤ i
      → i < 1000
      → break_continue (suc fuel) (pos i) (pos sum) ≡ some (done (pos sum))
  unfolding break_continue
  last_round e l m = ground (arith, add_i32-pos i 1, rem_i32-pos (i + 1) 2)

seven_rounds :
    (fuel sum : ℕ)
    → sum ≤ 2147483638
    → break_continue (suc (suc (suc (suc (suc (suc (suc fuel))))))) (pos 0) (pos sum)
      ≡ some (done (pos (sum + 9)))
seven_rounds fuel sum h =
    odd_round _ 0 sum (omega arith) (omega arith) (omega arith)
    ∙ even_round _ 1 (sum + 1) (omega arith) (omega arith)
    ∙ odd_round _ 2 (sum + 1) (omega arith) (omega arith) (omega arith)
    ∙ even_round _ 3 (sum + 1 + 3) (omega arith) (omega arith)
    ∙ odd_round _ 4 (sum + 1 + 3) (omega arith) (omega arith) (omega arith)
    ∙ even_round _ 5 (sum + 1 + 3 + 5) (omega arith) (omega arith)
    ∙ last_round _ 6 (sum + 1 + 3 + 5) (omega arith) (omega arith) (omega arith)
    ∙ ap (λ (n : ℕ). some (done (pos n))) (omega arith)

-- With any fuel above 6 the loop with `continue` and `break` adds the odd numbers up to 5 to any sum
-- that leaves room for them.
pub break_continue-sum :
    (fuel sum : ℕ)
    → 6 < fuel
    → sum ≤ 2147483638
    → break_continue fuel (pos 0) (pos sum) ≡ some (done (pos (sum + 9)))
break_continue-sum fuel sum l h =
    let e : fuel ≡ suc (suc (suc (suc (suc (suc (suc (fuel - 7))))))) = omega arith in
    rw e (seven_rounds (fuel - 7) sum h)

module _ (fuel o i total : ℕ) where
  inner_more :
      o < 1000
      → i < 2
      → o ≢ 2
      → total + o + i + 1 ≤ 2147483647
      → inner_loop (suc fuel) (pos o) (pos i) (pos total)
        ≡ inner_loop fuel (pos o) (pos (i + 1)) (pos (total + (o + (i + 1))))
  unfolding inner_loop
  inner_more a b c h =
      ground (arith, add_i32-pos i 1, add_i32-pos o (i + 1), add_i32-pos total (o + (i + 1)))

  inner_ends :
      o < 1000
      → i ≡ 2
      → o ≢ 2
      → total + o + 3 ≤ 2147483647
      → inner_loop (suc fuel) (pos o) (pos i) (pos total)
        ≡ some (done (inner (pos (total + (o + (i + 1))))))
  unfolding inner_loop
  inner_ends a b c h =
      ground (arith, add_i32-pos i 1, add_i32-pos o (i + 1), add_i32-pos total (o + (i + 1)))

-- The first round of the outer loop adds 9, and the second adds 3 before the labelled break.
first_inner :
    (total : ℕ)
    → total + 9 ≤ 2147483647
    → inner_loop 3 (pos 1) (pos 0) (pos total) ≡ some (done (inner (pos (total + 9))))
first_inner total h =
    inner_more 2 1 0 total (omega arith) (omega arith) (omega arith) (omega arith)
    ∙ inner_more 1 1 1 (total + 2) (omega arith) (omega arith) (omega arith) (omega arith)
    ∙ inner_ends 0 1 2 (total + 2 + 3) (omega arith) (omega arith) (omega arith) (omega arith)
    ∙ ap (λ (n : ℕ). some (done (inner (pos n)))) (omega arith)

second_inner :
    (total : ℕ)
    → total + 3 ≤ 2147483647
    → inner_loop 3 (pos 2) (pos 0) (pos total) ≡ some (done (outer (pos (total + 3))))
unfolding inner_loop
second_inner total h =
    ground (arith, add_i32-pos 0 1, add_i32-pos 1 1, add_i32-pos 2 1, add_i32-pos total 3)

-- With any fuel above 1 the labelled break ends both loops in the second round of the outer one, and
-- 12 has been added to any total that leaves room for it.
pub outer_loop-total :
    (fuel total : ℕ)
    → 1 < fuel
    → total ≤ 2147483635
    → outer_loop fuel (pos 0) (pos total) ≡ some (done (pos (total + 12)))
unfolding outer_loop
outer_loop-total zero total l h = absurd (omega arith)
outer_loop-total (suc zero) total l h = absurd (omega arith)
outer_loop-total (suc (suc fuel)) total l h =
    ground (arith, add_i32-pos 0 1, add_i32-pos 1 1, first_inner total, second_inner (total + 9))
