-- ===== src/Collections/Queues.antt =====
-- A `VecDeque` is the list of its elements, the front first. An array is a list too.
use sa_plugin_sla.Prelude.{
  leb, if◌then◌else◌, length, get_elem?, ℤ, pos, ℕ, zero, suc, ◌+◌, Option, none, some, List, [],
  ◌∷◌, ◌++◌, map,
}
use sa_plugin_sla.Rust.{
  out_of_bounds, explicit, Outcome, done, panic, ◌>>=◌, unwrap, lit, int, nat, Line, Exit, exit_ok,
  print, int_line, add_i32,
}

unfoldable pub drop : ℕ → List ℤ → List ℤ
drop zero xs = xs
drop (suc n) [] = []
drop (suc n) (x ∷ xs) = drop n xs

unfoldable pub take : ℕ → List ℤ → List ℤ
take zero xs = []
take (suc n) [] = []
take (suc n) (x ∷ xs) = x ∷ take n xs

-- 52_queue_rotate: `rotate_left` panics if the count exceeds the length.
unfoldable pub rotate_left : ℕ → List ℤ → Outcome (List ℤ)
unfolding drop take
rotate_left n queue =
    if leb n (length queue) then done (drop n queue ++ take n queue) else panic explicit

-- `queue[i]`
unfoldable pub index : List ℤ → ℕ → Outcome ℤ
index xs i = elim (get_elem? xs i) [ none ↦ panic out_of_bounds | some x ↦ done x ]

unfoldable pub queue_rotate_main : Exit
unfolding rotate_left index
queue_rotate_main =
    print (λ l. l)
      (do
        queue ← rotate_left 1 (pos 1 ∷ pos 2 ∷ pos 3 ∷ [])
        a ← index queue 0
        b ← index queue 1
        c ← index queue 2
        done (int a ∷ lit "," ∷ int b ∷ lit "," ∷ int c ∷ []))

-- 89_job_queue
pub record Job : Type 0 where
  pub id : ℤ
  pub cost : ℤ

unfoldable pub push_back : Job → List Job → List Job
push_back job queue = queue ++ job ∷ []

unfoldable pub pop_front : List Job → Option (Job × List Job)
pop_front [] = none
pop_front (job ∷ queue) = some (job, queue)

unfoldable pub job_queue_main : Exit
unfolding push_back pop_front
job_queue_main =
    let queue =
      push_back (record { id = pos 9; cost = pos 5 })
        (push_back (record { id = pos 7; cost = pos 3 }) []) in
    print int_line (do first ← unwrap (pop_front queue); add_i32 first.0.id first.0.cost)

-- 04_loop: a write out of bounds panics; the loop writes at 0 to 3.
unfoldable pub set_elem : List ℕ → ℕ → ℕ → Outcome (List ℕ)
set_elem [] i v = panic out_of_bounds
set_elem (x ∷ xs) zero v = done (v ∷ xs)
set_elem (x ∷ xs) (suc i) v = set_elem xs i v >>= λ ys. done (x ∷ ys)

unfoldable pub fill_zero_from : ℕ → ℕ → List ℕ → Outcome (List ℕ)
unfolding set_elem
fill_zero_from zero i arr = done arr
fill_zero_from (suc rounds) i arr = set_elem arr i 0 >>= λ arr'. fill_zero_from rounds (i + 1) arr'

unfoldable pub fill_zero : List ℕ → Outcome (List ℕ)
unfolding fill_zero_from
fill_zero arr = fill_zero_from 4 0 arr

abbrev bytes_line : List ℕ → Line
bytes_line [] = []
bytes_line (x ∷ []) = nat x ∷ []
bytes_line (x ∷ y ∷ xs) = nat x ∷ lit "," ∷ bytes_line (y ∷ xs)

unfoldable pub loop_main : Exit
unfolding fill_zero
loop_main =
    print (λ buffer. lit "[" ∷ bytes_line buffer ++ lit "]" ∷ []) (fill_zero (1 ∷ 2 ∷ 3 ∷ 4 ∷ []))

-- 54_mem_fill: `fill` writes the value to every element.
unfoldable pub fill : ℕ → List ℕ → List ℕ
fill v xs = map (λ x. v) xs

unfoldable pub mem_fill_main : Exit
unfolding fill
mem_fill_main = exit_ok (bytes_line (fill 7 (0 ∷ 0 ∷ 0 ∷ 0 ∷ [])) ∷ [])
