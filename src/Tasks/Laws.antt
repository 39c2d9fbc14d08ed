-- ===== src/Tasks/Laws.antt =====
-- Laws of the executors and of 09_async_await.
use sa_plugin_sla.Prelude.{
  leb, if◌then◌else◌, Bool-cases, replicate, ℤ, pos, ◌+ℤ◌, int_laws, ℕ, zero, suc, ◌<◌, ◌≡◌, refl,
  ◌↔◌, inl, inr, ◌&&◌, some, List, [], ◌∷◌, ◌++◌, arith,
}
use sa_plugin_sla.Rust.{
  explicit, done, panic, exit_ok, int_line, checked, add_i32, sum_from, sum_i32, total, Fits,
  sum_i32-done_iff,
}
use sa_plugin_sla.Tasks.Future.{
  Poll, ready, pending, Future, block_on, select_biased, drain_queue, executor_total,
}
use sa_plugin_sla.Tasks.Clock.{Readings, async_await_main}
use mathlib.Core.Path.{fun_ext}
use mathlib.Core.List.{reverse, reverse-append}

-- The future that is pending at its first polls and then ready.
pub data ReadyAfter {A : Type 0} (f : Future A) (a : A) : ℕ → f.State → Type 0 where
  now : {s : f.State} → (f.poll s).0 ≡ ready a → ReadyAfter f a 0 s
  later :
      {n : ℕ} {s : f.State}
      → (f.poll s).0 ≡ pending
      → ReadyAfter f a n (f.poll s).1
      → ReadyAfter f a (suc n) s

-- `block_on` returns the value of a future that is ready after some polls, for every amount of fuel
-- above that number of polls.
pub block_on-ReadyAfter :
    {A : Type 0} (f : Future A) (a : A) (n fuel : ℕ) {s : f.State}
    → n < fuel
    → ReadyAfter f a n s
    → block_on f fuel s ≡ some a
unfolding block_on
block_on-ReadyAfter f a n zero h r = absurd (omega arith)
block_on-ReadyAfter f a n (suc fuel) h (now e) = rw (e, block_on)
block_on-ReadyAfter f a n (suc fuel) h (later e r) =
    rw (e, block_on) (block_on-ReadyAfter f a _ fuel (omega arith) r)

-- With at least one poll the program prints 2 exactly if the clock did not go backwards and at least
-- one millisecond has passed; otherwise an assertion fails.
pub async_await_main-prints :
    (fuel : ℕ) (r : Readings)
    → async_await_main (suc fuel) r
      ≡ some (
          if leb r.unix_before r.unix_after && leb 1 r.elapsed
          then exit_ok (int_line (pos 2) ∷ [])
          else record { stdout = []; status = panic explicit })
unfolding async_await_main add_i32 checked ◌+ℤ◌
async_await_main-prints fuel r = elim (Bool-cases (leb r.unix_before r.unix_after)) [
  | inr e ↦ rw e
  | inl e ↦ elim (Bool-cases (leb 1 r.elapsed)) [ inl e' ↦ rw (e, e') | inr e' ↦ rw (e, e') ]
]

-- `select!` returns the value of the first branch that is ready.
pub select_biased-first :
    {A : Type 0} (n : ℕ) (a : A) (rest : List (Poll A))
    → select_biased (replicate n pending ++ ready a ∷ rest) ≡ some a
unfolding select_biased
select_biased-first zero a rest = refl
select_biased-first (suc n) a rest = select_biased-first n a rest

drain_queue-eq : (acc : ℤ) (xs : List ℤ) → drain_queue acc xs ≡ sum_from acc xs
unfolding drain_queue sum_from
drain_queue-eq acc [] = refl
drain_queue-eq acc (x ∷ xs) = rw (fun_ext (λ (a : ℤ). drain_queue-eq a xs))

total-append : (xs ys : List ℤ) → total (xs ++ ys) ≡ total xs +ℤ total ys
total-append [] ys = omega int_laws
total-append (x ∷ xs) ys = rw (total-append xs ys) (omega int_laws)

total-reverse : (xs : List ℤ) → total (reverse xs) ≡ total xs
total-reverse [] = refl
total-reverse (x ∷ xs) =
    rw (reverse-append (x ∷ []) xs)
      (rw (total-append (reverse xs) (x ∷ []), total-reverse xs) (omega int_laws))

-- The executor awaits the last task first. It returns a total exactly if no partial sum in that order
-- overflows, and then the total is the sum of the results of all tasks.
pub executor_total-done_iff :
    (queue : List ℤ) (s : ℤ)
    → (executor_total queue ≡ done s) ↔ (Fits (pos 0) (reverse queue) × (s ≡ total queue))
unfolding executor_total
executor_total-done_iff queue s =
    rw (drain_queue-eq (pos 0) (reverse queue), ← total-reverse queue)
      (unfold sum_i32 in sum_i32-done_iff s (reverse queue))
