-- ===== src/Collections/QueueLaws.antt =====
-- Laws of 52_queue_rotate, 89_job_queue and 04_loop.
use mathlib.Core.List.{append_assoc, append-nil}
use sa_plugin_sla.Prelude.{
  leb, length, length-append, ℤ, ℕ, zero, suc, ◌-◌, ◌≤◌, ◌<◌, ◌≡◌, refl, sym, ap, ◌∙◌, true, some,
  List, [], ◌∷◌, ◌++◌, arith,
}
use sa_plugin_sla.Rust.{out_of_bounds, done, panic, ◌>>=◌}
use sa_plugin_sla.Collections.Queues.{drop, take, rotate_left, Job, push_back, pop_front, fill_zero}

drop-append : (xs ys : List ℤ) → drop (length xs) (xs ++ ys) ≡ ys
unfolding drop
drop-append [] ys = refl
drop-append (x ∷ xs) ys = drop-append xs ys

take-append : (xs ys : List ℤ) → take (length xs) (xs ++ ys) ≡ xs
unfolding take
take-append [] ys = refl
take-append (x ∷ xs) ys = ap (λ r. x ∷ r) (take-append xs ys)

take-append-drop : (n : ℕ) (xs : List ℤ) → take n xs ++ drop n xs ≡ xs
unfolding take drop
take-append-drop zero xs = refl
take-append-drop (suc n) [] = refl
take-append-drop (suc n) (x ∷ xs) = ap (λ r. x ∷ r) (take-append-drop n xs)

length-drop : (n : ℕ) (xs : List ℤ) → length (drop n xs) ≡ length xs - n
unfolding drop
length-drop zero xs = omega arith
length-drop (suc n) [] = omega arith
length-drop (suc n) (x ∷ xs) = omega (arith, length-drop n xs)

-- A rotation by at most the length succeeds, and a second one by the rest of the length restores the
-- queue.
pub rotate_left-rest :
    (n : ℕ) (queue : List ℤ)
    → n ≤ length queue
    → (rotate_left n queue >>= λ rotated. rotate_left (length queue - n) rotated) ≡ done queue
unfolding rotate_left
rotate_left-rest n queue h =
    let front = take n queue in
    let back = drop n queue in
    let len : length queue - n ≡ length back = sym (length-drop n queue) in
    rw
      (
        fits n (length queue) h,
        len,
        fits (length back) (length (back ++ front)) (omega (arith, length-append back front)),
      )
      (rw (drop-append back front, take-append back front) (ap done (take-append-drop n queue)))
  where
    fits : (a b : ℕ) → a ≤ b → leb a b ≡ true
    fits a b l = ground arith

-- Pushes any number of jobs, one after the other.
abbrev pub push_all : List Job → List Job → List Job
push_all [] queue = queue
push_all (job ∷ jobs) queue = push_all jobs (push_back job queue)

push_all-append : (jobs queue : List Job) → push_all jobs queue ≡ queue ++ jobs
unfolding push_back
push_all-append [] queue = sym (append-nil queue)
push_all-append (job ∷ jobs) queue =
    push_all-append jobs (queue ++ job ∷ []) ∙ append_assoc queue (job ∷ []) jobs

-- Jobs come out of a queue in the order in which they went in: the first that was pushed to an empty
-- queue is the first that is popped, and what remains is as if it had never been pushed.
pub pop_front-push_all :
    (job : Job) (jobs : List Job)
    → pop_front (push_all (job ∷ jobs) []) ≡ some (job, push_all jobs [])
unfolding pop_front
pop_front-push_all job jobs = rw (push_all-append (job ∷ jobs) [], push_all-append jobs [])

-- Zeroing writes exactly the first four bytes: a longer buffer keeps its other bytes.
pub fill_zero-prefix :
    (a b c d : ℕ) (rest : List ℕ) → fill_zero (a ∷ b ∷ c ∷ d ∷ rest) ≡ done (0 ∷ 0 ∷ 0 ∷ 0 ∷ rest)
unfolding fill_zero
fill_zero-prefix a b c d rest = refl

-- A buffer of fewer than four bytes makes the loop panic with an index out of bounds.
pub fill_zero-short : (arr : List ℕ) → length arr < 4 → fill_zero arr ≡ panic out_of_bounds
unfolding fill_zero
fill_zero-short [] h = refl
fill_zero-short (a ∷ []) h = refl
fill_zero-short (a ∷ b ∷ []) h = refl
fill_zero-short (a ∷ b ∷ c ∷ []) h = refl
fill_zero-short (a ∷ b ∷ c ∷ d ∷ rest) h = absurd (omega arith)
