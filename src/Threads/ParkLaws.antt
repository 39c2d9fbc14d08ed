-- ===== src/Threads/ParkLaws.antt =====
-- Laws of 130_park_unpark_thread: an invariant of its states, and what it is good for.
use sa_plugin_sla.Prelude.{
  Option-cases, ℕ, zero, suc, ◌+◌, ◌<◌, ◌≡◌, refl, ap, ◌∙◌, subst, ◌≢◌, ◌↔◌, ◌⊎◌, inl, inr, Bool,
  true, false, Option, none, some, List, [], ◌∷◌, arith,
}
use sa_plugin_sla.Threads.Park.{
  Move, main_thread, worker, spurious, MainPc, receiving, unparking, joining, finished, WorkerPc,
  sending, parking, returned, Parked, step, or_stay, run, start,
}

record Inv (s : Parked) : Type 0 where
  sent_first : (s.sent ≡ true) ↔ (s.worker_pc ≢ sending)
  received : s.main_pc ≢ receiving → s.sent ≡ true
  permit : s.main_pc ≡ joining → s.worker_pc ≡ parking → s.token ≡ true
  joined : s.main_pc ≡ finished → s.worker_pc ≡ returned

start-Inv : Inv start
unfolding start
start-Inv = ground arith

step-Inv : (m : Move) (s : Parked) → Inv s → Inv (or_stay s (step m s))
unfolding step
step-Inv main_thread s h = ground arith
step-Inv worker s h = ground arith
step-Inv spurious s h = ground arith

run-Inv : (moves : List Move) (s : Parked) → Inv s → Inv (run moves s)
unfolding run
run-Inv [] s h = h
run-Inv (m ∷ moves) s h = run-Inv moves (or_stay s (step m s)) (step-Inv m s h)

abbrev pub can_move : Option Parked → Bool
can_move none = false
can_move (some t) = true

progress :
    (s : Parked)
    → Inv s
    → (s.main_pc ≡ finished)
      ⊎ (can_move (step main_thread s) ≡ true)
      ⊎ (can_move (step worker s) ≡ true)
unfolding step
progress s h = ground arith

-- In every state that moves can reach, the main thread has finished, and then the worker has
-- returned, or one of the threads can move without a spurious wakeup.
pub park-progress :
    (moves : List Move)
    → let s = run moves start in
      ((s.main_pc ≡ finished) × (s.worker_pc ≡ returned))
      ⊎ (can_move (step main_thread s) ≡ true)
      ⊎ (can_move (step worker s) ≡ true)
park-progress moves = ground (
  arith,
  progress (run moves start) (run-Inv moves start start-Inv),
  (run-Inv moves start start-Inv).joined,
)

-- How far the threads are from their ends.
abbrev main_left : MainPc → ℕ
main_left receiving = 3
main_left unparking = 2
main_left joining = 1
main_left finished = 0

abbrev worker_left : WorkerPc → ℕ
worker_left sending = 2
worker_left parking = 1
worker_left returned = 0

abbrev left : Parked → ℕ
left s = main_left s.main_pc + worker_left s.worker_pc

step-left-lt : (m : Move) (s u : Parked) → step m s ≡ some u → left u < left s
unfolding step
step-left-lt main_thread s u e = ground arith
step-left-lt worker s u e = ground arith
step-left-lt spurious s u e = ground arith

next :
    (m : Move) (s : Parked)
    → Inv s
    → can_move (step m s) ≡ true
    → (u : Parked) × (step m s ≡ some u) × Inv u × (left u < left s)
next m s h c = elim (Option-cases (step m s)) [
  | inl e ↦ let c' = rw e at c in cc
  | inr (u, e) ↦ (u, e, subst (λ o. Inv (or_stay s o)) e (step-Inv m s h), step-left-lt m s u e)
]

run-step :
    (m : Move) (moves : List Move) (s u : Parked)
    → step m s ≡ some u
    → run (m ∷ moves) s ≡ run moves u
unfolding run
run-step m moves s u e = ap (λ o. run moves (or_stay s o)) e

-- Moves of the two threads alone: no wakeup that nobody has asked for.
abbrev pub all_threads : List Move → Bool
all_threads [] = true
all_threads (main_thread ∷ moves) = all_threads moves
all_threads (worker ∷ moves) = all_threads moves
all_threads (spurious ∷ moves) = false

finishes :
    (n : ℕ) (s : Parked)
    → Inv s
    → left s < n
    → (moves : List Move) × (all_threads moves ≡ true) × ((run moves s).main_pc ≡ finished)
unfolding run
finishes zero s h l = absurd (omega arith)
finishes (suc n) s h l = elim (progress s h) [
  | inl f ↦ ([], refl, f)
  | inr (inl c) ↦
      let (u, e, hu, lu) = next main_thread s h c in
      let (moves, own, f) = finishes n u hu (omega arith) in
      (main_thread ∷ moves, own, ap (λ v. v.main_pc) (run-step main_thread moves s u e) ∙ f)
  | inr (inr c) ↦
      let (u, e, hu, lu) = next worker s h c in
      let (moves, own, f) = finishes n u hu (omega arith) in
      (worker ∷ moves, own, ap (λ v. v.main_pc) (run-step worker moves s u e) ∙ f)
]

-- From every state that moves can reach, spurious wakeups included, further moves of the two threads
-- alone, with no spurious wakeup, bring the main thread to its end, with the worker returned.
pub park-finishes :
    (moves : List Move)
    → (more : List Move) × (all_threads more ≡ true)
      × ((run more (run moves start)).main_pc ≡ finished)
      × ((run more (run moves start)).worker_pc ≡ returned)
park-finishes moves =
    let s = run moves start in
    let h = run-Inv moves start start-Inv in
    let (more, own, f) = finishes (suc (left s)) s h (omega arith) in
    (more, own, f, (run-Inv more s h).joined f)
