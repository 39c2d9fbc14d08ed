-- ===== src/Threads/CondvarLaws.antt =====
-- Laws of 122_condvar_wait_notify: an invariant of its states, and what it is good for.
use sa_plugin_sla.Prelude.{
  Option-cases, pos, ℕ, zero, suc, ◌+◌, ◌*◌, ◌<◌, ◌≡◌, ap, ◌∙◌, subst, ◌↔◌, ◌⊎◌, inl, inr, Bool,
  true, false, Option, none, some, List, [], ◌∷◌, map, arith,
}
use sa_plugin_sla.Rust.{exit_ok, int_line}
use sa_plugin_sla.Threads.Condvar.{
  Thread, main_thread, notifier, Move, thread, spurious, MainPc, locking, checking, waiting,
  relocking, finished, NotifierPc, acquiring, setting, notifying, unlocking, exited, Pair, step,
  or_stay, run, start, value, condvar_main,
}

record Inv (s : Pair) : Type 0 where
  main_owns : (s.owner ≡ some main_thread) ↔ ((s.main_pc ≡ checking) ⊎ (s.main_pc ≡ finished))
  notifier_owns :
      (s.owner ≡ some notifier)
      ↔ ((s.notifier_pc ≡ setting) ⊎ (s.notifier_pc ≡ notifying) ⊎ (s.notifier_pc ≡ unlocking))
  set :
      (s.ready ≡ true)
      ↔ ((s.notifier_pc ≡ notifying) ⊎ (s.notifier_pc ≡ unlocking) ⊎ (s.notifier_pc ≡ exited))
  not_lost :
      s.main_pc ≡ waiting
      → (s.notifier_pc ≡ acquiring) ⊎ (s.notifier_pc ≡ setting) ⊎ (s.notifier_pc ≡ notifying)
  seen : s.main_pc ≡ finished → s.ready ≡ true

start-Inv : Inv start
unfolding start
start-Inv = ground arith

step-Inv : (m : Move) (s : Pair) → Inv s → Inv (or_stay s (step m s))
unfolding step
step-Inv (thread main_thread) s h = ground arith
step-Inv (thread notifier) s h = ground arith
step-Inv spurious s h = ground arith

run-Inv : (moves : List Move) (s : Pair) → Inv s → Inv (run moves s)
unfolding run
run-Inv [] s h = h
run-Inv (m ∷ moves) s h = run-Inv moves (or_stay s (step m s)) (step-Inv m s h)

-- In every state that moves can reach, a main thread that has come back from `wait_while` prints 4.
pub condvar_main-prints_4 :
    (moves : List Move)
    → (run moves start).main_pc ≡ finished
    → condvar_main moves ≡ exit_ok (int_line (pos 4) ∷ [])
unfolding condvar_main value
condvar_main-prints_4 moves f = let h = run-Inv moves start start-Inv in rw (h.seen f)

abbrev pub can_move : Option Pair → Bool
can_move none = false
can_move (some t) = true

-- How far the threads are from their ends.
abbrev main_left : MainPc → ℕ
main_left locking = 5
main_left checking = 4
main_left waiting = 3
main_left relocking = 5
main_left finished = 0

abbrev notifier_left : NotifierPc → ℕ
notifier_left acquiring = 4
notifier_left setting = 3
notifier_left notifying = 2
notifier_left unlocking = 1
notifier_left exited = 0

abbrev pub left : Pair → ℕ
left s = 10 * notifier_left s.notifier_pc + main_left s.main_pc

progress :
    (s : Pair)
    → Inv s
    → (s.main_pc ≡ finished)
      ⊎ (can_move (step (thread main_thread) s) ≡ true)
      ⊎ (can_move (step (thread notifier) s) ≡ true)
unfolding step
progress s h = ground arith

-- No wakeup is lost: in every state that moves can reach, the main thread has finished or one of the
-- two threads can move without a spurious wakeup.
pub condvar-progress :
    (moves : List Move)
    → let s = run moves start in
      (s.main_pc ≡ finished)
      ⊎ (can_move (step (thread main_thread) s) ≡ true)
      ⊎ (can_move (step (thread notifier) s) ≡ true)
condvar-progress moves = progress (run moves start) (run-Inv moves start start-Inv)

-- Each move of a thread, from any state at all, makes the measure of what is left to do smaller.
pub step-left-lt : (t : Thread) (s u : Pair) → step (thread t) s ≡ some u → left u < left s
unfolding step
step-left-lt main_thread s u e = ground arith
step-left-lt notifier s u e = ground arith

next :
    (t : Thread) (s : Pair)
    → Inv s
    → can_move (step (thread t) s) ≡ true
    → (u : Pair) × (step (thread t) s ≡ some u) × Inv u × (left u < left s)
next t s h m = elim (Option-cases (step (thread t) s)) [
  | inl e ↦ let m' = rw e at m in cc
  | inr (u, e) ↦
      (u, e, subst (λ o. Inv (or_stay s o)) e (step-Inv (thread t) s h), step-left-lt t s u e)
]

run-step :
    (m : Move) (moves : List Move) (s u : Pair)
    → step m s ≡ some u
    → run (m ∷ moves) s ≡ run moves u
unfolding run
run-step m moves s u e = ap (λ o. run moves (or_stay s o)) e

finishes :
    (n : ℕ) (s : Pair)
    → Inv s
    → left s < n
    → (threads : List Thread) × ((run (map thread threads) s).main_pc ≡ finished)
unfolding run
finishes zero s h l = absurd (omega arith)
finishes (suc n) s h l = elim (progress s h) [
  | inl f ↦ ([], f)
  | inr (inl m) ↦
      let (u, e, hu, lu) = next main_thread s h m in
      let (threads, f) = finishes n u hu (omega arith) in
      (
        main_thread ∷ threads,
        ap (λ v. v.main_pc) (run-step (thread main_thread) (map thread threads) s u e) ∙ f,
      )
  | inr (inr m) ↦
      let (u, e, hu, lu) = next notifier s h m in
      let (threads, f) = finishes n u hu (omega arith) in
      (
        notifier ∷ threads,
        ap (λ v. v.main_pc) (run-step (thread notifier) (map thread threads) s u e) ∙ f,
      )
]

-- Whatever has happened so far, spurious wakeups included, the main thread can still come back from
-- `wait_while` by moves of the two threads alone.
pub condvar-finishes :
    (moves : List Move)
    → (threads : List Thread) × ((run (map thread threads) (run moves start)).main_pc ≡ finished)
condvar-finishes moves =
    let s = run moves start in
    finishes (suc (left s)) s (run-Inv moves start start-Inv) (omega arith)
