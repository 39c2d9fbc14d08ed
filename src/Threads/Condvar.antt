-- ===== src/Threads/Condvar.antt =====
-- 122_condvar_wait_notify: the main thread waits until the notifier has set the flag.
use sa_plugin_sla.Prelude.{
  if◌then◌else◌, ℤ, pos, Bool, true, false, Option, none, some, List, [], ◌∷◌,
}
use sa_plugin_sla.Rust.{done, Exit, print, int_line}

pub data Thread : Type 0 where
  main_thread notifier : Thread

-- Who moves: a thread, or a wakeup that no `notify_one` has caused, which the library permits.
pub data Move : Type 0 where
  thread : Thread → Move
  spurious : Move

pub data MainPc : Type 0 where
  locking checking waiting relocking finished : MainPc

pub data NotifierPc : Type 0 where
  acquiring setting notifying unlocking exited : NotifierPc

pub record Pair : Type 0 where
  pub ready : Bool
  pub owner : Option Thread
  pub main_pc : MainPc
  pub notifier_pc : NotifierPc

-- `lock`: blocked while somebody has the mutex.
abbrev pub is_free : Option Thread → Bool
is_free none = true
is_free (some t) = false

-- `wait_while`: with the lock, test the flag; if it is not set, unlock and sleep in one step. The
-- guard that it returns is held to the end of `main`.
unfoldable pub main_step : MainPc → Pair → Option Pair
main_step locking s =
    if is_free s.owner
    then some (record s { owner = some main_thread; main_pc = checking })
    else none
main_step checking s =
    if s.ready
    then some (record s { main_pc = finished })
    else some (record s { owner = none; main_pc = waiting })
main_step waiting s = none
main_step relocking s =
    if is_free s.owner
    then some (record s { owner = some main_thread; main_pc = checking })
    else none
main_step finished s = none

abbrev woken : MainPc → MainPc
woken waiting = relocking
woken pc = pc

unfoldable pub notifier_step : NotifierPc → Pair → Option Pair
notifier_step acquiring s =
    if is_free s.owner
    then some (record s { owner = some notifier; notifier_pc = setting })
    else none
notifier_step setting s = some (record s { ready = true; notifier_pc = notifying })
notifier_step notifying s = some (record s { main_pc = woken s.main_pc; notifier_pc = unlocking })
notifier_step unlocking s = some (record s { owner = none; notifier_pc = exited })
notifier_step exited s = none

unfoldable pub spurious_step : MainPc → Pair → Option Pair
spurious_step waiting s = some (record s { main_pc = relocking })
spurious_step _ s = none

unfoldable pub step : Move → Pair → Option Pair
unfolding main_step notifier_step spurious_step
step (thread main_thread) s = main_step s.main_pc s
step (thread notifier) s = notifier_step s.notifier_pc s
step spurious s = spurious_step s.main_pc s

abbrev pub or_stay : Pair → Option Pair → Pair
or_stay s none = s
or_stay s (some t) = t

unfoldable pub run : List Move → Pair → Pair
unfolding step
run [] s = s
run (m ∷ moves) s = run moves (or_stay s (step m s))

unfoldable pub start : Pair
start = record { ready = false; owner = none; main_pc = locking; notifier_pc = acquiring }

-- What `main` prints when `wait_while` has returned.
unfoldable pub value : Pair → ℤ
value s = if s.ready then pos 4 else pos 0

unfoldable pub condvar_main : List Move → Exit
unfolding run start value
condvar_main moves = print int_line (done (value (run moves start)))
