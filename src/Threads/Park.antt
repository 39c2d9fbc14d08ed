-- ===== src/Threads/Park.antt =====
-- 130_park_unpark_thread: the worker sends its handle and parks; the main thread unparks it.
use sa_plugin_sla.Prelude.{if◌then◌else◌, pos, Bool, true, false, Option, none, some, List, [], ◌∷◌}
use sa_plugin_sla.Rust.{Line, Exit, exit_ok, int_line}

pub data Move : Type 0 where
  main_thread worker spurious : Move

pub data MainPc : Type 0 where
  receiving unparking joining finished : MainPc

pub data WorkerPc : Type 0 where
  sending parking returned : WorkerPc

-- `token` is the permit that `unpark` makes available and that `park` takes.
pub record Parked : Type 0 where
  pub sent : Bool
  pub token : Bool
  pub main_pc : MainPc
  pub worker_pc : WorkerPc

abbrev pub is_returned : WorkerPc → Bool
is_returned returned = true
is_returned _ = false

unfoldable pub main_step : MainPc → Parked → Option Parked
main_step receiving s = if s.sent then some (record s { main_pc = unparking }) else none
main_step unparking s = some (record s { token = true; main_pc = joining })
main_step joining s =
    if is_returned s.worker_pc then some (record s { main_pc = finished }) else none
main_step finished s = none

unfoldable pub worker_step : WorkerPc → Parked → Option Parked
worker_step sending s = some (record s { sent = true; worker_pc = parking })
worker_step parking s =
    if s.token then some (record s { token = false; worker_pc = returned }) else none
worker_step returned s = none

-- `park` may return with no token.
unfoldable pub spurious_step : WorkerPc → Parked → Option Parked
spurious_step parking s = some (record s { worker_pc = returned })
spurious_step _ s = none

unfoldable pub step : Move → Parked → Option Parked
unfolding main_step worker_step spurious_step
step main_thread s = main_step s.main_pc s
step worker s = worker_step s.worker_pc s
step spurious s = spurious_step s.worker_pc s

abbrev pub or_stay : Parked → Option Parked → Parked
or_stay s none = s
or_stay s (some t) = t

unfoldable pub run : List Move → Parked → Parked
unfolding step
run [] s = s
run (m ∷ moves) s = run moves (or_stay s (step m s))

unfoldable pub start : Parked
start = record { sent = false; token = false; main_pc = receiving; worker_pc = sending }

-- The line of `main`, which is printed once the worker is joined: its result is 1.
abbrev printed : MainPc → List Line
printed finished = int_line (pos 1) ∷ []
printed _ = []

unfoldable pub park_main : List Move → Exit
unfolding run start
park_main moves = exit_ok (printed (run moves start).main_pc)
