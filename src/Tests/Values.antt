-- ===== src/Tests/Values.antt =====
-- Theorems on threads, tasks, bytes, resources and numbers at concrete inputs.
use sa_plugin_sla.Prelude.{
  length, ℤ, pos, ℕ, zero, suc, ◌≡◌, refl, ◌↔◌, Bool, true, false, some, List, [], ◌∷◌, arith,
}
use sa_plugin_sla.Rust.{overflow, done, panic, total, Fits}
use sa_plugin_sla.Threads.Barrier.{arrivals, start}
use sa_plugin_sla.Threads.BarrierLaws.{arrivals-eq}
use sa_plugin_sla.Tasks.Future.{Poll, ready, pending, Future, block_on, executor_total}
use sa_plugin_sla.Tasks.Laws.{now, later, block_on-ReadyAfter, executor_total-done_iff}
use sa_plugin_sla.Codec.Base64.{encode}
use sa_plugin_sla.Codec.Base64Laws.{decode, decode-encode}
use sa_plugin_sla.Resources.Locks.{Mutex, inspect_all}
use sa_plugin_sla.Resources.LockLaws.{Unlocked, inspect_all-Unlocked}
use sa_plugin_sla.Numeric.Recursion.{factorial, fib}
use sa_plugin_sla.Numeric.FactorialLaws.{factorial-eq-fact}
use sa_plugin_sla.Numeric.FibLaws.{fib_pair, fib-eq-fibonacci}
use sa_plugin_sla.Codec.Frames.{frame_valid, varint_value}
use sa_plugin_sla.Codec.FrameLaws.{frame_valid_iff, frame_valid-panic_iff, varint_value-eq}
use sa_plugin_sla.Folds
use mathlib.Core.List.{reverse}
use sa_plugin_sla.Folds.{
  scheduled_cost, mailbox_score_from, mailbox_score, synthetic_backtrace_depth,
}
use sa_plugin_sla.Folds.Laws.{ready_costs, scheduled_cost-done_iff}
use sa_plugin_sla.Resources.CellLaws.{submit_times, submit_times-min}

arrivals-eq_example :
    arrivals 2 (start 3) ≡ record { size = 3; outside = 1; waiting = 2; passed = 0 }
arrivals-eq_example = arrivals-eq 3 2 (omega arith) (omega arith)

-- A future that counts down and is then ready.
abbrev countdown : Future ℤ
countdown = record { State = ℕ; poll = poll_countdown }
  where
    poll_countdown : ℕ → Poll ℤ × ℕ
    poll_countdown zero = (ready (pos 7), zero)
    poll_countdown (suc n) = (pending, n)

block_on-ReadyAfter_example : block_on countdown 5 2 ≡ some (pos 7)
block_on-ReadyAfter_example =
    block_on-ReadyAfter countdown (pos 7) 2 5 (omega arith) (later refl (later refl (now refl)))

decode-encode_example :
    (text : List ℕ) × (encode 77 97 110 ≡ done text)
    × (length text ≡ 4)
    × (decode text ≡ some (77, 97, 110))
decode-encode_example = decode-encode 77 97 110 (omega arith) (omega arith) (omega arith)

abbrev near_the_end : Mutex
near_the_end = record { held = false; poisoned = false; value = pos 2147483646 }

-- The second call overflows and poisons the mutex, and the third panics on it.
inspect_all-Unlocked_example : Unlocked (inspect_all near_the_end (true ∷ false ∷ false ∷ [])).1
inspect_all-Unlocked_example = inspect_all-Unlocked near_the_end (true ∷ false ∷ false ∷ []) refl

factorial-eq-fact_example : factorial (pos 13) ≡ some (panic overflow)
factorial-eq-fact_example = factorial-eq-fact 13 (omega arith)

fib-eq-fibonacci_example : fib (pos 10) ≡ some (done (pos 55))
unfolding fib_pair
fib-eq-fibonacci_example = fib-eq-fibonacci 10 (omega arith)

varint_value-eq_example : varint_value 172 2 0 ≡ 300
varint_value-eq_example = varint_value-eq 172 2 0

abbrev jobs : List Folds.Job
jobs = record { ready = true; cost = pos 5 } ∷ record { ready = false; cost = pos 9 } ∷ []

scheduled_cost-done_iff_example :
    (scheduled_cost jobs ≡ done (pos 5))
    ↔ (Fits (pos 0) (ready_costs jobs) × (pos 5 ≡ total (ready_costs jobs)))
scheduled_cost-done_iff_example = scheduled_cost-done_iff jobs (pos 5)

submit_times-min_example :
    submit_times 3 (record { depth = 2; submitted = 1 })
    ≡ done (record { depth = 2; submitted = 2 })
submit_times-min_example =
    submit_times-min 3 (record { depth = 2; submitted = 1 }) (omega arith) (omega arith)

frame_valid_iff_example :
    (b : Bool) × (frame_valid 1 4 5 ≡ done b)
    × ((b ≡ true) ↔ ((◌≡◌ {A = ℕ} 1 1) × (◌≡◌ {A = ℕ} 5 5)))
frame_valid_iff_example = frame_valid_iff 1 4 5 (omega arith)

frame_valid-panic_iff_example :
    (frame_valid 1 255 0 ≡ panic overflow) ↔ ((◌≡◌ {A = ℕ} 1 1) × (◌≡◌ {A = ℕ} 255 255))
frame_valid-panic_iff_example = frame_valid-panic_iff 1 255 0 (omega arith)

executor_total-done_iff_example :
    (executor_total (pos 1 ∷ pos 2 ∷ []) ≡ done (pos 3))
    ↔ (Fits (pos 0) (reverse (pos 1 ∷ pos 2 ∷ [])) × (pos 3 ≡ total (pos 1 ∷ pos 2 ∷ [])))
executor_total-done_iff_example = executor_total-done_iff (pos 1 ∷ pos 2 ∷ []) (pos 3)
