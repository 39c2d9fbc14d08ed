-- ===== src/Threads/Barrier.antt =====
-- 123_barrier_sync: threads that wait at a barrier for one another. The threads are alike, so the
-- state counts them.
use sa_plugin_sla.Prelude.{
  ◌==◌, if◌then◌else◌, replicate, ℤ, pos, ℕ, zero, suc, ◌+◌, ◌-◌, Option, none, some,
}
use sa_plugin_sla.Rust.{Outcome, Exit, print, int_line, sum_i32}

pub record Barrier : Type 0 where
  pub size : ℕ
  pub outside : ℕ
  pub waiting : ℕ
  pub passed : ℕ

-- A thread calls `wait`: the last one that is needed opens the barrier for all.
unfoldable pub arrive : Barrier → Option Barrier
arrive b =
    if b.outside == 0
    then none
    else if b.waiting + 1 == b.size
    then some
        (record b { outside = b.outside - 1; waiting = 0; passed = b.passed + (b.waiting + 1) })
    else some (record b { outside = b.outside - 1; waiting = b.waiting + 1 })

abbrev pub or_stay : Barrier → Option Barrier → Barrier
or_stay b none = b
or_stay b (some c) = c

unfoldable pub arrivals : ℕ → Barrier → Barrier
unfolding arrive
arrivals zero b = b
arrivals (suc n) b = arrivals n (or_stay b (arrive b))

-- `threads` threads before a barrier of their number.
unfoldable pub start : ℕ → Barrier
start threads = record { size = threads; outside = threads; waiting = 0; passed = 0 }

-- Every thread that passes returns 1, and `main` adds the results up.
unfoldable pub results : Barrier → Outcome ℤ
results b = sum_i32 (replicate b.passed (pos 1))

unfoldable pub barrier_main : Exit
unfolding arrivals start results
barrier_main = print int_line (results (arrivals 3 (start 3)))
