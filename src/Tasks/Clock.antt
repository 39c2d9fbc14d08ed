-- ===== src/Tasks/Clock.antt =====
-- 09_async_await: the two asynchronous functions read the clock of the system, which is a parameter:
-- the three readings that the program takes, in milliseconds. Sleeping only makes time pass, so it
-- shows in the readings alone.
use mathlib.Core.Option
use sa_plugin_sla.Prelude.{leb, ℤ, pos, ℕ, Option}
use sa_plugin_sla.Rust.{Outcome, done, ◌>>=◌, ◌>>◌, assert, Exit, print, int_line, add_i32}
use sa_plugin_sla.Tasks.Future.{ready, Future, block_on}

pub record Readings : Type 0 where
  pub unix_before : ℕ
  pub unix_after : ℕ
  pub elapsed : ℕ

unfoldable pub step_one_after_delay : Readings → Outcome ℤ
step_one_after_delay r = assert (leb r.unix_before r.unix_after) >> done (pos 1)

unfoldable pub run : Readings → Outcome ℤ
unfolding step_one_after_delay
run r = do value ← step_one_after_delay r; assert (leb 1 r.elapsed); add_i32 value (pos 1)

-- The future has no point where it is pending: the first poll runs it to its end.
abbrev pub run_future : Readings → Future (Outcome ℤ)
run_future r = record { State = Unit {0}; poll = λ s. (ready (run r), s) }

unfoldable pub async_await_main : ℕ → Readings → Option Exit
unfolding block_on run
async_await_main fuel r =
    Option.map (λ (result : Outcome ℤ). print int_line result) (block_on (run_future r) fuel tt)
