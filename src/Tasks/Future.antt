-- ===== src/Tasks/Future.antt =====
-- A future is a state and a poll function. 09_async_await polls one to the end in a loop; the other
-- programs await futures that are ready, on an executor of their own.
use mathlib.Core.Option
use mathlib.Core.List.{reverse}
use sa_plugin_sla.Prelude.{ℤ, pos, ℕ, zero, suc, Option, none, some, List, [], ◌∷◌}
use sa_plugin_sla.Rust.{Outcome, done, ◌>>=◌, Exit, print, int_line, add_i32}

pub data Poll (A : Type 0) : Type 0 where
  ready : A → Poll A
  pending : Poll A

pub record Future (A : Type 0) : Type 1 where
  pub State : Type 0
  pub poll : State → Poll A × State

-- 09_async_await `block_on`: after a pending poll the thread yields and polls again. `none` means
-- that the fuel ran out.
unfoldable pub block_on : {A : Type 0} (f : Future A) → ℕ → f.State → Option A
block_on f zero s = none
block_on f (suc fuel) s =
    let (p, s') = f.poll s in elim p [ ready a ↦ some a | pending ↦ block_on f fuel s' ]

-- `tokio::select!` with `biased`: the branches are polled in order, and the first that is ready wins.
-- `none` means that all of them are pending.
unfoldable pub select_biased : {A : Type 0} → List (Poll A) → Option A
select_biased [] = none
select_biased (ready a ∷ polls) = some a
select_biased (pending ∷ polls) = select_biased polls

-- 133_select_macro_race
unfoldable pub branch_a : Poll ℤ
branch_a = ready (pos 11)

unfoldable pub branch_b : Poll ℤ
branch_b = ready (pos 22)

unfoldable pub branch_c : Poll ℤ
branch_c = ready (pos 33)

unfoldable pub select_main : Option Exit
unfolding select_biased branch_a branch_b branch_c
select_main =
    Option.map (λ (winner : ℤ). print int_line (done winner))
      (select_biased (branch_a ∷ branch_b ∷ branch_c ∷ []))

-- 136_executor_task_queue: `pop` takes the last task, so the list is kept with the last task first.
-- A task is its result. The program as it stands does not compile, since its three futures are of
-- three types.
unfoldable pub drain_queue : ℤ → List ℤ → Outcome ℤ
drain_queue acc [] = done acc
drain_queue acc (task ∷ queue) = add_i32 acc task >>= λ acc'. drain_queue acc' queue

unfoldable pub executor_total : List ℤ → Outcome ℤ
unfolding drain_queue
executor_total queue = drain_queue (pos 0) (reverse queue)

unfoldable pub task_one : ℤ
task_one = pos 1

unfoldable pub task_two : ℤ
task_two = pos 2

unfoldable pub task_three : ℤ
task_three = pos 3

unfoldable pub executor_main : Exit
unfolding executor_total task_one task_two task_three
executor_main = print int_line (executor_total (task_one ∷ task_two ∷ task_three ∷ []))

-- 135_async_streams
unfoldable pub stream_total_from : ℤ → List ℤ → Outcome ℤ
stream_total_from acc [] = done acc
stream_total_from acc (value ∷ stream) = add_i32 acc value >>= λ acc'. stream_total_from acc' stream

unfoldable pub streams_main : Exit
unfolding stream_total_from
streams_main = print int_line (stream_total_from (pos 0) (pos 1 ∷ pos 2 ∷ pos 3 ∷ []))

-- 134_join_all_futures
unfoldable pub job_a : ℤ
job_a = pos 1

unfoldable pub job_b : ℤ
job_b = pos 2

unfoldable pub job_c : ℤ
job_c = pos 3

unfoldable pub join_all_main : Exit
unfolding job_a job_b job_c
join_all_main = print int_line (do ab ← add_i32 job_a job_b; add_i32 ab job_c)
