-- ===== src/Resources/Cells.antt =====
-- Structs that are changed in place. A method that takes `&mut self` returns the new value.
use sa_plugin_sla.Prelude.{
  ltb, if◌then◌else◌, ℤ, pos, ℕ, ◌+◌, ◌%◌, String, Option, none, some, List, [], ◌∷◌,
}
use sa_plugin_sla.Rust.{
  Outcome, done, ◌>>=◌, lit, Exit, exit_ok, print, int_line, nat_line, add_i32, usize_mod,
  add_usize,
}

-- 137_io_uring_submission
pub record SubmissionQueue : Type 0 where
  pub depth : ℕ
  pub submitted : ℕ

unfoldable pub submit : SubmissionQueue → Outcome SubmissionQueue
submit queue =
    if ltb queue.submitted queue.depth
    then (add_usize queue.submitted 1 >>= λ n. done (record queue { submitted = n }))
    else done queue

unfoldable pub submission_main : Exit
unfolding submit
submission_main =
    print (λ (queue : SubmissionQueue). nat_line queue.submitted)
      (submit (record { depth = 2; submitted = 0 }) >>= λ q. submit q >>= λ q'. submit q')

-- 40_impl_block_state
pub record Account : Type 0 where
  pub balance : ℤ

unfoldable pub deposit : ℤ → Account → Outcome Account
deposit amount account = do
  balance' ← add_i32 account.balance amount
  done (record { balance = balance' })

unfoldable pub impl_block_main : Exit
unfolding deposit
impl_block_main =
    print (λ (account : Account). int_line account.balance)
      (deposit (pos 5) (record { balance = pos 10 }))

-- 59_method_counter
pub record Counter : Type 0 where
  pub value : ℤ

unfoldable pub inc : Counter → Outcome Counter
inc counter = add_i32 counter.value (pos 1) >>= λ v. done (record { value = v })

unfoldable pub method_counter_main : Exit
unfolding inc
method_counter_main =
    print (λ (counter : Counter). int_line counter.value) (inc (record { value = pos 3 }))

-- 58_borrow_update
unfoldable pub bump : ℤ → Outcome ℤ
bump value = add_i32 value (pos 1)

unfoldable pub borrow_update_main : Exit
unfolding bump
borrow_update_main = print int_line (bump (pos 9))

-- 118_global_mutable_state
unfoldable pub global_counter_main : Exit
global_counter_main =
    print int_line (add_i32 (pos 0) (pos 2) >>= λ counter. add_i32 counter (pos 3))

-- 124_thread_local_storage
unfoldable pub thread_local_main : Exit
thread_local_main = print int_line (add_i32 (pos 6) (pos 2))

-- 106_cell_interior_mut: `set` replaces the value that `get` reads.
unfoldable pub cell_main : Exit
cell_main = let first = pos 10 in let second = pos 20 in print int_line (add_i32 first second)

-- 125_once_cell_lazy: the cell, and the value that `get_or_init` returns.
unfoldable pub get_or_init : ℤ → Option ℤ → Option ℤ × ℤ
get_or_init init (some v) = (some v, v)
get_or_init init none = (some init, init)

unfoldable pub once_cell_main : Exit
unfolding get_or_init
once_cell_main =
    let (cell, first) = get_or_init (pos 42) none in
    let (cell', second) = get_or_init (pos 99) cell in print int_line (add_i32 first second)

-- 131_waker_vtable_mechanics: the functions of the vtable act on the counter, an `AtomicUsize`,
-- whose `fetch_add` wraps.
pub data WakerCall : Type 0 where
  clone wake wake_by_ref drop_waker : WakerCall

unfoldable pub vtable : WakerCall → ℕ → ℕ
vtable clone wake_count = (wake_count + 1) % usize_mod
vtable wake wake_count = (wake_count + 1) % usize_mod
vtable wake_by_ref wake_count = (wake_count + 1) % usize_mod
vtable drop_waker wake_count = wake_count

unfoldable pub run_calls : List WakerCall → ℕ → ℕ
unfolding vtable
run_calls [] wake_count = wake_count
run_calls (call ∷ calls) wake_count = run_calls calls (vtable call wake_count)

-- `wake` consumes the clone; the first waker is dropped at the end of `main`, after the print.
unfoldable pub waker_main : Exit
unfolding run_calls
waker_main = print nat_line (done (run_calls (clone ∷ wake_by_ref ∷ wake ∷ []) 0))

-- 55_builder_pattern
pub record Request : Type 0 where
  pub method : String
  pub path : String

pub record Builder : Type 0 where
  pub method : String
  pub path : String

unfoldable pub new_builder : Builder
new_builder = record { method = "GET"; path = "/" }

unfoldable pub with_method : String → Builder → Builder
with_method m builder = record builder { method = m }

unfoldable pub with_path : String → Builder → Builder
with_path p builder = record builder { path = p }

unfoldable pub build : Builder → Request
build builder = record { method = builder.method; path = builder.path }

unfoldable pub builder_main : Exit
unfolding build with_path with_method new_builder
builder_main =
    let req = build (with_path "/api" (with_method "POST" new_builder)) in
    exit_ok ((lit req.method ∷ lit " " ∷ lit req.path ∷ []) ∷ [])
