-- ===== src/Resources/CellLaws.antt =====
-- Laws of 137_io_uring_submission, 125_once_cell_lazy and 131_waker_vtable_mechanics.
use sa_plugin_sla.Prelude.{
  length, replicate, ℤ, ℕ, zero, suc, ◌+◌, ◌%◌, ◌≤◌, ◌<◌, ◌≡◌, refl, ap, ◌∙◌, Option, none, some,
  List, [], ◌∷◌, arith,
}
use sa_plugin_sla.Rust.{Outcome, done, ◌>>=◌, usize_mod, add_usize}
use sa_plugin_sla.Resources.Cells.{
  SubmissionQueue, submit, get_or_init, WakerCall, clone, drop_waker, vtable, run_calls,
}
use Prim.Native.Nat.{min}
use native.Mathlib.Decide.{dec_lt}

abbrev pub submit_times : ℕ → SubmissionQueue → Outcome SubmissionQueue
submit_times zero queue = done queue
submit_times (suc n) queue = submit queue >>= submit_times n

submit-done :
    (queue : SubmissionQueue)
    → queue.depth < usize_mod
    → queue.submitted < queue.depth
    → submit queue ≡ done (record queue { submitted = queue.submitted + 1 })
unfolding submit add_usize
submit-done queue h l = ground arith

submit-full : (queue : SubmissionQueue) → queue.depth ≤ queue.submitted → submit queue ≡ done queue
unfolding submit
submit-full queue h = ground arith

-- After any number of submissions to a queue within its depth the counter has moved by that number,
-- but never past the depth. No submission panics, and the depth is kept.
pub submit_times-min :
    (n : ℕ) (queue : SubmissionQueue)
    → queue.depth < usize_mod
    → queue.submitted ≤ queue.depth
    → submit_times n queue
      ≡ done (record queue { submitted = min (queue.submitted + n) queue.depth })
submit_times-min zero queue h v = ground arith
submit_times-min (suc n) queue h v = elim (dec_lt queue.submitted queue.depth) [
  | yes l ↦ rw (submit-done queue h l) (
      submit_times-min n (record queue { submitted = queue.submitted + 1 }) h (omega arith)
      ∙ ground arith)
  | no l ↦ rw (submit-full queue (omega arith)) (submit_times-min n queue h v ∙ ground arith)
]

-- The values that a sequence of calls returns, each with an initial value of its own.
abbrev read_all : Option ℤ → List ℤ → List ℤ
read_all cell [] = []
read_all cell (init ∷ inits) = let (cell', v) = get_or_init init cell in v ∷ read_all cell' inits

read_all-some : (v : ℤ) (inits : List ℤ) → read_all (some v) inits ≡ replicate (length inits) v
unfolding get_or_init
read_all-some v [] = refl
read_all-some v (init ∷ inits) = ap (λ vs. v ∷ vs) (read_all-some v inits)

-- Every call of `get_or_init` on a fresh cell returns the initial value of the first call, whatever
-- the later calls bring.
pub get_or_init_first :
    (init : ℤ) (inits : List ℤ)
    → read_all none (init ∷ inits) ≡ replicate (length (init ∷ inits)) init
unfolding get_or_init
get_or_init_first init inits = ap (λ vs. init ∷ vs) (read_all-some init inits)

abbrev pub counts : WakerCall → ℕ
counts drop_waker = 0
counts _ = 1

abbrev pub count_calls : List WakerCall → ℕ
count_calls [] = 0
count_calls (call ∷ calls) = counts call + count_calls calls

vtable-eq :
    (call : WakerCall) (n : ℕ) → n < usize_mod → vtable call n ≡ (n + counts call) % usize_mod
unfolding vtable
vtable-eq clone n h = refl
vtable-eq drop_waker n h = omega arith
vtable-eq _ n h = refl

-- The counter counts every call but the drops, modulo the size of a `usize`.
pub run_calls-eq-count :
    (calls : List WakerCall) (n : ℕ)
    → n < usize_mod
    → run_calls calls n ≡ (n + count_calls calls) % usize_mod
unfolding run_calls
run_calls-eq-count [] n h = omega arith
run_calls-eq-count (call ∷ calls) n h =
    rw (vtable-eq call n h)
      (run_calls-eq-count calls ((n + counts call) % usize_mod) (omega arith) ∙ omega arith)
