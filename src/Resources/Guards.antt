-- ===== src/Resources/Guards.antt =====
-- Values whose destructor runs at the end of their scope.
use sa_plugin_sla.Prelude.{if◌then◌else◌, ℤ, pos, Bool, true, false, not, Option, some}
use sa_plugin_sla.Rust.{Outcome, done, ◌>>=◌, Exit, print, int_line, add_i32}

-- 101_custom_drop: a guard adds its value to the shared tally when it is dropped.
pub record Guard : Type 0 where
  pub value : ℤ

unfoldable pub drop_guard : Guard → ℤ → Outcome ℤ
drop_guard guard tally = add_i32 tally guard.value

-- The block of the labelled loop: its value, and the tally after the destructors that it runs. The
-- inner guard is dropped where the block is left, after the value is computed.
unfoldable pub labelled_block : Option ℤ → Option ℤ → ℤ → Outcome (ℤ × ℤ)
unfolding drop_guard
labelled_block (some x) (some y) tally = do
  sum ← add_i32 x y
  tally' ← drop_guard (record { value = pos 10 }) tally
  done (sum, tally')
labelled_block _ _ tally = done (pos 0, tally)

-- `compute`, as a function of the two options that it declares.
unfoldable pub compute_with : Option ℤ → Option ℤ → Outcome ℤ
unfolding labelled_block
compute_with left right = do
  r ← labelled_block left right (pos 0)
  tally ← drop_guard (record { value = pos 1 }) r.1
  add_i32 tally r.0

unfoldable pub custom_drop_main : Exit
unfolding compute_with
custom_drop_main = print int_line (compute_with (some (pos 2)) (some (pos 3)))

-- 139_cancellation_safety
pub record Reservation : Type 0 where
  pub value : ℤ
  pub committed : Bool

unfoldable pub drop_reservation : Reservation → Reservation
drop_reservation r = if not r.committed then record r { value = pos 0 } else r

-- `commit` returns the value, and its own `self` is dropped when it returns.
unfoldable pub commit : Reservation → ℤ × Reservation
unfolding drop_reservation
commit r =
    let self : Reservation = record r { committed = true } in (self.value, drop_reservation self)

unfoldable pub cancellation_main : Exit
unfolding commit
cancellation_main = print int_line (done (commit (record { value = pos 4; committed = false })).0)
