-- ===== src/Resources/GuardLaws.antt =====
-- Laws of 101_custom_drop and 139_cancellation_safety: destructors on the ways out.
use sa_plugin_sla.Prelude.{
  ℤ, pos, ◌+ℤ◌, ◌≡◌, refl, ◌≢◌, ◌↔◌, ◌⊎◌, inl, inr, true, Option, none, some, arith,
}
use sa_plugin_sla.Rust.{done, InI32, checked, add_i32, add_i32-done}
use sa_plugin_sla.Resources.Guards.{compute_with, Reservation, drop_reservation, commit}

-- With a value in both options both guards are dropped: the result is 11 more than the sum of the
-- values, if neither the sum nor the result overflows.
pub compute_with-both :
    (x y : ℤ)
    → InI32 (x +ℤ y)
    → InI32 (pos 11 +ℤ (x +ℤ y))
    → compute_with (some x) (some y) ≡ done (pos 11 +ℤ (x +ℤ y))
unfolding compute_with add_i32 checked ◌+ℤ◌
compute_with-both x y h k = rw (add_i32-done x y h) (add_i32-done (pos 11) (x +ℤ y) k)

some≢none : {x : ℤ} → ◌≢◌ {A = Option ℤ} (some x) none
some≢none e = cc

-- With a value missing only the outer guard is dropped, and the result is 1.
pub compute_with-missing :
    (left right : Option ℤ)
    → (left ≡ none) ⊎ (right ≡ none)
    → compute_with left right ≡ done (pos 1)
unfolding compute_with add_i32 checked ◌+ℤ◌
compute_with-missing none right h = refl
compute_with-missing (some x) none h = refl
compute_with-missing (some x) (some y) (inl e) = absurd (some≢none e)
compute_with-missing (some x) (some y) (inr e) = absurd (some≢none e)

-- A reservation keeps its value through the destructor exactly if it was committed or was zero, and
-- `commit` returns the value and lets the destructor keep it.
pub commit_keeps :
    (r : Reservation)
    → ((commit r).0 ≡ r.value)
      × ((commit r).1.value ≡ r.value)
      × (((drop_reservation r).value ≡ r.value) ↔ ((r.committed ≡ true) ⊎ (r.value ≡ pos 0)))
unfolding commit
commit_keeps r = ground arith
