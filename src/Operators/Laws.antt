-- ===== src/Operators/Laws.antt =====
-- Laws of 57_event_loop and 304_operator_overload_eq.
use sa_plugin_sla.Prelude.{
  ℤ, pos, eqb_ℤ, eq_of_parts, ◌≡◌, refl, ◌↔◌, inl, inr, true, List, [], ◌∷◌, ◌++◌, arith, &&-true,
}
use sa_plugin_sla.Rust.{done, Outcome-cases, add_i32}
use sa_plugin_sla.Operators.Vectors.{Point, eq}
use sa_plugin_sla.Operators.Events.{Event, tick, reset, tick_after_reset, run_loop_from, run_loop}

run_loop_from-reset :
    (acc v : ℤ) (xs ys : List Event)
    → run_loop_from acc xs ≡ done v
    → run_loop_from acc (xs ++ reset ∷ ys) ≡ run_loop_from (pos 0) ys
unfolding run_loop_from
run_loop_from-reset acc v [] ys h = refl
run_loop_from-reset acc v (reset ∷ xs) ys h = run_loop_from-reset (pos 0) v xs ys h
run_loop_from-reset acc v (tick z ∷ xs) ys h = elim (Outcome-cases (add_i32 acc z)) [
  | inl (a, e) ↦ let rest = run_loop_from-reset a v xs ys (rw e at h) in rw e rest
  | inr (p, e) ↦ let h' = rw e at h in cc
]
run_loop_from-reset acc v (tick_after_reset z ∷ xs) ys h = elim (Outcome-cases (add_i32 acc z)) [
  | inl (a, e) ↦ let rest = run_loop_from-reset a v xs ys (rw e at h) in rw e rest
  | inr (p, e) ↦ let h' = rw e at h in cc
]

-- A reset forgets everything before it: if the loop gets through the events before a reset without
-- an overflow, its result is the one for the events after the reset alone.
pub run_loop-reset :
    (v : ℤ) (xs ys : List Event) → run_loop xs ≡ done v → run_loop (xs ++ reset ∷ ys) ≡ run_loop ys
unfolding run_loop
run_loop-reset v xs ys h = run_loop_from-reset (pos 0) v xs ys h

eqb_ℤ-true : (a b : ℤ) → eqb_ℤ a b ≡ true → a ≡ b
eqb_ℤ-true a b h = eq_of_parts a b (ground arith)

point_ext : (a b : Point) → a.x ≡ b.x → a.y ≡ b.y → a ≡ b
point_ext a b ex ey = λ i. record { x = ex i; y = ey i }

eqb_ℤ-self : (z : ℤ) → eqb_ℤ z z ≡ true
eqb_ℤ-self z = ground arith

-- The equality of points holds exactly for equal points.
pub eq-true_iff : (a b : Point) → (eq a b ≡ true) ↔ (a ≡ b)
unfolding eq
eq-true_iff a b = (
  λ h. point_ext a b (eqb_ℤ-true a.x b.x (&&-true _ _ h).0) (eqb_ℤ-true a.y b.y (&&-true _ _ h).1),
  λ e. rw (e, eqb_ℤ-self b.x) (eqb_ℤ-self b.y),
)
