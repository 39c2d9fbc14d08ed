-- ===== src/Errors/Laws.antt =====
-- Laws of 176_result_flattening, 30_manual_guard_branch and 104_if_let_chains.
use sa_plugin_sla.Prelude.{
  ℤ, pos, negsuc, ◌+ℤ◌, ◌<ℤ◌, ◌≡◌, refl, sym, ◌≢◌, ◌↔◌, ◌⊎◌, Option, none, some, arith,
}
use sa_plugin_sla.Rust.{Outcome, done, panic, add_i32, add_i32-inv}
use sa_plugin_sla.Errors.Results.{Result, ok, err, flatten_result, chained_sum, guard_branch}

-- A flattened result is a success exactly if both layers were, with the inner value, and every error
-- of either layer is kept.
pub flatten_result-ok_iff :
    (value : Result (Result ℤ ℤ) ℤ) (v : ℤ)
    → ((flatten_result value ≡ ok v) ↔ (value ≡ ok (ok v)))
      × ((flatten_result value ≡ err v) ↔ ((value ≡ ok (err v)) ⊎ (value ≡ err v)))
unfolding flatten_result
flatten_result-ok_iff value v = ground arith

-- The guarded match gives -1 exactly for none, and a value above 3 exactly for that value.
pub guard_branch_iff :
    (value : Option ℤ) (x : ℤ)
    → pos 3 <ℤ x
    → ((guard_branch value ≡ negsuc 0) ↔ (value ≡ none))
      × ((guard_branch value ≡ x) ↔ (value ≡ some x))
unfolding guard_branch
guard_branch_iff value x h = ground arith

done-injective : {a b : ℤ} → ◌≡◌ {A = Outcome ℤ} (done a) (done b) → a ≡ b
done-injective e = cc

-- The chain of `if let` gives a result other than 0 only if all three options hold a value, and then
-- it is the sum of the three.
pub chained_sum-some :
    (left middle right : Option ℤ) (n : ℤ)
    → chained_sum left middle right ≡ done n
    → n ≢ pos 0
    → (x y z : ℤ) × (left ≡ some x) × (middle ≡ some y) × (right ≡ some z) × (n ≡ x +ℤ y +ℤ z)
unfolding chained_sum
chained_sum-some none middle right n h k = absurd (k (sym (done-injective h)))
chained_sum-some (some x) none right n h k = absurd (k (sym (done-injective h)))
chained_sum-some (some x) (some y) none n h k = absurd (k (sym (done-injective h)))
chained_sum-some (some x) (some y) (some z) n h k =
    (x, y, z, refl, refl, refl, exact (add_i32 x y) refl)
  where
    exact : (o : Outcome ℤ) → add_i32 x y ≡ o → n ≡ x +ℤ y +ℤ z
    exact (done xy) e =
        let first = (add_i32-inv x y xy e).0 in rw first (sym (add_i32-inv xy z n (rw e at h)).0)
    exact (panic p) e = let h' = rw e at h in cc
