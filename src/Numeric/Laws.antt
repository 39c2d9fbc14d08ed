-- ===== src/Numeric/Laws.antt =====
-- Laws of the formulas and the choices.
use sa_plugin_sla.Prelude.{
  if◌then◌else◌, ℤ, pos, ◌+ℤ◌, ◌≤ℤ◌, ltb_ℤ, ℕ, ◌+◌, ◌*◌, ◌/◌, ◌≤◌, ◌<◌, ◌≡◌, ◌⊎◌, inl, inr, false,
  not, arith,
}
use sa_plugin_sla.Rust.{
  divide_by_zero, done, panic, Outcome-cases, add_i32, add_i32-inv, sub_i32-pos, add_i32-pos,
  mul_i32-pos, div_i32-pos, div_i32-zero,
}
use sa_plugin_sla.Numeric.Formulas.{success_per_thousand, chunk_layout}
use sa_plugin_sla.Numeric.Choices.{
  CacheEntry, evict_key, QueryPlan, chosen_cost, Resource, available_id, Config, merge,
}
use native.Mathlib.Nat.{lt-div-mul-add, div-mul-le_self, div-le_of_le-mul}

-- A chunk size of zero panics with a division by zero, for every blob of a size of zero or more.
pub chunk_layout-zero :
    (b : ℕ)
    → 0 < b
    → b ≤ 2147483647
    → chunk_layout (record { bytes = pos b; chunk_size = pos 0 }) ≡ panic divide_by_zero
unfolding chunk_layout
chunk_layout-zero b h k =
    rw (
      add_i32-pos b 0 (omega arith),
      sub_i32-pos (b + 0) 1 (omega arith) (omega arith),
      div_i32-zero,
    )

-- If the counts are not both zero, and the scaled count and the number of events fit, the rate is the
-- number of successes in a thousand events, rounded down, and at most 1000.
pub success_per_thousand_bounds :
    (ok failed : ℕ)
    → 0 < ok + failed
    → ok * 1000 ≤ 2147483647
    → ok + failed ≤ 2147483647
    → (n : ℕ) × (success_per_thousand (pos ok) (pos failed) ≡ done (pos n))
      × (n * (ok + failed) ≤ ok * 1000)
      × (ok * 1000 < (n + 1) * (ok + failed))
      × (n ≤ 1000)
unfolding success_per_thousand
success_per_thousand_bounds ok failed h k l = (
  ok * 1000 / (ok + failed),
  rw (mul_i32-pos ok 1000 k, add_i32-pos ok failed l, div_i32-pos (ok * 1000) (ok + failed) h k),
  div-mul-le_self (ok * 1000) (ok + failed),
  grind (arith, lt-div-mul-add {a = ok * 1000} h),
  div-le_of_le-mul (ok + failed) (grind arith),
)

-- The evicted key is the key of an entry that no other entry was used before.
pub evict_key_oldest :
    (a b c : CacheEntry)
    → (e : CacheEntry) × (evict_key a b c ≡ e.key)
      × ((e ≡ a) ⊎ (e ≡ b) ⊎ (e ≡ c))
      × (e.last_used ≤ℤ a.last_used)
      × (e.last_used ≤ℤ b.last_used)
      × (e.last_used ≤ℤ c.last_used)
unfolding evict_key
evict_key_oldest a b c =
    let older_ab : CacheEntry = if ltb_ℤ a.last_used b.last_used then a else b in
    let e : CacheEntry = if ltb_ℤ older_ab.last_used c.last_used then older_ab else c in
    (e, ground arith, ground arith, ground arith, ground arith, ground arith)

-- The chosen cost is the smaller one of the two plans, whenever the cost of the index plan fits.
pub chosen_cost-least :
    (plan : QueryPlan) (n : ℤ)
    → chosen_cost plan ≡ done n
    → (n ≤ℤ plan.table_scan_rows)
      × (n ≤ℤ plan.index_rows +ℤ plan.filter_cost)
      × ((n ≡ plan.table_scan_rows) ⊎ (n ≡ plan.index_rows +ℤ plan.filter_cost))
unfolding chosen_cost
chosen_cost-least plan n h = elim (Outcome-cases (add_i32 plan.index_rows plan.filter_cost)) [
  | inr (p, e) ↦ let h' = rw e at h in cc
  | inl (cost, e) ↦ let exact = (add_i32-inv _ _ cost e).0 in rw exact (ground arith)
]

-- A free resource is chosen if there is one among the first two; the third is given without a test.
pub available_id-free :
    (first second third : Resource)
    → (first.busy ≡ false) ⊎ (second.busy ≡ false) ⊎ (third.busy ≡ false)
    → (r : Resource) × (available_id (first, second, third) ≡ r.id) × (r.busy ≡ false)
unfolding available_id
available_id-free first second third h =
    let r : Resource =
      if not first.busy then first else if not second.busy then second else third in
    (r, ground arith, ground arith)

-- Merging is associative.
pub merge_assoc : (a b c : Config) → merge (merge a b) c ≡ merge a (merge b c)
unfolding merge
merge_assoc a b c = ground arith
