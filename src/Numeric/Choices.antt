-- ===== src/Numeric/Choices.antt =====
-- Choosing among values: maxima, minima, the oldest entry and the first free resource.
use sa_plugin_sla.Prelude.{◌==◌, if◌then◌else◌, ℤ, pos, ltb_ℤ, ℕ, Bool, true, false, not, [], ◌∷◌}
use sa_plugin_sla.Rust.{Outcome, done, ◌>>=◌, lit, nat, Exit, exit_ok, print, int_line, add_i32}

-- 03_if_else
unfoldable pub max : ℤ → ℤ → ℤ
max a b = if ltb_ℤ b a then a else b

unfoldable pub if_else_main : Exit
unfolding max
if_else_main = print int_line (done (max (pos 10) (pos 20)))

-- 85_scheduler_tree
unfoldable pub max_i32 : ℤ → ℤ → ℤ
max_i32 left right = if ltb_ℤ right left then left else right

unfoldable pub critical_path : ℤ → ℤ → ℤ → Outcome ℤ
unfolding max_i32
critical_path root left right = add_i32 root (max_i32 left right)

unfoldable pub scheduler_tree_main : Exit
unfolding critical_path
scheduler_tree_main = print int_line (critical_path (pos 4) (pos 7) (pos 3))

-- 86_cache_eviction
pub record CacheEntry : Type 0 where
  pub key : ℤ
  pub last_used : ℤ

unfoldable pub evict_key : CacheEntry → CacheEntry → CacheEntry → ℤ
evict_key a b c =
    let older_ab = if ltb_ℤ a.last_used b.last_used then a else b in
    if ltb_ℤ older_ab.last_used c.last_used then older_ab.key else c.key

unfoldable pub cache_eviction_main : Exit
unfolding evict_key
cache_eviction_main = print int_line (
    done (
      evict_key (record { key = pos 10; last_used = pos 4 })
        (record { key = pos 20; last_used = pos 9 }) (record { key = pos 30; last_used = pos 1 })))

-- 92_query_plan
pub record QueryPlan : Type 0 where
  pub table_scan_rows : ℤ
  pub index_rows : ℤ
  pub filter_cost : ℤ

-- `Ord::min` gives the first of two equal values.
unfoldable pub min_i32 : ℤ → ℤ → ℤ
min_i32 a b = if ltb_ℤ b a then b else a

unfoldable pub chosen_cost : QueryPlan → Outcome ℤ
unfolding min_i32
chosen_cost plan = do
  index_cost ← add_i32 plan.index_rows plan.filter_cost
  done (min_i32 plan.table_scan_rows index_cost)

unfoldable pub query_plan_main : Exit
unfolding chosen_cost
query_plan_main =
    print int_line
      (chosen_cost (record { table_scan_rows = pos 120; index_rows = pos 18; filter_cost = pos 7 }))

-- 67_resource_pool
pub record Resource : Type 0 where
  pub id : ℤ
  pub busy : Bool

unfoldable pub available_id : Resource × Resource × Resource → ℤ
available_id (first, second, third) =
    if not first.busy then first.id else if not second.busy then second.id else third.id

unfoldable pub resource_pool_main : Exit
unfolding available_id
resource_pool_main = print int_line (
    done (
      available_id (
        record { id = pos 10; busy = true },
        record { id = pos 20; busy = false },
        record { id = pos 30; busy = true },
      )))

-- 45_config_merge: 0 means that a setting is not overridden.
pub record Config : Type 0 where
  pub threads : ℕ
  pub level : ℕ

unfoldable pub merge : Config → Config → Config
merge base override_cfg = record {
  threads = if override_cfg.threads == 0 then base.threads else override_cfg.threads;
  level = if override_cfg.level == 0 then base.level else override_cfg.level;
}

unfoldable pub config_merge_main : Exit
unfolding merge
config_merge_main =
    let merged = merge (record { threads = 4; level = 1 }) (record { threads = 0; level = 3 }) in
    exit_ok ((nat merged.threads ∷ lit " " ∷ nat merged.level ∷ []) ∷ [])
