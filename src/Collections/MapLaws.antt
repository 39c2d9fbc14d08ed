-- ===== src/Collections/MapLaws.antt =====
-- Laws of the maps of 53_cache_hits, 63_router_table and 81_kv_store.
use sa_plugin_sla.Prelude.{
  if◌then◌else◌, ℤ, String, ◌≡◌, refl, some, [], ◌∷◌, arith, str_eq, eq_iff,
}
use sa_plugin_sla.Collections.Maps.{Map, insert, get}

-- After an insertion the key has the new value, and every other key the one that it had.
pub get-insert :
    (k j : String) (v : ℤ) (m : Map)
    → get j (insert k v m) ≡ (if str_eq k j then some v else get j m)
unfolding get insert
get-insert k j v [] = refl
get-insert k j v ((i, w) ∷ m) =
    ground (arith, eq_iff k j, eq_iff i k, eq_iff i j, get-insert k j v m)
