-- ===== src/Collections/Maps.antt =====
-- A `HashMap` or `BTreeMap` with text keys is the list of its entries, each key once.
use sa_plugin_sla.Prelude.{if◌then◌else◌, ℤ, pos, String, Option, none, some, List, [], ◌∷◌, str_eq}
use sa_plugin_sla.Rust.{explicit, Outcome, done, panic, Exit, print, int_line}

abbrev pub Map : Type 0
Map = List (String × ℤ)

unfoldable pub insert : String → ℤ → Map → Map
insert k v [] = (k, v) ∷ []
insert k v ((j, w) ∷ m) = if str_eq j k then (k, v) ∷ m else (j, w) ∷ insert k v m

unfoldable pub get : String → Map → Option ℤ
get k [] = none
get k ((j, v) ∷ m) = if str_eq j k then some v else get k m

-- 53_cache_hits: `copied().unwrap_or_default()`
unfoldable pub or_default : Option ℤ → ℤ
or_default none = pos 0
or_default (some v) = v

unfoldable pub cache_hits_main : Exit
unfolding insert get or_default
cache_hits_main = print int_line (done (or_default (get "a" (insert "a" (pos 3) []))))

-- 63_router_table: `router[key]` panics on a missing key.
unfoldable pub at_key : String → Map → Outcome ℤ
at_key k m = elim (get k m) [ none ↦ panic explicit | some v ↦ done v ]

unfoldable pub router_main : Exit
unfolding insert at_key get
router_main = print int_line (at_key "/api" (insert "/api" (pos 2) (insert "/home" (pos 1) [])))

-- 81_kv_store
unfoldable pub kv_store_main : Exit
unfolding insert at_key get
kv_store_main = print int_line (at_key "alpha" (insert "alpha" (pos 5) []))
