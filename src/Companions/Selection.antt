-- ===== src/Companions/Selection.antt =====
-- 206_pkg_version_resolution on manifests that name a version: which one is selected.
use sa_plugin_sla.Prelude.{
  if◌then◌else◌, pos, negsuc, ℕ, ◌<◌, ◌≡◌, refl, ap, ◌∙◌, ◌⊎◌, ◌↔◌, String, Bool, Bool-cases, inl,
  inr, true, ◌&&◌, some, List, [], ◌∷◌, ◌++◌, arith,
}
use sa_plugin_sla.Rust.{exit_ok, int_line}
use sa_plugin_sla.Compiler.Text.{Bytes, codes}
use sa_plugin_sla.Dispatch.Requests.{as_i32}
use sa_plugin_sla.Companions.Text.{contains}
use sa_plugin_sla.Companions.Laws.{Has, contains_iff}
use sa_plugin_sla.Companions.Versions.{manifest_version, newer, pkg_version_resolution_main}
use sa_plugin_sla.Companions.VersionLaws.{
  version_line, behind_lines, AreOther, IsU32, manifest_version-version_line,
}

-- A manifest that names the version, behind lines that name none.
abbrev pub Names : String → (ℕ × ℕ × ℕ) → Type 0
Names manifest v =
    (other : List Bytes) × (rest : Bytes) × AreOther other
    × IsU32 v
    × (codes manifest ≡ behind_lines other (version_line v ++ (b'\n' ∷ rest)))

-- The order of versions: the first numbers that differ decide.
abbrev pub IsNewer : (ℕ × ℕ × ℕ) → (ℕ × ℕ × ℕ) → Type 0
IsNewer w v = (v.0 < w.0) ⊎ ((w.0 ≡ v.0) × ((v.1 < w.1) ⊎ ((w.1 ≡ v.1) × (v.2 < w.2))))

-- The package and the resolver name both versions, and the one is newer than the other.
abbrev pub IsSelected : String → String → (ℕ × ℕ × ℕ) → (ℕ × ℕ × ℕ) → Type 0
IsSelected root resolver v w =
    Has root "versions/v1_2_3"
    × Has root "versions/v1_4_0"
    × Has resolver "v1_2_3/index.sa"
    × Has resolver "v1_4_0/index.sa"
    × IsNewer w v

found :
    (manifest : String) (v : ℕ × ℕ × ℕ)
    → Names manifest v
    → manifest_version (codes manifest) ≡ some v
found manifest v (other, rest, h, small, e) =
    ap manifest_version e ∙ manifest_version-version_line v rest h small

newer_iff : (w v : ℕ × ℕ × ℕ) → (newer w v ≡ true) ↔ IsNewer w v
newer_iff (a, b, c) (x, y, z) = ground arith

as_i32-small : (n : ℕ) → n < 2147483648 → as_i32 n ≡ pos n
unfolding as_i32
as_i32-small n h = ground (arith, h)

abbrev chosen : String → String → (ℕ × ℕ × ℕ) → (ℕ × ℕ × ℕ) → Bool
chosen root resolver v w =
    contains root "versions/v1_2_3"
    && contains root "versions/v1_4_0"
    && (contains resolver "v1_2_3/index.sa" && contains resolver "v1_4_0/index.sa")
    && newer w v

chosen_iff :
    (root resolver : String) (v w : ℕ × ℕ × ℕ)
    → (chosen root resolver v w ≡ true) ↔ IsSelected root resolver v w
chosen_iff root resolver v w = ground (
  arith,
  contains_iff root "versions/v1_2_3",
  contains_iff root "versions/v1_4_0",
  contains_iff resolver "v1_2_3/index.sa",
  contains_iff resolver "v1_4_0/index.sa",
  newer_iff w v,
)

prints-chosen :
    (root old_pkg new_pkg resolver : String) (v w : ℕ × ℕ × ℕ)
    → manifest_version (codes old_pkg) ≡ some v
    → manifest_version (codes new_pkg) ≡ some w
    → pkg_version_resolution_main root old_pkg new_pkg resolver
      ≡ exit_ok (int_line (if chosen root resolver v w then as_i32 w.1 else negsuc 0) ∷ [])
unfolding pkg_version_resolution_main
prints-chosen root old_pkg new_pkg resolver v w e f = rw (e, f) refl

-- 206_pkg_version_resolution on two manifests that name versions: if the package and the resolver name
-- both packages, and the second version is newer than the first, it prints the minor number of the
-- second, if that fits in an `i32`; and otherwise it prints -1.
pub pkg_version_resolution-selects :
    (root old_pkg new_pkg resolver : String) (v w : ℕ × ℕ × ℕ)
    → Names old_pkg v
    → Names new_pkg w
    → w.1 < 2147483648
    → (IsSelected root resolver v w
        → pkg_version_resolution_main root old_pkg new_pkg resolver
          ≡ exit_ok (int_line (pos w.1) ∷ []))
      × ((IsSelected root resolver v w → ⊥)
          → pkg_version_resolution_main root old_pkg new_pkg resolver
            ≡ exit_ok (int_line (negsuc 0) ∷ []))
pkg_version_resolution-selects root old_pkg new_pkg resolver v w h k small =
    let e =
      prints-chosen root old_pkg new_pkg resolver v w (found old_pkg v h) (found new_pkg w k) in
    let line = λ (b : Bool). exit_ok (int_line (if b then as_i32 w.1 else negsuc 0) ∷ []) in
    (
      λ s.
          e
          ∙ ap line ((chosen_iff root resolver v w).1 s)
          ∙ ap (λ n. exit_ok (int_line n ∷ [])) (as_i32-small w.1 small),
      λ not_s. elim (Bool-cases (chosen root resolver v w)) [
        | inl yes_s ↦ absurd (not_s ((chosen_iff root resolver v w).0 yes_s))
        | inr no_s ↦ e ∙ ap line no_s
      ],
    )
