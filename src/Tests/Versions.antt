-- ===== src/Tests/Versions.antt =====
-- 206_pkg_version_resolution on manifests such as its own, and 240_mod_entry_point_override.
use sa_plugin_sla.Prelude.{String, some, none, pos, negsuc, ◌≡◌, refl, ◌↔◌, [], ◌∷◌, ◌++◌, arith}
use sa_plugin_sla.Rust.{exit_ok, int_line}
use sa_plugin_sla.Compiler.Text.{codes}
use sa_plugin_sla.Companions.Versions.{
  lines, without_return, u32_digits, parse_u32, is_version_line, three_numbers, manifest_version,
  pkg_version_resolution_main,
}
use sa_plugin_sla.Companions.Text.{contains, occurs}
use sa_plugin_sla.Dispatch.Requests.{as_i32}
use sa_plugin_sla.Compiler.Text.{drop_while, split_scalar, last_is}
use sa_plugin_sla.Companions.VersionLaws.{
  version_line, behind_lines, AreOther, nil, cons, manifest_version-version_line,
}
use sa_plugin_sla.Companions.Laws.{Has, mod_entry_point_override_iff}
use sa_plugin_sla.Companions.Decimal.{decimal}
use sa_plugin_sla.Companions.Selection.{Names, IsSelected, pkg_version_resolution-selects}
use sa_plugin_sla.Companions.Layers.{mod_entry_point_override_main}

abbrev old_manifest : String
old_manifest = "[package]\nname = \"demo-206-dep\"\nversion = \"1.2.3\"\n"

abbrev new_manifest : String
new_manifest = "[package]\r\n  version = \"1.4.0\"\r\n"

manifest_version_test : manifest_version (codes old_manifest) ≡ some (1, 2, 3)
unfolding manifest_version lines u32_digits parse_u32 is_version_line three_numbers without_return
    split_scalar drop_while last_is
manifest_version_test = refl

no_version_test : manifest_version (codes "version = 1\n") ≡ none
unfolding manifest_version lines u32_digits parse_u32 is_version_line three_numbers without_return
    split_scalar drop_while last_is
no_version_test = refl

pkg_version_resolution_test :
    pkg_version_resolution_main "versions/v1_2_3 versions/v1_4_0" old_manifest new_manifest
      "v1_2_3/index.sa v1_4_0/index.sa"
    ≡ exit_ok (int_line (pos 4) ∷ [])
unfolding manifest_version lines u32_digits parse_u32 is_version_line three_numbers without_return
    split_scalar drop_while last_is pkg_version_resolution_main contains occurs as_i32
pkg_version_resolution_test = refl

heading : AreOther (codes "[package]" ∷ codes "name = \"demo\"\r" ∷ [])
unfolding is_version_line without_return drop_while last_is
heading = cons refl refl (cons refl refl nil)

manifest_version-version_line_example :
    manifest_version (
      behind_lines
        (codes "[package]" ∷ codes "name = \"demo\"\r" ∷ [])
        (version_line (1, 40, 4294967295) ++ (b'\n' ∷ codes "version = \"9.9.9\"")))
    ≡ some (1, 40, 4294967295)
manifest_version-version_line_example =
    manifest_version-version_line (1, 40, 4294967295) (codes "version = \"9.9.9\"") heading
      (record { major = omega arith; minor = omega arith; patch = omega arith })

abbrev resolver_text : String
resolver_text = "v1_2_3/index.sa v1_4_0/index.sa"

old_manifest-Names : Names old_manifest (1, 2, 3)
unfolding decimal is_version_line without_return drop_while last_is
old_manifest-Names = (
  codes "[package]" ∷ codes "name = \"demo-206-dep\"" ∷ [],
  [],
  cons refl refl (cons refl refl nil),
  record { major = omega arith; minor = omega arith; patch = omega arith },
  refl,
)

newer_manifest-Names : Names "version = \"1.4.0\"\n" (1, 4, 0)
unfolding decimal
newer_manifest-Names =
    ([], [], nil, record { major = omega arith; minor = omega arith; patch = omega arith }, refl)

pkg_version_resolution-selects_example :
    (IsSelected "versions/v1_2_3 versions/v1_4_0" resolver_text (1, 2, 3) (1, 4, 0)
      → pkg_version_resolution_main "versions/v1_2_3 versions/v1_4_0" old_manifest
          "version = \"1.4.0\"\n" resolver_text
        ≡ exit_ok (int_line (pos 4) ∷ []))
    × ((IsSelected "versions/v1_2_3 versions/v1_4_0" resolver_text (1, 2, 3) (1, 4, 0) → ⊥)
        → pkg_version_resolution_main "versions/v1_2_3 versions/v1_4_0" old_manifest
            "version = \"1.4.0\"\n" resolver_text
          ≡ exit_ok (int_line (negsuc 0) ∷ []))
pkg_version_resolution-selects_example =
    pkg_version_resolution-selects "versions/v1_2_3 versions/v1_4_0" old_manifest
      "version = \"1.4.0\"\n" resolver_text (1, 2, 3) (1, 4, 0) old_manifest-Names
      newer_manifest-Names (omega arith)

abbrev entry_text : String
entry_text = "entry/default/index.sa entry/override/index.sa call @override_entry_value()"

mod_entry_point_override_iff_example :
    (mod_entry_point_override_main entry_text "entry/default/detail/seed.sa"
        "@export default_seed()" "entry/override/detail/seed.sa" "@export override_seed()"
      ≡ exit_ok (int_line (pos 1) ∷ []))
    ↔ (Has entry_text "entry/default/index.sa"
        × Has entry_text "entry/override/index.sa"
        × Has entry_text "call @override_entry_value()"
        × (Has entry_text "call @default_entry_value()" → ⊥)
        × Has "entry/default/detail/seed.sa" "entry/default/detail/seed.sa"
        × Has "@export default_seed()" "@export default_seed()"
        × Has "entry/override/detail/seed.sa" "entry/override/detail/seed.sa"
        × Has "@export override_seed()" "@export override_seed()")
mod_entry_point_override_iff_example =
    mod_entry_point_override_iff entry_text "entry/default/detail/seed.sa" "@export default_seed()"
      "entry/override/detail/seed.sa" "@export override_seed()"
