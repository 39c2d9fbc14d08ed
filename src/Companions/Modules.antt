-- ===== src/Companions/Modules.antt =====
-- demos/rosetta/221 to 230: programs that check the imports between modules. The texts of the companion files are the
-- parameters, in the order in which the program includes them.
use sa_plugin_sla.Prelude.{not, String, ◌&&◌, [], ◌∷◌}
use sa_plugin_sla.Rust.{Exit, exit_ok, int_line}
use sa_plugin_sla.Companions.Text.{contains, bool_as_i32}

-- 221_mod_relative_import
abbrev pub mod_relative_import_main : String → String → String → Exit
mod_relative_import_main helper step seed =
    let helper_imports_step =
      contains helper "@import \"chain/step.sa\"" && contains helper "@helper_value()" in
    let step_imports_seed =
      contains step "@import \"chain/deeper/seed.sa\"" && contains step "@export step_value()" in
    let seed_exports_value = contains seed "@export seed_value()" in
    let relative_chain = helper_imports_step && step_imports_seed && seed_exports_value in
    exit_ok (int_line (bool_as_i32 relative_chain) ∷ [])

-- 222_mod_absolute_import
abbrev pub mod_absolute_import_main : String → String → String → Exit
mod_absolute_import_main root codec leaf =
    let root_imports_codec =
      contains root "@import \"shared/root/codec/index.sa\""
      && contains root "@export shared_root_value()" in
    let codec_imports_leaf =
      contains codec "@import \"shared/root/codec/leaf.sa\""
      && contains codec "@export shared_root_codec()" in
    let leaf_exports_value = contains leaf "@export shared_root_leaf()" in
    let absolute_tree = root_imports_codec && codec_imports_leaf && leaf_exports_value in
    exit_ok (int_line (bool_as_i32 absolute_tree) ∷ [])

-- 223_mod_visibility_private
abbrev pub mod_visibility_private_main : String → String → String → Exit
mod_visibility_private_main public bridge seed =
    let public_wraps_internal =
      contains public "public/../internal/bridge.sa" && contains public "@export public_value()" in
    let internal_imports_detail =
      contains bridge "internal/detail/seed.sa" && contains bridge "@export internal_value()" in
    let private_detail_exists = contains seed "@export private_seed()" in
    let public_file_avoids_detail =
      not (contains public "internal/detail/seed.sa") && not (contains public "private_seed") in
    let visibility_layout =
      public_wraps_internal && internal_imports_detail && private_detail_exists
      && public_file_avoids_detail in
    exit_ok (int_line (bool_as_i32 visibility_layout) ∷ [])

-- 224_mod_reexport_pub_use
abbrev pub mod_reexport_pub_use_main : String → String → String → Exit
mod_reexport_pub_use_main bridge value seed =
    let bridge_reexports_deep =
      contains bridge "bridge/deep/value.sa" && contains bridge "@export bridge_value()" in
    let deep_value_imports_seed =
      contains value "bridge/deep/seed.sa" && contains value "@export deep_value()" in
    let seed_exports_value = contains seed "@export deep_seed()" in
    let public_surface_hides_seed = not (contains bridge "deep_seed") in
    let reexport_layout =
      bridge_reexports_deep && deep_value_imports_seed && seed_exports_value
      && public_surface_hides_seed in
    exit_ok (int_line (bool_as_i32 reexport_layout) ∷ [])

-- 225_mod_namespace_prefix
abbrev pub mod_namespace_prefix_main : String → String → String → Exit
mod_namespace_prefix_main index alpha beta =
    let namespace_folder =
      contains index "ns/prefix/alpha.sa" && contains index "ns/prefix/beta.sa" in
    let namespace_exports = contains index "@export ns_prefix_value()" in
    let prefixed_symbols =
      contains alpha "@export ns_prefix_alpha()" && contains beta "@export ns_prefix_beta()" in
    let namespace_layout = namespace_folder && namespace_exports && prefixed_symbols in
    exit_ok (int_line (bool_as_i32 namespace_layout) ∷ [])

-- 226_mod_cyclic_import_detect
abbrev pub mod_cyclic_import_detect_main :
    String → String → String → String → String → String → String → Exit
mod_cyclic_import_detect_main entry core a b alpha beta gamma =
    let entry_reaches_core =
      contains entry "cycle/core/index.sa" && contains core "cycle/core/a.sa" in
    let core_cycle = contains a "cycle/core/b.sa" && contains b "cycle/core/a.sa" in
    let sibling_cycle =
      contains alpha "../beta/index.sa"
      && contains beta "../gamma/index.sa"
      && contains gamma "../alpha/index.sa" in
    let diagnostic_fixture = entry_reaches_core && core_cycle && sibling_cycle in
    exit_ok (int_line (bool_as_i32 diagnostic_fixture) ∷ [])

-- 227_mod_shadowing_prevention
abbrev pub mod_shadowing_prevention_main : String → String → String → String → String → Exit
mod_shadowing_prevention_main registry left right left_layout right_layout =
    let registry_imports_both =
      contains registry "../left/index.sa" && contains registry "../right/index.sa" in
    let both_use_layouts =
      contains left "shadow/left/layout.sal" && contains right "shadow/right/layout.sal" in
    let duplicate_defs =
      contains left_layout "#def SHADOW_SIZE" && contains right_layout "#def SHADOW_SIZE" in
    let conflicting_values =
      contains left_layout "SHADOW_SIZE = 227" && contains right_layout "SHADOW_SIZE = 900" in
    let shadow_fixture =
      registry_imports_both && both_use_layouts && duplicate_defs && conflicting_values in
    exit_ok (int_line (bool_as_i32 shadow_fixture) ∷ [])

-- 228_mod_iface_separation
abbrev pub mod_iface_separation_main : String → String → String → Exit
mod_iface_separation_main api layout implementation =
    let iface_declared = contains api "@extern contract_score_contract" && contains api "ptr" in
    let layout_declared =
      contains layout "Contract_SIZE = 4" && contains layout "Contract_value = +0" in
    let impl_exports_score =
      contains implementation "@export contract_score"
      && contains implementation "Contract_value" in
    let separated_layers = iface_declared && layout_declared && impl_exports_score in
    exit_ok (int_line (bool_as_i32 separated_layers) ∷ [])

-- 229_mod_layout_injection
abbrev pub mod_layout_injection_main : String → String → String → Exit
mod_layout_injection_main api layout bridge =
    let iface_declared = contains api "@extern record_mix_contract" && contains api "ptr" in
    let layout_declared =
      contains layout "Record_SIZE = 8"
      && contains layout "Record_lo = +0"
      && contains layout "Record_hi = +4" in
    let wrapper_uses_layout =
      contains bridge "@ffi_wrapper record_mix"
      && contains bridge "Record_lo"
      && contains bridge "Record_hi" in
    let layout_injected = iface_declared && layout_declared && wrapper_uses_layout in
    exit_ok (int_line (bool_as_i32 layout_injected) ∷ [])

-- 230_mod_std_prelude
abbrev pub mod_std_prelude_main : String → String → String → String → Exit
mod_std_prelude_main prelude iface layout seed =
    let prelude_imports_layers =
      contains prelude "prelude/index.sai"
      && contains prelude "prelude/index.sal"
      && contains prelude "prelude/core/seed.sa" in
    let iface_declares_contracts =
      contains iface "prelude_seed_contract" && contains iface "prelude_value_contract" in
    let layout_declares_slot =
      contains layout "Prelude_SIZE = 4" && contains layout "Prelude_value = +0" in
    let seed_exported = contains seed "@export prelude_seed()" in
    let prelude_layout =
      prelude_imports_layers && iface_declares_contracts && layout_declares_slot && seed_exported in
    exit_ok (int_line (bool_as_i32 prelude_layout) ∷ [])
