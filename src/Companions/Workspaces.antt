-- ===== src/Companions/Workspaces.antt =====
-- demos/rosetta/211 to 220: programs that check workspaces, features and profiles. The texts of the companion files are the
-- parameters, in the order in which the program includes them.
use sa_plugin_sla.Prelude.{String, ◌&&◌, [], ◌∷◌}
use sa_plugin_sla.Rust.{Exit, exit_ok, int_line}
use sa_plugin_sla.Companions.Text.{contains, bool_as_i32}

-- 211_pkg_workspace_inheritance
abbrev pub pkg_workspace_inheritance_main :
    String → String → String → String → String → String → String → String → Exit
pkg_workspace_inheritance_main root workspace shared_config shared_pkg app_pkg tool_pkg app_helper
      tool_helper =
    let members_declared =
      contains root "workspace/members/app" && contains root "workspace/members/tool" in
    let shared_imported =
      contains workspace "workspace/shared/index.sa" && contains shared_pkg "workspace-shared" in
    let shared_constants =
      contains shared_config "WORKSPACE_BASE = 100"
      && contains shared_config "WORKSPACE_SHARED = 11" in
    let members_named = contains app_pkg "demo-211-app" && contains tool_pkg "demo-211-tool" in
    let helpers_take_shared_values =
      contains app_helper "shared: i32" && contains tool_helper "base: i32" in
    let inherited =
      members_declared && shared_imported && shared_constants && members_named
      && helpers_take_shared_values in
    exit_ok (int_line (bool_as_i32 inherited) ∷ [])

-- 212_pkg_feature_flags
abbrev pub pkg_feature_flags_main : String → String → String → String → String → Exit
pkg_feature_flags_main pkg root flags flag_defs helper =
    let package_named = contains pkg "name = \"demo-212\"" in
    let nested_feature_module =
      contains root "src/flags/index.sa" && contains flags "src/flags/helpers/index.sa" in
    let feature_constants =
      contains flag_defs "FLAG_ALPHA"
      && contains flag_defs "FLAG_BETA"
      && contains flag_defs "FLAG_GAMMA" in
    let helper_combines_flags =
      contains helper "FLAG_ALPHA" && contains helper "FLAG_BETA" && contains helper "FLAG_GAMMA" in
    let feature_layout =
      package_named && nested_feature_module && feature_constants && helper_combines_flags in
    exit_ok (int_line (bool_as_i32 feature_layout) ∷ [])

-- 213_pkg_default_features
abbrev pub pkg_default_features_main : String → String → String → String → String → Exit
pkg_default_features_main pkg root defaults default_defs helper =
    let package_named = contains pkg "name = \"demo-213\"" in
    let nested_defaults_module =
      contains root "src/defaults/index.sa" && contains defaults "src/defaults/helpers/index.sa" in
    let default_constant = contains default_defs "DEFAULT_OFFSET = 13" in
    let helper_uses_default = contains helper "DEFAULT_OFFSET" in
    let default_layout =
      package_named && nested_defaults_module && default_constant && helper_uses_default in
    exit_ok (int_line (bool_as_i32 default_layout) ∷ [])

-- 214_pkg_target_specific_deps
abbrev pub pkg_target_specific_deps_main :
    String → String → String → String → String → String → String → Exit
pkg_target_specific_deps_main pkg root target_index target_defs helper native portable =
    let package_named = contains pkg "name = \"demo-214\"" in
    let target_module =
      contains root "src/targets/index.sa" && contains target_index "target.sal" in
    let target_switch =
      contains target_defs "TARGET_NATIVE = 1"
      && contains helper "L_NATIVE"
      && contains helper "L_PORTABLE" in
    let both_branches_present =
      contains native "@native_target_value()" && contains portable "@portable_target_value()" in
    let target_specific =
      package_named && target_module && target_switch && both_branches_present in
    exit_ok (int_line (bool_as_i32 target_specific) ∷ [])

-- 215_pkg_patch_override
abbrev pub pkg_patch_override_main :
    String → String → String → String → String → String → String → Exit
pkg_patch_override_main pkg root patches helper upstream override_src patch_defs =
    let package_named = contains pkg "name = \"demo-215\"" in
    let patch_module =
      contains root "src/patches/index.sa" && contains patches "src/patches/helpers/index.sa" in
    let override_wraps_upstream =
      contains helper "override.sa"
      && contains override_src "upstream.sa"
      && contains upstream "@upstream_patch_value()" in
    let patch_bias = contains patch_defs "PATCH_BIAS = 5" && contains override_src "PATCH_BIAS" in
    let patched = package_named && patch_module && override_wraps_upstream && patch_bias in
    exit_ok (int_line (bool_as_i32 patched) ∷ [])

-- 216_pkg_profile_release
abbrev pub pkg_profile_release_main : String → String → String → String → String → Exit
pkg_profile_release_main pkg root profile helper profile_defs =
    let package_named = contains pkg "name = \"demo-216\"" in
    let release_tree =
      contains root "src/profiles/release/index.sa" && contains profile "helpers/index.sa" in
    let release_helper =
      contains helper "@release_helper_value()" && contains helper "PROFILE_OFFSET" in
    let release_constant = contains profile_defs "PROFILE_OFFSET = 16" in
    let release_profile = package_named && release_tree && release_helper && release_constant in
    exit_ok (int_line (bool_as_i32 release_profile) ∷ [])

-- 217_pkg_profile_debug
abbrev pub pkg_profile_debug_main : String → String → String → String → String → Exit
pkg_profile_debug_main pkg root profile helper profile_defs =
    let package_named = contains pkg "name = \"demo-217\"" in
    let debug_tree =
      contains root "src/profiles/debug/index.sa" && contains profile "helpers/index.sa" in
    let debug_helper =
      contains helper "@debug_helper_value()" && contains helper "PROFILE_OFFSET" in
    let debug_constant = contains profile_defs "PROFILE_OFFSET = 17" in
    let debug_profile = package_named && debug_tree && debug_helper && debug_constant in
    exit_ok (int_line (bool_as_i32 debug_profile) ∷ [])

-- 218_pkg_metadata_custom
abbrev pub pkg_metadata_custom_main : String → String → String → String → String → Exit
pkg_metadata_custom_main pkg root metadata helper metadata_defs =
    let package_named = contains pkg "name = \"demo-218\"" in
    let custom_metadata = contains pkg "custom-key = \"metadata tree\"" in
    let metadata_tree =
      contains root "src/metadata/index.sa" && contains metadata "helpers/index.sa" in
    let metadata_helper =
      contains helper "@metadata_helper_value()" && contains metadata_defs "METADATA_OFFSET = 18" in
    let metadata_layout = package_named && custom_metadata && metadata_tree && metadata_helper in
    exit_ok (int_line (bool_as_i32 metadata_layout) ∷ [])

-- 219_pkg_bin_multiple
abbrev pub pkg_bin_multiple_main : String → String → String → String → String → String → Exit
pkg_bin_multiple_main pkg bins alpha beta alpha_defs beta_defs =
    let package_named = contains pkg "name = \"demo-219\"" in
    let declares_both_bins = contains pkg "bin/alpha" && contains pkg "bin/beta" in
    let aggregate_imports_both =
      contains bins "bin/alpha/index.sa" && contains bins "bin/beta/index.sa" in
    let bin_entries_exist =
      contains alpha "@alpha_bin_value()" && contains beta "@beta_bin_value()" in
    let bin_values_defined =
      contains alpha_defs "ALPHA_BIN_VALUE = 100" && contains beta_defs "BETA_BIN_VALUE = 119" in
    let multiple_bins =
      package_named && declares_both_bins && aggregate_imports_both && bin_entries_exist
      && bin_values_defined in
    exit_ok (int_line (bool_as_i32 multiple_bins) ∷ [])

-- 220_pkg_lib_dynamic
abbrev pub pkg_lib_dynamic_main :
    String → String → String → String → String → String → String → Exit
pkg_lib_dynamic_main pkg host_text host_defs iface lib lib_impl lib_defs =
    let package_split = contains pkg "library = \"lib\"" && contains pkg "host = \"host\"" in
    let host_consumes_iface =
      contains host_text "lib/iface.sai" && contains iface "@extern sa_library_dynamic_value()" in
    let lib_exports_iface =
      contains lib "@export sa_library_dynamic_value()" && contains lib_impl "helpers/index.sa" in
    let values_defined =
      contains host_defs "HOST_WRAPPER_BONUS = 40" && contains lib_defs "LIB_DYNAMIC_VALUE = 180" in
    let dynamic_layout =
      package_split && host_consumes_iface && lib_exports_iface && values_defined in
    exit_ok (int_line (bool_as_i32 dynamic_layout) ∷ [])
