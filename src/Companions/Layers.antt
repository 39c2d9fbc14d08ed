-- ===== src/Companions/Layers.antt =====
-- demos/rosetta/231 to 240: programs that check the paths between directories of modules. The texts of the companion files are the
-- parameters, in the order in which the program includes them.
use sa_plugin_sla.Prelude.{not, String, ◌&&◌, [], ◌∷◌}
use sa_plugin_sla.Rust.{Exit, exit_ok, int_line}
use sa_plugin_sla.Companions.Text.{contains, find, lt_option, bool_as_i32}

-- 231_mod_directory_module
abbrev pub mod_directory_module_main : String → String → String → String → Exit
mod_directory_module_main module_root module_leaf tree_root tree_leaf =
    let root_imports_tree =
      contains module_root "module/tree/index.sa"
      && contains module_root "@export directory_value()" in
    let tree_imports_leaf =
      contains tree_root "module/tree/leaf.sa"
      && contains tree_root "@export module_tree_value()" in
    let tree_leaf_exports = contains tree_leaf "@export module_leaf_value()" in
    let sibling_leaf_is_separate =
      contains module_leaf "@leaf_value()" && not (contains module_root "module/leaf.sa") in
    let directory_module =
      root_imports_tree && tree_imports_leaf && tree_leaf_exports && sibling_leaf_is_separate in
    exit_ok (int_line (bool_as_i32 directory_module) ∷ [])

-- 232_mod_conditional_import
abbrev pub mod_conditional_import_main : String → String → String → String → String → Exit
mod_conditional_import_main selector native native_seed portable portable_seed =
    let selector_has_both_branches =
      contains selector "profiles/native/index.sa"
      && contains selector "profiles/portable/index.sa" in
    let selector_chooses_native =
      contains selector "call @native_value()"
      && not (contains selector "call @portable_value()") in
    let native_branch_complete =
      contains native "native/detail/seed.sa" && contains native_seed "@export native_seed()" in
    let portable_branch_complete =
      contains portable "portable/detail/seed.sa"
      && contains portable_seed "@export portable_seed()" in
    let conditional_import =
      selector_has_both_branches && selector_chooses_native && native_branch_complete
      && portable_branch_complete in
    exit_ok (int_line (bool_as_i32 conditional_import) ∷ [])

-- 233_mod_alias_import
abbrev pub mod_alias_import_main : String → String → String → Exit
mod_alias_import_main alias deep seed =
    let alias_wraps_deep =
      contains alias "alias/deep/index.sa" && contains alias "@export alias_value()" in
    let deep_imports_seed =
      contains deep "alias/deep/seed.sa" && contains deep "@export alias_deep_value()" in
    let seed_exported = contains seed "@export alias_seed()" in
    let short_surface_hides_seed = not (contains alias "alias_seed") in
    let alias_import =
      alias_wraps_deep && deep_imports_seed && seed_exported && short_surface_hides_seed in
    exit_ok (int_line (bool_as_i32 alias_import) ∷ [])

-- 234_mod_unused_import_lint
abbrev pub mod_unused_import_lint_main : String → String → String → String → String → Exit
mod_unused_import_lint_main lint used used_seed unused unused_seed =
    let imports_both = contains lint "lint/used/index.sa" && contains lint "lint/unused/index.sa" in
    let only_used_called =
      contains lint "call @lint_used_value()" && not (contains lint "call @lint_unused_value()") in
    let used_branch_complete =
      contains used "lint/used/detail/seed.sa" && contains used_seed "@export lint_used_seed()" in
    let unused_branch_complete =
      contains unused "lint/unused/detail/seed.sa"
      && contains unused_seed "@export lint_unused_seed()" in
    let unused_lint_fixture =
      imports_both && only_used_called && used_branch_complete && unused_branch_complete in
    exit_ok (int_line (bool_as_i32 unused_lint_fixture) ∷ [])

-- 235_mod_transitive_dependency
abbrev pub mod_transitive_dependency_main : String → String → String → String → String → Exit
mod_transitive_dependency_main dep mid leaf legacy_mid legacy_leaf =
    let dep_imports_mid = contains dep "dep/mid.sa" && contains dep "@export transitive_value()" in
    let mid_imports_leaf = contains mid "dep/leaf.sa" && contains mid "@export dep_mid_value()" in
    let leaf_exports_value = contains leaf "@export dep_leaf_value()" in
    let older_flat_path_kept =
      contains legacy_mid "@import \"leaf.sa\"" && contains legacy_leaf "@leaf_value()" in
    let transitive_dependency =
      dep_imports_mid && mid_imports_leaf && leaf_exports_value && older_flat_path_kept in
    exit_ok (int_line (bool_as_i32 transitive_dependency) ∷ [])

-- 236_mod_extern_block_grouping
abbrev pub mod_extern_block_grouping_main : String → String → String → String → String → Exit
mod_extern_block_grouping_main group iface layout bridge seed =
    let group_imports_layers =
      contains group "index.sai" && contains group "layout.sal" && contains group "bridge.sa" in
    let grouped_contracts =
      contains iface "ffi_probe_contract" && contains iface "ffi_reset_contract" in
    let shared_layout = contains layout "Group_SIZE = 4" && contains layout "Group_value = +0" in
    let bridge_exports_both =
      contains bridge "@export ffi_probe"
      && contains bridge "@export ffi_reset"
      && contains bridge "core/seed.sa" in
    let seed_exported = contains seed "@export ffi_seed()" in
    let extern_group =
      group_imports_layers && grouped_contracts && shared_layout && bridge_exports_both
      && seed_exported in
    exit_ok (int_line (bool_as_i32 extern_group) ∷ [])

-- 237_mod_inline_submodule
abbrev pub mod_inline_submodule_main : String → String → String → Exit
mod_inline_submodule_main submodule inline seed =
    let outer_imports_inline =
      contains submodule "submodule/inline/index.sa"
      && contains submodule "@export submodule_value()" in
    let inline_imports_seed =
      contains inline "submodule/inline/deep/seed.sa" && contains inline "@export inline_value()" in
    let seed_exported = contains seed "@export inline_seed()" in
    let inline_submodule = outer_imports_inline && inline_imports_seed && seed_exported in
    exit_ok (int_line (bool_as_i32 inline_submodule) ∷ [])

-- 238_mod_path_resolution_order. `None < Some(i)`, as `Option<usize>` is ordered.
abbrev pub mod_path_resolution_order_main : String → String → String → String → String → Exit
mod_path_resolution_order_main paths first first_seed second second_seed =
    let explicit_order =
      lt_option (find paths "paths/first/index.sa") (find paths "paths/second/index.sa") in
    let aggregate_imports_both =
      contains paths "@export path_value()"
      && contains paths "paths/first/index.sa"
      && contains paths "paths/second/index.sa" in
    let first_branch_complete =
      contains first "paths/first/deep/seed.sa" && contains first_seed "@export first_seed()" in
    let second_branch_complete =
      contains second "paths/second/deep/seed.sa" && contains second_seed "@export second_seed()" in
    let path_order =
      explicit_order && aggregate_imports_both && first_branch_complete && second_branch_complete in
    exit_ok (int_line (bool_as_i32 path_order) ∷ [])

-- 239_mod_version_suffix_isolation
abbrev pub mod_version_suffix_isolation_main :
    String → String → String → String → String → String → String → Exit
mod_version_suffix_isolation_main versions v1 v1_layout v1_seed v2 v2_layout v2_seed =
    let aggregate_imports_both =
      contains versions "versions/v1/index.sa" && contains versions "versions/v2/index.sa" in
    let v1_isolated =
      contains v1 "versions/v1/layout.sal"
      && contains v1_layout "V1_SIZE"
      && contains v1_seed "@export v1_seed()" in
    let v2_isolated =
      contains v2 "versions/v2/layout.sal"
      && contains v2_layout "V2_SIZE"
      && contains v2_seed "@export v2_seed()" in
    let no_cross_layout = not (contains v1 "V2_") && not (contains v2 "V1_") in
    let version_isolation =
      aggregate_imports_both && v1_isolated && v2_isolated && no_cross_layout in
    exit_ok (int_line (bool_as_i32 version_isolation) ∷ [])

-- 240_mod_entry_point_override
abbrev pub mod_entry_point_override_main : String → String → String → String → String → Exit
mod_entry_point_override_main entry default default_seed override_entry override_seed =
    let entry_has_both =
      contains entry "entry/default/index.sa" && contains entry "entry/override/index.sa" in
    let override_selected =
      contains entry "call @override_entry_value()"
      && not (contains entry "call @default_entry_value()") in
    let default_branch_complete =
      contains default "entry/default/detail/seed.sa"
      && contains default_seed "@export default_seed()" in
    let override_branch_complete =
      contains override_entry "entry/override/detail/seed.sa"
      && contains override_seed "@export override_seed()" in
    let entry_override =
      entry_has_both && override_selected && default_branch_complete && override_branch_complete in
    exit_ok (int_line (bool_as_i32 entry_override) ∷ [])
