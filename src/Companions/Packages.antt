-- ===== src/Companions/Packages.antt =====
-- demos/rosetta/201 to 210: programs that check the manifests of packages. The texts of the companion files are the
-- parameters, in the order in which the program includes them.
use sa_plugin_sla.Prelude.{not, if◌then◌else◌, pos, String, ◌&&◌, [], ◌∷◌}
use sa_plugin_sla.Rust.{Exit, exit_ok, int_line, print, add_i32, ◌>>=◌}
use sa_plugin_sla.Companions.Text.{contains, bool_as_i32}

-- 201_pkg_manifest_basic
abbrev pub pkg_manifest_basic_main : String → Exit
pkg_manifest_basic_main pkg =
    let has_name = contains pkg "name = \"demo-201\"" in
    let has_version = contains pkg "version = \"0.1.0\"" in
    let has_entry = contains pkg "entry = \"main.sa\"" in
    print int_line (do
      named ← add_i32 (bool_as_i32 has_name) (bool_as_i32 has_version)
      add_i32 named (bool_as_i32 has_entry))

-- 202_pkg_dependencies_local
abbrev pub pkg_dependencies_local_main : String → String → Exit
pkg_dependencies_local_main pkg dep_src =
    let has_local_path = contains pkg "path = \"pkg/local_dep.sa\"" in
    let has_local_symbol = contains dep_src "@local_dep_value()" in
    let result = if has_local_path && has_local_symbol then pos 1 else pos 0 in
    exit_ok (int_line result ∷ [])

-- 203_pkg_dependencies_git
abbrev pub pkg_dependencies_git_main : String → String → Exit
pkg_dependencies_git_main pkg vendor =
    let has_git_url = contains pkg "git = \"https://example.invalid/demo-203.git\"" in
    let has_rev = contains pkg "rev = \"d17c0de\"" in
    let has_vendor_checkout = contains vendor "@git_dep_value()" in
    let result = if has_git_url && has_rev && has_vendor_checkout then pos 1 else pos 0 in
    exit_ok (int_line result ∷ [])

-- 204_pkg_dependencies_registry
abbrev pub pkg_dependencies_registry_main : String → String → Exit
pkg_dependencies_registry_main pkg codec =
    let has_registry = contains pkg "registry = \"sa-lang\"" in
    let has_version = contains pkg "version = \"1.2.3\"" in
    let has_cached_codec = contains codec "@codec_value()" in
    let result = if has_registry && has_version && has_cached_codec then pos 1 else pos 0 in
    exit_ok (int_line result ∷ [])

-- 205_pkg_cyclic_dependency_reject
abbrev pub pkg_cyclic_dependency_reject_main : String → String → Exit
pkg_cyclic_dependency_reject_main pkg_a pkg_b =
    let a_imports_b = contains pkg_a "@import \"pkg_a/../pkg_b/main.sa\"" in
    let b_imports_a = contains pkg_b "@import \"pkg_b/../pkg_a/main.sa\"" in
    let result = if a_imports_b && b_imports_a then pos 1 else pos 0 in
    exit_ok (int_line result ∷ [])

-- 207_pkg_multiple_versions_conflict
abbrev pub pkg_multiple_versions_conflict_main :
    String → String → String → String → String → String → Exit
pkg_multiple_versions_conflict_main root resolver v1_pkg v2_pkg v1_leaf v2_leaf =
    let same_package =
      contains v1_pkg "name = \"demo-207-dep\"" && contains v2_pkg "name = \"demo-207-dep\"" in
    let incompatible_versions =
      contains v1_pkg "version = \"1.0.0\"" && contains v2_pkg "version = \"2.0.0\"" in
    let resolver_imports_both =
      contains resolver "v1_0_0/index.sa" && contains resolver "v2_0_0/index.sa" in
    let duplicate_symbol = contains v1_leaf "@dep_value()" && contains v2_leaf "@dep_value()" in
    let declared_conflict = contains root "same public symbol in two versioned packages" in
    let conflict_reported =
      same_package && incompatible_versions && resolver_imports_both && duplicate_symbol
      && declared_conflict in
    exit_ok (int_line (bool_as_i32 conflict_reported) ∷ [])

-- 208_pkg_dev_dependencies
abbrev pub pkg_dev_dependencies_main : String → String → String → String → Exit
pkg_dev_dependencies_main pkg main_src dev_test dev_helper =
    let declares_dev_dep = contains pkg "dev-dependencies" && contains pkg "dev/helpers" in
    let release_path_avoids_dev = not (contains main_src "dev/") in
    let dev_path_reuses_helper_flags = contains dev_helper "src/helpers/flags.sal" in
    let dev_tests_use_dev_helpers = contains dev_test "dev/tests/../helpers/index.sa" in
    let result =
      declares_dev_dep && release_path_avoids_dev && dev_path_reuses_helper_flags
      && dev_tests_use_dev_helpers in
    exit_ok (int_line (bool_as_i32 result) ∷ [])

-- 209_pkg_build_dependencies
abbrev pub pkg_build_dependencies_main : String → String → String → String → Exit
pkg_build_dependencies_main pkg src generated generated_consts =
    let declares_build_dep = contains pkg "build-dependencies" && contains pkg "build/generated" in
    let src_imports_generated = contains src "build/generated/index.sa" in
    let generated_uses_artifact =
      contains generated "generated.sal" && contains generated "@generated_artifact_offset()" in
    let artifact_value = contains generated_consts "BUILD_ARTIFACT_OFFSET = 9" in
    let result =
      declares_build_dep && src_imports_generated && generated_uses_artifact && artifact_value in
    exit_ok (int_line (bool_as_i32 result) ∷ [])

-- 210_pkg_workspace_root
abbrev pub pkg_workspace_root_main : String → String → String → String → Exit
pkg_workspace_root_main root workspace alpha_pkg beta_pkg =
    let root_lists_alpha = contains root "workspace/members/alpha" in
    let root_lists_beta = contains root "workspace/members/beta" in
    let workspace_imports_members =
      contains workspace "alpha/index.sa" && contains workspace "beta/index.sa" in
    let named_members = contains alpha_pkg "demo-210-alpha" && contains beta_pkg "demo-210-beta" in
    let result =
      root_lists_alpha && root_lists_beta && workspace_imports_members && named_members in
    exit_ok (int_line (bool_as_i32 result) ∷ [])
