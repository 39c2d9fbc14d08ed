-- ===== src/Companions/Builds.antt =====
-- demos/rosetta/261 to 270: programs that check the inputs and outputs of builds. The texts of the companion files are the
-- parameters, in the order in which the program includes them.
use sa_plugin_sla.Prelude.{String, ◌&&◌, [], ◌∷◌}
use sa_plugin_sla.Rust.{Exit, exit_ok, int_line}
use sa_plugin_sla.Companions.Text.{contains, bool_as_i32}

-- 261_build_rs_codegen_saasm
abbrev pub build_rs_codegen_saasm_main : String → String → String → Exit
build_rs_codegen_saasm_main plan config generated =
    let plan_has_steps =
      contains plan "read the manifest"
      && contains plan "emit the generated SA-ASM module"
      && contains plan "keep the output under generated/" in
    let config_wires_input_output =
      contains config "input = \"build/codegen-plan.txt\""
      && contains config "output = \"generated/codegen.sa\"" in
    let generated_mentions_source =
      contains generated "build/codegen.toml"
      && contains generated "build/codegen-plan.txt"
      && contains generated "@codegen_value() -> i32" in
    let codegen_contract =
      plan_has_steps && config_wires_input_output && generated_mentions_source in
    exit_ok (int_line (bool_as_i32 codegen_contract) ∷ [])

-- 262_build_bindgen_c_header
abbrev pub build_bindgen_c_header_main : String → String → String → String → Exit
build_bindgen_c_header_main config header_api header_platform generated =
    let config_lists_headers =
      contains config "bindgen/include/ffi_api.h"
      && contains config "bindgen/include/ffi_platform.h"
      && contains config "output = \"generated/bindings.sa\"" in
    let headers_define_version_and_name =
      contains header_api "#define FFI_API_VERSION 262"
      && contains header_api "int ffi_api_version(void);"
      && contains header_platform "#define FFI_PLATFORM_NAME \"saasm-bindgen\"" in
    let generated_mentions_headers =
      contains generated "bindgen/bindgen.toml"
      && contains generated "bindgen/include/*.h"
      && contains generated "@bindgen_value() -> i32" in
    let bindgen_contract =
      config_lists_headers && headers_define_version_and_name && generated_mentions_headers in
    exit_ok (int_line (bool_as_i32 bindgen_contract) ∷ [])

-- 263_build_asset_bundling
abbrev pub build_asset_bundling_main : String → String → String → String → Exit
build_asset_bundling_main logo tagline manifest generated =
    let assets_are_real =
      contains logo "SA-ASM asset bundle" && contains tagline "bundled from assets/text" in
    let manifest_lists_assets =
      contains manifest "assets/text/logo.txt"
      && contains manifest "assets/text/tagline.txt"
      && contains manifest "output = \"generated/asset_bundle.sa\"" in
    let generated_mentions_sources =
      contains generated "bundle/manifest.toml"
      && contains generated "assets/text/*.txt"
      && contains generated "@asset_bundle_value() -> i32" in
    let bundle_contract = assets_are_real && manifest_lists_assets && generated_mentions_sources in
    exit_ok (int_line (bool_as_i32 bundle_contract) ∷ [])

-- 264_build_env_var_injection
abbrev pub build_env_var_injection_main : String → String → String → String → Exit
build_env_var_injection_main config dev release generated =
    let config_selects_release =
      contains config "profile = \"release\""
      && contains config "env/dev.env"
      && contains config "env/release.env" in
    let env_files_capture_profile =
      contains dev "SA_PROFILE=dev"
      && contains dev "SA_FEATURE_LOGGING=1"
      && contains release "SA_PROFILE=release"
      && contains release "SA_FEATURE_LOGGING=0" in
    let generated_mentions_env_inputs =
      contains generated "build/env.toml"
      && contains generated "env/*.env"
      && contains generated "@env_profile_value() -> i32" in
    let env_contract =
      config_selects_release && env_files_capture_profile && generated_mentions_env_inputs in
    exit_ok (int_line (bool_as_i32 env_contract) ∷ [])

-- 265_build_custom_linker_script
abbrev pub build_custom_linker_script_main : String → String → String → String → Exit
build_custom_linker_script_main config script memory generated =
    let config_wires_linker_inputs =
      contains config "script = \"linker/linker.ld\""
      && contains config "memory = \"linker/memory.x\""
      && contains config "output = \"generated/link_plan.sa\"" in
    let linker_files_are_real =
      contains script "ENTRY(_start)"
      && contains script ".text : { *(.text*) }"
      && contains memory "FLASH : ORIGIN = 0x00000000, LENGTH = 64K"
      && contains memory "RAM   : ORIGIN = 0x20000000, LENGTH = 16K" in
    let generated_mentions_linker_sources =
      contains generated "build/linker.toml"
      && contains generated "linker/*.x, linker/*.ld"
      && contains generated "@link_plan_value() -> i32" in
    let linker_contract =
      config_wires_linker_inputs && linker_files_are_real && generated_mentions_linker_sources in
    exit_ok (int_line (bool_as_i32 linker_contract) ∷ [])

-- 266_build_pre_compile_hook
abbrev pub build_pre_compile_hook_main : String → String → String → String → Exit
build_pre_compile_hook_main config script notes generated =
    let config_points_to_hook =
      contains config "pre_compile = \"hooks/pre-compile.sh\""
      && contains config "output = \"generated/precompile.sa\"" in
    let hook_script_mentions_generation =
      contains script "prepare generated/precompile.sa"
      && contains script "pre-compile hook prepares inputs before SA-ASM compilation" in
    let hook_notes_match =
      contains notes "pre-compile hook"
      && contains notes "prepare source metadata"
      && contains notes "emit generated/precompile.sa" in
    let generated_mentions_hook =
      contains generated "hooks/pre-compile.sh"
      && contains generated "build/pre-hooks.toml"
      && contains generated "@precompile_value() -> i32" in
    let precompile_contract =
      config_points_to_hook && hook_script_mentions_generation && hook_notes_match
      && generated_mentions_hook in
    exit_ok (int_line (bool_as_i32 precompile_contract) ∷ [])

-- 267_build_post_compile_hook
abbrev pub build_post_compile_hook_main : String → String → String → String → String → Exit
build_post_compile_hook_main config script manifest report generated =
    let config_points_to_post_hook =
      contains config "post_compile = \"hooks/post-compile.sh\""
      && contains config "artifact_manifest = \"artifacts/post-build/manifest.json\""
      && contains config "output = \"generated/postcompile.sa\"" in
    let post_hook_writes_report =
      contains script "collect artifacts/post-build/report.txt"
      && contains script "writes reports after the SA-ASM output exists" in
    let artifacts_are_real =
      contains manifest "\"stage\": \"post-compile\""
      && contains manifest "generated/postcompile.sa"
      && contains report "post-compile report for 267" in
    let generated_mentions_post_hook =
      contains generated "hooks/post-compile.sh"
      && contains generated "build/post-hooks.toml"
      && contains generated "@postcompile_value() -> i32" in
    let postcompile_contract =
      config_points_to_post_hook && post_hook_writes_report && artifacts_are_real
      && generated_mentions_post_hook in
    exit_ok (int_line (bool_as_i32 postcompile_contract) ∷ [])

-- 268_build_cross_compile_wasm
abbrev pub build_cross_compile_wasm_main : String → String → Exit
build_cross_compile_wasm_main target generated =
    let target_is_wasm =
      contains target "triple = \"wasm32-unknown-unknown\""
      && contains target "linker = \"rust-lld\"" in
    let generated_tracks_target =
      contains generated "build/wasm/target.toml"
      && contains generated "#def WASM_PROFILE_COUNT = 2"
      && contains generated "@wasm_profile_value() -> i32"
      && contains generated "@wasm_profile_count() -> i32" in
    let wasm_contract = target_is_wasm && generated_tracks_target in
    exit_ok (int_line (bool_as_i32 wasm_contract) ∷ [])

-- 269_build_cross_compile_windows
abbrev pub build_cross_compile_windows_main : String → String → Exit
build_cross_compile_windows_main target generated =
    let target_is_windows =
      contains target "triple = \"x86_64-pc-windows-msvc\""
      && contains target "subsystem = \"console\"" in
    let generated_tracks_target =
      contains generated "build/windows/target.toml"
      && contains generated "#def WINDOWS_PROFILE_COUNT = 2"
      && contains generated "@windows_profile_value() -> i32"
      && contains generated "@windows_profile_count() -> i32" in
    let windows_contract = target_is_windows && generated_tracks_target in
    exit_ok (int_line (bool_as_i32 windows_contract) ∷ [])

-- 270_build_sysroot_custom
abbrev pub build_sysroot_custom_main : String → String → String → String → Exit
build_sysroot_custom_main config stdio stdlib generated =
    let config_points_to_sysroot =
      contains config "target = \"freestanding\""
      && contains config "include = \"include/sysroot\"" in
    let headers_define_custom_surface =
      contains stdio "int sa_puts(const char *s);"
      && contains stdlib "void *sa_alloc(unsigned long size);" in
    let generated_mentions_sysroot =
      contains generated "build/sysroot.toml"
      && contains generated "include/sysroot/*.h"
      && contains generated "#def SYSROOT_LAYOUT_COUNT = 2" in
    let sysroot_contract =
      config_points_to_sysroot && headers_define_custom_surface && generated_mentions_sysroot in
    exit_ok (int_line (bool_as_i32 sysroot_contract) ∷ [])
