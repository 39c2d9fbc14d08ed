-- ===== src/Tests/Companions.antt =====
-- Programs that check their companion files, on the texts that these files have.
use sa_plugin_sla.Prelude.{pos, ◌≡◌, refl, [], ◌∷◌}
use sa_plugin_sla.Rust.{exit_ok, int_line}
use sa_plugin_sla.Companions.Text.{contains, occurs}
use sa_plugin_sla.Companions.Packages.{pkg_cyclic_dependency_reject_main}
use sa_plugin_sla.Companions.Workspaces.{pkg_default_features_main}
use sa_plugin_sla.Companions.Modules.{mod_iface_separation_main}
use sa_plugin_sla.Companions.Layers.{mod_alias_import_main}
use sa_plugin_sla.Companions.Layouts.{contract_generic_monomorph_share_main}
use sa_plugin_sla.Companions.Services.{contract_plugin_system_main}
use sa_plugin_sla.Companions.Builds.{build_asset_bundling_main}
use sa_plugin_sla.Companions.Pipelines.{build_parallel_compilation_main}
use sa_plugin_sla.Companions.Linking.{ffi_zig_export_integration_main}
use sa_plugin_sla.Companions.Platforms.{eco_bpf_ebpf_bytecode_main}

pkg_cyclic_dependency_reject_prints :
    pkg_cyclic_dependency_reject_main
      "@import \"pkg_a/../pkg_b/main.sa\"\n\n#def PkgA_SIZE = 4\n#def PkgA_value = +0\n\n@pkg_a_value() -> i32:\nL_ENTRY:\n    value = add 1, 0\n    !value\n    return 1\n"
      "@import \"pkg_b/../pkg_a/main.sa\"\n\n#def PkgB_SIZE = 4\n#def PkgB_value = +0\n\n@pkg_b_value() -> i32:\nL_ENTRY:\n    value = add 2, 0\n    !value\n    return 2\n"
    ≡ exit_ok (int_line (pos 1) ∷ [])
unfolding contains occurs
pkg_cyclic_dependency_reject_prints = refl

pkg_default_features_prints :
    pkg_default_features_main
      "# Future metadata only. Not compiler input.\n[package]\nname = \"demo-213\"\nversion = \"0.1.0\"\n"
      "@import \"src/defaults/index.sa\"\n\n@src_package_value() -> i32:\nL_ENTRY:\n    defaults = call @defaults_package_value()\n    value = add 200, defaults\n    !defaults\n    return value\n"
      "@import \"src/defaults/helpers/index.sa\"\n\n@defaults_package_value() -> i32:\nL_ENTRY:\n    value = call @defaults_helper_value()\n    return value\n"
      "#def DEFAULT_OFFSET = 13\n"
      "@import \"src/defaults/helpers/defaults.sal\"\n\n@defaults_helper_value() -> i32:\nL_ENTRY:\n    value = add DEFAULT_OFFSET, 0\n    !value\n    return DEFAULT_OFFSET\n"
    ≡ exit_ok (int_line (pos 1) ∷ [])
unfolding contains occurs
pkg_default_features_prints = refl

mod_iface_separation_prints :
    mod_iface_separation_main "@extern contract_score_contract(&slot: ptr) -> i32\n"
      "#def Contract_SIZE = 4\n#def Contract_value = +0\n"
      "@export contract_score(&slot: ptr) -> i32:\nL_ENTRY:\n    value = load slot+Contract_value as i32\n    !slot\n    return value\n"
    ≡ exit_ok (int_line (pos 1) ∷ [])
unfolding contains occurs
mod_iface_separation_prints = refl

mod_alias_import_prints :
    mod_alias_import_main
      "@import \"alias/deep/index.sa\"\n\n@export alias_value() -> i32:\nL_ENTRY:\n    value = call @alias_deep_value()\n    return value\n"
      "@import \"alias/deep/seed.sa\"\n\n@export alias_deep_value() -> i32:\nL_ENTRY:\n    seed = call @alias_seed()\n    value = add seed, 200\n    !seed\n    return value\n"
      "@export alias_seed() -> i32:\nL_ENTRY:\n    value = add 33, 0\n    !value\n    return 33\n"
    ≡ exit_ok (int_line (pos 1) ∷ [])
unfolding contains occurs
mod_alias_import_prints = refl

contract_generic_monomorph_share_prints :
    contract_generic_monomorph_share_main "@extern shared_value(seed: i32) -> i32\n"
      "@export shared_value(seed: i32) -> i32:\nL_ENTRY:\n    value = add seed, 0\n    return value\n"
      "@import \"consumer/../impl/generic_impl.sa\"\n\n@generic_consumer_value() -> i32:\nL_ENTRY:\n    value = call @shared_value(245)\n    ok = eq value, 245\n    !value\n    br ok -> L_OK, L_ERR\n\nL_OK:\n    return 245\n\nL_ERR:\n    return 0\n"
    ≡ exit_ok (int_line (pos 1) ∷ [])
unfolding contains occurs
contract_generic_monomorph_share_prints = refl

contract_plugin_system_prints :
    contract_plugin_system_main "@extern plugin_dispatch(tag: i32) -> i32\n"
      "@export plugin_dispatch(tag: i32) -> i32:\nL_ENTRY:\n    value = add tag, 0\n    !tag\n    !value\n    return 254\n"
      "@import \"consumer/../impl/plugin_impl.sa\"\n\n@plugin_consumer_value() -> i32:\nL_ENTRY:\n    value = call @plugin_dispatch(254)\n    ok = eq value, 254\n    !value\n    br ok -> L_OK, L_ERR\n\nL_OK:\n    return 254\n\nL_ERR:\n    return 0\n"
    ≡ exit_ok (int_line (pos 1) ∷ [])
unfolding contains occurs
contract_plugin_system_prints = refl

build_asset_bundling_prints :
    build_asset_bundling_main "SA-ASM asset bundle\n" "bundled from assets/text\n"
      "[bundle]\nassets = [\n  \"assets/text/logo.txt\",\n  \"assets/text/tagline.txt\",\n]\noutput = \"generated/asset_bundle.sa\"\n"
      "// Generated from bundle/manifest.toml and assets/text/*.txt.\n@asset_bundle_value() -> i32:\nL_ENTRY:\n    value = add 262, 1\n    !value\n    return 263\n"
    ≡ exit_ok (int_line (pos 1) ∷ [])
unfolding contains occurs
build_asset_bundling_prints = refl

build_parallel_compilation_prints :
    build_parallel_compilation_main "[job]\nname = \"parse\"\nweight = 1\n"
      "[job]\nname = \"codegen\"\nweight = 2\n"
      "// Generated from build/parallel/jobs/*.toml.\n#def PARALLEL_JOB_COUNT = 2\n\n@parallel_schedule_value() -> i32:\nL_ENTRY:\n    value = add 276, 1\n    !value\n    return 277\n\n@parallel_schedule_count() -> i32:\nL_ENTRY:\n    count = add 1, 1\n    !count\n    return PARALLEL_JOB_COUNT\n"
    ≡ exit_ok (int_line (pos 0) ∷ [])
unfolding contains occurs
build_parallel_compilation_prints = refl

ffi_zig_export_integration_prints :
    ffi_zig_export_integration_main
      "@import \"guest/zig_export.sal\"\n\n@export zig_entry() -> i32:\nL_ENTRY:\n    return ZigExport_VALUE\n"
      "#def ZigExport_VALUE = 287\n"
      "The Zig host would call the exported SA entrypoint from this bridge layer.\n"
      "This note stands in for the Zig build script that would import the exported SA symbol.\n"
      "#ifndef DEMO_287_ZIG_EXPORTED_H\n#define DEMO_287_ZIG_EXPORTED_H\n\nint zig_entry(void);\n\n#endif\n"
    ≡ exit_ok (int_line (pos 1) ∷ [])
unfolding contains occurs
ffi_zig_export_integration_prints = refl

eco_bpf_ebpf_bytecode_prints :
    eco_bpf_ebpf_bytecode_main
      "@import \"guest/program.sal\"\n\n@ffi_wrapper ebpf_gate(*packet: ptr) -> i32:\nL_ENTRY:\n    view = assume_borrow packet\n    kind = load view+BpfPacket_kind as i32\n    value = load view+BpfPacket_value as i32\n    sum = add kind, value\n    !value\n    !kind\n    !view\n    return sum\n\n@export ebpf_guest_entry() -> i32:\nL_ENTRY:\n    packet = alloc BpfPacket_SIZE\n    store packet+BpfPacket_kind, 295 as i32\n    store packet+BpfPacket_value, 0 as i32\n    value = call @ebpf_gate(*packet)\n    !packet\n    return value\n"
      "#def BpfPacket_SIZE = 8\n#def BpfPacket_kind = +0\n#def BpfPacket_value = +4\n"
      "This tree shows the source, attach metadata, and pinned path separately.\n"
      "attach = demo-295\nprogram = guest/program.sa\n"
      "{\n  \"pin\": \"/sys/fs/bpf/demo-295\"\n}\n"
    ≡ exit_ok (int_line (pos 1) ∷ [])
unfolding contains occurs
eco_bpf_ebpf_bytecode_prints = refl
