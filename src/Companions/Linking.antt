-- ===== src/Companions/Linking.antt =====
-- demos/rosetta/281 to 290: programs that check the libraries a host links. The texts of the companion files are the
-- parameters, in the order in which the program includes them.
use sa_plugin_sla.Prelude.{String, ◌&&◌, [], ◌∷◌}
use sa_plugin_sla.Rust.{Exit, exit_ok, int_line}
use sa_plugin_sla.Companions.Text.{contains, bool_as_i32}

-- 281_ffi_link_system_libc
abbrev pub ffi_link_system_libc_main : String → String → String → String → String → String → Exit
ffi_link_system_libc_main bridge layout ffi header linker pkg =
    let bridge_uses_libc_ffi =
      contains bridge "ffi/libc.sai"
      && contains bridge "@ffi_wrapper libc_probe_gate(*probe: ptr) -> i32"
      && contains bridge "load view+LibcProbe_tag as i32" in
    let layout_matches_probe =
      contains layout "#def LibcProbe_SIZE = 4" && contains layout "#def LibcProbe_tag = +0" in
    let host_declares_system_probe =
      contains ffi "@extern system_probe(tag: i32) -> i32"
      && contains header "int system_probe(int tag);" in
    let link_metadata =
      contains linker "GROUP(-lc)"
      && contains pkg "Name: demo-281-system-libc"
      && contains pkg "Libs: -lc" in
    let libc_contract =
      bridge_uses_libc_ffi && layout_matches_probe && host_declares_system_probe && link_metadata in
    exit_ok (int_line (bool_as_i32 libc_contract) ∷ [])

-- 282_ffi_link_static_c_lib
abbrev pub ffi_link_static_c_lib_main : String → String → String → String → String → String → Exit
ffi_link_static_c_lib_main bridge layout ffi header archive linker =
    let bridge_uses_static_ffi =
      contains bridge "ffi/static_lib.sai"
      && contains bridge "@ffi_wrapper static_probe_gate(*slot: ptr) -> i32"
      && contains bridge "load view+StaticProbe_tag as i32" in
    let layout_matches_static_probe =
      contains layout "#def StaticProbe_SIZE = 4" && contains layout "#def StaticProbe_tag = +0" in
    let host_declares_static_probe =
      contains ffi "@extern staticlib_probe(tag: i32) -> i32"
      && contains header "int staticlib_probe(int tag);" in
    let archive_linked =
      contains archive "static archive"
      && contains linker "INPUT(libstatic.a)"
      && contains linker "GROUP(-lc)" in
    let static_contract =
      bridge_uses_static_ffi && layout_matches_static_probe && host_declares_static_probe
      && archive_linked in
    exit_ok (int_line (bool_as_i32 static_contract) ∷ [])

-- 283_ffi_link_dynamic_c_lib
abbrev pub ffi_link_dynamic_c_lib_main : String → String → String → String → String → String → Exit
ffi_link_dynamic_c_lib_main bridge layout ffi header rpath pkg =
    let bridge_uses_dynamic_ffi =
      contains bridge "ffi/dynamic_lib.sai"
      && contains bridge "@ffi_wrapper dynamic_probe_gate(*slot: ptr) -> i32"
      && contains bridge "load view+DynamicProbe_tag as i32" in
    let layout_matches_dynamic_probe =
      contains layout "#def DynamicProbe_SIZE = 4"
      && contains layout "#def DynamicProbe_tag = +0" in
    let host_declares_dynamic_probe =
      contains ffi "@extern dynamiclib_probe(tag: i32) -> i32"
      && contains header "int dynamiclib_probe(int tag);" in
    let dynamic_loader_metadata =
      contains rpath "loader=dlopen"
      && contains rpath "rpath=$ORIGIN"
      && contains pkg "Libs: -ldynamic" in
    let dynamic_contract =
      bridge_uses_dynamic_ffi && layout_matches_dynamic_probe && host_declares_dynamic_probe
      && dynamic_loader_metadata in
    exit_ok (int_line (bool_as_i32 dynamic_contract) ∷ [])

-- 284_ffi_pkg_config_integration
abbrev pub ffi_pkg_config_integration_main :
    String → String → String → String → String → String → Exit
ffi_pkg_config_integration_main config bridge layout ffi header pc =
    let config_points_to_pkgconfig =
      contains config "name = \"demo-284-pkg-config\""
      && contains config "libdir = \"host/pkgconfig\"" in
    let bridge_uses_pkg_config_ffi =
      contains bridge "ffi/pkg_config.sai"
      && contains bridge "@ffi_wrapper pkg_config_probe_gate(*probe: ptr) -> i32"
      && contains layout "#def PkgConfigProbe_tag = +0" in
    let host_declares_pkg_config_probe =
      contains ffi "@extern pkg_config_probe(tag: i32) -> i32"
      && contains header "int pkg_config_probe(int tag);" in
    let pc_exports_paths =
      contains pc "Name: demo-284-pkg-config"
      && contains pc "Libs: -ldemo284"
      && contains pc "Cflags: -I${includedir}" in
    let pkg_config_contract =
      config_points_to_pkgconfig && bridge_uses_pkg_config_ffi && host_declares_pkg_config_probe
      && pc_exports_paths in
    exit_ok (int_line (bool_as_i32 pkg_config_contract) ∷ [])

-- 285_ffi_objective_c_framework
abbrev pub ffi_objective_c_framework_main :
    String → String → String → String → String → String → Exit
ffi_objective_c_framework_main bridge layout ffi header modulemap binary_note =
    let bridge_uses_framework_layout =
      contains bridge "@ffi_wrapper objc_framework_gate(*frame: ptr) -> i32"
      && contains bridge "load view+ObjCFrame_framework as i32"
      && contains layout "#def ObjCFrame_framework = +4" in
    let ffi_and_header_match =
      contains ffi "@extern objc_framework_probe(tag: i32) -> i32"
      && contains header "int objc_framework_probe(int tag);" in
    let framework_bundle_metadata =
      contains modulemap "framework module DemoKit"
      && contains modulemap "header \"DemoKit.h\""
      && contains binary_note ".framework bundle" in
    let objc_contract =
      bridge_uses_framework_layout && ffi_and_header_match && framework_bundle_metadata in
    exit_ok (int_line (bool_as_i32 objc_contract) ∷ [])

-- 286_ffi_rust_staticlib_integration
abbrev pub ffi_rust_staticlib_integration_main :
    String → String → String → String → String → String → Exit
ffi_rust_staticlib_integration_main bridge layout ffi cargo header archive =
    let bridge_uses_rust_staticlib =
      contains bridge "ffi/rust_staticlib.sai"
      && contains bridge "@ffi_wrapper rust_staticlib_gate(*slot: ptr) -> i32"
      && contains bridge "load view+RustStaticProbe_minor as i32" in
    let layout_has_two_fields =
      contains layout "#def RustStaticProbe_tag = +0"
      && contains layout "#def RustStaticProbe_minor = +4" in
    let rust_host_metadata =
      contains ffi "@extern rust_staticlib_probe(tag: i32) -> i32"
      && contains cargo "name = \"demo286-bridge\""
      && contains header "int rust_staticlib_probe(int tag);"
      && contains archive "Rust build would hand to the linker" in
    let rust_staticlib_contract =
      bridge_uses_rust_staticlib && layout_has_two_fields && rust_host_metadata in
    exit_ok (int_line (bool_as_i32 rust_staticlib_contract) ∷ [])

-- 287_ffi_zig_export_integration
abbrev pub ffi_zig_export_integration_main : String → String → String → String → String → Exit
ffi_zig_export_integration_main guest layout bridge build_note header =
    let guest_exports_entry =
      contains guest "@export zig_entry() -> i32"
      && contains guest "return ZigExport_VALUE"
      && contains layout "#def ZigExport_VALUE = 287" in
    let zig_host_mentions_import =
      contains bridge "Zig host would call the exported SA entrypoint"
      && contains build_note "Zig build script"
      && contains header "int zig_entry(void);" in
    let zig_contract = guest_exports_entry && zig_host_mentions_import in
    exit_ok (int_line (bool_as_i32 zig_contract) ∷ [])

-- 288_ffi_cxx_name_mangling
abbrev pub ffi_cxx_name_mangling_main : String → String → String → String → String → String → Exit
ffi_cxx_name_mangling_main bridge layout ffi header map_text nm =
    let bridge_uses_cxx_probe =
      contains bridge "ffi/cxx_name.sai"
      && contains bridge "@ffi_wrapper cxx_name_gate(*probe: ptr) -> i32"
      && contains layout "#def CxxProbe_suffix = +4" in
    let extern_c_surface =
      contains ffi "@extern cxx_name_probe(tag: i32) -> i32"
      && contains header "extern \"C\" int cxx_name_probe(int tag);" in
    let symbol_map_is_explicit =
      contains map_text "cxx_name_probe;"
      && contains map_text "local:"
      && contains nm "T cxx_name_probe"
      && contains nm "T cxx_name_probe_wrapper" in
    let cxx_contract = bridge_uses_cxx_probe && extern_c_surface && symbol_map_is_explicit in
    exit_ok (int_line (bool_as_i32 cxx_contract) ∷ [])

-- 289_ffi_opaque_handle_passing
abbrev pub ffi_opaque_handle_passing_main :
    String → String → String → String → String → String → Exit
ffi_opaque_handle_passing_main bridge layout ffi header manifest notes =
    let bridge_reads_handle_slot =
      contains bridge "@ffi_wrapper handle_gate(*slot: ptr) -> i32"
      && contains bridge "load view+HandleSlot_refcount as i32"
      && contains layout "#def HandleSlot_refcount = +4" in
    let ffi_declares_open_close =
      contains ffi "@extern handle_open(id: i32) -> ptr"
      && contains ffi "@extern handle_close(handle: ptr) -> i32" in
    let host_marks_opaque_external =
      contains header "typedef struct DemoHandle DemoHandle;"
      && contains header "DemoHandle *handle_open(int id);"
      && contains manifest "opaque-handle = true"
      && contains manifest "ownership = external"
      && contains notes "host owns the real handle lifetime" in
    let handle_contract =
      bridge_reads_handle_slot && ffi_declares_open_close && host_marks_opaque_external in
    exit_ok (int_line (bool_as_i32 handle_contract) ∷ [])

-- 290_ffi_callback_thunk
abbrev pub ffi_callback_thunk_main : String → String → String → String → String → String → Exit
ffi_callback_thunk_main bridge layout ffi registry loader_text thunk =
    let bridge_defines_callback_vtable =
      contains bridge "@const CALLBACK_VT = vtable { call = @callback_step }"
      && contains bridge "call_indirect fn(value)"
      && contains bridge "store view+CallbackState_value, result as i32" in
    let layout_defines_state_and_vtable =
      contains layout "#def CallbackState_vtable = +8"
      && contains layout "#def CallbackVTable_call = +0" in
    let host_declares_registration =
      contains ffi "@extern host_register_callback(cb: ptr) -> i32"
      && contains registry "typedef int (*Demo290Callback)(int);"
      && contains registry "int host_register_callback(Demo290Callback cb);" in
    let host_documents_thunk =
      contains loader_text "loader-side registration path"
      && contains thunk "thunk pointer"
      && contains thunk "callback registry" in
    let callback_contract =
      bridge_defines_callback_vtable && layout_defines_state_and_vtable
      && host_declares_registration && host_documents_thunk in
    exit_ok (int_line (bool_as_i32 callback_contract) ∷ [])
