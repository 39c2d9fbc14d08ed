-- ===== src/Companions/Layouts.antt =====
-- demos/rosetta/241 to 250: programs that check what an interface fixes of its implementation. The texts of the companion files are the
-- parameters, in the order in which the program includes them.
use sa_plugin_sla.Prelude.{not, String, ◌&&◌, [], ◌∷◌}
use sa_plugin_sla.Rust.{Exit, exit_ok, int_line}
use sa_plugin_sla.Companions.Text.{contains, bool_as_i32}

-- 241_contract_layout_stability
abbrev pub contract_layout_stability_main : String → String → String → Exit
contract_layout_stability_main layout bridge consumer =
    let stable_offsets =
      contains layout "#def Point_SIZE = 16"
      && contains layout "#def Point_x = +0"
      && contains layout "#def Point_y = +8" in
    let bridge_uses_same_offsets =
      contains bridge "BridgePoint_x = +0"
      && contains bridge "BridgePoint_y = +8"
      && contains bridge "load point+BridgePoint_x"
      && contains bridge "load point+BridgePoint_y" in
    let consumer_exercises_layout =
      contains consumer "layout/point.sal"
      && contains consumer "bridge/point_bridge.sa"
      && contains consumer "store point+Point_x, 24"
      && contains consumer "store point+Point_y, 217" in
    let contract_layout = stable_offsets && bridge_uses_same_offsets && consumer_exercises_layout in
    exit_ok (int_line (bool_as_i32 contract_layout) ∷ [])

-- 242_contract_opaque_struct
abbrev pub contract_opaque_struct_main : String → String → String → String → Exit
contract_opaque_struct_main public_layout private_layout bridge consumer =
    let public_is_opaque =
      contains public_layout "#def Opaque_SIZE = 16"
      && not (contains public_layout "Opaque_payload")
      && not (contains public_layout "Opaque_tag") in
    let private_has_hidden_fields =
      contains private_layout "#def Opaque_tag = +0"
      && contains private_layout "#def Opaque_payload = +8" in
    let bridge_can_touch_private_payload =
      contains bridge "layout/private.sal"
      && contains bridge "store slot+Opaque_payload, 242"
      && contains bridge "load slot+Opaque_payload" in
    let consumer_only_imports_public_layout =
      contains consumer "layout/public.sal"
      && contains consumer "bridge/opaque_bridge.sa"
      && not (contains consumer "Opaque_payload") in
    let opaque_contract =
      public_is_opaque && private_has_hidden_fields && bridge_can_touch_private_payload
      && consumer_only_imports_public_layout in
    exit_ok (int_line (bool_as_i32 opaque_contract) ∷ [])

-- 243_contract_sig_mismatch_link
abbrev pub contract_sig_mismatch_link_main : String → String → String → Exit
contract_sig_mismatch_link_main iface_layout target consumer =
    let target_takes_i32 = contains target "@export link_target(slot: i32) -> i32" in
    let consumer_allocates_slot_ptr =
      contains iface_layout "#def Slot_SIZE = 4"
      && contains consumer "slot = alloc Slot_SIZE"
      && contains consumer "store slot+Slot_value, 1 as i32" in
    let mismatch_is_explicit =
      contains consumer "Intentional mismatch" && contains consumer "call @link_target(&slot)" in
    let signature_mismatch_fixture =
      target_takes_i32 && consumer_allocates_slot_ptr && mismatch_is_explicit in
    exit_ok (int_line (bool_as_i32 signature_mismatch_fixture) ∷ [])

-- 244_contract_vtable_export
abbrev pub contract_vtable_export_main : String → String → Exit
contract_vtable_export_main bridge consumer =
    let vtable_layout =
      contains bridge "#def DynDraw_DATA = +0"
      && contains bridge "#def DynDraw_VTABLE = +8"
      && contains bridge "#def VTable_draw = +0" in
    let exported_vtable =
      contains bridge "@export button_draw(&self: ptr) -> i32"
      && contains bridge "@const BUTTON_VT = vtable { draw = @button_draw }" in
    let indirect_consumer =
      contains consumer "load item+DynDraw_DATA as ptr"
      && contains consumer "load item+DynDraw_VTABLE as ptr"
      && contains consumer "call_indirect draw_fn(&data_ptr)"
      && contains consumer "store fat+DynDraw_VTABLE, &BUTTON_VT as ptr" in
    let vtable_contract = vtable_layout && exported_vtable && indirect_consumer in
    exit_ok (int_line (bool_as_i32 vtable_contract) ∷ [])

-- 245_contract_generic_monomorph_share
abbrev pub contract_generic_monomorph_share_main : String → String → String → Exit
contract_generic_monomorph_share_main iface implementation consumer =
    let iface_declares_shared_value = contains iface "@extern shared_value(seed: i32) -> i32" in
    let impl_exports_same_symbol =
      contains implementation "@export shared_value(seed: i32) -> i32"
      && contains implementation "value = add seed, 0" in
    let consumer_imports_impl_once =
      contains consumer "impl/generic_impl.sa" && contains consumer "call @shared_value(245)" in
    let shared_contract =
      iface_declares_shared_value && impl_exports_same_symbol && consumer_imports_impl_once in
    exit_ok (int_line (bool_as_i32 shared_contract) ∷ [])

-- 246_contract_semver_minor_update
abbrev pub contract_semver_minor_update_main : String → String → String → Exit
contract_semver_minor_update_main iface implementation consumer =
    let iface_keeps_original = contains iface "@extern minor_value() -> i32" in
    let iface_adds_extension = contains iface "@extern minor_extension() -> i32" in
    let impl_exports_both =
      contains implementation "@export minor_value() -> i32"
      && contains implementation "@export minor_extension() -> i32" in
    let consumer_accepts_added_api =
      contains consumer "call @minor_value()" && contains consumer "call @minor_extension()" in
    let semver_minor_contract =
      iface_keeps_original && iface_adds_extension && impl_exports_both
      && consumer_accepts_added_api in
    exit_ok (int_line (bool_as_i32 semver_minor_contract) ∷ [])

-- 247_contract_semver_major_break
abbrev pub contract_semver_major_break_main : String → String → String → String → Exit
contract_semver_major_break_main v1 v2 implementation consumer =
    let old_signature = contains v1 "@extern major_value(slot: i32) -> i32" in
    let new_signature = contains v2 "@extern major_value(handle: ptr) -> i32" in
    let impl_uses_new_signature =
      contains implementation "@export major_value(handle: ptr) -> i32" in
    let consumer_allocates_handle =
      contains consumer "handle = alloc 8" && contains consumer "call @major_value(handle)" in
    let major_break_contract =
      old_signature && new_signature && impl_uses_new_signature && consumer_allocates_handle in
    exit_ok (int_line (bool_as_i32 major_break_contract) ∷ [])

-- 248_contract_ffi_boundary_trust
abbrev pub contract_ffi_boundary_trust_main : String → String → String → Exit
contract_ffi_boundary_trust_main layout bridge consumer =
    let layout_defines_slot =
      contains layout "#def Slot_SIZE = 4" && contains layout "#def Slot_value = +0" in
    let ffi_wrapper_marks_boundary =
      contains bridge "@ffi_wrapper boundary(*raw: ptr) -> i32"
      && contains bridge "assume_borrow raw"
      && contains bridge "assume_safe raw"
      && contains bridge "store safe+0, next as i32" in
    let consumer_crosses_raw_edge =
      contains consumer "bridge/boundary.sa"
      && contains consumer "call @boundary(*slot)"
      && contains consumer "store slot+Slot_value, 248" in
    let boundary_contract =
      layout_defines_slot && ffi_wrapper_marks_boundary && consumer_crosses_raw_edge in
    exit_ok (int_line (bool_as_i32 boundary_contract) ∷ [])

-- 249_contract_macro_export
abbrev pub contract_macro_export_main : String → String → String → Exit
contract_macro_export_main macros bridge consumer =
    let macro_is_exported_fixture =
      contains macros "[MACRO] STORE_I32 %base, %value"
      && contains macros "store %base+0, %value as i32"
      && contains macros "[END_MACRO]" in
    let bridge_exports_helper = contains bridge "@export macro_value() -> i32" in
    let consumer_expands_macro =
      contains consumer "macros/store.sa"
      && contains consumer "EXPAND STORE_I32 cell, 249"
      && contains consumer "call @macro_value()" in
    let macro_contract =
      macro_is_exported_fixture && bridge_exports_helper && consumer_expands_macro in
    exit_ok (int_line (bool_as_i32 macro_contract) ∷ [])

-- 250_contract_const_export
abbrev pub contract_const_export_main : String → String → String → Exit
contract_const_export_main iface implementation consumer =
    let iface_declares_const_value = contains iface "@extern const_value() -> i32" in
    let impl_exports_text_const =
      contains implementation "@const EXPORTED_TEXT = utf8:\"250\\n\"" in
    let impl_exports_value = contains implementation "@export const_value() -> i32" in
    let consumer_reads_export =
      contains consumer "impl/const_impl.sa" && contains consumer "call @const_value()" in
    let const_contract =
      iface_declares_const_value && impl_exports_text_const && impl_exports_value
      && consumer_reads_export in
    exit_ok (int_line (bool_as_i32 const_contract) ∷ [])
