-- ===== src/Companions/Services.antt =====
-- demos/rosetta/251 to 260: programs that check what a service and its clients agree on. The texts of the companion files are the
-- parameters, in the order in which the program includes them.
use sa_plugin_sla.Prelude.{String, ◌&&◌, [], ◌∷◌}
use sa_plugin_sla.Rust.{Exit, exit_ok, int_line}
use sa_plugin_sla.Companions.Text.{contains, bool_as_i32}

-- 251_contract_resource_ownership
abbrev pub contract_resource_ownership_main : String → String → String → Exit
contract_resource_ownership_main iface bridge consumer =
    let iface_declares_ownership_transfer =
      contains iface "@extern take_ownership(handle: ptr) -> i32" in
    let bridge_mutates_owned_handle =
      contains bridge "@export take_ownership(handle: ptr) -> i32"
      && contains bridge "load handle+0 as i32"
      && contains bridge "store handle+0, next as i32" in
    let consumer_passes_handle =
      contains consumer "store handle+0, 251 as i32"
      && contains consumer "call @take_ownership(handle)" in
    let ownership_contract =
      iface_declares_ownership_transfer && bridge_mutates_owned_handle && consumer_passes_handle in
    exit_ok (int_line (bool_as_i32 ownership_contract) ∷ [])

-- 252_contract_error_code_mapping
abbrev pub contract_error_code_mapping_main : String → String → String → Exit
contract_error_code_mapping_main iface bridge consumer =
    let iface_declares_mapping = contains iface "@extern map_error(code: i32) -> i32" in
    let bridge_branches_on_code =
      contains bridge "@export map_error(code: i32) -> i32"
      && contains bridge "ok = eq code, 252"
      && contains bridge "L_MATCH"
      && contains bridge "L_MISS" in
    let consumer_uses_mapping =
      contains consumer "bridge/error_map.sa" && contains consumer "call @map_error(252)" in
    let error_contract =
      iface_declares_mapping && bridge_branches_on_code && consumer_uses_mapping in
    exit_ok (int_line (bool_as_i32 error_contract) ∷ [])

-- 253_contract_callback_registration
abbrev pub contract_callback_registration_main : String → String → Exit
contract_callback_registration_main bridge consumer =
    let callback_vtable_layout =
      contains bridge "@const CALLBACK_VT = vtable { call = @callback }"
      && contains bridge "#def Slot_DATA = +0"
      && contains bridge "#def Slot_VTABLE = +8"
      && contains bridge "#def VTable_call = +0" in
    let register_uses_indirect_call =
      contains bridge "@register(&slot: ptr) -> i32"
      && contains bridge "load vt+VTable_call as ptr"
      && contains bridge "call_indirect fn(5)" in
    let consumer_registers_vtable =
      contains consumer "store slot+Slot_VTABLE, &CALLBACK_VT as ptr"
      && contains consumer "call @register(&slot)" in
    let callback_contract =
      callback_vtable_layout && register_uses_indirect_call && consumer_registers_vtable in
    exit_ok (int_line (bool_as_i32 callback_contract) ∷ [])

-- 254_contract_plugin_system
abbrev pub contract_plugin_system_main : String → String → String → Exit
contract_plugin_system_main host_text implementation consumer =
    let host_declares_dispatch = contains host_text "@extern plugin_dispatch(tag: i32) -> i32" in
    let impl_exports_dispatch =
      contains implementation "@export plugin_dispatch(tag: i32) -> i32"
      && contains implementation "return 254" in
    let consumer_loads_plugin_impl =
      contains consumer "impl/plugin_impl.sa" && contains consumer "call @plugin_dispatch(254)" in
    let plugin_contract =
      host_declares_dispatch && impl_exports_dispatch && consumer_loads_plugin_impl in
    exit_ok (int_line (bool_as_i32 plugin_contract) ∷ [])

-- 255_contract_memory_allocator_swap
abbrev pub contract_memory_allocator_swap_main : String → String → String → Exit
contract_memory_allocator_swap_main iface bridge consumer =
    let iface_declares_allocator_swap =
      contains iface "@extern allocator_swap(handle: ptr) -> i32" in
    let bridge_mutates_handle =
      contains bridge "@export allocator_swap(handle: ptr) -> i32"
      && contains bridge "load handle+0 as i32"
      && contains bridge "store handle+0, next as i32" in
    let consumer_selects_bridge =
      contains consumer "bridge/allocator_bridge.sa"
      && contains consumer "store handle+0, 255 as i32"
      && contains consumer "call @allocator_swap(handle)" in
    let allocator_contract =
      iface_declares_allocator_swap && bridge_mutates_handle && consumer_selects_bridge in
    exit_ok (int_line (bool_as_i32 allocator_contract) ∷ [])

-- 256_contract_panic_handler_propagate
abbrev pub contract_panic_handler_propagate_main : String → String → String → Exit
contract_panic_handler_propagate_main iface host_text consumer =
    let iface_declares_hook = contains iface "@extern panic_hook(code: i32) -> i32" in
    let host_exports_hook =
      contains host_text "@export panic_hook(code: i32) -> i32"
      && contains host_text "ok = eq code, 256"
      && contains host_text "L_OK"
      && contains host_text "L_ERR" in
    let consumer_routes_to_host =
      contains consumer "host/panic_handler.sa" && contains consumer "call @panic_hook(256)" in
    let panic_contract = iface_declares_hook && host_exports_hook && consumer_routes_to_host in
    exit_ok (int_line (bool_as_i32 panic_contract) ∷ [])

-- 257_contract_log_facade
abbrev pub contract_log_facade_main : String → String → String → Exit
contract_log_facade_main iface bridge consumer =
    let iface_declares_log_emit =
      contains iface "@extern log_emit(level: i32, msg: ptr, len: u64) -> i32" in
    let bridge_keeps_message_signature =
      contains bridge "@export log_emit(level: i32, msg: ptr, len: u64) -> i32"
      && contains bridge "ok = eq level, 257" in
    let consumer_passes_message =
      contains consumer "@const LOG_MESSAGE = utf8:\"257\\n\""
      && contains consumer "call @log_emit(257, &LOG_MESSAGE, 4)" in
    let log_contract =
      iface_declares_log_emit && bridge_keeps_message_signature && consumer_passes_message in
    exit_ok (int_line (bool_as_i32 log_contract) ∷ [])

-- 258_contract_thread_local_isolation
abbrev pub contract_thread_local_isolation_main : String → String → String → Exit
contract_thread_local_isolation_main layout bridge consumer =
    let tls_layout = contains layout "#def TLS_SIZE = 8" && contains layout "#def TLS_value = +0" in
    let bridge_updates_slot =
      contains bridge "@export tls_write(&slot: ptr) -> i32"
      && contains bridge "load slot+0 as i32"
      && contains bridge "store slot+0, next as i32" in
    let consumer_allocates_tls =
      contains consumer "layout/tls.sal"
      && contains consumer "tls = alloc TLS_SIZE"
      && contains consumer "call @tls_write(&tls)" in
    let tls_contract = tls_layout && bridge_updates_slot && consumer_allocates_tls in
    exit_ok (int_line (bool_as_i32 tls_contract) ∷ [])

-- 259_contract_static_init_order
abbrev pub contract_static_init_order_main : String → String → String → Exit
contract_static_init_order_main layout bridge consumer =
    let init_layout =
      contains layout "#def Init_first = +0" && contains layout "#def Init_second = +8" in
    let bridge_exports_ordered_steps =
      contains bridge "@export init_first() -> i32"
      && contains bridge "@export init_second() -> i32" in
    let consumer_stores_in_order =
      contains consumer "first = call @init_first()"
      && contains consumer "store state+Init_first, first as i32"
      && contains consumer "second = call @init_second()"
      && contains consumer "store state+Init_second, second as i32" in
    let init_contract = init_layout && bridge_exports_ordered_steps && consumer_stores_in_order in
    exit_ok (int_line (bool_as_i32 init_contract) ∷ [])

-- 260_contract_deprecated_warning
abbrev pub contract_deprecated_warning_main : String → String → String → Exit
contract_deprecated_warning_main iface bridge consumer =
    let iface_exposes_legacy_symbol = contains iface "@extern legacy_value() -> i32" in
    let bridge_marks_deprecation =
      contains bridge "@const DEPRECATED_NOTE = utf8:\"legacy\""
      && contains bridge "@export legacy_value() -> i32" in
    let consumer_still_calls_legacy =
      contains consumer "bridge/deprecated_bridge.sa" && contains consumer "call @legacy_value()" in
    let deprecated_contract =
      iface_exposes_legacy_symbol && bridge_marks_deprecation && consumer_still_calls_legacy in
    exit_ok (int_line (bool_as_i32 deprecated_contract) ∷ [])
