-- ===== src/Companions/Platforms.antt =====
-- demos/rosetta/291 to 300: programs that check the platforms and hosts a program is built for. The texts of the companion files are the
-- parameters, in the order in which the program includes them.
use sa_plugin_sla.Prelude.{String, ◌&&◌, [], ◌∷◌}
use sa_plugin_sla.Rust.{Exit, exit_ok, int_line}
use sa_plugin_sla.Companions.Text.{contains, bool_as_i32}

-- 291_eco_wasm_host_imports
abbrev pub eco_wasm_host_imports_main : String → String → String → String → String → Exit
eco_wasm_host_imports_main guest layout imports wit docs =
    let guest_imports_host_surface =
      contains guest "host/host_imports.sai"
      && contains guest "@ffi_wrapper wasm_guest_gate(*frame: ptr) -> i32"
      && contains guest "@export wasm_guest_entry() -> i32" in
    let layout_defines_frame =
      contains layout "#def WasmHostFrame_tag = +0"
      && contains layout "#def WasmHostFrame_status = +4" in
    let host_imports_are_explicit =
      contains imports "@extern host_log(tag: i32) -> i32"
      && contains imports "@extern host_clock_ms() -> i32"
      && contains wit "host-side imports"
      && contains docs "host import table separate" in
    let wasm_import_contract =
      guest_imports_host_surface && layout_defines_frame && host_imports_are_explicit in
    exit_ok (int_line (bool_as_i32 wasm_import_contract) ∷ [])

-- 292_eco_wasm_memory_export
abbrev pub eco_wasm_memory_export_main : String → String → String → String → String → Exit
eco_wasm_memory_export_main guest layout asset note map_text =
    let guest_exports_memory_entry =
      contains guest "@ffi_wrapper memory_gate(*view: ptr) -> i32"
      && contains guest "@export wasm_memory_export() -> i32" in
    let layout_defines_view =
      contains layout "#def MemoryView_value = +0"
      && contains layout "#def MemoryView_marker = +4" in
    let host_documents_memory =
      contains asset "\"memory\": \"exported\""
      && contains asset "\"pages\": 1"
      && contains note "map this guest memory"
      && contains map_text "linear-memory = guest-owned" in
    let memory_contract =
      guest_exports_memory_entry && layout_defines_view && host_documents_memory in
    exit_ok (int_line (bool_as_i32 memory_contract) ∷ [])

-- 293_eco_embedded_no_os
abbrev pub eco_embedded_no_os_main : String → String → String → String → String → Exit
eco_embedded_no_os_main startup layout docs linker map_text =
    let startup_exports_entry =
      contains startup "@ffi_wrapper embedded_gate(*state: ptr) -> i32"
      && contains startup "@export embedded_start() -> i32" in
    let layout_defines_state =
      contains layout "#def EmbeddedState_tag = +0"
      && contains layout "#def EmbeddedState_status = +4" in
    let board_metadata =
      contains docs "startup, memory map, and linker notes"
      && contains linker "ENTRY(_start)"
      && contains linker "FLASH (rx)"
      && contains map_text "startup = guest/startup.sa" in
    let embedded_contract = startup_exports_entry && layout_defines_state && board_metadata in
    exit_ok (int_line (bool_as_i32 embedded_contract) ∷ [])

-- 294_eco_os_kernel_module
abbrev pub eco_os_kernel_module_main : String → String → String → String → String → Exit
eco_os_kernel_module_main module_text layout manifest insmod linker =
    let kernel_exports_entry =
      contains module_text "@ffi_wrapper kernel_gate(*record: ptr) -> i32"
      && contains module_text "@export kernel_module_entry() -> i32" in
    let layout_defines_record =
      contains layout "#def KernelRecord_major = +0"
      && contains layout "#def KernelRecord_minor = +4" in
    let host_kernel_metadata =
      contains manifest "module = \"demo-294\""
      && contains manifest "type = \"kernel\""
      && contains insmod "load the kernel module artifact"
      && contains linker ".text : { *(.text*) }" in
    let kernel_contract = kernel_exports_entry && layout_defines_record && host_kernel_metadata in
    exit_ok (int_line (bool_as_i32 kernel_contract) ∷ [])

-- 295_eco_bpf_ebpf_bytecode
abbrev pub eco_bpf_ebpf_bytecode_main : String → String → String → String → String → Exit
eco_bpf_ebpf_bytecode_main program layout docs attach pin =
    let program_exports_entry =
      contains program "@ffi_wrapper ebpf_gate(*packet: ptr) -> i32"
      && contains program "@export ebpf_guest_entry() -> i32" in
    let layout_defines_packet =
      contains layout "#def BpfPacket_kind = +0" && contains layout "#def BpfPacket_value = +4" in
    let host_trace_metadata =
      contains docs "source, attach metadata, and pinned path"
      && contains attach "attach = demo-295"
      && contains attach "program = guest/program.sa"
      && contains pin "/sys/fs/bpf/demo-295" in
    let ebpf_contract = program_exports_entry && layout_defines_packet && host_trace_metadata in
    exit_ok (int_line (bool_as_i32 ebpf_contract) ∷ [])

-- 296_eco_gpu_ptx_shader
abbrev pub eco_gpu_ptx_shader_main : String → String → String → String → String → Exit
eco_gpu_ptx_shader_main shader layout args launch ptx =
    let shader_exports_entry =
      contains shader "@ffi_wrapper gpu_shader_gate(*uniform: ptr) -> i32"
      && contains shader "@export gpu_shader_entry() -> i32" in
    let layout_defines_uniform =
      contains layout "#def ShaderUniform_lane = +0"
      && contains layout "#def ShaderUniform_seed = +4" in
    let host_launch_metadata =
      contains args "lane=296"
      && contains launch "\"gpu\": \"ptx\""
      && contains launch "\"entry\": \"gpu_shader_entry\""
      && contains ptx "PTX kernel text" in
    let gpu_contract = shader_exports_entry && layout_defines_uniform && host_launch_metadata in
    exit_ok (int_line (bool_as_i32 gpu_contract) ∷ [])

-- 297_eco_game_engine_ecs
abbrev pub eco_game_engine_ecs_main : String → String → String → String → String → Exit
eco_game_engine_ecs_main world layout docs assets scene =
    let world_steps_entity =
      contains world "@step_entity(&entity: ptr) -> i32"
      && contains world "store entity+Entity_X, next_x as i32"
      && contains world "@export engine_scene_step() -> i32" in
    let layout_defines_ecs_components =
      contains layout "#def Entity_X = +0"
      && contains layout "#def Entity_Y = +4"
      && contains layout "#def Entity_VX = +8"
      && contains layout "#def Entity_VY = +12" in
    let scene_metadata =
      contains docs "layout, step logic, and scene assets"
      && contains assets "entity_sprite.png"
      && contains assets "level0.json"
      && contains scene "world = engine/world.sa" in
    let ecs_contract = world_steps_entity && layout_defines_ecs_components && scene_metadata in
    exit_ok (int_line (bool_as_i32 ecs_contract) ∷ [])

-- 298_eco_cryptography_simd
abbrev pub eco_cryptography_simd_main : String → String → String → String → String → Exit
eco_cryptography_simd_main hash layout docs header bench =
    let hash_exports_entry =
      contains hash "@ffi_wrapper crypto_hash_gate(*state: ptr) -> i32"
      && contains hash "@export crypto_hash_entry() -> i32" in
    let layout_defines_hash_state =
      contains layout "#def HashState_round = +0" && contains layout "#def HashState_lane = +4" in
    let host_crypto_metadata =
      contains docs "benchmark and public header"
      && contains header "int crypto_hash_entry(void);"
      && contains bench "rounds = 298" in
    let crypto_contract = hash_exports_entry && layout_defines_hash_state && host_crypto_metadata in
    exit_ok (int_line (bool_as_i32 crypto_contract) ∷ [])

-- 299_eco_language_server_protocol
abbrev pub eco_language_server_protocol_main : String → String → String → String → String → Exit
eco_language_server_protocol_main server layout docs capabilities lsp =
    let server_exports_entry =
      contains server "@ffi_wrapper lsp_server_gate(*state: ptr) -> i32"
      && contains server "@export lsp_server_entry() -> i32" in
    let layout_defines_lsp_state =
      contains layout "#def LspState_req = +0" && contains layout "#def LspState_seq = +4" in
    let protocol_metadata =
      contains docs "wire protocol and client-facing docs"
      && contains capabilities "protocol surface"
      && contains lsp "\"jsonrpc\": \"2.0\""
      && contains lsp "textDocument/completion" in
    let lsp_contract = server_exports_entry && layout_defines_lsp_state && protocol_metadata in
    exit_ok (int_line (bool_as_i32 lsp_contract) ∷ [])

-- 300_eco_sa_lang_registry_publish
abbrev pub eco_sa_lang_registry_publish_main : String → String → String → String → String → Exit
eco_sa_lang_registry_publish_main publish layout docs registry log =
    let publish_exports_entry =
      contains publish "@ffi_wrapper registry_publish_gate(*pkg: ptr) -> i32"
      && contains publish "@export registry_publish_entry() -> i32" in
    let layout_defines_package =
      contains layout "#def Package_name = +0" && contains layout "#def Package_version = +4" in
    let registry_metadata =
      contains docs "registry publish step"
      && contains registry "\"registry\": \"sa-lang.org\""
      && contains registry "\"package\": \"demo-300\""
      && contains log "publish demo-300 to sa-lang.org/registry" in
    let registry_contract = publish_exports_entry && layout_defines_package && registry_metadata in
    exit_ok (int_line (bool_as_i32 registry_contract) ∷ [])
