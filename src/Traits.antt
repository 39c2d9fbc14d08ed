-- ===== src/Traits.antt =====
-- Traits, as records of methods: demos/rosetta 07_trait_vtable, 31_trait_static_dispatch,
-- 32_trait_object_vector, 110_trait_super_vtable, 114_callback_from_c, 145_opaque_type_alias,
-- 161_generic_associated_types, 163_object_safety_rules, 164_trait_upcasting,
-- 165_blanket_impl_resolution, 166_specialization_fallback and 198_control_flow_guard_cfi.
pub mod Objects
pub mod Static
