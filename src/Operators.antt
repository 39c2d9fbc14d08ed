-- ===== src/Operators.antt =====
-- Operators and patterns on user-defined types: demos/rosetta 301_operator_overload_add,
-- 302_operator_overload_neg, 303_operator_overload_scalar_mul, 304_operator_overload_eq,
-- 312_operator_overload_block, 313_type_alias_flattening, 310_blank_identifier_discard,
-- 57_event_loop, 39_generic_enum_i32 and 10_generics_monomorph.
pub mod Vectors
pub mod Events
pub mod Laws
