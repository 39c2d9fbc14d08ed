-- ===== src/Errors.antt =====
-- Errors and missing values: demos/rosetta 18_option_map, 19_result_question, 30_manual_guard_branch,
-- 46_option_default, 50_error_chain, 104_if_let_chains, 105_let_else, 172_eyre_color_eyre,
-- 173_catch_unwind_panic, 175_thiserror_macro_derive, 176_result_flattening, 177_unwrap_unwrap_err,
-- 178_panic_hook_override, 180_try_trait_v2, 171_anyhow_dynamic_error and 309_try_block_macro. Where a program matches on
-- constants of its `main`, the match is a function of them here.
pub mod Results
pub mod TryBlock
pub mod TryLaws
pub mod Laws
