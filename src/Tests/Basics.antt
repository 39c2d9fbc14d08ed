-- ===== src/Tests/Basics.antt =====
-- Short programs with the lines that they print, and 309_try_block_macro at the bounds of `i32`.
use sa_plugin_sla.Prelude.{pos, sub_ℕ, ltb, if◌then◌else◌, ◌+ℤ◌, ◌*ℤ◌, ◌≡◌, refl, [], ◌∷◌}
use sa_plugin_sla.Rust.{
  lit, int, exit_ok, int_line, nat_line, checked, add_i32, mul_i32, below, add_usize, add_u8,
}
use sa_plugin_sla.Basics.Functions.{
  associated_fn_main, macro_rules_ast_emit_main, tuple_swap_main, never_type_diverge_main,
  aligned_alloc_simd_main, module_imports_main,
}
use sa_plugin_sla.Basics.Values.{
  iterator_fold_main, tuple_struct_main, address_sanitizer_asan_main, refcell_dynamic_borrow_main,
}
use sa_plugin_sla.Errors.Results.{ok, err}
use sa_plugin_sla.Errors.TryBlock.{
  pos_overflow, neg_overflow, to_string, i32_digits, parse_i32, parse_num, try_sum, compute,
  try_block_macro_main,
}
use sa_plugin_sla.Errors.TryLaws.{parse_num-decimal}
use sa_plugin_sla.Companions.Decimal.{decimal}

parse_num-decimal_example :
    (parse_num (decimal 2147483648)
      ≡ (if ltb 2147483647 2147483648 then err (to_string pos_overflow) else ok (pos 2147483648)))
    × (parse_num (b'-' ∷ decimal 2147483648) ≡ (
        if ltb 2147483648 2147483648
        then err (to_string neg_overflow)
        else ok (sub_ℕ 0 2147483648)))
parse_num-decimal_example = parse_num-decimal 2147483648

try_block_prints : try_block_macro_main ≡ exit_ok (int_line (pos 30) ∷ [])
unfolding try_block_macro_main compute try_sum parse_num parse_i32 i32_digits add_i32 ◌+ℤ◌ checked
try_block_prints = refl

associated_fn_prints : associated_fn_main ≡ exit_ok (int_line (pos 42) ∷ [])
unfolding add_i32 ◌+ℤ◌ checked
associated_fn_prints = refl

macro_rules_prints : macro_rules_ast_emit_main ≡ exit_ok (int_line (pos 6) ∷ [])
unfolding add_i32 ◌+ℤ◌ checked
macro_rules_prints = refl

tuple_swap_prints : tuple_swap_main ≡ exit_ok ((int (pos 8) ∷ lit "," ∷ int (pos 3) ∷ []) ∷ [])
tuple_swap_prints = refl

never_type_diverge_prints : never_type_diverge_main ≡ exit_ok ((lit "0" ∷ []) ∷ [])
never_type_diverge_prints = refl

aligned_alloc_prints : aligned_alloc_simd_main ≡ exit_ok (nat_line 4 ∷ [])
aligned_alloc_prints = refl

module_imports_prints : module_imports_main ≡ exit_ok (int_line (pos 42) ∷ [])
unfolding mul_i32 ◌*ℤ◌ checked
module_imports_prints = refl

iterator_fold_prints : iterator_fold_main ≡ exit_ok (nat_line 7 ∷ [])
unfolding add_usize below
iterator_fold_prints = refl

tuple_struct_prints : tuple_struct_main ≡ exit_ok (int_line (pos 14) ∷ [])
unfolding add_i32 ◌+ℤ◌ checked
tuple_struct_prints = refl

address_sanitizer_prints : address_sanitizer_asan_main ≡ exit_ok (nat_line 5 ∷ [])
unfolding add_u8 below
address_sanitizer_prints = refl

refcell_prints : refcell_dynamic_borrow_main ≡ exit_ok (int_line (pos 7) ∷ int_line (pos 9) ∷ [])
refcell_prints = refl
