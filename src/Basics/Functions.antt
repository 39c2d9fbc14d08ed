-- ===== src/Basics/Functions.antt =====
-- Short functions of demos/rosetta, and the lines that their programs print.
use sa_plugin_sla.Prelude.{
  if◌then◌else◌, ℤ, pos, ℕ, ◌/◌, length, List, [], ◌∷◌, String, true, not, str_len,
}
use sa_plugin_sla.Rust.{
  Outcome, done, panic, explicit, ◌>>=◌, lit, int, Exit, exit_ok, print, int_line, nat_line,
  add_i32, mul_i32,
}

-- 05_struct
pub record Point : Type 0 where
  pub x : ℤ
  pub y : ℤ

abbrev pub create_point : ℤ → ℤ → Point
create_point x y = record { x = x; y = y }

abbrev pub struct_main : Exit
struct_main =
    let point = create_point (pos 10) (pos 20) in
    exit_ok ((lit "(" ∷ int point.x ∷ lit "," ∷ int point.y ∷ lit ")" ∷ []) ∷ [])

-- 08_closures
abbrev pub add_offset : ℤ → ℤ → Outcome ℤ
add_offset offset x = add_i32 x offset

abbrev pub closures_main : Exit
closures_main = print int_line (add_offset (pos 5) (pos 10))

-- 111_extern_c_abi
abbrev pub add_pair : ℤ → ℤ → Outcome ℤ
add_pair a b = add_i32 a b

abbrev pub extern_c_abi_main : Exit
extern_c_abi_main = print int_line (add_pair (pos 11) (pos 12))

-- 142_zero_sized_types
pub data UnitStruct : Type 0 where
  unit_struct : UnitStruct

abbrev pub process_unit : UnitStruct → ℤ
process_unit u = pos 42

abbrev pub zero_sized_types_main : Exit
zero_sized_types_main = exit_ok (int_line (process_unit unit_struct) ∷ [])

-- 143_never_type_diverge
abbrev pub fail {ℓ} : {A : Type ℓ} → Outcome A
fail = panic explicit

abbrev pub never_type_diverge_main : Exit
never_type_diverge_main =
    let safe = true in print (λ u. lit "0" ∷ []) (if not safe then fail else done (pos 0))

-- 147_custom_dst_pointers
abbrev pub custom_dst_pointer_bytes_len_surrogate : ℕ
custom_dst_pointer_bytes_len_surrogate =
    let bytes : List ℕ = b'a' ∷ b'b' ∷ b'c' ∷ [] in length bytes

abbrev pub custom_dst_pointers_main : Exit
custom_dst_pointers_main = exit_ok (nat_line custom_dst_pointer_bytes_len_surrogate ∷ [])

-- 157_aligned_alloc_simd. An `i32` has four bytes.
abbrev pub aligned_simd_lane_count_surrogate : ℕ
aligned_simd_lane_count_surrogate =
    let alignment_bytes : ℕ = 16 in let lane_bytes : ℕ = 4 in alignment_bytes / lane_bytes

abbrev pub aligned_alloc_simd_main : Exit
aligned_alloc_simd_main = exit_ok (nat_line aligned_simd_lane_count_surrogate ∷ [])

-- 158_custom_dst_alloc
abbrev pub custom_dst_alloc_len_surrogate : ℕ
custom_dst_alloc_len_surrogate = let owned : String = "hey" in str_len owned

abbrev pub custom_dst_alloc_main : Exit
custom_dst_alloc_main = exit_ok (nat_line custom_dst_alloc_len_surrogate ∷ [])

-- 162_auto_traits_send_sync
abbrev pub require_send {ℓ} : {T : Type ℓ} → T → ℤ
require_send val = pos 42

-- 167_const_generics_expansion
abbrev pub array_len : List ℤ → ℕ
array_len arr = length arr

abbrev pub const_generics_expansion_main : Exit
const_generics_expansion_main =
    exit_ok (nat_line (array_len (pos 1 ∷ pos 2 ∷ pos 3 ∷ pos 4 ∷ [])) ∷ [])

-- 168_type_alias_impl_trait
abbrev pub make_iter : List ℤ
make_iter = pos 1 ∷ pos 2 ∷ pos 3 ∷ []

-- 17_associated_fn
pub record SeedCounter : Type 0 where
  pub value : ℤ

abbrev pub new_counter : ℤ → Outcome SeedCounter
new_counter seed = add_i32 seed (pos 2) >>= λ value. done (record { value = value })

abbrev pub associated_fn_main : Exit
associated_fn_main =
    print (λ (counter : SeedCounter). int_line counter.value) (new_counter (pos 40))

-- 191_macro_rules_ast_emit
abbrev pub emit_sum : ℤ → ℤ → Outcome ℤ
emit_sum a b = add_i32 a b

abbrev pub macro_rules_ast_emit_main : Exit
macro_rules_ast_emit_main =
    let left = pos 1 in
    let right = pos 2 in
    print int_line (do total ← emit_sum left right; first ← add_i32 total left; add_i32 first right)

-- 26_reference_return
abbrev pub choose_left : ℤ → ℤ → ℤ
choose_left left _right = left

abbrev pub reference_return_main : Exit
reference_return_main = exit_ok (int_line (choose_left (pos 9) (pos 4)) ∷ [])

-- 27_move_semantics
pub record MovedData : Type 0 where
  pub value : ℤ

abbrev pub consume : MovedData → ℤ
consume data_ = data_.value

abbrev pub move_semantics_main : Exit
move_semantics_main = exit_ok (int_line (consume (record { value = pos 11 })) ∷ [])

-- 28_borrow_chains
abbrev pub read_twice : ℤ → Outcome ℤ
read_twice value = add_i32 value value

abbrev pub borrow_chains_main : Exit
borrow_chains_main = print int_line (read_twice (pos 6))

-- 41_module_imports
abbrev pub double : ℤ → Outcome ℤ
double x = mul_i32 x (pos 2)

abbrev pub module_imports_main : Exit
module_imports_main = print int_line (double (pos 21))

-- 42_export_visibility
abbrev pub exported_value : ℤ
exported_value = pos 7

abbrev pub internal_value : ℤ
internal_value = pos 5

abbrev pub export_visibility_main : Exit
export_visibility_main = print int_line (add_i32 exported_value internal_value)

-- 47_tuple_swap
abbrev pub swap : (ℤ × ℤ) → (ℤ × ℤ)
swap (a, b) = (b, a)

abbrev pub tuple_swap_main : Exit
tuple_swap_main =
    let pair = swap (pos 3, pos 8) in exit_ok ((int pair.0 ∷ lit "," ∷ int pair.1 ∷ []) ∷ [])

-- 48_generic_pair
abbrev pub pair_sum {ℓ} : {T : Type ℓ} → T → T → (T × T)
pair_sum a b = (a, b)

abbrev pub generic_pair_main : Exit
generic_pair_main =
    let pair = pair_sum (pos 11) (pos 31) in exit_ok ((int pair.0 ∷ lit "," ∷ int pair.1 ∷ []) ∷ [])
