-- ===== src/Basics/Values.antt =====
-- Programs of demos/rosetta that make a value, look at it or change it in place, and print it. A box, a
-- reference and a raw pointer to a live value are the value.
use sa_plugin_sla.Prelude.{
  ◌==◌, ℤ, pos, ℕ, ◌+◌, length, List, [], ◌∷◌, String, Option, some, none, str_len,
}
use sa_plugin_sla.Rust.{
  Outcome, done, panic, explicit, assert, ◌>>=◌, lit, int, Exit, exit_ok, print, int_line, nat_line,
  add_i32, add_usize, add_u8,
}

-- 01_hello_world
abbrev pub hello_world_main : Exit
hello_world_main = exit_ok ((lit "hello, saasm" ∷ []) ∷ [])

-- 02_mutability: the writing through `r2` replaces the value.
abbrev pub write_through {ℓ} : {T : Type ℓ} → T → T → T
write_through old new = new

abbrev pub mutability_main : Exit
mutability_main = let x = pos 10 in let x = write_through x (pos 20) in exit_ok (int_line x ∷ [])

-- 107_refcell_dynamic_borrow: no borrow is alive when the value is borrowed for writing.
abbrev pub refcell_dynamic_borrow_main : Exit
refcell_dynamic_borrow_main =
    let value = pos 7 in
    let later = write_through value (pos 9) in exit_ok (int_line value ∷ int_line later ∷ [])

-- 11_tuples
abbrev pub tuples_main : Exit
tuples_main =
    let pair : ℤ × ℤ = (pos 3, pos 4) in
    exit_ok ((lit "(" ∷ int pair.0 ∷ lit ", " ∷ int pair.1 ∷ lit ")" ∷ []) ∷ [])

-- 12_destructuring
abbrev pub destructuring_main : Exit
destructuring_main =
    let pair : ℤ × ℤ = (pos 2, pos 5) in let (x, y) = pair in print int_line (add_i32 x y)

-- 141_dynamically_sized_types
abbrev pub dynamically_sized_types_main : Exit
dynamically_sized_types_main =
    let bytes : List ℕ = b'h' ∷ b'i' ∷ [] in exit_ok (nat_line (length bytes) ∷ [])

-- 144_phantom_data_marker
pub record Wrapper (T : Type 0) : Type 0 where
  pub id : ℤ

abbrev pub phantom_data_marker_main : Exit
phantom_data_marker_main = let w : Wrapper ℤ = record { id = pos 7 } in exit_ok (int_line w.id ∷ [])

-- 146_never_type_fallback
abbrev pub some_or_panic : Option ℤ → Outcome ℤ
some_or_panic (some v) = done v
some_or_panic none = panic explicit

abbrev pub never_type_fallback_main : Exit
never_type_fallback_main = print int_line (some_or_panic (some (pos 1)))

-- 148_transparent_repr
pub record Wrap : Type 0 where
  pub wrapped : ℤ

abbrev pub transparent_repr_main : Exit
transparent_repr_main =
    let w : Wrap = record { wrapped = pos 7 } in exit_ok (int_line w.wrapped ∷ [])

-- 152_memory_layout_struct
abbrev pub memory_layout_struct_main : Exit
memory_layout_struct_main = print nat_line (add_usize 8 4)

-- 155_arena_allocator_bump
abbrev pub arena_allocator_bump_main : Exit
arena_allocator_bump_main = print int_line (add_i32 (pos 1) (pos 2))

-- 156_slab_allocator_freelist
abbrev pub slab_allocator_freelist_main : Exit
slab_allocator_freelist_main = print int_line (add_i32 (pos 1) (pos 2))

-- 15_string_bytes
abbrev pub string_bytes_main : Exit
string_bytes_main = exit_ok (nat_line (str_len "rust") ∷ [])

-- 179_assert_macro_expansion
abbrev pub assert_macro_expansion_main : Exit
assert_macro_expansion_main = print (λ u. lit "2" ∷ []) (assert (1 + 1 == 2))

-- 192_proc_macro_derive_ast
pub record Pair : Type 0 where
  pub left : ℤ
  pub right : ℤ

abbrev pub proc_macro_derive_ast_main : Exit
proc_macro_derive_ast_main =
    let pair : Pair = record { left = pos 1; right = pos 2 } in
    let copy = pair in print int_line (add_i32 copy.left copy.right)

-- 199_address_sanitizer_asan: the four writes make the array.
abbrev pub address_sanitizer_asan_main : Exit
address_sanitizer_asan_main =
    let buf : ℕ × ℕ × ℕ × ℕ = (1, 2, 3, 4) in print nat_line (add_u8 buf.0 buf.3)

-- 35_iterator_fold
abbrev pub fold_len : ℕ → List String → Outcome ℕ
fold_len acc [] = done acc
fold_len acc (item ∷ items) = add_usize acc (str_len item) >>= λ sum. fold_len sum items

abbrev pub iterator_fold_main : Exit
iterator_fold_main = print nat_line (fold_len 0 ("sa" ∷ "asm" ∷ "!!" ∷ []))

-- 36_tuple_struct
abbrev pub tuple_struct_main : Exit
tuple_struct_main =
    let color : ℕ × ℕ × ℕ = (2, 4, 8) in
    print int_line (do sum ← add_i32 (pos color.0) (pos color.1); add_i32 sum (pos color.2))

-- 37_newtype
pub record UserId : Type 0 where
  pub number : ℕ

abbrev pub newtype_main : Exit
newtype_main = let user : UserId = record { number = 42 } in exit_ok (nat_line user.number ∷ [])

-- 51_refcount
abbrev pub refcount_main : Exit
refcount_main = let value = pos 5 in let clone = value in print int_line (add_i32 value clone)

-- 64_file_manifest
abbrev pub file_manifest_main : Exit
file_manifest_main =
    let files : List String = "main.rs" ∷ "main.sa" ∷ "README.md" ∷ [] in
    exit_ok (nat_line (length files) ∷ [])

-- 69_serializer
abbrev pub serializer_main : Exit
serializer_main = exit_ok ((lit "{\"id\":" ∷ int (pos 7) ∷ lit "}" ∷ []) ∷ [])
