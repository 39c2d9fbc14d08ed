-- ===== src/Traits/Static.antt =====
-- Traits whose implementation is chosen when the program is compiled: an instance argument, or a
-- supertrait that is part of the trait.
use sa_plugin_sla.Prelude.{ℤ, pos, ℕ}
use sa_plugin_sla.Rust.{Outcome, done, ◌>>=◌, Exit, print, int_line, add_i32, mul_i32}

-- 31_trait_static_dispatch
pub record Area (T : Type 0) : Type 0 where
  pub area : T → Outcome ℤ

pub record Square : Type 0 where
  pub side : ℤ

instance abbrev pub square_area : Area Square
square_area = record { area = λ (s : Square). mul_i32 s.side s.side }

unfoldable pub area_of : {T : Type 0} → ⦃i : Area T⦄ → T → Outcome ℤ
area_of ⦃i⦄ value = i.area value

unfoldable pub static_dispatch_main : Exit
unfolding area_of
static_dispatch_main = print int_line (area_of {T = Square} (record { side = pos 4 }))

-- 110_trait_super_vtable and 164_trait_upcasting
pub record A (T : Type 0) : Type 0 where
  pub a : T → ℤ

-- 110_trait_super_vtable: `trait B: A`
pub record B (T : Type 0) : Type 0 where
  pub parent : A T
  pub b : T → Outcome ℤ

pub record Item : Type 0 where
  pub value : ℤ

unfoldable pub item_a : A Item
item_a = record { a = λ (item : Item). item.value }

unfoldable pub item_b : B Item
unfolding item_a
item_b = record { parent = item_a; b = λ (item : Item). add_i32 item.value (pos 1) }

unfoldable pub super_vtable_total : Item → Outcome ℤ
unfolding item_b
super_vtable_total item = do b ← item_b.b item; add_i32 (item_b.parent.a item) b

unfoldable pub super_vtable_main : Exit
unfolding super_vtable_total
super_vtable_main = print int_line (super_vtable_total (record { value = pos 7 }))

-- 164_trait_upcasting: the methods return constants.
unfoldable pub unit_item : B (Unit {0})
unit_item = record { parent = record { a = λ u. pos 2 }; b = λ u. done (pos 3) }

unfoldable pub upcasting_main : Exit
unfolding unit_item
upcasting_main = print int_line (unit_item.b tt >>= λ b. add_i32 (unit_item.parent.a tt) b)

-- 145_opaque_type_alias
pub record Maker (T : Type 0) : Type 0 where
  pub make : T → ℤ

unfoldable pub item_maker : Maker (Unit {0})
item_maker = record { make = λ u. pos 5 }

unfoldable pub opaque_alias_main : Exit
unfolding item_maker
opaque_alias_main = print int_line (done (item_maker.make tt))

-- 161_generic_associated_types: the type that a provider hands out is a field of the trait.
pub record Provider (T : Type 0) : Type 1 where
  pub Provided : Type 0
  pub provide : T → Provided

pub record IntProvider : Type 0 where
  pub val : ℤ

unfoldable pub int_provider : Provider IntProvider
int_provider = record { Provided = ℤ; provide = λ (p : IntProvider). p.val }

unfoldable pub associated_types_main : Exit
unfolding int_provider
associated_types_main = print int_line (done (int_provider.provide (record { val = pos 42 })))

-- 165_blanket_impl_resolution: the implementation for arrays of two elements.
unfoldable pub len : ℤ × ℤ → ℤ
len arr = pos 2

unfoldable pub blanket_impl_main : Exit
unfolding len
blanket_impl_main = print int_line (done (len (pos 1, pos 2)))

-- 166_specialization_fallback: the default holds for every type, and `i32` has its own.
unfoldable pub default_score : {T : Type 0} → T → ℤ
default_score value = pos 0

unfoldable pub score_i32 : ℤ → ℤ
score_i32 value = pos 2

unfoldable pub specialization_main : Exit
unfolding default_score score_i32
specialization_main = print int_line (add_i32 (score_i32 (pos 1)) (default_score {T = ℕ} 1))

-- 114_callback_from_c
unfoldable pub callback : ℤ → Outcome ℤ
callback x = add_i32 x (pos 1)

unfoldable pub apply : (ℤ → Outcome ℤ) → ℤ → Outcome ℤ
apply cb value = cb value

unfoldable pub callback_main : Exit
unfolding apply callback
callback_main = print int_line (apply callback (pos 41))

-- 198_control_flow_guard_cfi
unfoldable pub guarded_target : ℤ → Outcome ℤ
guarded_target x = add_i32 x (pos 1)

unfoldable pub guarded_call_main : Exit
unfolding guarded_target
guarded_call_main = let fp = guarded_target in print int_line (fp (pos 1))
