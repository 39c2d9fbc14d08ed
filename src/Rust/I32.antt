-- ===== src/Rust/I32.antt =====
-- `i32` with the overflow checks of a debug build: an operation whose exact result does not fit
-- panics.
use sa_plugin_sla.Prelude.{
  ℕ, ◌+◌, ◌≤◌, ◌<◌, ◌-◌, ◌*◌, ◌/◌, ◌%◌, refl, ℤ, pos, negsuc, ◌+ℤ◌, ◌-ℤ◌, ◌*ℤ◌, ◌≤ℤ◌, leb_ℤ, eqb_ℤ,
  quot_ℤ, rem_ℤ, Bool, ◌&&◌, if◌then◌else◌, ◌≡◌, arith,
}
use native.Mathlib.Nat.{div-le_self}
use sa_plugin_sla.Rust.Effects.{Outcome, done, panic, overflow, divide_by_zero, ◌>>=◌}

abbrev pub i32_min : ℤ
i32_min = negsuc 2147483647

abbrev pub i32_max : ℤ
i32_max = pos 2147483647

abbrev pub InI32 : ℤ → Type 0
InI32 z = (i32_min ≤ℤ z) × (z ≤ℤ i32_max)

abbrev pub in_i32 : ℤ → Bool
in_i32 z = leb_ℤ i32_min z && leb_ℤ z i32_max

unfoldable pub checked : ℤ → Outcome ℤ
checked z = if in_i32 z then done z else panic overflow

unfoldable pub add_i32 : ℤ → ℤ → Outcome ℤ
add_i32 a b = checked (a +ℤ b)

unfoldable pub sub_i32 : ℤ → ℤ → Outcome ℤ
sub_i32 a b = checked (a -ℤ b)

unfoldable pub mul_i32 : ℤ → ℤ → Outcome ℤ
mul_i32 a b = checked (a *ℤ b)

-- `/` rounds towards zero; `i32::MIN / -1` does not fit.
unfoldable pub div_i32 : ℤ → ℤ → Outcome ℤ
div_i32 a b = if eqb_ℤ b (pos 0) then panic divide_by_zero else checked (quot_ℤ a b)

-- `%` panics on overflow where `/` does.
unfoldable pub rem_i32 : ℤ → ℤ → Outcome ℤ
unfolding div_i32
rem_i32 a b = div_i32 a b >>= λ _. done (rem_ℤ a b)

pub checked-done : (z : ℤ) → InI32 z → checked z ≡ done z
unfolding checked
checked-done z h = ground arith

pub checked-inv : (z w : ℤ) → checked z ≡ done w → (z ≡ w) × InI32 w
unfolding checked
checked-inv z w h = ground arith

pub checked-panic : (z : ℤ) → ¬ InI32 z → checked z ≡ panic overflow
unfolding checked
checked-panic z h = ground arith

pub add_i32-done : (a b : ℤ) → InI32 (a +ℤ b) → add_i32 a b ≡ done (a +ℤ b)
unfolding add_i32
add_i32-done a b h = checked-done (a +ℤ b) h

pub add_i32-inv : (a b c : ℤ) → add_i32 a b ≡ done c → (a +ℤ b ≡ c) × InI32 c
unfolding add_i32
add_i32-inv a b c h = checked-inv (a +ℤ b) c h

pub add_i32-one : (n : ℕ) → n + 1 ≤ 2147483647 → add_i32 (pos n) (pos 1) ≡ done (pos (n + 1))
unfolding add_i32 checked ◌+ℤ◌
add_i32-one n h = ground arith

-- The operations on numbers of zero or more.
pub sub_i32-pos : (m n : ℕ) → n ≤ m → m ≤ 2147483647 → sub_i32 (pos m) (pos n) ≡ done (pos (m - n))
unfolding sub_i32 checked ◌-ℤ◌
sub_i32-pos m n h k = ground arith

pub add_i32-pos : (m n : ℕ) → m + n ≤ 2147483647 → add_i32 (pos m) (pos n) ≡ done (pos (m + n))
unfolding add_i32 checked ◌+ℤ◌
add_i32-pos m n h = ground arith

pub mul_i32-pos : (m n : ℕ) → m * n ≤ 2147483647 → mul_i32 (pos m) (pos n) ≡ done (pos (m * n))
unfolding mul_i32 checked ◌*ℤ◌
mul_i32-pos m n h = ground arith

pub add_i32-overflow : (m n : ℕ) → 2147483647 < m + n → add_i32 (pos m) (pos n) ≡ panic overflow
unfolding add_i32 checked ◌+ℤ◌
add_i32-overflow m n h = ground arith

pub mul_i32-overflow : (m n : ℕ) → 2147483647 < m * n → mul_i32 (pos m) (pos n) ≡ panic overflow
unfolding mul_i32 checked ◌*ℤ◌
mul_i32-overflow m n h = ground arith

pub div_i32-pos : (m n : ℕ) → 0 < n → m ≤ 2147483647 → div_i32 (pos m) (pos n) ≡ done (pos (m / n))
unfolding div_i32 checked quot_ℤ
div_i32-pos m n h k = ground (arith, div-le_self m n)

pub rem_i32-pos : (m n : ℕ) → 0 < n → m ≤ 2147483647 → rem_i32 (pos m) (pos n) ≡ done (pos (m % n))
unfolding rem_i32 rem_ℤ
rem_i32-pos m n h k = rw (div_i32-pos m n h k)

pub div_i32-zero : (a : ℤ) → div_i32 a (pos 0) ≡ panic divide_by_zero
unfolding div_i32
div_i32-zero a = refl
