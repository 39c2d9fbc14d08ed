-- ===== src/Rust/Words.antt =====
-- Unsigned machine integers as natural numbers, with the overflow checks of a debug build.
use sa_plugin_sla.Prelude.{ℕ, ◌+◌, ◌*◌, ltb, if◌then◌else◌}
use sa_plugin_sla.Rust.Effects.{Outcome, done, panic, overflow}

abbrev pub u8_mod : ℕ
u8_mod = 256

abbrev pub u32_mod : ℕ
u32_mod = 4294967296

-- `usize` on a 64-bit target.
abbrev pub usize_mod : ℕ
usize_mod = 18446744073709551616

unfoldable pub below : ℕ → ℕ → Outcome ℕ
below m n = if ltb n m then done n else panic overflow

unfoldable pub add_u8 : ℕ → ℕ → Outcome ℕ
unfolding below
add_u8 a b = below u8_mod (a + b)

unfoldable pub mul_u8 : ℕ → ℕ → Outcome ℕ
unfolding below
mul_u8 a b = below u8_mod (a * b)

unfoldable pub add_usize : ℕ → ℕ → Outcome ℕ
unfolding below
add_usize a b = below usize_mod (a + b)

unfoldable pub add_u32 : ℕ → ℕ → Outcome ℕ
unfolding below
add_u32 a b = below u32_mod (a + b)
