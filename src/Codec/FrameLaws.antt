-- ===== src/Codec/FrameLaws.antt =====
-- Laws of 87_protocol_frame and 189_protobuf_varint_decode.
use sa_plugin_sla.Prelude.{
  ◌==◌, ℕ, ◌+◌, ◌*◌, ◌%◌, ◌^◌, ◌<◌, ◌≡◌, ◌∙◌, ◌↔◌, Bool, true, ◌&&◌, arith, bit_and-0x7f,
  bit_or-disjoint,
}
use sa_plugin_sla.Rust.{overflow, done, panic, u32_mod, add_u8}
use sa_plugin_sla.Codec.Frames.{frame_valid, or_group, varint_value}
use native.Mathlib.Nat.{mod-eq_of_lt}

-- For a length below 255 the check always answers, and it says yes exactly for kind 1 with a checksum
-- of one more than the length.
pub frame_valid_iff :
    (kind len checksum : ℕ)
    → len < 255
    → (b : Bool) × (frame_valid kind len checksum ≡ done b)
      × ((b ≡ true) ↔ ((kind ≡ 1) × (checksum ≡ len + 1)))
unfolding frame_valid add_u8
frame_valid_iff kind len checksum h = (kind == 1 && checksum == len + 1, ground arith, ground arith)

-- The check panics exactly for a frame of kind 1 whose length is 255, the largest byte.
pub frame_valid-panic_iff :
    (kind len checksum : ℕ)
    → len < 256
    → (frame_valid kind len checksum ≡ panic overflow) ↔ ((kind ≡ 1) × (len ≡ 255))
unfolding frame_valid add_u8
frame_valid-panic_iff kind len checksum h = ground arith

or_group-add :
    (k g v : ℕ) → v < 2 ^ k → g % 128 * 2 ^ k < u32_mod → or_group k g v ≡ v + g % 128 * 2 ^ k
unfolding or_group
or_group-add k g v h f = rw (bit_and-0x7f g, mod-eq_of_lt f) (bit_or-disjoint k v (g % 128) h)

-- A group counts with its low seven bits only, and the three groups add up, the first one lowest.
pub varint_value-eq :
    (g0 g1 g2 : ℕ) → varint_value g0 g1 g2 ≡ g0 % 128 + g1 % 128 * 128 + g2 % 128 * 16384
unfolding varint_value
varint_value-eq g0 g1 g2 =
    rw
      (
        or_group-add 0 g0 0 (omega arith) (omega arith),
        or_group-add 7 g1 (0 + g0 % 128 * 2 ^ 0) (omega arith) (omega arith),
      )
      (or_group-add 14 g2 (0 + g0 % 128 * 2 ^ 0 + g1 % 128 * 2 ^ 7) (omega arith) (omega arith)
        ∙ omega arith)
