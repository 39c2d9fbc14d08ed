-- ===== src/Codec/Frames.antt =====
-- Frame checks, a varint of three groups, and sums of the fields of a struct.
use Prim.Native.Nat.{bit_or, bit_and}
use sa_plugin_sla.Prelude.{
  ◌==◌, if◌then◌else◌, ℤ, pos, ℕ, ◌*◌, ◌%◌, ◌^◌, Bool, true, false, not, ◌&&◌,
}
use sa_plugin_sla.Rust.{
  Outcome, done, ◌>>=◌, Exit, print, int_line, nat_line, flag_line, u32_mod, add_u8, add_u32,
}

-- 87_protocol_frame. `&&` computes the sum only for kind 1.
unfoldable pub frame_valid : ℕ → ℕ → ℕ → Outcome Bool
frame_valid kind len checksum =
    if kind == 1 then (add_u8 kind len >>= λ sum. done (checksum == sum)) else done false

unfoldable pub protocol_frame_main : Exit
unfolding frame_valid
protocol_frame_main = print flag_line (frame_valid 1 4 5)

-- 188_websocket_frame_parse
unfoldable pub text_frame : Bool → ℕ → Bool → ℕ → ℤ
text_frame fin opcode masked payload_len =
    if fin && opcode == 1 && not masked && payload_len == 3 then pos 1 else pos 0

unfoldable pub websocket_main : Exit
unfolding text_frame
websocket_main = print int_line (done (text_frame true 1 false 3))

-- 189_protobuf_varint_decode: `value |= (group & 0x7f) << shift` on a `u32`.
unfoldable pub or_group : ℕ → ℕ → ℕ → ℕ
or_group shift group value = bit_or value (bit_and group 0x7f * 2 ^ shift % u32_mod)

unfoldable pub varint_value : ℕ → ℕ → ℕ → ℕ
varint_value g0 g1 g2 = or_group 14 g2 (or_group 7 g1 (or_group 0 g0 0))

unfoldable pub varint_main : Exit
unfolding varint_value or_group
varint_main = print nat_line (done (varint_value 6 0 0))

-- 149_packed_repr
pub record PackedPair : Type 0 where
  pub a : ℕ
  pub b : ℕ

unfoldable pub packed_sum : PackedPair → Outcome ℕ
packed_sum pair = add_u8 pair.a pair.b

unfoldable pub packed_repr_main : Exit
unfolding packed_sum
packed_repr_main = print nat_line (packed_sum (record { a = 1; b = 2 }))

-- 150_c_repr_alignment
pub record AlignedPair : Type 0 where
  pub a : ℕ  -- u8
  pub b : ℕ  -- u32

unfoldable pub aligned_sum : AlignedPair → Outcome ℕ
aligned_sum pair = add_u32 pair.a pair.b

unfoldable pub c_repr_main : Exit
unfolding aligned_sum
c_repr_main = print nat_line (aligned_sum (record { a = 1; b = 2 }))
