-- ===== src/Codec.antt =====
-- Byte formats: demos/rosetta 87_protocol_frame, 188_websocket_frame_parse,
-- 189_protobuf_varint_decode, 190_base64_encode_simd, 149_packed_repr and 150_c_repr_alignment. Where
-- a program computes on constants that stand in its `main`, the steps are a function of them here,
-- and `main` applies it.
pub mod Frames
pub mod Base64
pub mod FrameLaws
pub mod Base64Laws
unfoldable pub use Frames.*
unfoldable pub use Base64.*
