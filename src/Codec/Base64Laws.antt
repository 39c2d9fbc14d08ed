-- ===== src/Codec/Base64Laws.antt =====
-- Laws of 190_base64_encode_simd, with a decoder to state them.
use sa_plugin_sla.Prelude.{
  ◌==◌, if◌then◌else◌, Option-cases, length, get_elem?, ℕ, suc, ◌+◌, ◌*◌, ◌/◌, ◌%◌, ◌<◌, ◌≡◌, refl,
  ap, ◌∙◌, inl, inr, Bool, true, false, Option, none, some, List, [], ◌∷◌, arith, holds_below,
  holds_below-at,
}
use sa_plugin_sla.Rust.{done, add_u8, mul_u8}
use sa_plugin_sla.Codec.Base64.{b64, index, sextets, encode}
use mathlib.Core.Option

-- The position of a character in the alphabet.
unfoldable pub position : List ℕ → ℕ → Option ℕ
position [] c = none
position (x ∷ xs) c = let later = Option.map suc (position xs c) in if x == c then some 0 else later

-- The three bytes that four sextets hold.
abbrev join : Option ℕ → Option ℕ → Option ℕ → Option ℕ → Option (ℕ × ℕ × ℕ)
join (some q0) (some q1) (some q2) (some q3) =
    some (q0 * 4 + q1 / 16, q1 % 16 * 16 + q2 / 4, q2 % 4 * 64 + q3)
join _ _ _ _ = none

-- A decoder of four characters.
unfoldable pub decode : List ℕ → Option (ℕ × ℕ × ℕ)
unfolding position
decode (c0 ∷ c1 ∷ c2 ∷ c3 ∷ []) =
    join (position b64 c0) (position b64 c1) (position b64 c2) (position b64 c3)
decode _ = none

-- Every sextet has a character, and that character is found at its place.
is_coded : ℕ → Bool
is_coded q = elim (get_elem? b64 q) [
  | none ↦ false
  | some x ↦ elim (position b64 x) [ none ↦ false | some p ↦ p == q ]
]

all_coded : holds_below is_coded 64 ≡ true
unfolding holds_below is_coded b64 position
all_coded = refl

index-b64 : (q : ℕ) → q < 64 → (c : ℕ) × (index b64 q ≡ done c) × (position b64 c ≡ some q)
unfolding index is_coded b64
index-b64 q h = coded (holds_below-at is_coded 64 q h all_coded)
  where
    coded : is_coded q ≡ true → (c : ℕ) × (index b64 q ≡ done c) × (position b64 c ≡ some q)
    coded e = elim (Option-cases (get_elem? b64 q)) [
      | inl m ↦ let e' = rw m at e in cc
      | inr (x, m) ↦ elim (Option-cases (position b64 x)) [
        | inl n ↦ let e' = rw (m, n) at e in cc
        | inr (p, n) ↦
            let e' = rw (m, n) at e in (x, rw m, n ∙ ap (λ (k : ℕ). some k) (ground arith))
      ]
    ]

sextets-eq :
    (i0 i1 i2 : ℕ)
    → i0 < 256
    → i1 < 256
    → i2 < 256
    → sextets i0 i1 i2 ≡ done (i0 / 4, i0 % 4 * 16 + i1 / 16, i1 % 16 * 4 + i2 / 64, i2 % 64)
unfolding sextets add_u8 mul_u8
sextets-eq i0 i1 i2 h0 h1 h2 = ground arith

-- Three bytes are always encoded, with no overflow and no index out of range, into four characters,
-- and decoding these gives the bytes back.
pub decode-encode :
    (i0 i1 i2 : ℕ)
    → i0 < 256
    → i1 < 256
    → i2 < 256
    → (text : List ℕ) × (encode i0 i1 i2 ≡ done text)
      × (length text ≡ 4)
      × (decode text ≡ some (i0, i1, i2))
unfolding encode decode
decode-encode i0 i1 i2 h0 h1 h2 =
    let (c0, e0, p0) = index-b64 (i0 / 4) (omega arith) in
    let (c1, e1, p1) = index-b64 (i0 % 4 * 16 + i1 / 16) (omega arith) in
    let (c2, e2, p2) = index-b64 (i1 % 16 * 4 + i2 / 64) (omega arith) in
    let (c3, e3, p3) = index-b64 (i2 % 64) (omega arith) in
    (
      c0 ∷ c1 ∷ c2 ∷ c3 ∷ [],
      rw (sextets-eq i0 i1 i2 h0 h1 h2, e0, e1, e2, e3),
      refl,
      rw (p0, p1, p2, p3) (ground arith),
    )
