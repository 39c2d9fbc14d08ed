-- ===== src/Codec/Base64.antt =====
-- 190_base64_encode_simd: three bytes become four characters of the alphabet.
use Prim.Native.Char.{code}
use sa_plugin_sla.Prelude.{get_elem?, ℕ, ◌/◌, ◌%◌, String, none, some, List, [], ◌∷◌}
use sa_plugin_sla.Rust.{
  out_of_bounds, Outcome, done, panic, ◌>>=◌, chars, Exit, print, add_u8, mul_u8,
}

abbrev codes : String → List ℕ
codes String.[] = []
codes (String.◌∷◌ c s) = code c ∷ codes s

unfoldable pub b64 : List ℕ
b64 = codes "ABCDEFGHIJKLMNOPQRSTUVWXYZabcdefghijklmnopqrstuvwxyz0123456789+/"

-- An index out of range panics.
unfoldable pub index : List ℕ → ℕ → Outcome ℕ
index xs i = elim (get_elem? xs i) [ none ↦ panic out_of_bounds | some x ↦ done x ]

-- The four indices are computed on `u8`, with its overflow checks.
unfoldable pub sextets : ℕ → ℕ → ℕ → Outcome (ℕ × ℕ × ℕ × ℕ)
sextets i0 i1 i2 = do
  let q0 = i0 / 4
  high1 ← mul_u8 (i0 % 4) 16
  q1 ← add_u8 high1 (i1 / 16)
  high2 ← mul_u8 (i1 % 16) 4
  q2 ← add_u8 high2 (i2 / 64)
  done (q0, q1, q2, i2 % 64)

unfoldable pub encode : ℕ → ℕ → ℕ → Outcome (List ℕ)
unfolding sextets index b64
encode i0 i1 i2 = do
  q ← sextets i0 i1 i2
  c0 ← index b64 q.0
  c1 ← index b64 q.1
  c2 ← index b64 q.2
  c3 ← index b64 q.3
  done (c0 ∷ c1 ∷ c2 ∷ c3 ∷ [])

unfoldable pub base64_main : Exit
unfolding encode
base64_main = print (λ text. chars text ∷ []) (encode b'M' b'a' b'n')
