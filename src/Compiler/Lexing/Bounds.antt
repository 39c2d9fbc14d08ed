-- ===== src/Compiler/Lexing/Bounds.antt =====
-- src/lexer.zig: the loops stay in the buffer, a string that is not closed aside.
use sa_plugin_sla.Prelude.{
  ◌==◌, ℕ, zero, suc, ◌-◌, ◌≤◌, ◌≡◌, length, Bool, true, false, ◌||◌, [], ◌∷◌, arith,
}
use sa_plugin_sla.Compiler.Text.{Bytes, skip}
use sa_plugin_sla.Compiler.Lexing.Scan.{
  count_while, gap, string_len, template_len, hex_len, number_len,
}

pub length-skip : (n : ℕ) (s : Bytes) → length (skip n s) ≡ length s - n
length-skip zero s = omega arith
length-skip (suc n) [] = omega arith
length-skip (suc n) (c ∷ s) = ground (arith, length-skip n s)

pub count_while-bound : (p : ℕ → Bool) (s : Bytes) → count_while p s ≤ length s
unfolding count_while
count_while-bound p [] = omega arith
count_while-bound p (c ∷ s) = ground (arith, count_while-bound p s)

pub gap-bound : (b : Bool) (s : Bytes) → gap b s ≤ length s
unfolding gap
gap-bound b [] = omega arith
gap-bound false (c ∷ s) = ground (arith, gap-bound false s, gap-bound true s)
gap-bound true (c ∷ s) = ground (arith, gap-bound false s, gap-bound true s)

pub string_len-bound : (s : Bytes) → string_len s ≤ suc (length s)
unfolding string_len
string_len-bound [] = omega arith
string_len-bound (c ∷ []) = ground arith
string_len-bound (c ∷ d ∷ s) = ground (arith, string_len-bound (d ∷ s), string_len-bound s)

pub template_len-bound : (s : Bytes) → template_len s ≤ suc (length s)
unfolding template_len
template_len-bound [] = omega arith
template_len-bound (c ∷ []) = ground arith
template_len-bound (c ∷ d ∷ s) = ground (arith, template_len-bound (d ∷ s), template_len-bound s)

pub hex_len-bound : (s : Bytes) → hex_len s ≤ length s
unfolding hex_len
hex_len-bound [] = omega arith
hex_len-bound (c ∷ s) = ground (arith, hex_len-bound s)

pub number_len-bound : (f : Bool) (s : Bytes) → (number_len f s).0 ≤ length s
unfolding number_len
number_len-bound f [] = omega arith
number_len-bound f (c ∷ s) = ground (arith, number_len-bound (f || c == b'.') s)
