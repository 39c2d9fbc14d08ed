-- ===== src/Compiler/Lexing/Pieces.antt =====
-- src/lexer.zig: where the tokens of template text lie.
use sa_plugin_sla.Prelude.{
  leb, ltb, ℕ, suc, ◌+◌, ◌≤◌, ◌<◌, ◌≡◌, refl, ap, ◌⊎◌, inl, inr, length, Bool-cases, true, false,
  List, [], ◌∷◌, arith,
}
use sa_plugin_sla.Compiler.Text.{Bytes, starts_with}
use sa_plugin_sla.Compiler.Lexing.Tokens.{
  Tag, eof, invalid, template_string, template_interp, template_end, Token,
}
use sa_plugin_sla.Compiler.Lexing.Scan.{template_len}
use sa_plugin_sla.Compiler.Lexing.Lexer.{Modes, Lexer, rest, emit, close_template, next_template}
use sa_plugin_sla.Compiler.Lexing.Outcomes.{by_test}
use sa_plugin_sla.Compiler.Lexing.Bounds.{length-skip, template_len-bound}

-- The buffer is at its end in template text.
pub record IsUnclosed (l : Lexer) : Type 0 where
  pub text : l.modes.in_template ≡ true
  pub at_end : length l.buffer ≤ l.index

-- A token and the lexer behind it, for the lexer `l`: the token begins at the place of `l` or
-- later and ends at the new place; that is in the buffer, or at most one byte behind it if the
-- token is invalid or `l` was behind it before; and the token has a byte, unless it is the end of
-- the input or the end of a buffer that ends in template text.
pub record Advances (l : Lexer) (r : Token × Lexer) : Type 0 where
  pub same : r.1.buffer ≡ l.buffer
  pub starts : l.index ≤ r.0.loc.start
  pub forward : r.0.loc.start ≤ r.0.loc.end
  pub ends : r.0.loc.end ≡ r.1.index
  pub near : r.1.index ≤ suc (length l.buffer)
  pub inside : (r.0.tag ≡ invalid) ⊎ (length l.buffer < l.index) ⊎ (r.1.index ≤ length l.buffer)
  pub ahead : (r.0.tag ≡ eof) ⊎ (r.0.loc.start < r.0.loc.end) ⊎ IsUnclosed l

pub emit-Advances :
    (tag : Tag) (n : ℕ) (m : Modes) (l : Lexer)
    → l.index + n ≤ suc (length l.buffer)
    → (tag ≡ invalid) ⊎ (length l.buffer < l.index) ⊎ (l.index + n ≤ length l.buffer)
    → (tag ≡ eof) ⊎ (0 < n) ⊎ IsUnclosed l
    → Advances l (emit tag n m l)
emit-Advances tag n m l near inside ahead = record {
  same = refl;
  starts = omega arith;
  forward = omega arith;
  ends = refl;
  near = near;
  inside = inside;
  ahead = elim ahead [
    | inl last ↦ inl last
    | inr (inl byte) ↦ inr (inl (omega (arith, byte)))
    | inr (inr stuck) ↦ inr (inr stuck)
  ];
}

-- One byte of a rest that is not empty.
pub byte-Advances :
    (tag : Tag) (m : Modes) (l : Lexer) → l.index < length l.buffer → Advances l (emit tag 1 m l)
byte-Advances tag m l h =
    emit-Advances tag 1 m l (omega arith) (inr (inr (omega arith))) (inr (inl (omega arith)))

pub in_rest :
    (l : Lexer) (c : ℕ) (cs : Bytes) → rest l ≡ c ∷ cs → l.index + suc (length cs) ≡ length l.buffer
in_rest l c cs e = omega (arith, ap length e, length-skip l.index l.buffer)

template_len-positive :
    (s : Bytes)
    → starts_with s (b'$' ∷ b'{' ∷ []) ≡ false
    → starts_with s (b'`' ∷ []) ≡ false
    → 0 < length s
    → 0 < template_len s
unfolding template_len
template_len-positive [] a b h = omega (arith, h)
template_len-positive (c ∷ []) a b h = ground arith
template_len-positive (c ∷ d ∷ s) a b h = ground arith

template_len-empty : (s : Bytes) → length s ≡ 0 → template_len s ≡ 0
unfolding template_len
template_len-empty [] h = refl
template_len-empty (c ∷ s) h = ground arith

close_template-Advances :
    (depths : List ℕ) (l : Lexer) → l.index < length l.buffer → Advances l (close_template depths l)
close_template-Advances [] l h = byte-Advances invalid l.modes l h
close_template-Advances (d ∷ ds) l h = byte-Advances template_end _ l h

starts_with-length : (s p : Bytes) → starts_with s p ≡ true → length p ≤ length s
starts_with-length s [] h = omega arith
starts_with-length [] (d ∷ p) h = ground arith
starts_with-length (c ∷ s) (d ∷ p) h = ground (arith, starts_with-length s p)

-- A piece of template text that goes to the end of the buffer.
last_piece-Advances :
    (l : Lexer)
    → l.modes.in_template ≡ true
    → starts_with (rest l) (b'$' ∷ b'{' ∷ []) ≡ false
    → starts_with (rest l) (b'`' ∷ []) ≡ false
    → l.index ≤ suc (length l.buffer)
    → Advances l (emit invalid (template_len (rest l)) l.modes l)
last_piece-Advances l t text no_tick h =
    let n = length-skip l.index l.buffer in
    let bound = template_len-bound (rest l) in
    elim (Bool-cases (ltb l.index (length l.buffer))) [
      | inl more ↦
          let less : l.index < length l.buffer = ground arith in
          let pos = template_len-positive (rest l) text no_tick (omega (arith, less, n)) in
          emit-Advances invalid _ l.modes l (omega (arith, bound, n, less)) (inl refl)
            (inr (inl pos))
      | inr no_more ↦
          let le : length l.buffer ≤ l.index = ground arith in
          let none_left = template_len-empty (rest l) (omega (arith, le, n)) in
          emit-Advances invalid _ l.modes l (omega (arith, h, none_left)) (inl refl)
            (inr (inr (record { text = t; at_end = le })))
    ]

-- A piece in front of something.
inner_piece-Advances :
    (l : Lexer)
    → starts_with (rest l) (b'$' ∷ b'{' ∷ []) ≡ false
    → starts_with (rest l) (b'`' ∷ []) ≡ false
    → l.index + template_len (rest l) < length l.buffer
    → Advances l (emit template_string (template_len (rest l)) l.modes l)
inner_piece-Advances l text no_tick less =
    let n = length-skip l.index l.buffer in
    let pos = template_len-positive (rest l) text no_tick (omega (arith, less, n)) in
    emit-Advances template_string _ l.modes l (omega (arith, less))
      (inr (inr (omega (arith, less)))) (inr (inl pos))

pub next_template-Advances :
    (l : Lexer)
    → l.modes.in_template ≡ true
    → l.index ≤ suc (length l.buffer)
    → Advances l (next_template l)
unfolding next_template
next_template-Advances l t h =
    let n = length-skip l.index l.buffer in
    by_test (Advances l) (starts_with (rest l) (b'$' ∷ b'{' ∷ [])) _ _
      (λ interp.
        let le = starts_with-length (rest l) (b'$' ∷ b'{' ∷ []) interp in
        emit-Advances template_interp 2 _ l (omega (arith, le, n))
          (inr (inr (omega (arith, le, n)))) (inr (inl (omega arith))))
      (λ text.
        by_test (Advances l) (starts_with (rest l) (b'`' ∷ [])) _ _
          (λ tick.
            let le = starts_with-length (rest l) (b'`' ∷ []) tick in
            close_template-Advances l.modes.tmpl_stack l (omega (arith, le, n)))
          (λ no_tick.
            by_test (Advances l) (leb (length l.buffer) (l.index + template_len (rest l))) _ _
              (λ all. last_piece-Advances l t text no_tick h)
              (λ some_left. inner_piece-Advances l text no_tick (ground arith))))
