-- ===== src/Compiler/Lexing/Progress.antt =====
-- src/lexer.zig: where the tokens lie, and that each call of `next` gets ahead.
use sa_plugin_sla.Prelude.{
  leb, ltb, ◌==◌, ℕ, suc, ◌+◌, ◌-◌, ◌≤◌, ◌<◌, ◌≡◌, refl, ◌⊎◌, inl, inr, length, Bool-cases, false,
  [], ◌∷◌, arith,
}
use sa_plugin_sla.Compiler.Text.{Bytes}
use sa_plugin_sla.Compiler.Lexing.Tokens.{
  Tag, eof, invalid, template_start, l_brace, r_brace, Token,
}
use sa_plugin_sla.Compiler.Lexing.Scan.{gap}
use sa_plugin_sla.Compiler.Lexing.Symbols.{scan}
use sa_plugin_sla.Compiler.Lexing.Lexer.{
  Lexer, rest, open_modes, open_brace, open_template, next_at, skip_gap, next_from, next,
}
use sa_plugin_sla.Compiler.Lexing.Outcomes.{Always, always-map, by_test, every}
use sa_plugin_sla.Compiler.Lexing.Bounds.{length-skip, gap-bound}
use sa_plugin_sla.Compiler.Lexing.Scanned.{IsScanned, scan-IsScanned}
use sa_plugin_sla.Compiler.Lexing.Pieces.{
  emit-Advances, byte-Advances, next_template-Advances, in_rest, Advances,
}

open_template-Advances : (l : Lexer) → l.index < length l.buffer → Advances l (open_template l)
unfolding open_template
open_template-Advances l h = elim (Bool-cases (leb 8 (length l.modes.tmpl_stack))) [
  | inl full ↦ rw full (byte-Advances invalid l.modes l h)
  | inr room ↦ rw room (byte-Advances template_start _ l h)
]

inside_behind :
    (i n : ℕ) (cs : Bytes) (r : Tag × ℕ)
    → i + suc (length cs) ≡ n
    → IsScanned cs r
    → (r.0 ≡ invalid) ⊎ (n < i) ⊎ (i + (1 + r.1) ≤ n)
inside_behind i n cs r e s = elim s.inside [
  | inl bad ↦ inl bad
  | inr le ↦ inr (inr (omega (arith, e, le)))
]

next_at-Advances :
    (l : Lexer) (c : ℕ) (cs : Bytes)
    → l.index + suc (length cs) ≡ length l.buffer
    → Always (Advances l) (next_at l c cs)
unfolding next_at open_brace open_template
next_at-Advances l c cs e = elim (Bool-cases (c == b'{')) [
  | inl opens ↦ rw opens (
      every (Advances l) (open_modes l.modes) _ (λ m. byte-Advances l_brace m l (omega (arith, e))))
  | inr e1 ↦ elim (Bool-cases (c == b'}')) [
    | inl closes ↦ rw (e1, closes) (byte-Advances r_brace _ l (omega (arith, e)))
    | inr e2 ↦ elim (Bool-cases (c == b'`')) [
      | inl tick ↦ rw (e1, e2, tick) (open_template-Advances l (omega (arith, e)))
      | inr e3 ↦
          let s = scan-IsScanned c cs in
          let r = scan c cs in
          rw (e1, e2, e3)
            (emit-Advances r.0 (1 + r.1) l.modes l (omega (arith, e, s.near))
              (inside_behind l.index (length l.buffer) cs r e s) (inr (inl (omega arith))))
    ]
  ]
]

at_end : (i n : ℕ) → (eof ≡ invalid) ⊎ (n < i) ⊎ (i + 0 ≤ n)
at_end i n = elim (Bool-cases (ltb n i)) [
  | inl behind ↦ inr (inl (ground arith))
  | inr before ↦ inr (inr (ground arith))
]

next_from-Advances :
    (l : Lexer) (s : Bytes)
    → rest l ≡ s
    → l.index ≤ suc (length l.buffer)
    → Always (Advances l) (next_from l s)
unfolding next_from
next_from-Advances l [] e h =
    emit-Advances eof 0 l.modes l (omega (arith, h)) (at_end l.index (length l.buffer)) (inl refl)
next_from-Advances l (c ∷ cs) e h = next_at-Advances l c cs (in_rest l c cs e)

-- A token found behind a gap in the buffer.
behind-Advances :
    (l : Lexer) (gap : ℕ)
    → gap ≤ length l.buffer - l.index
    → l.modes.in_template ≡ false
    → (r : Token × Lexer) → Advances (record l { index = l.index + gap }) r
    → Advances l r
behind-Advances l gap h c r a = record {
  same = a.same;
  starts = omega (arith, a.starts);
  forward = a.forward;
  ends = a.ends;
  near = a.near;
  inside = elim a.inside [
    | inl bad ↦ inl bad
    | inr (inl behind) ↦ inr (inl (omega (arith, behind, h)))
    | inr (inr within) ↦ inr (inr within)
  ];
  ahead = elim a.ahead [
    | inl last ↦ inl last
    | inr (inl byte) ↦ inr (inl byte)
    | inr (inr unclosed) ↦ (let u = unclosed.text in cc)
  ];
}

pub gap_left : (l : Lexer) → gap false (rest l) ≤ length l.buffer - l.index
gap_left l = omega (arith, gap-bound false (rest l), length-skip l.index l.buffer)

-- Outside of template text.
skip_gap-Advances :
    (l : Lexer)
    → l.modes.in_template ≡ false
    → l.index ≤ suc (length l.buffer)
    → Always (Advances l) (next_from (skip_gap l) (rest (skip_gap l)))
unfolding skip_gap
skip_gap-Advances l c h =
    always-map (next_from (skip_gap l) (rest (skip_gap l)))
      (behind-Advances l (gap false (rest l)) (gap_left l) c)
      (next_from-Advances (skip_gap l) (rest (skip_gap l)) refl (omega (arith, h, gap_left l)))

-- For a lexer at most one byte behind its buffer, and unless the depth overflows, each call of
-- `next` answers a token that begins at the place of the lexer or later and ends where the lexer
-- stands then. That is in the same buffer, or at most one byte behind it where the token is
-- invalid or the lexer was behind it before. The token has a byte, unless it is the end of the
-- input, or the buffer ended in template text.
pub next-Advances : (l : Lexer) → l.index ≤ suc (length l.buffer) → Always (Advances l) (next l)
unfolding next
next-Advances l h =
    by_test (Always (Advances l)) l.modes.in_template _ _ (λ text. next_template-Advances l text h)
      (λ code. skip_gap-Advances l code h)
