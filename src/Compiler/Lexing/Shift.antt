-- ===== src/Compiler/Lexing/Shift.antt =====
-- src/lexer.zig: a lexer of the text from a place on finds the tokens that the lexer of the whole
-- text finds there.
use sa_plugin_sla.Prelude.{
  leb, ◌==◌, if◌then◌else◌, ℕ, zero, suc, ◌+◌, ◌≤◌, ◌≡◌, refl, sym, ◌∙◌, length, Bool, true, false,
  List, [], ◌∷◌, arith, ap,
}
use sa_plugin_sla.Rust.{Outcome, done, panic, ◌>>=◌}
use sa_plugin_sla.Compiler.Text.{Bytes, skip, starts_with}
use sa_plugin_sla.Compiler.Lexing.Tokens.{
  Tag, eof, invalid, template_string, template_interp, template_end, l_brace, r_brace, Token,
}
use sa_plugin_sla.Compiler.Lexing.Scan.{gap, template_len}
use sa_plugin_sla.Compiler.Lexing.Symbols.{scan}
use sa_plugin_sla.Compiler.Lexing.Lexer.{
  Modes, Lexer, rest, emit, close_template, next_template, open_modes, open_brace, close_brace,
  open_template, next_at, skip_gap, next_from, next,
}
use sa_plugin_sla.Compiler.Lexing.Bounds.{length-skip}

-- The lexer of `buffer` at the place of `l`, which is a lexer of the text from `n` on.
abbrev pub shift : ℕ → Bytes → Lexer → Lexer
shift n buffer l = record { buffer = buffer; index = n + l.index; modes = l.modes }

abbrev pub shift_token : ℕ → Token → Token
shift_token n t = record {
  tag = t.tag;
  loc = record { start = n + t.loc.start; end = n + t.loc.end };
}

abbrev pub shift_both : ℕ → Bytes → Token × Lexer → Token × Lexer
shift_both n buffer (t, l) = (shift_token n t, shift n buffer l)

abbrev pub shift_outcome : ℕ → Bytes → Outcome (Token × Lexer) → Outcome (Token × Lexer)
shift_outcome n buffer (done r) = done (shift_both n buffer r)
shift_outcome n buffer (panic e) = panic e

skip-nil : (n : ℕ) → skip n [] ≡ []
skip-nil zero = refl
skip-nil (suc n) = refl

skip-skip : (n i : ℕ) (s : Bytes) → skip (n + i) s ≡ skip i (skip n s)
skip-skip zero i s = ap (λ (k : ℕ). skip k s) (omega arith)
skip-skip (suc n) i [] = skip-nil (suc n + i) ∙ sym (skip-nil i)
skip-skip (suc n) i (c ∷ s) =
    let e : suc n + i ≡ suc (n + i) = omega arith in
    ap (λ (k : ℕ). skip k (c ∷ s)) e ∙ skip-skip n i s

if_both :
    {A B : Type 0} (f : A → B) (b : Bool) {x : B} {y : B} {x' y' : A}
    → x ≡ f x'
    → y ≡ f y'
    → (if b then x else y) ≡ f (if b then x' else y')
if_both f true p q = p
if_both f false p q = q

emit-shift :
    (n : ℕ) (buffer : Bytes) (tag : Tag) (len : ℕ) (m : Modes) (l : Lexer)
    → emit tag len m (shift n buffer l) ≡ shift_both n buffer (emit tag len m l)
emit-shift n buffer tag len m l =
    let e : n + l.index + len ≡ n + (l.index + len) = omega arith in
    ap
      (λ (k : ℕ). (
        record { tag = tag; loc = record { start = n + l.index; end = k } },
        record { buffer = buffer; index = k; modes = m },
      ))
      e

-- A lexer of the text from a place in the buffer on.
pub record IsTail (n : ℕ) (buffer : Bytes) (l : Lexer) : Type 0 where
  pub tail : l.buffer ≡ skip n buffer
  pub within : n ≤ length buffer

rest-shift :
    (n : ℕ) (buffer : Bytes) (l : Lexer) → IsTail n buffer l → rest (shift n buffer l) ≡ rest l
rest-shift n buffer l h = skip-skip n l.index buffer ∙ ap (skip l.index) (sym h.tail)

leb-shift :
    (n : ℕ) (buffer : Bytes) (l : Lexer) (len : ℕ)
    → IsTail n buffer l
    → leb (length buffer) (n + l.index + len) ≡ leb (length l.buffer) (l.index + len)
leb-shift n buffer l len h = ground (arith, ap length h.tail, length-skip n buffer, h.within)

close_template-shift :
    (n : ℕ) (buffer : Bytes) (depths : List ℕ) (l : Lexer)
    → close_template depths (shift n buffer l) ≡ shift_both n buffer (close_template depths l)
close_template-shift n buffer [] l = emit-shift n buffer invalid 1 l.modes l
close_template-shift n buffer (d ∷ ds) l = emit-shift n buffer template_end 1 _ l

next_template-shift :
    (n : ℕ) (buffer : Bytes) (l : Lexer)
    → IsTail n buffer l
    → next_template (shift n buffer l) ≡ shift_both n buffer (next_template l)
unfolding next_template
next_template-shift n buffer l h =
    let len = template_len (rest l) in
    rw (rest-shift n buffer l h, leb-shift n buffer l len h)
      (if_both (shift_both n buffer) (starts_with (rest l) (b'$' ∷ b'{' ∷ []))
        (emit-shift n buffer template_interp 2 _ l)
        (if_both (shift_both n buffer) (starts_with (rest l) (b'`' ∷ []))
          (close_template-shift n buffer l.modes.tmpl_stack l)
          (if_both (shift_both n buffer) (leb (length l.buffer) (l.index + len))
            (emit-shift n buffer invalid len l.modes l)
            (emit-shift n buffer template_string len l.modes l))))

open_brace-shift :
    (n : ℕ) (buffer : Bytes) (l : Lexer) (o : Outcome Modes)
    → (o >>= λ m. done (emit l_brace 1 m (shift n buffer l)))
      ≡ shift_outcome n buffer (o >>= λ m. done (emit l_brace 1 m l))
open_brace-shift n buffer l (done m) = ap done (emit-shift n buffer l_brace 1 m l)
open_brace-shift n buffer l (panic e) = refl

open_template-shift :
    (n : ℕ) (buffer : Bytes) (l : Lexer)
    → open_template (shift n buffer l) ≡ shift_both n buffer (open_template l)
unfolding open_template
open_template-shift n buffer l =
    if_both (shift_both n buffer) (leb 8 (length l.modes.tmpl_stack))
      (emit-shift n buffer invalid 1 l.modes l) (emit-shift n buffer _ 1 _ l)

next_at-shift :
    (n : ℕ) (buffer : Bytes) (l : Lexer) (c : ℕ) (cs : Bytes)
    → next_at (shift n buffer l) c cs ≡ shift_outcome n buffer (next_at l c cs)
unfolding next_at open_brace
next_at-shift n buffer l c cs =
    if_both (shift_outcome n buffer) (c == b'{') (open_brace-shift n buffer l (open_modes l.modes))
      (if_both (shift_outcome n buffer) (c == b'}')
        (ap done (emit-shift n buffer r_brace 1 (close_brace l.modes) l))
        (if_both (shift_outcome n buffer) (c == b'`') (ap done (open_template-shift n buffer l))
          (ap done (emit-shift n buffer (scan c cs).0 (1 + (scan c cs).1) l.modes l))))

next_from-shift :
    (n : ℕ) (buffer : Bytes) (l : Lexer) (s : Bytes)
    → next_from (shift n buffer l) s ≡ shift_outcome n buffer (next_from l s)
unfolding next_from
next_from-shift n buffer l [] = ap done (emit-shift n buffer eof 0 l.modes l)
next_from-shift n buffer l (c ∷ cs) = next_at-shift n buffer l c cs

skip_gap-shift :
    (n : ℕ) (buffer : Bytes) (l : Lexer)
    → IsTail n buffer l
    → skip_gap (shift n buffer l) ≡ shift n buffer (skip_gap l)
unfolding skip_gap
skip_gap-shift n buffer l h =
    let e : n + l.index + gap false (rest l) ≡ n + (l.index + gap false (rest l)) = omega arith in
    rw (rest-shift n buffer l h)
      (ap (λ (k : ℕ). record { buffer = buffer; index = k; modes = l.modes }) e)

skip_gap-IsTail :
    (n : ℕ) (buffer : Bytes) (l : Lexer) → IsTail n buffer l → IsTail n buffer (skip_gap l)
unfolding skip_gap
skip_gap-IsTail n buffer l h = record { tail = h.tail; within = h.within }

code-shift :
    (n : ℕ) (buffer : Bytes) (l : Lexer)
    → IsTail n buffer l
    → next_from (skip_gap (shift n buffer l)) (rest (skip_gap (shift n buffer l)))
      ≡ shift_outcome n buffer (next_from (skip_gap l) (rest (skip_gap l)))
code-shift n buffer l h =
    let stays : IsTail n buffer (skip_gap l) = skip_gap-IsTail n buffer l h in
    ap (λ (m : Lexer). next_from m (rest m)) (skip_gap-shift n buffer l h)
    ∙ ap (next_from (shift n buffer (skip_gap l))) (rest-shift n buffer (skip_gap l) stays)
    ∙ next_from-shift n buffer (skip_gap l) (rest (skip_gap l))

-- The lexer of the text from `n` on, shifted by `n`, is the lexer of the whole buffer: the tokens
-- and the lexers behind them are the same, with their places shifted.
pub next-shift :
    (n : ℕ) (buffer : Bytes) (l : Lexer)
    → IsTail n buffer l
    → next (shift n buffer l) ≡ shift_outcome n buffer (next l)
unfolding next
next-shift n buffer l h =
    if_both (shift_outcome n buffer) l.modes.in_template
      (ap done (next_template-shift n buffer l h)) (code-shift n buffer l h)
