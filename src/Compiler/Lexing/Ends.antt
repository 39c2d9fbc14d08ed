-- ===== src/Compiler/Lexing/Ends.antt =====
-- src/lexer.zig and the loops of src/parser.zig that ask for tokens until the end of the input:
-- when they come to an end.
use sa_plugin_sla.Prelude.{
  leb, if◌then◌else◌, ℕ, zero, suc, ◌+◌, ◌-◌, ◌≤◌, ◌<◌, ◌≡◌, refl, length, Bool, true, [], ◌∷◌,
  arith, sym, ap, ◌∙◌, inl, inr, Option, none,
}
use sa_plugin_sla.Rust.{Outcome, done, panic}
use sa_plugin_sla.Compiler.Text.{Bytes, skip}
use sa_plugin_sla.Compiler.Lexing.Scan.{template_len}
use sa_plugin_sla.Compiler.Lexing.Tokens.{Tag, eof, invalid, Token}
use sa_plugin_sla.Compiler.Lexing.Lexer.{
  Lexer, rest, emit, next_template, next, skip_gap, next_from,
}
use sa_plugin_sla.Compiler.Lexing.Outcomes.{Always, by_test}
use sa_plugin_sla.Compiler.Lexing.Progress.{next-Advances}
use sa_plugin_sla.Compiler.Lexing.Pieces.{IsUnclosed, Advances}
use sa_plugin_sla.Compiler.Lexing.PeekBlock.{
  Peek, Step, go_on, syntax_error, found, peek_in_template, peek_outside, peek_token, peek_on,
  peek_after, peek_loop,
}

-- Calls of `next` lead from the one lexer to the other.
pub data Reaches : Lexer → Lexer → Type 0 where
  here : {l : Lexer} → Reaches l l
  call : {l m n : Lexer} (t : Token) → next l ≡ done (t, m) → Reaches m n → Reaches l n

skip_all : (n : ℕ) (s : Bytes) → length s ≤ n → skip n s ≡ []
skip_all zero [] h = refl
skip_all (suc n) [] h = refl
skip_all zero (c ∷ s) h = ground arith
skip_all (suc n) (c ∷ s) h = skip_all n s (omega arith)

-- In template text.
pub next-text : (l : Lexer) → l.modes.in_template ≡ true → next l ≡ done (next_template l)
unfolding next
next-text l t =
    ap
      (λ (b : Bool).
        if b then done (next_template l) else next_from (skip_gap l) (rest (skip_gap l)))
      t

next_template-unclosed :
    (l : Lexer)
    → rest l ≡ []
    → leb (length l.buffer) (l.index + 0) ≡ true
    → next_template l ≡ emit invalid 0 l.modes l
unfolding next_template template_len
next_template-unclosed l e le = rw (e, le) refl

-- The lexer stays there for ever, with an empty invalid token at each call.
pub next-unclosed : (l : Lexer) → IsUnclosed l → next l ≡ done (emit invalid 0 l.modes l)
next-unclosed l u =
    next-text l u.text
    ∙ ap done
        (next_template-unclosed l (skip_all l.index l.buffer u.at_end) (ground (arith, u.at_end)))

-- In template text a token that is not one of a template leaves the loop where it is.
peek_after-invalid :
    (go : Lexer → Peek → Option (Outcome (Option ℕ))) (p : Peek) (l : Lexer)
    → p.modes.in_template ≡ true
    → peek_after go p (done (emit invalid 0 l.modes l)) ≡ go (emit invalid 0 l.modes l).1 p
unfolding peek_after peek_token
peek_after-invalid go p l t = rw t refl

-- So does the loop: where the buffer ends in template text, it never comes to an end.
pub peek_loop-unclosed :
    (fuel : ℕ) (l : Lexer) (p : Peek)
    → IsUnclosed l
    → p.modes.in_template ≡ true
    → peek_loop fuel l p ≡ none
unfolding peek_loop
peek_loop-unclosed zero l p u t = refl
peek_loop-unclosed (suc fuel) l p u t =
    let behind = (emit invalid 0 l.modes l).1 in
    let stay : IsUnclosed behind = record { text = u.text; at_end = omega (arith, u.at_end) } in
    ap (peek_after (peek_loop fuel) p) (next-unclosed l u)
    ∙ peek_after-invalid (peek_loop fuel) p l t
    ∙ peek_loop-unclosed fuel behind p stay t

-- What a round of the loop tells of the next one.
peek_on-none :
    (go : Peek → Option (Outcome (Option ℕ))) (s : Outcome Step)
    → peek_on go s ≡ none
    → (p : Peek) × (s ≡ done (go_on p)) × (go p ≡ none)
unfolding peek_on
peek_on-none go (panic e) h = cc
peek_on-none go (done syntax_error) h = cc
peek_on-none go (done (found stop)) h = cc
peek_on-none go (done (go_on p)) h = (p, refl, h)

peek_token-eof : (t : Token) (p : Peek) → t.tag ≡ eof → peek_token t p ≡ done syntax_error
unfolding peek_token peek_outside
peek_token-eof t p e =
    by_test (λ (s : Outcome Step). s ≡ done syntax_error) p.modes.in_template _ _
      (λ text. ap (λ (tag : Tag). done (peek_in_template tag p)) e)
      (λ code. ap (λ (tag : Tag). peek_outside tag t.loc.end p) e)

-- Where enough fuel does not bring the loop to an end, the buffer ends in template text.
peek_after-none :
    (fuel : ℕ) (l : Lexer) (p : Peek) (o : Outcome (Token × Lexer))
    → next l ≡ o
    → Always (Advances l) o
    → suc (length l.buffer) - l.index < suc fuel
    → peek_after (peek_loop fuel) p o ≡ none
    → ((m : Lexer) (q : Peek)
        → m.index ≤ suc (length m.buffer)
        → suc (length m.buffer) - m.index < fuel
        → peek_loop fuel m q ≡ none
        → (k : Lexer) × Reaches m k × IsUnclosed k)
    → (m : Lexer) × Reaches l m × IsUnclosed m
unfolding peek_after
peek_after-none fuel l p (panic x) e a f n ih = cc
peek_after-none fuel l p (done (t, m)) e a f n ih =
    let (q, step, more) = peek_on-none (peek_loop fuel m) (peek_token t p) n in
    let size = ap length a.same in
    elim a.ahead [
      | inl last ↦ (let stops = sym step ∙ peek_token-eof t p last in cc)
      | inr (inl byte) ↦
          let (k, r, u) =
            ih m q (omega (arith, a.near, size))
              (omega (arith, f, byte, a.starts, a.ends, size, a.near)) more in
          (k, call t e r, u)
      | inr (inr unclosed) ↦ (l, here, unclosed)
    ]

pub peek_loop-none :
    (fuel : ℕ) (l : Lexer) (p : Peek)
    → l.index ≤ suc (length l.buffer)
    → suc (length l.buffer) - l.index < fuel
    → peek_loop fuel l p ≡ none
    → (m : Lexer) × Reaches l m × IsUnclosed m
unfolding peek_loop
peek_loop-none zero l p h f n = absurd (omega (arith, f))
peek_loop-none (suc fuel) l p h f n =
    peek_after-none fuel l p (next l) refl (next-Advances l h) f n (peek_loop-none fuel)
