-- ===== src/Compiler/Lexing/Unclosed.antt =====
-- src/lexer.zig, src/parser.zig: texts that are not closed.
use sa_plugin_sla.Prelude.{
  leb, ltb, ◌==◌, ℕ, zero, suc, ◌+◌, ◌≡◌, refl, ◌∙◌, length, length-append, Bool, true, false, not,
  ◌&&◌, &&-true, ◌++◌, [], ◌∷◌, arith, ap, none,
}
use sa_plugin_sla.Rust.{done, panic, out_of_bounds, ◌>>=◌}
use sa_plugin_sla.Compiler.Text.{Bytes, starts_with}
use sa_plugin_sla.Compiler.Lexing.Tokens.{Tag, invalid}
use sa_plugin_sla.Compiler.Lexing.Scan.{template_len, string_len}
use sa_plugin_sla.Compiler.Lexing.Symbols.{scan_string}
use sa_plugin_sla.Compiler.Lexing.Lexer.{Lexer, init, lexeme, emit, next_template, next, rest}
use sa_plugin_sla.Compiler.Lexing.Pieces.{IsUnclosed}
use sa_plugin_sla.Compiler.Lexing.Ends.{next-text, peek_loop-unclosed}
use sa_plugin_sla.Compiler.Lexing.PeekBlock.{
  Peek, peek_after, peek_token, peek_on, peek_outside, peek_l_brace, peek_loop, peek_block_span,
}

-- A byte that means nothing in a string or in template text.
abbrev pub is_text : ℕ → Bool
is_text c = not (c == b'\\') && not (c == b'`') && not (c == b'$') && not (c == b'"')

abbrev pub all_text : Bytes → Bool
all_text [] = true
all_text (c ∷ s) = is_text c && all_text s

template_len-text : (s : Bytes) → all_text s ≡ true → template_len s ≡ length s
unfolding template_len
template_len-text [] h = refl
template_len-text (c ∷ []) h = ground arith
template_len-text (c ∷ d ∷ s) h =
    let more = (&&-true (is_text c) (all_text (d ∷ s)) h).1 in
    let ih = template_len-text (d ∷ s) more in ground arith

string_len-text : (s : Bytes) → all_text s ≡ true → string_len (s ++ (b'\\' ∷ [])) ≡ length s + 2
unfolding string_len
string_len-text [] h = omega arith
string_len-text (c ∷ []) h = ground arith
string_len-text (c ∷ d ∷ s) h =
    let more = (&&-true (is_text c) (all_text (d ∷ s)) h).1 in
    let ih = string_len-text (d ∷ s) more in ground arith

-- The lexer behind `{` and a backtick in front of template text.
abbrev opened : Bytes → Lexer
opened s = record {
  buffer = b'{' ∷ b'`' ∷ s;
  index = 2;
  modes = record { in_template = true; interp_depth = 0; tmpl_stack = 0 ∷ [] };
}

two_tokens :
    (fuel : ℕ) (s : Bytes)
    → peek_block_span (suc (suc fuel)) (b'{' ∷ b'`' ∷ s)
      ≡ peek_loop fuel (opened s) (record { modes = (opened s).modes; depth = 1; last = 1 })
unfolding peek_block_span peek_loop peek_after peek_token peek_on peek_outside peek_l_brace next
two_tokens fuel s = refl

head-text :
    (s : Bytes)
    → all_text s ≡ true
    → (starts_with s (b'$' ∷ b'{' ∷ []) ≡ false) × (starts_with s (b'`' ∷ []) ≡ false)
head-text [] h = (refl, refl)
head-text (c ∷ s) h = (ground arith, ground arith)

-- Text up to the end of the buffer is one invalid token.
chunk :
    (l : Lexer)
    → starts_with (rest l) (b'$' ∷ b'{' ∷ []) ≡ false
    → starts_with (rest l) (b'`' ∷ []) ≡ false
    → leb (length l.buffer) (l.index + template_len (rest l)) ≡ true
    → next_template l ≡ emit invalid (template_len (rest l)) l.modes l
unfolding next_template
chunk l e1 e2 e3 = rw (e1, e2, e3) refl

chunk-opened :
    (s : Bytes)
    → all_text s ≡ true
    → next (opened s) ≡ done (emit invalid (length s) (opened s).modes (opened s))
chunk-opened s h =
    let len = template_len-text s h in
    let (e1, e2) = head-text s h in
    let open_end : leb (length (opened s).buffer) (2 + template_len s) ≡ true =
      ground (arith, len) in
    next-text (opened s) refl
    ∙ ap done (chunk (opened s) e1 e2 open_end)
    ∙ ap (λ (n : ℕ). done (emit invalid n (opened s).modes (opened s))) len

third_token :
    (fuel : ℕ) (s : Bytes) (p : Peek)
    → p.modes ≡ (opened s).modes
    → peek_after (peek_loop fuel) p (done (emit invalid (length s) (opened s).modes (opened s)))
      ≡ peek_loop fuel (emit invalid (length s) (opened s).modes (opened s)).1 p
unfolding peek_after peek_token peek_on
third_token fuel s p e = rw e refl

-- For the text of `{`, a backtick, and any bytes that are no backslash, backtick, `$` or quote,
-- the loop of peekBlockSpan has no answer on any fuel: it never comes to an end.
pub peek_block_span-endless :
    (fuel : ℕ) (s : Bytes) → all_text s ≡ true → peek_block_span fuel (b'{' ∷ b'`' ∷ s) ≡ none
unfolding peek_block_span peek_loop peek_after peek_token peek_on peek_outside peek_l_brace next
peek_block_span-endless zero s h = refl
peek_block_span-endless (suc zero) s h = refl
peek_block_span-endless (suc (suc zero)) s h = refl
peek_block_span-endless (suc (suc (suc fuel))) s h =
    let p : Peek = record { modes = (opened s).modes; depth = 1; last = 1 } in
    let last = (emit invalid (length s) (opened s).modes (opened s)).1 in
    let unclosed : IsUnclosed last = record { text = refl; at_end = omega arith } in
    two_tokens (suc fuel) s
    ∙ ap (peek_after (peek_loop fuel) p) (chunk-opened s h)
    ∙ third_token fuel s p refl
    ∙ peek_loop-unclosed fuel last p unclosed refl

-- A text that begins with a quote and ends with a backslash, with nothing special between.
abbrev pub open_string : Bytes → Bytes
open_string s = b'"' ∷ s ++ (b'\\' ∷ [])

scan_string-open :
    (s : Bytes) → all_text s ≡ true → scan_string (s ++ (b'\\' ∷ [])) ≡ (invalid, length s + 2)
unfolding scan_string
scan_string-open s h =
    let len = string_len-text s h in
    let size = length-append s (b'\\' ∷ []) in
    let past : ltb (length s + 2) (length (s ++ (b'\\' ∷ []))) ≡ false = ground (arith, size) in
    rw (len, past) refl

panic_behind :
    (buffer : Bytes) (n : ℕ)
    → leb n (length buffer) ≡ false
    → lexeme buffer (record { start = 0; end = n }) ≡ panic out_of_bounds
unfolding lexeme
panic_behind buffer n e = ground (arith, e)

-- For a text of a quote, any bytes that are no backslash, backtick, `$` or quote, and a backslash
-- at its end, the first token that `next` answers has a place for which `lexeme` panics, since it
-- ends behind the buffer.
pub lexeme-open_string :
    (s : Bytes)
    → all_text s ≡ true
    → (next (init (open_string s)) >>= λ r. lexeme r.1.buffer r.0.loc) ≡ panic out_of_bounds
unfolding next lexeme
lexeme-open_string s h =
    let buffer = open_string s in
    let size = length-append s (b'\\' ∷ []) in
    let past : leb (0 + (1 + (length s + 2))) (length buffer) ≡ false = ground (arith, size) in
    ap (λ (r : Tag × ℕ). lexeme buffer (record { start = 0; end = 0 + (1 + r.1) }))
      (scan_string-open s h)
    ∙ panic_behind buffer (0 + (1 + (length s + 2))) past
