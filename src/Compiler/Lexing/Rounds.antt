-- ===== src/Compiler/Lexing/Rounds.antt =====
-- src/parser.zig, peekBlockSpan: a round of the loop, for each kind of token.
use sa_plugin_sla.Prelude.{
  leb, ltb, ◌==◌, if◌then◌else◌, ℕ, zero, suc, ◌+◌, ◌-◌, ◌≡◌, refl, sym, subst, ◌∙◌, length, Bool,
  true, false, List, ◌∷◌, arith, ap,
}
use sa_plugin_sla.Rust.{Outcome, done, ◌>>=◌}
use sa_plugin_sla.Compiler.Lexing.Tokens.{Tag, l_brace, r_brace, Token}
use sa_plugin_sla.Compiler.Lexing.Lexer.{Modes, open_modes, close_brace}
use sa_plugin_sla.Compiler.Lexing.Scanned.{is_plain}
use sa_plugin_sla.Compiler.Lexing.Outcomes.{by_test}
use sa_plugin_sla.Compiler.Lexing.PeekBlock.{
  Peek, Step, go_on, syntax_error, peek_in_template, peek_l_brace, peek_r_brace, close_block,
  peek_outside, peek_token, peek_on, peek_template_start,
}
use sa_plugin_sla.Compiler.Lexing.BlockEnd.{Answer, block_step, plain-peek_token}

by_mode :
    (t : Token) (p : Peek) (s : Outcome Step)
    → (p.modes.in_template ≡ true → done (peek_in_template t.tag p) ≡ s)
    → (p.modes.in_template ≡ false → peek_outside t.tag t.loc.end p ≡ s)
    → peek_token t p ≡ s
unfolding peek_token
by_mode t p s h k = by_test (λ (o : Outcome Step). o ≡ s) p.modes.in_template _ _ h k

pub plain-round : (t : Token) (p : Peek) → is_plain t.tag ≡ true → peek_token t p ≡ done (go_on p)
plain-round t p h =
    let (inside, outside) = plain-peek_token t.tag t.loc.end p h in
    by_mode t p _ (λ text. ap done inside) (λ code. outside)

code-round :
    (t : Token) (p : Peek) (s : Outcome Step)
    → p.modes.in_template ≡ false
    → peek_outside t.tag t.loc.end p ≡ s
    → peek_token t p ≡ s
code-round t p s c e = by_mode t p s (λ text. cc) (λ code. e)

text-round :
    (t : Token) (p : Peek) (s : Step)
    → p.modes.in_template ≡ true
    → peek_in_template t.tag p ≡ s
    → peek_token t p ≡ done s
text-round t p s x e = by_mode t p _ (λ text. ap done e) (λ code. cc)

-- What the rounds have in common: the tag is known, and the step that the loop takes with it.
pub code-answer :
    (t : Token) (p : Peek) (gop : Peek → Answer) (s : Outcome Step) (tag : Tag)
    → p.modes.in_template ≡ false
    → t.tag ≡ tag
    → peek_outside tag t.loc.end p ≡ s
    → peek_on gop (peek_token t p) ≡ peek_on gop s
code-answer t p gop s tag c e k =
    ap (peek_on gop) (code-round t p s c (ap (λ (x : Tag). peek_outside x t.loc.end p) e ∙ k))

pub text-answer :
    (t : Token) (p : Peek) (gop : Peek → Answer) (s : Step) (tag : Tag)
    → p.modes.in_template ≡ true
    → t.tag ≡ tag
    → peek_in_template tag p ≡ s
    → peek_on gop (peek_token t p) ≡ peek_on gop (done s)
text-answer t p gop s tag x e k =
    ap (peek_on gop) (text-round t p s x (ap (λ (y : Tag). peek_in_template y p) e ∙ k))

pub opening_brace :
    (p : Peek) (stop : ℕ) (after : Modes)
    → open_modes p.modes ≡ done after
    → peek_outside l_brace stop p
      ≡ done (go_on (record { modes = after; depth = p.depth + 1; last = stop }))
unfolding peek_outside peek_l_brace
opening_brace p stop after e =
    ap
      (λ (o : Outcome Modes).
        o >>= λ m. done (go_on (record { modes = m; depth = p.depth + 1; last = stop })))
      e

block_brace :
    (gop : Peek → Answer) (gob : ℕ → Answer) (stop : ℕ) (m : Modes) (depth : ℕ)
    → ((q : Peek) → q.modes ≡ m → gop q ≡ gob q.depth)
    → peek_on gop (done (close_block stop m depth)) ≡ block_step gob r_brace stop false depth
unfolding peek_on block_step
block_brace gop gob stop m zero h = refl
block_brace gop gob stop m (suc zero) h = refl
block_brace gop gob stop m (suc (suc depth)) h = h _ refl

-- The modes in an interpolation with so many braces open, and the loop in them.
abbrev pub inner : ℕ → List ℕ → Modes
inner interp stack = record { in_template = false; interp_depth = interp; tmpl_stack = stack }

abbrev peek_inner : ℕ → List ℕ → ℕ → ℕ → Peek
peek_inner interp stack depth last = record {
  modes = inner interp stack;
  depth = depth;
  last = last;
}

peek_r_brace-inner :
    (stop n k : ℕ) (stack : List ℕ) (depth last : ℕ)
    → ltb 0 n ≡ true
    → n - 1 ≡ suc k
    → peek_r_brace stop (peek_inner n stack depth last)
      ≡ close_block stop (inner (suc k) stack) depth
unfolding peek_r_brace
peek_r_brace-inner stop n k stack depth last e1 e2 = rw (e1, e2) refl

pub close_brace-inner :
    (n k : ℕ) (stack : List ℕ)
    → ltb 0 n ≡ true
    → n - 1 ≡ suc k
    → close_brace (inner n stack) ≡ inner (suc k) stack
close_brace-inner n k stack e1 e2 =
    let e3 : (suc k == 0) ≡ false = ground arith in rw (e1, e2, e3) refl

-- In code, a closing brace.
closing_brace :
    (gop : Peek → Answer) (gob : ℕ → Answer) (stop interp depth last : ℕ) (stack : List ℕ)
    → ((q : Peek) → q.modes ≡ close_brace (inner interp stack) → gop q ≡ gob q.depth)
    → peek_on gop (done (peek_r_brace stop (peek_inner interp stack depth last)))
      ≡ block_step gob r_brace stop (close_brace (inner interp stack)).in_template depth
unfolding peek_on block_step peek_r_brace
closing_brace gop gob stop zero depth last stack h =
    block_brace gop gob stop (inner zero stack) depth h
closing_brace gop gob stop (suc zero) depth last stack h = h _ refl
closing_brace gop gob stop (suc (suc interp)) depth last stack h =
    let n = suc (suc interp) in
    let e1 : ltb 0 n ≡ true = ground arith in
    let e2 : n - 1 ≡ suc interp = omega arith in
    let e3 = close_brace-inner n interp stack e1 e2 in
    ap (λ (s : Step). peek_on gop (done s))
      (peek_r_brace-inner stop n interp stack depth last e1 e2)
    ∙ block_brace gop gob stop (inner (suc interp) stack) depth (λ q e. h q (e ∙ sym e3))
    ∙ ap (λ (m : Modes). block_step gob r_brace stop m.in_template depth) (sym e3)

pub closing_brace_in :
    (gop : Peek → Answer) (gob : ℕ → Answer) (stop : ℕ) (p : Peek)
    → p.modes.in_template ≡ false
    → ((q : Peek) → q.modes ≡ close_brace p.modes → gop q ≡ gob q.depth)
    → peek_on gop (done (peek_r_brace stop p))
      ≡ block_step gob r_brace stop (close_brace p.modes).in_template p.depth
closing_brace_in gop gob stop p c h =
    subst
      (λ (b : Bool).
        ((q : Peek)
          → q.modes ≡ close_brace (record p.modes { in_template = b })
          → gop q ≡ gob q.depth)
        → peek_on gop
            (done (peek_r_brace stop (record p { modes = record p.modes { in_template = b } })))
          ≡ block_step gob r_brace stop
              (close_brace (record p.modes { in_template = b })).in_template p.depth)
      (sym c) (closing_brace gop gob stop p.modes.interp_depth p.depth p.last p.modes.tmpl_stack) h

pub starting :
    (p : Peek)
    → leb 8 (length p.modes.tmpl_stack) ≡ false
    → peek_template_start p
      ≡ go_on (record p {
        modes = record {
          in_template = true;
          interp_depth = 0;
          tmpl_stack = p.modes.interp_depth ∷ p.modes.tmpl_stack;
        };
      })
starting p room =
    ap
      (λ (b : Bool).
        if b
        then syntax_error
        else go_on (record p {
          modes = record {
            in_template = true;
            interp_depth = 0;
            tmpl_stack = p.modes.interp_depth ∷ p.modes.tmpl_stack;
          };
        }))
      room
