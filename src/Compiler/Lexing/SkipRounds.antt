-- ===== src/Compiler/Lexing/SkipRounds.antt =====
-- src/parser.zig, skipBlockSpan: a round of the loop, for each kind of token, beside what the
-- token does to the depth of braces.
use sa_plugin_sla.Prelude.{
  ltb, ℕ, zero, suc, ◌+◌, ◌-◌, ◌≡◌, refl, sym, ◌∙◌, true, false, List, arith, ap, some,
}
use sa_plugin_sla.Rust.{Outcome, done, ◌>>=◌}
use sa_plugin_sla.Compiler.Lexing.Tokens
use sa_plugin_sla.Compiler.Lexing.Tokens.{
  Tag, eof, template_start, template_interp, template_end, l_brace, r_brace, Token,
}
use sa_plugin_sla.Compiler.Lexing.Lexer.{Modes, open_modes, close_brace}
use sa_plugin_sla.Compiler.Lexing.Scanned.{is_plain}
use sa_plugin_sla.Compiler.Lexing.Outcomes.{by_test}
use sa_plugin_sla.Compiler.Lexing.PeekBlock.{Peek, Step, go_on}
use sa_plugin_sla.Compiler.Lexing.BlockEnd.{Answer, block_step}
use sa_plugin_sla.Compiler.Lexing.Rounds.{inner, close_brace-inner}
use sa_plugin_sla.Compiler.Lexing.SkipBlock.{
  skip_in_template, skip_l_brace, skip_r_brace, skip_outside, skip_token,
}

-- The block is closed, or the loop goes on.
abbrev pub settle : (ℕ → Answer) → ℕ → ℕ → Answer
settle go zero last = some (done (some last))
settle go (suc depth) last = go (suc depth)

-- The loop passes over the token `t` and keeps the modes and the depth as they are then.
pub record Passes (t : Token) (p : Peek) (tag : Tag) (after : Modes) : Type 0 where
  pub to : Peek
  pub steps : skip_token t p ≡ done (go_on to)
  pub mirrors : to.modes ≡ after
  pub counts :
      (go : ℕ → Answer)
      → block_step go tag t.loc.end after.in_template p.depth ≡ settle go to.depth to.last

pub code-skip :
    (t : Token) (p : Peek) (s : Outcome Step) (tag : Tag)
    → p.modes.in_template ≡ false
    → t.tag ≡ tag
    → skip_outside tag t.loc.end p ≡ s
    → skip_token t p ≡ s
unfolding skip_token
code-skip t p s tag c e k =
    by_test (λ (o : Outcome Step). o ≡ s) p.modes.in_template _ _ (λ text. cc)
      (λ code. ap (λ (x : Tag). skip_outside x t.loc.end p) e ∙ k)

pub text-skip :
    (t : Token) (p : Peek) (s : Step) (tag : Tag)
    → p.modes.in_template ≡ true
    → t.tag ≡ tag
    → skip_in_template tag p ≡ s
    → skip_token t p ≡ done s
unfolding skip_token
text-skip t p s tag x e k =
    by_test (λ (o : Outcome Step). o ≡ done s) p.modes.in_template _ _
      (λ text. ap (λ (y : Tag). done (skip_in_template y p)) e ∙ ap done k) (λ code. cc)

plain-skip :
    (tag : Tag) (stop : ℕ) (p : Peek)
    → is_plain tag ≡ true
    → (skip_in_template tag p ≡ go_on p) × (skip_outside tag stop p ≡ done (go_on p))
unfolding skip_outside
plain-skip Tokens.template_start stop p h = cc
plain-skip Tokens.template_interp stop p h = cc
plain-skip Tokens.template_end stop p h = cc
plain-skip Tokens.l_brace stop p h = cc
plain-skip Tokens.r_brace stop p h = cc
plain-skip tag stop p h = (refl, refl)

pub plain-skip_token :
    (t : Token) (p : Peek) → is_plain t.tag ≡ true → skip_token t p ≡ done (go_on p)
unfolding skip_token
plain-skip_token t p h =
    by_test (λ (o : Outcome Step). o ≡ done (go_on p)) p.modes.in_template _ _
      (λ text. ap done (plain-skip t.tag t.loc.end p h).0)
      (λ code. (plain-skip t.tag t.loc.end p h).1)

pub opening :
    (p : Peek) (stop : ℕ) (after : Modes)
    → open_modes p.modes ≡ done after
    → skip_outside l_brace stop p
      ≡ done (go_on (record { modes = after; depth = p.depth + 1; last = stop }))
unfolding skip_outside skip_l_brace
opening p stop after e =
    ap
      (λ (o : Outcome Modes).
        o >>= λ m. done (go_on (record { modes = m; depth = p.depth + 1; last = stop })))
      e

-- A closing brace, by the braces of the interpolation that are open.
abbrev pub closed : ℕ → ℕ → List ℕ → ℕ → Peek
closed stop zero stack depth = record { modes = inner zero stack; depth = depth - 1; last = stop }
closed stop (suc zero) stack depth = record {
  modes = record { in_template = true; interp_depth = 0; tmpl_stack = stack };
  depth = depth;
  last = stop;
}
closed stop (suc (suc interp)) stack depth = record {
  modes = inner (suc interp) stack;
  depth = depth - 1;
  last = stop;
}

skip_r_brace-inner :
    (stop n k : ℕ) (stack : List ℕ) (depth last : ℕ)
    → ltb 0 n ≡ true
    → n - 1 ≡ suc k
    → skip_r_brace stop (record { modes = inner n stack; depth = depth; last = last })
      ≡ go_on (record { modes = inner (suc k) stack; depth = depth - 1; last = stop })
unfolding skip_r_brace
skip_r_brace-inner stop n k stack depth last e1 e2 = rw (e1, e2) refl

pub skip_r_brace-closed :
    (stop n : ℕ) (stack : List ℕ) (depth last : ℕ)
    → skip_r_brace stop (record { modes = inner n stack; depth = depth; last = last })
      ≡ go_on (closed stop n stack depth)
unfolding skip_r_brace
skip_r_brace-closed stop zero stack depth last = refl
skip_r_brace-closed stop (suc zero) stack depth last = refl
skip_r_brace-closed stop (suc (suc n)) stack depth last =
    skip_r_brace-inner stop (suc (suc n)) n stack depth last (ground arith) (omega arith)

pub closed-modes :
    (stop n : ℕ) (stack : List ℕ) (depth : ℕ)
    → (closed stop n stack depth).modes ≡ close_brace (inner n stack)
closed-modes stop zero stack depth = refl
closed-modes stop (suc zero) stack depth = refl
closed-modes stop (suc (suc n)) stack depth =
    sym (close_brace-inner (suc (suc n)) n stack (ground arith) (omega arith))

block_brace :
    (go : ℕ → Answer) (stop depth : ℕ)
    → block_step go r_brace stop false (suc depth) ≡ settle go (suc depth - 1) stop
unfolding block_step
block_brace go stop zero = refl
block_brace go stop (suc depth) =
    let e : suc (suc depth) - 1 ≡ suc depth = omega arith in
    ap (λ (n : ℕ). settle go n stop) (sym e)

pub closed-counts :
    (go : ℕ → Answer) (stop n : ℕ) (stack : List ℕ) (depth : ℕ)
    → block_step go r_brace stop (closed stop n stack (suc depth)).modes.in_template (suc depth)
      ≡ settle go (closed stop n stack (suc depth)).depth (closed stop n stack (suc depth)).last
unfolding block_step
closed-counts go stop zero stack depth = block_brace go stop depth
closed-counts go stop (suc zero) stack depth = refl
closed-counts go stop (suc (suc n)) stack depth = block_brace go stop depth
