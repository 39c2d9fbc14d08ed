-- ===== src/Compiler/Lexing/BlockEnd.antt =====
-- src/parser.zig, peekBlockSpan: the block that it looks for, by the modes of the lexer alone,
-- and that the loop with its own modes finds the same.
use sa_plugin_sla.Prelude.{ℕ, zero, suc, ◌≡◌, refl, Bool, true, false, Option, none, some}
use sa_plugin_sla.Rust.{Outcome, done, panic}
use sa_plugin_sla.Compiler.Lexing.Tokens
use sa_plugin_sla.Compiler.Lexing.Tokens.{
  Tag, eof, template_start, template_interp, template_end, l_brace, r_brace, Token,
}
use sa_plugin_sla.Compiler.Lexing.Lexer.{Lexer, next}
use sa_plugin_sla.Compiler.Lexing.Scanned.{is_plain}
use sa_plugin_sla.Compiler.Lexing.PeekBlock.{Peek, go_on, peek_in_template, peek_outside}

abbrev pub Answer : Type 0
Answer = Option (Outcome (Option ℕ))

-- What a token does to the depth of open braces. A closing brace behind which the lexer is in
-- template text closes an interpolation, and does not count.
unfoldable pub block_step : (ℕ → Answer) → Tag → ℕ → Bool → ℕ → Answer
block_step go Tokens.l_brace stop in_template depth = go (suc depth)
block_step go Tokens.r_brace stop true depth = go depth
block_step go Tokens.r_brace stop false zero = some (done none)
block_step go Tokens.r_brace stop false (suc zero) = some (done (some stop))
block_step go Tokens.r_brace stop false (suc (suc depth)) = go (suc depth)
block_step go Tokens.eof stop in_template depth = some (done none)
block_step go tag stop in_template depth = go depth

unfoldable pub block_after : (Lexer → ℕ → Answer) → ℕ → Outcome (Token × Lexer) → Answer
unfolding block_step
block_after go depth (panic e) = some (panic e)
block_after go depth (done (t, l)) = block_step (go l) t.tag t.loc.end l.modes.in_template depth

-- The end of the brace that closes the block: with it, as many braces are closed as were opened.
unfoldable pub block_end : ℕ → Lexer → ℕ → Answer
unfolding next block_after
block_end zero l depth = none
block_end (suc fuel) l depth = block_after (block_end fuel) depth (next l)

pub plain-block_step :
    (go : ℕ → Answer) (tag : Tag) (stop : ℕ) (b : Bool) (depth : ℕ)
    → is_plain tag ≡ true
    → block_step go tag stop b depth ≡ go depth
unfolding block_step
plain-block_step go Tokens.l_brace stop b depth h = cc
plain-block_step go Tokens.r_brace stop b depth h = cc
plain-block_step go Tokens.eof stop b depth h = cc
plain-block_step go tag stop b depth h = refl

pub plain-peek_token :
    (tag : Tag) (stop : ℕ) (p : Peek)
    → is_plain tag ≡ true
    → (peek_in_template tag p ≡ go_on p) × (peek_outside tag stop p ≡ done (go_on p))
unfolding peek_outside
plain-peek_token Tokens.template_start stop p h = cc
plain-peek_token Tokens.template_interp stop p h = cc
plain-peek_token Tokens.template_end stop p h = cc
plain-peek_token Tokens.l_brace stop p h = cc
plain-peek_token Tokens.r_brace stop p h = cc
plain-peek_token Tokens.eof stop p h = cc
plain-peek_token tag stop p h = (refl, refl)
