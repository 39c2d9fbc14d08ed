-- ===== src/Compiler/Lexing/PeekBlock.antt =====
-- src/parser.zig, peekBlockSpan: where a block ends, by its braces. The loop keeps the modes of
-- the lexer a second time, and asks for tokens until the braces are closed or the input is at its
-- end.
use sa_plugin_sla.Prelude.{
  leb, ltb, if◌then◌else◌, ℕ, zero, suc, ◌+◌, ◌-◌, length, true, false, Option, none, some, List,
  [], ◌∷◌,
}
use sa_plugin_sla.Rust.{Outcome, done, panic, ◌>>=◌}
use sa_plugin_sla.Compiler.Text.{Bytes}
use sa_plugin_sla.Compiler.Lexing.Tokens.{
  Tag, eof, template_start, template_interp, template_end, l_brace, r_brace, Token,
}
use sa_plugin_sla.Compiler.Lexing.Lexer.{Modes, Lexer, init, no_modes, open_modes, next}

-- The state of the loop: the modes, the depth of open braces, and the end of the last one.
pub record Peek : Type 0 where
  pub modes : Modes
  pub depth : ℕ
  pub last : ℕ

pub data Step : Type 0 where
  go_on : Peek → Step
  syntax_error : Step
  found : ℕ → Step

abbrev pub peek_template_start : Peek → Step
peek_template_start p =
    if leb 8 (length p.modes.tmpl_stack)
    then syntax_error
    else go_on (record p {
      modes = record {
        in_template = true;
        interp_depth = 0;
        tmpl_stack = p.modes.interp_depth ∷ p.modes.tmpl_stack;
      };
    })

abbrev pub peek_template_end : List ℕ → Peek → Step
peek_template_end [] p = syntax_error
peek_template_end (depth ∷ depths) p =
    go_on (record p {
      modes = record { in_template = false; interp_depth = depth; tmpl_stack = depths };
    })

abbrev pub interp_modes : Modes → Modes
interp_modes m = record m { in_template = false; interp_depth = 1 }

-- A token in template text.
abbrev pub peek_in_template : Tag → Peek → Step
peek_in_template template_start p = peek_template_start p
peek_in_template template_interp p = go_on (record p { modes = interp_modes p.modes })
peek_in_template template_end p = peek_template_end p.modes.tmpl_stack p
peek_in_template eof p = syntax_error
peek_in_template tag p = go_on p

-- An opening brace, which ends at `stop`.
unfoldable pub peek_l_brace : ℕ → Peek → Outcome Step
unfolding open_modes
peek_l_brace stop p = open_modes p.modes >>= λ modes.
    done (go_on (record { modes = modes; depth = p.depth + 1; last = stop }))

-- A closing brace of a block.
abbrev pub close_block : ℕ → Modes → ℕ → Step
close_block stop modes zero = syntax_error
close_block stop modes (suc zero) = found stop
close_block stop modes (suc (suc depth)) =
    go_on (record { modes = modes; depth = suc depth; last = stop })

-- The brace that closes `${` goes back to template text.
abbrev pub close_interp : ℕ → Peek → ℕ → Step
close_interp stop p zero =
    go_on (record p { modes = record p.modes { in_template = true; interp_depth = 0 } })
close_interp stop p (suc depth) =
    close_block stop (record p.modes { interp_depth = suc depth }) p.depth

unfoldable pub peek_r_brace : ℕ → Peek → Step
peek_r_brace stop p =
    if ltb 0 p.modes.interp_depth
    then close_interp stop p (p.modes.interp_depth - 1)
    else close_block stop p.modes p.depth

-- A token outside of template text.
unfoldable pub peek_outside : Tag → ℕ → Peek → Outcome Step
unfolding peek_l_brace peek_r_brace
peek_outside template_start stop p = done (peek_template_start p)
peek_outside template_interp stop p = done (go_on (record p { modes = interp_modes p.modes }))
peek_outside l_brace stop p = peek_l_brace stop p
peek_outside r_brace stop p = done (peek_r_brace stop p)
peek_outside eof stop p = done syntax_error
peek_outside tag stop p = done (go_on p)

unfoldable pub peek_token : Token → Peek → Outcome Step
unfolding peek_outside
peek_token t p =
    if p.modes.in_template then done (peek_in_template t.tag p) else peek_outside t.tag t.loc.end p

-- What a round of the loop leads to: `none` inside is a syntax error.
unfoldable pub peek_on :
    (Peek → Option (Outcome (Option ℕ))) → Outcome Step → Option (Outcome (Option ℕ))
peek_on go (panic e) = some (panic e)
peek_on go (done syntax_error) = some (done none)
peek_on go (done (found stop)) = some (done (some stop))
peek_on go (done (go_on p)) = go p

unfoldable pub peek_after :
    (Lexer → Peek → Option (Outcome (Option ℕ)))
    → Peek
    → Outcome (Token × Lexer)
    → Option (Outcome (Option ℕ))
unfolding peek_token peek_on
peek_after go p (panic e) = some (panic e)
peek_after go p (done (t, l)) = peek_on (go l) (peek_token t p)

-- The loop, on fuel: `none` outside when it runs out.
unfoldable pub peek_loop : ℕ → Lexer → Peek → Option (Outcome (Option ℕ))
unfolding next peek_after
peek_loop zero l p = none
peek_loop (suc fuel) l p = peek_after (peek_loop fuel) p (next l)

-- The end of the block with which the text begins.
unfoldable pub peek_block_span : ℕ → Bytes → Option (Outcome (Option ℕ))
unfolding peek_loop
peek_block_span fuel text =
    peek_loop fuel (init text) (record { modes = no_modes; depth = 0; last = 0 })
