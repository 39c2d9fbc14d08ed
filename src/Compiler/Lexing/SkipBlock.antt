-- ===== src/Compiler/Lexing/SkipBlock.antt =====
-- src/parser.zig: the tokens of the parser, and the block that skipBlockSpan passes over and that
-- peekBlockSpan looks ahead for.
use sa_plugin_sla.Prelude.{
  ltb, ◌==◌, if◌then◌else◌, ℕ, zero, suc, ◌+◌, ◌-◌, Bool, true, false, Option, none, some,
}
use sa_plugin_sla.Rust.{Outcome, done, panic, ◌>>=◌}
use sa_plugin_sla.Compiler.Text.{skip}
use sa_plugin_sla.Compiler.Lexing.Tokens
use sa_plugin_sla.Compiler.Lexing.Tokens.{Tag, Token}
use sa_plugin_sla.Compiler.Lexing.Lexer.{Lexer, no_modes, open_modes, next}
use sa_plugin_sla.Compiler.Lexing.PeekBlock.{
  Peek, Step, go_on, syntax_error, found, peek_template_start, peek_template_end, interp_modes,
  peek_block_span,
}

-- The parser: the current token, and the lexer behind it.
pub record Parser : Type 0 where
  pub tok : Token
  pub lex : Lexer

unfoldable pub advance : Parser → Outcome Parser
unfolding next
advance p = next p.lex >>= λ r. done (record { tok = r.0; lex = r.1 })

abbrev pub is_l_brace : Tag → Bool
is_l_brace Tokens.l_brace = true
is_l_brace tag = false

abbrev pub is_eof : Tag → Bool
is_eof Tokens.eof = true
is_eof tag = false

-- Where a block lies, or that there is none; behind it the parser.
abbrev pub Span : Type 0
Span = Option (ℕ × ℕ)

abbrev pub map_answer {ℓ κ} :
    {A : Type ℓ} {B : Type κ} → (A → B) → Option (Outcome (Option A)) → Option (Outcome (Option B))
map_answer f none = none
map_answer f (some (panic e)) = some (panic e)
map_answer f (some (done none)) = some (done none)
map_answer f (some (done (some a))) = some (done (some (f a)))

unfoldable pub peek_span : ℕ → Parser → Option (Outcome Span)
unfolding peek_block_span
peek_span fuel p =
    let start = p.tok.loc.start in
    if is_l_brace p.tok.tag
    then map_answer (λ stop. (start, start + stop)) (peek_block_span fuel (skip start p.lex.buffer))
    else some (done none)

-- A token in template text.
abbrev pub skip_in_template : Tag → Peek → Step
skip_in_template Tokens.template_start p = peek_template_start p
skip_in_template Tokens.template_interp p = go_on (record p { modes = interp_modes p.modes })
skip_in_template Tokens.template_end p = peek_template_end p.modes.tmpl_stack p
skip_in_template tag p = go_on p

unfoldable pub skip_l_brace : ℕ → Peek → Outcome Step
unfolding open_modes
skip_l_brace stop p = open_modes p.modes >>= λ modes.
    done (go_on (record { modes = modes; depth = p.depth + 1; last = stop }))

-- The brace that closes `${` goes back to template text, another one closes a brace.
abbrev pub leave : ℕ → Peek → ℕ → Step
leave stop p zero = go_on (record {
  modes = record p.modes { in_template = true; interp_depth = 0 };
  depth = p.depth;
  last = stop;
})
leave stop p (suc interp) = go_on (record {
  modes = record p.modes { interp_depth = suc interp };
  depth = p.depth - 1;
  last = stop;
})

unfoldable pub skip_r_brace : ℕ → Peek → Step
skip_r_brace stop p =
    if ltb 0 p.modes.interp_depth
    then leave stop p (p.modes.interp_depth - 1)
    else go_on (record p { depth = p.depth - 1; last = stop })

unfoldable pub skip_outside : Tag → ℕ → Peek → Outcome Step
unfolding skip_l_brace skip_r_brace
skip_outside Tokens.template_start stop p = done (peek_template_start p)
skip_outside Tokens.template_interp stop p =
    done (go_on (record p { modes = interp_modes p.modes }))
skip_outside Tokens.l_brace stop p = skip_l_brace stop p
skip_outside Tokens.r_brace stop p = done (skip_r_brace stop p)
skip_outside tag stop p = done (go_on p)

unfoldable pub skip_token : Token → Peek → Outcome Step
unfolding skip_outside
skip_token t p =
    if p.modes.in_template then done (skip_in_template t.tag p) else skip_outside t.tag t.loc.end p

-- The next token, if there is one.
unfoldable pub skip_to :
    (Parser → Peek → Option (Outcome (Option (ℕ × Parser))))
    → Peek
    → Outcome Parser
    → Option (Outcome (Option (ℕ × Parser)))
skip_to go p (panic e) = some (panic e)
skip_to go p (done q) = go q p

-- The token is passed over when the step is not an error; no step of this loop is the end.
unfoldable pub skip_on :
    (Parser → Peek → Option (Outcome (Option (ℕ × Parser))))
    → Parser
    → Outcome Step
    → Option (Outcome (Option (ℕ × Parser)))
unfolding advance skip_to
skip_on go q (panic e) = some (panic e)
skip_on go q (done syntax_error) = some (done none)
skip_on go q (done (found stop)) = some (done none)
skip_on go q (done (go_on p)) = skip_to go p (advance q)

-- The loop, on fuel: the end of the last brace, and the parser behind the block.
unfoldable pub skip_loop : ℕ → Parser → Peek → Option (Outcome (Option (ℕ × Parser)))
unfolding skip_token skip_on
skip_loop zero q p = none
skip_loop (suc fuel) q p =
    let round = skip_on (skip_loop fuel) q (skip_token q.tok p) in
    if p.depth == 0
    then some (done (some (p.last, q)))
    else if is_eof q.tok.tag
    then some (done none)
    else round

abbrev pub begin_block : Token → Peek
begin_block t = record { modes = no_modes; depth = 1; last = t.loc.end }

abbrev pub skip_behind :
    (Parser → Option (Outcome (Option (ℕ × Parser))))
    → ℕ
    → Outcome Parser
    → Option (Outcome (Option ((ℕ × ℕ) × Parser)))
skip_behind loop start (panic e) = some (panic e)
skip_behind loop start (done q) = map_answer (λ r. ((start, r.0), r.1)) (loop q)

unfoldable pub skip_span : ℕ → Parser → Option (Outcome (Option ((ℕ × ℕ) × Parser)))
unfolding skip_loop advance
skip_span fuel p =
    if is_l_brace p.tok.tag
    then skip_behind (λ q. skip_loop fuel q (begin_block p.tok)) p.tok.loc.start (advance p)
    else some (done none)
