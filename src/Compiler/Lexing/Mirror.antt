-- ===== src/Compiler/Lexing/Mirror.antt =====
-- src/parser.zig, peekBlockSpan: the modes that its loop keeps are those of the lexer.
use sa_plugin_sla.Prelude.{ℕ, zero, suc, ◌≡◌, refl, sym, subst, ◌∙◌, true, List, arith, ap}
use sa_plugin_sla.Rust.{Outcome, done, panic}
use sa_plugin_sla.Compiler.Lexing.Tokens.{
  Tag, eof, template_start, template_interp, template_end, l_brace, r_brace, Token,
}
use sa_plugin_sla.Compiler.Lexing.Lexer.{Modes, Lexer, next}
use sa_plugin_sla.Compiler.Lexing.Scanned.{is_plain}
use sa_plugin_sla.Compiler.Lexing.Outcomes.{Always}
use sa_plugin_sla.Compiler.Lexing.Moves.{
  Moves, stays, stops, opens, closes, starts, interpolates, ends, MovesFrom, next-Moves,
}
use sa_plugin_sla.Compiler.Lexing.PeekBlock.{
  Peek, syntax_error, peek_outside, peek_token, peek_on, peek_after, peek_loop, peek_template_end,
}
use sa_plugin_sla.Compiler.Lexing.BlockEnd.{
  Answer, block_step, block_after, block_end, plain-block_step,
}
use sa_plugin_sla.Compiler.Lexing.Rounds.{
  plain-round, code-answer, text-answer, opening_brace, closing_brace_in, starting,
}

round :
    {tag : Tag} {after : Modes} (t : Token) (p : Peek) (gop : Peek → Answer) (gob : ℕ → Answer)
    → Moves p.modes tag after
    → t.tag ≡ tag
    → ((q : Peek) → q.modes ≡ after → gop q ≡ gob q.depth)
    → peek_on gop (peek_token t p) ≡ block_step gob tag t.loc.end after.in_template p.depth
unfolding peek_on block_step peek_outside
round {tag} t p gop gob (stays plain) e h =
    ap (peek_on gop) (plain-round t p (subst (λ (x : Tag). is_plain x ≡ true) (sym e) plain))
    ∙ h p refl
    ∙ sym (plain-block_step gob tag t.loc.end p.modes.in_template p.depth plain)
round t p gop gob (stops code f) e h =
    code-answer t p gop (done syntax_error) eof code (e ∙ f) refl
    ∙ ap (λ (x : Tag). block_step gob x t.loc.end p.modes.in_template p.depth) (sym f)
round {after = m} t p gop gob (opens code f o) e h =
    code-answer t p gop _ l_brace code (e ∙ f) (opening_brace p t.loc.end m o)
    ∙ h _ refl
    ∙ ap gob (omega arith)
    ∙ ap (λ (x : Tag). block_step gob x t.loc.end m.in_template p.depth) (sym f)
round {after = m} t p gop gob (closes code f a) e h =
    code-answer t p gop _ r_brace code (e ∙ f) refl
    ∙ closing_brace_in gop gob t.loc.end p code (λ q k. h q (k ∙ sym a))
    ∙ ap (λ (x : Modes). block_step gob r_brace t.loc.end x.in_template p.depth) (sym a)
    ∙ ap (λ (x : Tag). block_step gob x t.loc.end m.in_template p.depth) (sym f)
round {after = m} t p gop gob (starts code f room a) e h =
    code-answer t p gop _ template_start code (e ∙ f) (ap done (starting p room))
    ∙ h _ (sym a)
    ∙ ap (λ (x : Tag). block_step gob x t.loc.end m.in_template p.depth) (sym f)
round {after = m} t p gop gob (interpolates text f a) e h =
    text-answer t p gop _ template_interp text (e ∙ f) refl
    ∙ h _ (sym a)
    ∙ ap (λ (x : Tag). block_step gob x t.loc.end m.in_template p.depth) (sym f)
round {after = m} t p gop gob (ends d ds text f s a) e h =
    text-answer t p gop _ template_end text (e ∙ f) (ap (λ (ds : List ℕ). peek_template_end ds p) s)
    ∙ h _ (sym a)
    ∙ ap (λ (x : Tag). block_step gob x t.loc.end m.in_template p.depth) (sym f)

after :
    (gop : Lexer → Peek → Answer) (gob : Lexer → ℕ → Answer) (p : Peek)
    (o : Outcome (Token × Lexer))
    → Always (MovesFrom p.modes) o
    → ((l : Lexer) (q : Peek) → q.modes ≡ l.modes → gop l q ≡ gob l q.depth)
    → peek_after gop p o ≡ block_after gob p.depth o
unfolding peek_after block_after
after gop gob p (panic e) moves h = refl
after gop gob p (done (t, l)) moves h = round t p (gop l) (gob l) moves refl (h l)

-- From the modes of the lexer on, the loop finds the end of the block that the lexer's own modes
-- give, on any fuel: the modes that it keeps are those of the lexer after every token.
pub peek_loop-block_end :
    (fuel : ℕ) (l : Lexer) (p : Peek)
    → p.modes ≡ l.modes
    → peek_loop fuel l p ≡ block_end fuel l p.depth
unfolding peek_loop block_end
peek_loop-block_end zero l p e = refl
peek_loop-block_end (suc fuel) l p e =
    after (peek_loop fuel) (block_end fuel) p (next l)
      (subst (λ (m : Modes). Always (MovesFrom m) (next l)) (sym e) (next-Moves l))
      (peek_loop-block_end fuel)
