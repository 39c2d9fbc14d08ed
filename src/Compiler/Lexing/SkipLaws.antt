-- ===== src/Compiler/Lexing/SkipLaws.antt =====
-- src/parser.zig: skipBlockSpan passes over the block that peekBlockSpan finds.
use sa_plugin_sla.Prelude.{
  ◌==◌, if◌then◌else◌, ℕ, zero, suc, ◌≡◌, refl, sym, subst, ◌∙◌, Bool, Bool-cases, inl, inr, true,
  false, arith, ap, Option, none, some,
}
use sa_plugin_sla.Rust.{Outcome, done, ◌>>=◌}
use sa_plugin_sla.Compiler.Lexing.Tokens
use sa_plugin_sla.Compiler.Lexing.Tokens.{Tag, Token}
use sa_plugin_sla.Compiler.Lexing.Lexer.{Modes, Lexer, next}
use sa_plugin_sla.Compiler.Lexing.Outcomes.{Always}
use sa_plugin_sla.Compiler.Lexing.Moves.{Moves, MovesFrom, next-Moves}
use sa_plugin_sla.Compiler.Lexing.Total.{next-IsDone}
use sa_plugin_sla.Compiler.Lexing.PeekBlock.{Peek, go_on}
use sa_plugin_sla.Compiler.Lexing.BlockEnd.{Answer, block_step, block_after, block_end}
use sa_plugin_sla.Compiler.Lexing.Answers.{IsReady, next-IsReady}
use sa_plugin_sla.Compiler.Lexing.SkipBlock.{
  Parser, advance, is_eof, map_answer, skip_token, skip_to, skip_on, skip_loop,
}
use sa_plugin_sla.Compiler.Lexing.SkipRounds.{settle}
use sa_plugin_sla.Compiler.Lexing.Passes.{Moves-Passes}

-- The end that the loop answers, without the parser behind it.
abbrev pub end_of : Option (Outcome (Option (ℕ × Parser))) → Answer
end_of a = map_answer (λ (x : ℕ × Parser). x.0) a

is_eof-eof : (tag : Tag) → is_eof tag ≡ true → tag ≡ Tokens.eof
is_eof-eof Tokens.eof h = refl
is_eof-eof tag h = cc

pub advance-done :
    (q : Parser) (t : Token) (l : Lexer)
    → next q.lex ≡ done (t, l)
    → advance q ≡ done (record { tok = t; lex = l })
unfolding advance
advance-done q t l e =
    ap (λ (o : Outcome (Token × Lexer)). o >>= λ r. done (record { tok = r.0; lex = r.1 })) e

go_around :
    (fuel : ℕ) (q next_q : Parser) (p to : Peek) (d : ℕ)
    → p.depth ≡ suc d
    → is_eof q.tok.tag ≡ false
    → skip_token q.tok p ≡ done (go_on to)
    → advance q ≡ done next_q
    → skip_loop (suc fuel) q p ≡ skip_loop fuel next_q to
unfolding skip_loop skip_on skip_to
go_around fuel q next_q p to d e1 e2 e3 e4 =
    let round = skip_on (skip_loop fuel) q (skip_token q.tok p) in
    let more : (p.depth == 0) ≡ false = ground arith in
    ap
      (λ (b : Bool).
        if b
        then some (done (some (p.last, q)))
        else if is_eof q.tok.tag
        then some (done none)
        else round)
      more
    ∙ ap (λ (b : Bool). if b then some (done none) else round) e2
    ∙ ap (skip_on (skip_loop fuel) q) e3
    ∙ ap (skip_to (skip_loop fuel) to) e4

at_end :
    (fuel : ℕ) (q : Parser) (p : Peek) (d : ℕ)
    → p.depth ≡ suc d
    → is_eof q.tok.tag ≡ true
    → skip_loop (suc fuel) q p ≡ some (done none)
unfolding skip_loop
at_end fuel q p d e1 e2 =
    let round = skip_on (skip_loop fuel) q (skip_token q.tok p) in
    let more : (p.depth == 0) ≡ false = ground arith in
    ap
      (λ (b : Bool).
        if b
        then some (done (some (p.last, q)))
        else if is_eof q.tok.tag
        then some (done none)
        else round)
      more
    ∙ ap (λ (b : Bool). if b then some (done none) else round) e2

closed_block :
    (fuel : ℕ) (q : Parser) (p : Peek)
    → p.depth ≡ 0
    → end_of (skip_loop (suc fuel) q p) ≡ some (done (some p.last))
unfolding skip_loop
closed_block fuel q p e =
    let round = skip_on (skip_loop fuel) q (skip_token q.tok p) in
    let none_open : (p.depth == 0) ≡ true = ground arith in
    ap
      (λ (b : Bool). end_of (
        if b
        then some (done (some (p.last, q)))
        else if is_eof q.tok.tag
        then some (done none)
        else round))
      none_open

-- Behind a token: the block is closed, or the loop goes on with the next token.
settled :
    (n fuel : ℕ) (l : Lexer) (q : Parser) (p : Peek) (r : Option ℕ)
    → p.depth ≡ n
    → settle (block_end fuel l) n p.last ≡ some (done r)
    → ((d : ℕ)
        → p.depth ≡ suc d
        → block_end fuel l p.depth ≡ some (done r)
        → end_of (skip_loop (suc fuel) q p) ≡ some (done r))
    → end_of (skip_loop (suc fuel) q p) ≡ some (done r)
settled zero fuel l q p r e h f = closed_block fuel q p e ∙ h
settled (suc d) fuel l q p r e h f = f d e (ap (block_end fuel l) e ∙ h)

-- At the end of the input there is no block.
last-finds :
    (fuel : ℕ) (q : Parser) (p : Peek) (d : ℕ) (r : Option ℕ)
    → is_eof q.tok.tag ≡ true
    → p.depth ≡ suc d
    → block_after (block_end fuel) p.depth (done (q.tok, q.lex)) ≡ some (done r)
    → end_of (skip_loop (suc (suc fuel)) q p) ≡ some (done r)
unfolding block_after block_step
last-finds fuel q p d r last e h =
    let answer =
      ap
        (λ (tag : Tag).
          block_step (block_end fuel q.lex) tag q.tok.loc.end q.lex.modes.in_template p.depth)
        (sym (is_eof-eof q.tok.tag last)) in
    ap end_of (at_end (suc fuel) q p d e last) ∙ answer ∙ h

-- Any other token is passed over, and the next one is there.
more-finds :
    (fuel : ℕ) (q : Parser) (p : Peek) (d : ℕ) (r : Option ℕ)
    → is_eof q.tok.tag ≡ false
    → Moves p.modes q.tok.tag q.lex.modes
    → IsReady q.lex
    → p.depth ≡ suc d
    → block_after (block_end fuel) p.depth (done (q.tok, q.lex)) ≡ some (done r)
    → ((q' : Parser) (to : Peek) (d' : ℕ)
        → Moves to.modes q'.tok.tag q'.lex.modes
        → IsReady q'.lex
        → next q.lex ≡ done (q'.tok, q'.lex)
        → to.depth ≡ suc d'
        → block_end fuel q.lex to.depth ≡ some (done r)
        → end_of (skip_loop (suc fuel) q' to) ≡ some (done r))
    → end_of (skip_loop (suc (suc fuel)) q p) ≡ some (done r)
unfolding block_after
more-finds fuel q p d r more moves ready e h ih =
    let pass = Moves-Passes q.tok p d moves refl more e in
    let ((t, m), n) = next-IsDone q.lex ready.nested ready.small in
    let q' : Parser = record { tok = t; lex = m } in
    let move = subst (Always (MovesFrom q.lex.modes)) n (next-Moves q.lex) in
    let moves' = subst (λ (b : Modes). Moves b t.tag m.modes) (sym pass.mirrors) move in
    let ready' = next-IsReady q.lex t m ready n in
    ap end_of (go_around (suc fuel) q q' p pass.to d e more pass.steps (advance-done q t m n))
    ∙ settled pass.to.depth fuel q.lex q' pass.to r refl
        (sym (pass.counts (block_end fuel q.lex)) ∙ h)
        (λ d' e' h'. ih q' pass.to d' moves' ready' n e' h')

-- What the lexer's own modes give as the end of the block, the loop answers.
pub skip_loop-finds :
    (fuel : ℕ) (q : Parser) (p : Peek) (d : ℕ) (r : Option ℕ)
    → Moves p.modes q.tok.tag q.lex.modes
    → IsReady q.lex
    → p.depth ≡ suc d
    → block_after (block_end fuel) p.depth (done (q.tok, q.lex)) ≡ some (done r)
    → end_of (skip_loop (suc (suc fuel)) q p) ≡ some (done r)
unfolding block_end
skip_loop-finds zero q p d r moves ready e h = elim (Bool-cases (is_eof q.tok.tag)) [
  | inl last ↦ last-finds zero q p d r last e h
  | inr more ↦ more-finds zero q p d r more moves ready e h (λ q' to d' moves' ready' n e' h'. cc)
]
skip_loop-finds (suc fuel) q p d r moves ready e h = elim (Bool-cases (is_eof q.tok.tag)) [
  | inl last ↦ last-finds (suc fuel) q p d r last e h
  | inr more ↦ more-finds (suc fuel) q p d r more moves ready e h (λ q' to d' moves' ready' n e' h'.
      skip_loop-finds fuel q' to d' r moves' ready' e'
        (sym (ap (block_after (block_end fuel) to.depth) n) ∙ h'))
]
