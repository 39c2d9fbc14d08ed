-- ===== src/Compiler/Lexing/Spans.antt =====
-- src/parser.zig: peekBlockSpan and skipBlockSpan at an opening brace in the middle of a text.
use sa_plugin_sla.Prelude.{
  ℕ, zero, suc, ◌+◌, ◌≤◌, ◌<◌, ◌≡◌, refl, sym, subst, ◌∙◌, length, Bool, true, false, ◌∷◌, arith,
  ap, Option, none, some,
}
use sa_plugin_sla.Rust.{Outcome, done, panic}
use sa_plugin_sla.Compiler.Text.{Bytes, skip}
use sa_plugin_sla.Compiler.Lexing.Tokens
use sa_plugin_sla.Compiler.Lexing.Tokens.{Tag, Token}
use sa_plugin_sla.Compiler.Lexing.Lexer.{Lexer, init, no_modes, next}
use sa_plugin_sla.Compiler.Lexing.Outcomes.{Always}
use sa_plugin_sla.Compiler.Lexing.Bounds.{length-skip}
use sa_plugin_sla.Compiler.Lexing.Pieces.{Advances}
use sa_plugin_sla.Compiler.Lexing.Progress.{next-Advances}
use sa_plugin_sla.Compiler.Lexing.Moves.{MovesFrom, next-Moves}
use sa_plugin_sla.Compiler.Lexing.Total.{next-IsDone}
use sa_plugin_sla.Compiler.Lexing.Shift.{shift, shift_outcome, IsTail, next-shift}
use sa_plugin_sla.Compiler.Lexing.PeekBlock.{peek_block_span, peek_loop}
use sa_plugin_sla.Compiler.Lexing.BlockEnd.{Answer, block_step, block_after, block_end}
use sa_plugin_sla.Compiler.Lexing.Answers.{IsReady, next-IsReady, peek_block_span-block_end}
use sa_plugin_sla.Compiler.Lexing.SkipBlock.{
  Parser, Span, map_answer, peek_span, begin_block, skip_behind, skip_loop, skip_span,
}
use sa_plugin_sla.Compiler.Lexing.SkipLaws.{end_of, advance-done, skip_loop-finds}

block_step-map :
    (f : ℕ → ℕ) (go go' : ℕ → Answer) (tag : Tag) (stop : ℕ) (b : Bool) (depth : ℕ)
    → ((d : ℕ) → go' d ≡ map_answer f (go d))
    → block_step go' tag (f stop) b depth ≡ map_answer f (block_step go tag stop b depth)
unfolding block_step
block_step-map f go go' Tokens.l_brace stop b depth h = h (suc depth)
block_step-map f go go' Tokens.r_brace stop true depth h = h depth
block_step-map f go go' Tokens.r_brace stop false zero h = refl
block_step-map f go go' Tokens.r_brace stop false (suc zero) h = refl
block_step-map f go go' Tokens.r_brace stop false (suc (suc depth)) h = h (suc depth)
block_step-map f go go' Tokens.eof stop b depth h = refl
block_step-map f go go' tag stop b depth h = h depth

block_after-shift :
    (n : ℕ) (buffer : Bytes) (fuel depth : ℕ) (l : Lexer) (o : Outcome (Token × Lexer))
    → IsTail n buffer l
    → Always (Advances l) o
    → ((m : Lexer) (d : ℕ)
        → IsTail n buffer m
        → m.index ≤ suc (length m.buffer)
        → block_end fuel (shift n buffer m) d ≡ map_answer (λ (e : ℕ). n + e) (block_end fuel m d))
    → block_after (block_end fuel) depth (shift_outcome n buffer o)
      ≡ map_answer (λ (e : ℕ). n + e) (block_after (block_end fuel) depth o)
unfolding block_after
block_after-shift n buffer fuel depth l (panic x) h a ih = refl
block_after-shift n buffer fuel depth l (done (t, m)) h a ih =
    let tail : IsTail n buffer m = record { tail = a.same ∙ h.tail; within = h.within } in
    let near : m.index ≤ suc (length m.buffer) = omega (arith, a.near, ap length a.same) in
    block_step-map (λ (e : ℕ). n + e) (block_end fuel m) (block_end fuel (shift n buffer m)) t.tag
      t.loc.end m.modes.in_template depth (λ d. ih m d tail near)

-- A block in the rest of a buffer ends where it ends in the buffer.
block_end-shift :
    (n : ℕ) (buffer : Bytes) (fuel : ℕ) (l : Lexer) (depth : ℕ)
    → IsTail n buffer l
    → l.index ≤ suc (length l.buffer)
    → block_end fuel (shift n buffer l) depth
      ≡ map_answer (λ (e : ℕ). n + e) (block_end fuel l depth)
unfolding block_end
block_end-shift n buffer zero l depth h le = refl
block_end-shift n buffer (suc fuel) l depth h le =
    ap (block_after (block_end fuel) depth) (next-shift n buffer l h)
    ∙ block_after-shift n buffer fuel depth l (next l) h (next-Advances l le)
        (λ m d h' le'. block_end-shift n buffer fuel m d h' le')

-- The parser whose current token is the opening brace at `start`, outside of templates.
abbrev pub at_brace : Bytes → ℕ → Parser
at_brace buffer start = record {
  tok = record { tag = Tokens.l_brace; loc = record { start = start; end = start + 1 } };
  lex = record { buffer = buffer; index = start + 1; modes = no_modes };
}

spans :
    (start : ℕ) (x : Option (Outcome (Option (ℕ × Parser))))
    → map_answer
        (λ (r : (ℕ × ℕ) × Parser). r.0)
        (map_answer (λ (r : ℕ × Parser). ((start, r.0), r.1)) x)
      ≡ map_answer {B = ℕ × ℕ} (λ (e : ℕ). (start, e)) (end_of x)
spans start none = refl
spans start (some (panic e)) = refl
spans start (some (done none)) = refl
spans start (some (done (some r))) = refl

both_maps :
    (start : ℕ) (a : Answer)
    → map_answer {B = ℕ × ℕ} (λ (stop : ℕ). (start, start + stop)) a
      ≡ map_answer {B = ℕ × ℕ} (λ (e : ℕ). (start, e)) (map_answer (λ (e : ℕ). start + e) a)
both_maps start none = refl
both_maps start (some (panic e)) = refl
both_maps start (some (done none)) = refl
both_maps start (some (done (some r))) = refl

-- An answer that is found is an answer before it is paired with the start.
found_before :
    (start : ℕ) (a b : Answer) (r : Span)
    → ((e : Option ℕ) → a ≡ some (done e) → b ≡ some (done e))
    → map_answer {B = ℕ × ℕ} (λ (e : ℕ). (start, e)) a ≡ some (done r)
    → map_answer {B = ℕ × ℕ} (λ (e : ℕ). (start, e)) b ≡ some (done r)
found_before start none b r f h = cc
found_before start (some (panic e)) b r f h = cc
found_before start (some (done e)) b r f h =
    ap (map_answer {B = ℕ × ℕ} (λ (e : ℕ). (start, e))) (f e refl) ∙ h

-- The first token of the block is its brace.
first_brace :
    (fuel : ℕ) (cs : Bytes)
    → block_end (suc fuel) (init (b'{' ∷ cs)) 0
      ≡ block_end fuel (record { buffer = b'{' ∷ cs; index = 1; modes = no_modes }) 1
unfolding block_end block_after block_step next
first_brace fuel cs = refl

-- What peekBlockSpan answers, by the modes of the parser's own lexer.
peek_span-block_end :
    (fuel : ℕ) (buffer : Bytes) (start : ℕ) (cs : Bytes)
    → skip start buffer ≡ b'{' ∷ cs
    → start ≤ length buffer
    → peek_span (suc fuel) (at_brace buffer start)
      ≡ map_answer {B = ℕ × ℕ}
          (λ (e : ℕ). (start, e))
          (block_end fuel (at_brace buffer start).lex 1)
unfolding peek_span
peek_span-block_end fuel buffer start cs e le =
    let l : Lexer = record { buffer = b'{' ∷ cs; index = 1; modes = no_modes } in
    let tail : IsTail start buffer l = record { tail = sym e; within = le } in
    let pair = map_answer {B = ℕ × ℕ} (λ (stop : ℕ). (start, start + stop)) in
    ap (λ (s : Bytes). pair (peek_block_span (suc fuel) s)) e
    ∙ ap pair (peek_block_span-block_end (suc fuel) (b'{' ∷ cs) ∙ first_brace fuel cs)
    ∙ both_maps start (block_end fuel l 1)
    ∙ ap (map_answer {B = ℕ × ℕ} (λ (e : ℕ). (start, e)))
        (sym (block_end-shift start buffer fuel l 1 tail (omega arith)))

at_brace-IsReady :
    (buffer : Bytes) (start : ℕ)
    → start ≤ length buffer
    → length buffer < 65536
    → IsReady (at_brace buffer start).lex
at_brace-IsReady buffer start le small = record {
  placed = omega (arith, le);
  nested = record {
    depth_le = omega arith;
    room = omega arith;
    saved = tt;
    text = λ t. cc;
    code = λ c. refl;
  };
  small = small;
}

-- What the modes of the lexer give, skipBlockSpan answers.
skip_span-finds :
    (fuel : ℕ) (buffer : Bytes) (start : ℕ) (r : Span)
    → IsReady (at_brace buffer start).lex
    → map_answer {B = ℕ × ℕ}
        (λ (e : ℕ). (start, e))
        (block_end (suc fuel) (at_brace buffer start).lex 1)
      ≡ some (done r)
    → map_answer
        (λ (x : (ℕ × ℕ) × Parser). x.0)
        (skip_span (suc (suc fuel)) (at_brace buffer start))
      ≡ some (done r)
unfolding skip_span block_end
skip_span-finds fuel buffer start r ready h =
    let p = at_brace buffer start in
    let ((t, m), n) = next-IsDone p.lex ready.nested ready.small in
    let q : Parser = record { tok = t; lex = m } in
    let loop = λ (x : Parser). skip_loop (suc (suc fuel)) x (begin_block p.tok) in
    let moves = subst (Always (MovesFrom p.lex.modes)) n (next-Moves p.lex) in
    ap
      (λ (o : Outcome Parser).
        map_answer (λ (x : (ℕ × ℕ) × Parser). x.0) (skip_behind loop start o))
      (advance-done p t m n)
    ∙ spans start (loop q)
    ∙ found_before start (block_after (block_end fuel) 1 (next p.lex)) (end_of (loop q)) r
        (λ e found.
          skip_loop-finds fuel q (begin_block p.tok) 0 e moves (next-IsReady p.lex t m ready n) refl
            (ap (block_after (block_end fuel) 1) (sym n) ∙ found))
        h

brace_within :
    (buffer : Bytes) (start : ℕ) (cs : Bytes)
    → skip start buffer ≡ b'{' ∷ cs
    → start ≤ length buffer
brace_within buffer start cs e = omega (arith, ap length e, length-skip start buffer)

-- At an opening brace outside of templates, in a buffer of fewer than 65536 bytes: where
-- peekBlockSpan answers, with a block or with an error, skipBlockSpan answers the same on the
-- same fuel.
pub skip_span-peek_span :
    (fuel : ℕ) (buffer : Bytes) (start : ℕ) (cs : Bytes) (r : Span)
    → skip start buffer ≡ b'{' ∷ cs
    → length buffer < 65536
    → peek_span fuel (at_brace buffer start) ≡ some (done r)
    → map_answer (λ (x : (ℕ × ℕ) × Parser). x.0) (skip_span fuel (at_brace buffer start))
      ≡ some (done r)
unfolding peek_span peek_block_span peek_loop block_end
skip_span-peek_span zero buffer start cs r e small h = cc
skip_span-peek_span (suc zero) buffer start cs r e small h =
    let le = brace_within buffer start cs e in
    let out = sym (peek_span-block_end 0 buffer start cs e le) ∙ h in cc
skip_span-peek_span (suc (suc fuel)) buffer start cs r e small h =
    let le = brace_within buffer start cs e in
    skip_span-finds fuel buffer start r (at_brace-IsReady buffer start le small)
      (sym (peek_span-block_end (suc fuel) buffer start cs e le) ∙ h)
