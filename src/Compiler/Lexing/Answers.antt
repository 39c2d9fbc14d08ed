-- ===== src/Compiler/Lexing/Answers.antt =====
-- src/parser.zig, peekBlockSpan: what it answers for a whole text.
use sa_plugin_sla.Prelude.{
  ℕ, zero, suc, ◌≤◌, ◌<◌, ◌≡◌, refl, sym, subst, ◌∙◌, length, Bool, true, false, arith, ap, Option,
  none, some, ◌⊎◌, inl, inr,
}
use sa_plugin_sla.Rust.{Outcome, done}
use sa_plugin_sla.Compiler.Text.{Bytes}
use sa_plugin_sla.Compiler.Lexing.Tokens
use sa_plugin_sla.Compiler.Lexing.Tokens.{Tag, Token}
use sa_plugin_sla.Compiler.Lexing.Lexer.{Lexer, init, no_modes, next}
use sa_plugin_sla.Compiler.Lexing.Outcomes.{Always}
use sa_plugin_sla.Compiler.Lexing.Progress.{next-Advances}
use sa_plugin_sla.Compiler.Lexing.Pieces.{IsUnclosed, Advances}
use sa_plugin_sla.Compiler.Lexing.Nesting.{next-IsNested}
use sa_plugin_sla.Compiler.Lexing.Nested.{IsNested, IsNestedBehind}
use sa_plugin_sla.Compiler.Lexing.Total.{next-IsDone}
use sa_plugin_sla.Compiler.Lexing.Ends.{Reaches, peek_loop-none}
use sa_plugin_sla.Compiler.Lexing.PeekBlock.{Peek, peek_block_span}
use sa_plugin_sla.Compiler.Lexing.BlockEnd.{Answer, block_step, block_after, block_end}
use sa_plugin_sla.Compiler.Lexing.Endless.{block_end-endless}
use sa_plugin_sla.Compiler.Lexing.Mirror.{peek_loop-block_end}

-- Out of fuel, or an answer: no panic.
abbrev IsOrderly : Answer → Type 0
IsOrderly a = (a ≡ none) ⊎ ((r : Option ℕ) × (a ≡ some (done r)))

block_step-IsOrderly :
    (go : ℕ → Answer) (tag : Tag) (stop : ℕ) (b : Bool) (depth : ℕ)
    → ((d : ℕ) → IsOrderly (go d))
    → IsOrderly (block_step go tag stop b depth)
unfolding block_step
block_step-IsOrderly go Tokens.l_brace stop b depth h = h (suc depth)
block_step-IsOrderly go Tokens.r_brace stop true depth h = h depth
block_step-IsOrderly go Tokens.r_brace stop false zero h = inr (none, refl)
block_step-IsOrderly go Tokens.r_brace stop false (suc zero) h = inr (some stop, refl)
block_step-IsOrderly go Tokens.r_brace stop false (suc (suc depth)) h = h (suc depth)
block_step-IsOrderly go Tokens.eof stop b depth h = inr (none, refl)
block_step-IsOrderly go tag stop b depth h = h depth

-- A lexer in order, of a buffer that is not too long.
pub record IsReady (l : Lexer) : Type 0 where
  pub placed : l.index ≤ suc (length l.buffer)
  pub nested : IsNested l.index l.modes
  pub small : length l.buffer < 65536

pub next-IsReady :
    (l : Lexer) (t : Token) (m : Lexer) → IsReady l → next l ≡ done (t, m) → IsReady m
next-IsReady l t m h e =
    let a = subst (Always (Advances l)) e (next-Advances l h.placed) in
    let size = ap length a.same in
    record {
      placed = omega (arith, a.near, size);
      nested = subst (Always IsNestedBehind) e (next-IsNested l h.nested);
      small = omega (arith, size, h.small);
    }

block_end-IsOrderly :
    (fuel : ℕ) (l : Lexer) (depth : ℕ) → IsReady l → IsOrderly (block_end fuel l depth)
unfolding block_end block_after
block_end-IsOrderly zero l depth h = inl refl
block_end-IsOrderly (suc fuel) l depth h =
    let ((t, m), e) = next-IsDone l h.nested h.small in
    subst (λ (o : Outcome (Token × Lexer)). IsOrderly (block_after (block_end fuel) depth o))
      (sym e)
      (block_step-IsOrderly (block_end fuel m) t.tag t.loc.end m.modes.in_template depth
        (λ d. block_end-IsOrderly fuel m d (next-IsReady l t m h e)))

pub init-IsReady : (text : Bytes) → length text < 65536 → IsReady (init text)
init-IsReady text h = record {
  placed = omega arith;
  nested = record {
    depth_le = omega arith;
    room = omega arith;
    saved = tt;
    text = λ t. cc;
    code = λ c. refl;
  };
  small = h;
}

-- On any fuel peekBlockSpan, which keeps modes of its own, answers what counting the braces by
-- the lexer's modes gives: a closing brace behind which the lexer is in template text does not
-- count, and the block ends with the brace that closes the first one.
pub peek_block_span-block_end :
    (fuel : ℕ) (text : Bytes) → peek_block_span fuel text ≡ block_end fuel (init text) 0
unfolding peek_block_span
peek_block_span-block_end fuel text = peek_loop-block_end fuel (init text) _ refl

-- For a text of fewer than 65536 bytes, and at least two rounds more than it has bytes: there is
-- an answer and no panic, or the lexer comes to the end of the text in a template that is not
-- closed, and no number of rounds gives an answer.
pub peek_block_span-answers :
    (fuel : ℕ) (text : Bytes)
    → length text < 65536
    → suc (length text) < fuel
    → ((r : Option ℕ) × (peek_block_span fuel text ≡ some (done r)))
      ⊎ (((m : Lexer) × Reaches (init text) m × IsUnclosed m)
          × ((rounds : ℕ) → peek_block_span rounds text ≡ none))
unfolding peek_block_span
peek_block_span-answers fuel text small enough =
    let p : Peek = record { modes = no_modes; depth = 0; last = 0 } in
    let e = λ (n : ℕ). peek_loop-block_end n (init text) p refl in
    elim (block_end-IsOrderly fuel (init text) 0 (init-IsReady text small)) [
      | inr (r, answer) ↦ inl (r, e fuel ∙ answer)
      | inl out ↦ inr (
        peek_loop-none fuel (init text) p (omega arith) (omega (arith, enough)) (e fuel ∙ out),
        λ rounds.
            e rounds
            ∙ block_end-endless fuel rounds (init text) 0 (omega arith) (omega (arith, enough)) out,
      )
    ]
