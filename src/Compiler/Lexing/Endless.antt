-- ===== src/Compiler/Lexing/Endless.antt =====
-- src/parser.zig, peekBlockSpan: where the loop has no answer after enough rounds, it has none
-- after any number of rounds.
use sa_plugin_sla.Prelude.{
  ℕ, zero, suc, ◌-◌, ◌≤◌, ◌<◌, ◌≡◌, refl, sym, ◌∙◌, length, Bool, true, false, arith, ap, none,
  some, inl, inr,
}
use sa_plugin_sla.Rust.{Outcome, done, panic}
use sa_plugin_sla.Compiler.Lexing.Tokens
use sa_plugin_sla.Compiler.Lexing.Tokens.{Tag, Token, eof, invalid}
use sa_plugin_sla.Compiler.Lexing.Lexer.{Lexer, emit, next}
use sa_plugin_sla.Compiler.Lexing.Outcomes.{Always}
use sa_plugin_sla.Compiler.Lexing.Pieces.{IsUnclosed, Advances}
use sa_plugin_sla.Compiler.Lexing.Progress.{next-Advances}
use sa_plugin_sla.Compiler.Lexing.Ends.{next-unclosed}
use sa_plugin_sla.Compiler.Lexing.BlockEnd.{Answer, block_step, block_after, block_end}

-- A token with no answer goes on at some depth, whatever follows.
block_step-none :
    (go : ℕ → Answer) (tag : Tag) (stop : ℕ) (b : Bool) (depth : ℕ)
    → block_step go tag stop b depth ≡ none
    → (d : ℕ) × (go d ≡ none) × ((k : ℕ → Answer) → block_step k tag stop b depth ≡ k d)
unfolding block_step
block_step-none go Tokens.l_brace stop b depth h = (suc depth, h, λ k. refl)
block_step-none go Tokens.r_brace stop true depth h = (depth, h, λ k. refl)
block_step-none go Tokens.r_brace stop false zero h = cc
block_step-none go Tokens.r_brace stop false (suc zero) h = cc
block_step-none go Tokens.r_brace stop false (suc (suc depth)) h = (suc depth, h, λ k. refl)
block_step-none go Tokens.eof stop b depth h = cc
block_step-none go tag stop b depth h = (depth, h, λ k. refl)

eof-answers :
    (go : ℕ → Answer) (tag : Tag) (stop : ℕ) (b : Bool) (depth : ℕ)
    → tag ≡ eof
    → block_step go tag stop b depth ≡ some (done none)
unfolding block_step
eof-answers go tag stop b depth e = ap (λ (x : Tag). block_step go x stop b depth) e

block_end-unclosed :
    (fuel : ℕ) (l : Lexer) (depth : ℕ) → IsUnclosed l → block_end fuel l depth ≡ none
unfolding block_end block_after block_step
block_end-unclosed zero l depth u = refl
block_end-unclosed (suc fuel) l depth u =
    let behind = (emit invalid 0 l.modes l).1 in
    let stay : IsUnclosed behind = record { text = u.text; at_end = omega (arith, u.at_end) } in
    ap (block_after (block_end fuel) depth) (next-unclosed l u)
    ∙ block_end-unclosed fuel behind depth stay

block_after-endless :
    (fuel rounds : ℕ) (l : Lexer) (depth : ℕ) (o : Outcome (Token × Lexer))
    → next l ≡ o
    → Always (Advances l) o
    → suc (length l.buffer) - l.index < suc fuel
    → block_after (block_end fuel) depth o ≡ none
    → ((m : Lexer) (d : ℕ)
        → m.index ≤ suc (length m.buffer)
        → suc (length m.buffer) - m.index < fuel
        → block_end fuel m d ≡ none
        → block_end rounds m d ≡ none)
    → block_after (block_end rounds) depth o ≡ none
unfolding block_after block_end
block_after-endless fuel rounds l depth (panic e) n a f h ih = cc
block_after-endless fuel rounds l depth (done (t, m)) n a f h ih =
    let (d, more, goes) =
      block_step-none (block_end fuel m) t.tag t.loc.end m.modes.in_template depth h in
    let size = ap length a.same in
    elim a.ahead [
      | inl last ↦
          let answer =
            sym (eof-answers (block_end fuel m) t.tag t.loc.end m.modes.in_template depth last)
            ∙ h in
          cc
      | inr (inl byte) ↦
          goes (block_end rounds m)
          ∙ ih m d (omega (arith, a.near, size))
              (omega (arith, f, byte, a.starts, a.ends, size, a.near)) more
      | inr (inr u) ↦
          sym (ap (block_after (block_end rounds) depth) n)
          ∙ block_end-unclosed (suc rounds) l depth u
    ]

-- No answer after enough rounds, none ever.
pub block_end-endless :
    (fuel rounds : ℕ) (l : Lexer) (depth : ℕ)
    → l.index ≤ suc (length l.buffer)
    → suc (length l.buffer) - l.index < fuel
    → block_end fuel l depth ≡ none
    → block_end rounds l depth ≡ none
unfolding block_end
block_end-endless zero rounds l depth h f n = absurd (omega (arith, f))
block_end-endless (suc fuel) zero l depth h f n = refl
block_end-endless (suc fuel) (suc rounds) l depth h f n =
    block_after-endless fuel rounds l depth (next l) refl (next-Advances l h) f n
      (λ m d near more none_yet. block_end-endless fuel rounds m d near more none_yet)
