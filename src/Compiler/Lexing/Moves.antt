-- ===== src/Compiler/Lexing/Moves.antt =====
-- src/lexer.zig: the state machine of the modes, as a relation of the modes before a token, its
-- tag and the modes behind it.
use sa_plugin_sla.Prelude.{leb, ◌==◌, ℕ, ◌+◌, ◌≡◌, refl, length, true, false, List, [], ◌∷◌}
use sa_plugin_sla.Rust.{Outcome, done, panic, ◌>>=◌}
use sa_plugin_sla.Compiler.Text.{Bytes, starts_with}
use sa_plugin_sla.Compiler.Lexing.Tokens.{
  Tag, eof, template_start, template_interp, template_end, l_brace, r_brace, Token,
}
use sa_plugin_sla.Compiler.Lexing.Scan.{template_len}
use sa_plugin_sla.Compiler.Lexing.Lexer.{
  Modes, Lexer, rest, emit, close_template, next_template, open_modes, open_brace, close_brace,
  open_template, next_at, skip_gap, next_from, next,
}
use sa_plugin_sla.Compiler.Lexing.Scanned.{is_plain, scan-IsScanned}
use sa_plugin_sla.Compiler.Lexing.Outcomes.{Always, by_test}

pub data Moves (before : Modes) : Tag → Modes → Type 0 where
  stays : {tag : Tag} → is_plain tag ≡ true → Moves before tag before
  stops : {tag : Tag} → before.in_template ≡ false → tag ≡ eof → Moves before tag before
  opens :
      {tag : Tag} {after : Modes}
      → before.in_template ≡ false
      → tag ≡ l_brace
      → open_modes before ≡ done after
      → Moves before tag after
  closes :
      {tag : Tag} {after : Modes}
      → before.in_template ≡ false
      → tag ≡ r_brace
      → after ≡ close_brace before
      → Moves before tag after
  starts :
      {tag : Tag} {after : Modes}
      → before.in_template ≡ false
      → tag ≡ template_start
      → leb 8 (length before.tmpl_stack) ≡ false
      → after ≡ (record {
        in_template = true;
        interp_depth = 0;
        tmpl_stack = before.interp_depth ∷ before.tmpl_stack;
      })
      → Moves before tag after
  interpolates :
      {tag : Tag} {after : Modes}
      → before.in_template ≡ true
      → tag ≡ template_interp
      → after ≡ (record before { in_template = false; interp_depth = 1 })
      → Moves before tag after
  ends :
      {tag : Tag} {after : Modes} (depth : ℕ) (depths : List ℕ)
      → before.in_template ≡ true
      → tag ≡ template_end
      → before.tmpl_stack ≡ depth ∷ depths
      → after ≡ (record { in_template = false; interp_depth = depth; tmpl_stack = depths })
      → Moves before tag after

abbrev pub MovesFrom : Modes → Token × Lexer → Type 0
MovesFrom before r = Moves before r.0.tag r.1.modes

close_template-Moves :
    (depths : List ℕ) (l : Lexer)
    → l.modes.in_template ≡ true
    → l.modes.tmpl_stack ≡ depths
    → MovesFrom l.modes (close_template depths l)
close_template-Moves [] l t e = stays refl
close_template-Moves (d ∷ ds) l t e = ends d ds t refl e refl

next_template-Moves : (l : Lexer) → l.modes.in_template ≡ true → MovesFrom l.modes (next_template l)
unfolding next_template
next_template-Moves l t =
    by_test (MovesFrom l.modes) (starts_with (rest l) (b'$' ∷ b'{' ∷ [])) _ _
      (λ interp. interpolates t refl refl)
      (λ text.
        by_test (MovesFrom l.modes) (starts_with (rest l) (b'`' ∷ [])) _ _
          (λ tick. close_template-Moves l.modes.tmpl_stack l t refl)
          (λ no_tick.
            by_test (MovesFrom l.modes) (leb (length l.buffer) (l.index + template_len (rest l))) _
              _ (λ all. stays refl) (λ left. stays refl)))

open_brace-Moves :
    (l : Lexer) (o : Outcome Modes)
    → l.modes.in_template ≡ false
    → open_modes l.modes ≡ o
    → Always (MovesFrom l.modes) (o >>= λ modes. done (emit l_brace 1 modes l))
open_brace-Moves l (done m) c e = opens c refl e
open_brace-Moves l (panic x) c e = tt

next_at-Moves :
    (l : Lexer) (c : ℕ) (cs : Bytes)
    → l.modes.in_template ≡ false
    → Always (MovesFrom l.modes) (next_at l c cs)
unfolding next_at open_brace open_template
next_at-Moves l c cs code =
    by_test (Always (MovesFrom l.modes)) (c == b'{') _ _
      (λ opening. open_brace-Moves l (open_modes l.modes) code refl)
      (λ e1.
        by_test (Always (MovesFrom l.modes)) (c == b'}') _ _ (λ closing. closes code refl refl)
          (λ e2.
            by_test (Always (MovesFrom l.modes)) (c == b'`') _ _
              (λ tick.
                by_test (MovesFrom l.modes) (leb 8 (length l.modes.tmpl_stack)) _ _
                  (λ full. stays refl) (λ room. starts code refl room refl))
              (λ e3. stays (scan-IsScanned c cs).plain)))

next_from-Moves :
    (l : Lexer) (s : Bytes)
    → l.modes.in_template ≡ false
    → Always (MovesFrom l.modes) (next_from l s)
unfolding next_from
next_from-Moves l [] code = stops code refl
next_from-Moves l (c ∷ cs) code = next_at-Moves l c cs code

-- Each call of `next` is a move of the modes, by the tag of its token: a brace or the end of the
-- input only outside of template text, the tokens of a template where they belong, and any other
-- token leaves the modes as they are.
pub next-Moves : (l : Lexer) → Always (MovesFrom l.modes) (next l)
unfolding next skip_gap
next-Moves l =
    by_test (Always (MovesFrom l.modes)) l.modes.in_template _ _
      (λ text. next_template-Moves l text)
      (λ code. next_from-Moves (skip_gap l) (rest (skip_gap l)) code)
