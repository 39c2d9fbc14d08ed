-- ===== src/Compiler/Lexing/Nesting.antt =====
-- src/lexer.zig: the invariant of the state that templates need.
use sa_plugin_sla.Prelude.{leb, ltb, ◌==◌, ℕ, ◌+◌, ◌≡◌, refl, length, false, [], ◌∷◌, arith}
use sa_plugin_sla.Rust.{Outcome, done, ◌>>=◌, below}
use sa_plugin_sla.Compiler.Text.{Bytes}
use sa_plugin_sla.Compiler.Lexing.Tokens.{eof, invalid, l_brace}
use sa_plugin_sla.Compiler.Lexing.Symbols.{scan}
use sa_plugin_sla.Compiler.Lexing.Lexer.{
  Modes, Lexer, rest, emit, open_modes, open_brace, close_brace, open_template, next_at, skip_gap,
  next_from, next,
}
use sa_plugin_sla.Compiler.Lexing.Outcomes.{Always, always-bind, by_test}
use sa_plugin_sla.Compiler.Lexing.Nested.{
  IsSaved-mono, IsNested-mono, stay-IsNested, next_template-IsNested, IsNested, IsNestedBehind,
}

open_modes-IsNested :
    (n : ℕ) (m : Modes)
    → m.in_template ≡ false
    → IsNested n m
    → Always (IsNested (n + 1)) (open_modes m)
unfolding open_modes below
open_modes-IsNested n m c h =
    by_test (Always (IsNested (n + 1))) (ltb 0 m.interp_depth) _ _
      (λ inner.
        by_test
          (λ (o : Outcome ℕ).
            Always (IsNested (n + 1)) (o >>= λ depth. done (record m { interp_depth = depth })))
          (ltb (m.interp_depth + 1) 65536) _ _
          (λ small. record {
            depth_le = omega (arith, h.depth_le);
            room = h.room;
            saved = IsSaved-mono n (n + 1) m.tmpl_stack (omega arith) h.saved;
            text = λ t. cc;
            code = λ x. ground (arith, h.code c);
          })
          (λ large. tt))
      (λ outer. IsNested-mono n (n + 1) m (omega arith) h)

open_brace-IsNested :
    (l : Lexer)
    → l.modes.in_template ≡ false
    → IsNested l.index l.modes
    → Always IsNestedBehind (open_brace l)
unfolding open_brace
open_brace-IsNested l c h =
    always-bind (IsNested (l.index + 1)) IsNestedBehind (open_modes l.modes)
      (λ modes. emit l_brace 1 modes l) (λ m n. n) (open_modes-IsNested l.index l.modes c h)

close_brace-IsNested :
    (n : ℕ) (m : Modes) → m.in_template ≡ false → IsNested n m → IsNested (n + 1) (close_brace m)
close_brace-IsNested n m c h =
    by_test (IsNested (n + 1)) (ltb 0 m.interp_depth) _ _
      (λ inner. record {
        depth_le = omega (arith, h.depth_le);
        room = h.room;
        saved = IsSaved-mono n (n + 1) m.tmpl_stack (omega arith) h.saved;
        text = λ t. (ground (arith, h.code c), ground (arith, h.code c));
        code = λ x. ground (arith, h.code c);
      })
      (λ outer. IsNested-mono n (n + 1) m (omega arith) h)

open_template-IsNested :
    (l : Lexer)
    → l.modes.in_template ≡ false
    → IsNested l.index l.modes
    → IsNestedBehind (open_template l)
unfolding open_template
open_template-IsNested l c h =
    by_test IsNestedBehind (leb 8 (length l.modes.tmpl_stack)) _ _
      (λ full. stay-IsNested invalid 1 l h)
      (λ room. record {
        depth_le = omega arith;
        room = ground arith;
        saved = (
          omega (arith, h.depth_le),
          h.code c,
          IsSaved-mono l.index (l.index + 1) l.modes.tmpl_stack (omega arith) h.saved,
        );
        text = λ t. (omega arith, refl);
        code = λ x. cc;
      })

next_at-IsNested :
    (l : Lexer) (c : ℕ) (cs : Bytes)
    → l.modes.in_template ≡ false
    → IsNested l.index l.modes
    → Always IsNestedBehind (next_at l c cs)
unfolding next_at
next_at-IsNested l c cs code h =
    by_test (Always IsNestedBehind) (c == b'{') _ _ (λ opens. open_brace-IsNested l code h)
      (λ e1.
        by_test (Always IsNestedBehind) (c == b'}') _ _
          (λ closes. close_brace-IsNested l.index l.modes code h)
          (λ e2.
            by_test (Always IsNestedBehind) (c == b'`') _ _
              (λ tick. open_template-IsNested l code h)
              (λ e3. stay-IsNested (scan c cs).0 (1 + (scan c cs).1) l h)))

next_from-IsNested :
    (l : Lexer) (s : Bytes)
    → l.modes.in_template ≡ false
    → IsNested l.index l.modes
    → Always IsNestedBehind (next_from l s)
unfolding next_from
next_from-IsNested l [] code h = stay-IsNested eof 0 l h
next_from-IsNested l (c ∷ cs) code h = next_at-IsNested l c cs code h

-- For a lexer whose modes are in order, they are in order behind each call of `next`, unless the
-- depth overflows: template text is in an open template and outside of its braces, code is in an
-- interpolation exactly when a template is open, likewise for the saved depths, at most 8 are
-- saved, and no depth exceeds the place of the lexer.
pub next-IsNested : (l : Lexer) → IsNested l.index l.modes → Always IsNestedBehind (next l)
unfolding next skip_gap
next-IsNested l h =
    by_test (Always IsNestedBehind) l.modes.in_template _ _
      (λ text. next_template-IsNested l text h)
      (λ code.
        next_from-IsNested (skip_gap l) (rest (skip_gap l)) code
          (IsNested-mono l.index (skip_gap l).index l.modes (omega arith) h))
