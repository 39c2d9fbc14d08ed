-- ===== src/Compiler/Lexing/Nested.antt =====
-- src/lexer.zig: the invariant of the state that templates need, and that template text keeps it.
use sa_plugin_sla.Prelude.{
  leb, ltb, ℕ, ◌+◌, ◌≤◌, ◌<◌, ◌≡◌, refl, length, true, false, List, [], ◌∷◌, arith, subst, sym, ap,
}
use sa_plugin_sla.Compiler.Text.{starts_with}
use sa_plugin_sla.Compiler.Lexing.Tokens.{Tag, invalid, template_string, template_interp, Token}
use sa_plugin_sla.Compiler.Lexing.Scan.{template_len}
use sa_plugin_sla.Compiler.Lexing.Lexer.{Modes, Lexer, rest, emit, close_template, next_template}
use sa_plugin_sla.Compiler.Lexing.Outcomes.{by_test}

-- The saved depths: each is 0 exactly when none is saved below it, and at most the bound.
abbrev pub IsSaved : ℕ → List ℕ → Type 0
IsSaved bound [] = Unit
IsSaved bound (depth ∷ depths) =
    (depth ≤ bound) × (ltb 0 depth ≡ ltb 0 (length depths)) × IsSaved bound depths

-- The modes of a lexer at most `bound` bytes into its buffer. Template text is always in an open
-- template, with no brace open in it; code is in an interpolation exactly when a template is
-- open; and no depth is more than the number of bytes read.
pub record IsNested (bound : ℕ) (m : Modes) : Type 0 where
  pub depth_le : m.interp_depth ≤ bound
  pub room : length m.tmpl_stack ≤ 8
  pub saved : IsSaved bound m.tmpl_stack
  pub text : m.in_template ≡ true → (0 < length m.tmpl_stack) × (m.interp_depth ≡ 0)
  pub code : m.in_template ≡ false → ltb 0 m.interp_depth ≡ ltb 0 (length m.tmpl_stack)

pub IsSaved-mono : (a b : ℕ) (depths : List ℕ) → a ≤ b → IsSaved a depths → IsSaved b depths
IsSaved-mono a b [] h s = tt
IsSaved-mono a b (d ∷ ds) h (le, e, s) = (omega (arith, le, h), e, IsSaved-mono a b ds h s)

pub IsNested-mono : (a b : ℕ) (m : Modes) → a ≤ b → IsNested a m → IsNested b m
IsNested-mono a b m h n = record {
  depth_le = omega (arith, h, n.depth_le);
  room = n.room;
  saved = IsSaved-mono a b m.tmpl_stack h n.saved;
  text = n.text;
  code = n.code;
}

-- The modes behind a call, at the place behind the token.
abbrev pub IsNestedBehind : Token × Lexer → Type 0
IsNestedBehind r = IsNested r.1.index r.1.modes

pub stay-IsNested :
    (tag : Tag) (n : ℕ) (l : Lexer)
    → IsNested l.index l.modes
    → IsNestedBehind (emit tag n l.modes l)
stay-IsNested tag n l h = IsNested-mono l.index (l.index + n) l.modes (omega arith) h

close_template-IsNested :
    (depths : List ℕ) (l : Lexer)
    → depths ≡ l.modes.tmpl_stack
    → IsNested l.index l.modes
    → IsNestedBehind (close_template depths l)
close_template-IsNested [] l e h = stay-IsNested invalid 1 l h
close_template-IsNested (d ∷ ds) l e h =
    let s = subst (IsSaved l.index) (sym e) h.saved in
    record {
      depth_le = omega (arith, s.0);
      room = omega (arith, ap length e, h.room);
      saved = IsSaved-mono l.index (l.index + 1) ds (omega arith) s.2;
      text = λ t. cc;
      code = λ c. s.1;
    }

interp-IsNested :
    (l : Lexer)
    → l.modes.in_template ≡ true
    → IsNested l.index l.modes
    → IsNestedBehind
        (emit template_interp 2 (record l.modes { in_template = false; interp_depth = 1 }) l)
interp-IsNested l t h = record {
  depth_le = omega arith;
  room = h.room;
  saved = IsSaved-mono l.index (l.index + 2) l.modes.tmpl_stack (omega arith) h.saved;
  text = λ x. cc;
  code = λ c. let open_one = (h.text t).0 in ground (arith, open_one);
}

pub next_template-IsNested :
    (l : Lexer)
    → l.modes.in_template ≡ true
    → IsNested l.index l.modes
    → IsNestedBehind (next_template l)
unfolding next_template
next_template-IsNested l t h =
    by_test IsNestedBehind (starts_with (rest l) (b'$' ∷ b'{' ∷ [])) _ _
      (λ interp. interp-IsNested l t h)
      (λ text.
        by_test IsNestedBehind (starts_with (rest l) (b'`' ∷ [])) _ _
          (λ tick. close_template-IsNested l.modes.tmpl_stack l refl h)
          (λ no_tick.
            by_test IsNestedBehind (leb (length l.buffer) (l.index + template_len (rest l))) _ _
              (λ all. stay-IsNested invalid _ l h) (λ left. stay-IsNested template_string _ l h)))
