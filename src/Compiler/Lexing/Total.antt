-- ===== src/Compiler/Lexing/Total.antt =====
-- src/lexer.zig: the depth of braces fits in its 16 bits, for a buffer of fewer than 65536 bytes.
use sa_plugin_sla.Prelude.{ltb, ◌==◌, ℕ, ◌+◌, ◌≤◌, ◌<◌, ◌≡◌, refl, length, [], ◌∷◌, arith, ap}
use sa_plugin_sla.Rust.{Outcome, done, ◌>>=◌, below}
use sa_plugin_sla.Compiler.Text.{Bytes}
use sa_plugin_sla.Compiler.Lexing.Tokens.{l_brace}
use sa_plugin_sla.Compiler.Lexing.Lexer.{
  Modes, Lexer, rest, emit, next_template, open_modes, open_brace, next_at, skip_gap, next_from,
  next,
}
use sa_plugin_sla.Compiler.Lexing.Outcomes.{by_test}
use sa_plugin_sla.Compiler.Lexing.Pieces.{in_rest}
use sa_plugin_sla.Compiler.Lexing.Nested.{IsNested}

abbrev pub IsDone : {A : Type 0} → Outcome A → Type 0
IsDone {A} o = (a : A) × (o ≡ done a)

open_modes-IsDone : (m : Modes) → m.interp_depth < 65535 → IsDone (open_modes m)
unfolding open_modes below
open_modes-IsDone m h =
    by_test IsDone (ltb 0 m.interp_depth) _ _
      (λ inner.
        by_test
          (λ (o : Outcome ℕ). IsDone (o >>= λ depth. done (record m { interp_depth = depth })))
          (ltb (m.interp_depth + 1) 65536) _ _ (λ small. (_, refl))
          (λ large. absurd (ground arith)))
      (λ outer. (m, refl))

next_at-IsDone :
    (l : Lexer) (c : ℕ) (cs : Bytes) → l.modes.interp_depth < 65535 → IsDone (next_at l c cs)
unfolding next_at open_brace
next_at-IsDone l c cs h =
    by_test IsDone (c == b'{') _ _
      (λ opens.
        let (m, e) = open_modes-IsDone l.modes h in
        (
          emit l_brace 1 m l,
          ap (λ (o : Outcome Modes). o >>= λ modes. done (emit l_brace 1 modes l)) e,
        ))
      (λ e1.
        by_test IsDone (c == b'}') _ _ (λ closes. (_, refl))
          (λ e2. by_test IsDone (c == b'`') _ _ (λ tick. (_, refl)) (λ e3. (_, refl))))

next_from-IsDone :
    (l : Lexer) (s : Bytes)
    → rest l ≡ s
    → l.modes.interp_depth ≤ l.index
    → length l.buffer < 65536
    → IsDone (next_from l s)
unfolding next_from
next_from-IsDone l [] e h small = (_, refl)
next_from-IsDone l (c ∷ cs) e h small =
    next_at-IsDone l c cs (omega (arith, h, small, in_rest l c cs e))

-- For modes in order and a buffer of fewer than 65536 bytes, `next` returns a token: the depth of
-- braces does not overflow.
pub next-IsDone : (l : Lexer) → IsNested l.index l.modes → length l.buffer < 65536 → IsDone (next l)
unfolding next skip_gap
next-IsDone l h small =
    by_test IsDone l.modes.in_template _ _ (λ text. (next_template l, refl))
      (λ code.
        next_from-IsDone (skip_gap l) (rest (skip_gap l)) refl (omega (arith, h.depth_le)) small)
