-- ===== src/Compiler/Lexing/Lexemes.antt =====
-- src/parser.zig, lexeme: the texts of tokens.
use sa_plugin_sla.Prelude.{
  leb, ℕ, zero, suc, ◌+◌, ◌-◌, ◌≤◌, ◌≡◌, refl, length, Bool, true, ◌&&◌, if◌then◌else◌, [], ◌∷◌,
  arith, ap, ◌⊎◌, inl, inr,
}
use sa_plugin_sla.Rust.{done, panic, out_of_bounds}
use sa_plugin_sla.Compiler.Text.{Bytes, skip, take}
use sa_plugin_sla.Compiler.Lexing.Tokens.{Token, Loc, invalid}
use sa_plugin_sla.Compiler.Lexing.Lexer.{Lexer, next, lexeme}
use sa_plugin_sla.Compiler.Lexing.Outcomes.{Always, always-map}
use sa_plugin_sla.Compiler.Lexing.Bounds.{length-skip}
use sa_plugin_sla.Compiler.Lexing.Pieces.{Advances}
use sa_plugin_sla.Compiler.Lexing.Progress.{next-Advances}

length-take : (n : ℕ) (s : Bytes) → n ≤ length s → length (take n s) ≡ n
length-take zero s h = refl
length-take (suc n) [] h = omega (arith, h)
length-take (suc n) (c ∷ s) h = ap suc (length-take n s (omega (arith, h)))

-- The text at a place is there, with as many bytes as the place has.
abbrev pub HasText : Bytes → Loc → Type 0
HasText buffer loc = (s : Bytes) × (lexeme buffer loc ≡ done s) × (loc.start + length s ≡ loc.end)

lexeme-HasText :
    (buffer : Bytes) (loc : Loc)
    → loc.start ≤ loc.end
    → loc.end ≤ length buffer
    → HasText buffer loc
unfolding lexeme
lexeme-HasText buffer loc h k =
    let s = take (loc.end - loc.start) (skip loc.start buffer) in
    let within : (leb loc.start loc.end && leb loc.end (length buffer)) ≡ true =
      ground (arith, h, k) in
    let size =
      length-take (loc.end - loc.start) (skip loc.start buffer)
        (omega (arith, k, length-skip loc.start buffer)) in
    (s, ap (λ (b : Bool). if b then done s else panic out_of_bounds) within, omega (arith, size, h))

-- A lexer in its buffer, unless the depth overflows: the token that `next` answers is invalid, or
-- the parser can look its text up, which has as many bytes as the token's place.
pub next-HasText :
    (l : Lexer)
    → l.index ≤ length l.buffer
    → Always (λ (r : Token × Lexer). (r.0.tag ≡ invalid) ⊎ HasText l.buffer r.0.loc) (next l)
next-HasText l h =
    always-map (next l)
      (λ r (a : Advances l r). elim a.inside [
        | inl bad ↦ inl bad
        | inr (inl behind) ↦ absurd (omega (arith, behind, h))
        | inr (inr within) ↦
            inr (lexeme-HasText l.buffer r.0.loc a.forward (omega (arith, within, a.ends)))
      ])
      (next-Advances l (omega (arith, h)))
