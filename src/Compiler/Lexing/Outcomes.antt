-- ===== src/Compiler/Lexing/Outcomes.antt =====
-- src/lexer.zig: rules for the properties of what a call returns, if it does not panic.
use sa_plugin_sla.Prelude.{if◌then◌else◌, ◌≡◌, refl, Bool, true, false}
use sa_plugin_sla.Rust.{Outcome, done, panic, ◌>>=◌}
use sa_plugin_sla.Compiler.Lexing.Tokens.{Token}
use sa_plugin_sla.Compiler.Lexing.Lexer.{Modes, Lexer}

-- If there is a value, it has the property.
abbrev pub Always {ℓ} : {A : Type 0} → (A → Type ℓ) → Outcome A → Type ℓ
Always P (done a) = P a
Always P (panic e) = Unit

-- What follows from the one follows behind the other.
pub always-map {ℓ κ} :
    {A : Type 0} {P : A → Type ℓ} {Q : A → Type κ} (o : Outcome A)
    → ((a : A) → P a → Q a)
    → Always P o
    → Always Q o
always-map (done a) f h = f a h
always-map (panic e) f h = tt

-- A test, where both branches have the property.
pub by_test {ℓ} :
    {A : Type 0} (P : A → Type ℓ) (b : Bool) (x y : A)
    → (b ≡ true → P x)
    → (b ≡ false → P y)
    → P (if b then x else y)
by_test P true x y h k = h refl
by_test P false x y h k = k refl

-- The rule for a bind.
pub always-bind {ℓ κ} :
    (P : Modes → Type ℓ) (Q : Token × Lexer → Type κ) (o : Outcome Modes)
    (f : Modes → Token × Lexer)
    → ((m : Modes) → P m → Q (f m))
    → Always P o
    → Always Q (o >>= λ m. done (f m))
always-bind P Q (done m) f h k = h m k
always-bind P Q (panic e) f h k = tt

-- What holds behind every value holds behind the outcome.
pub every {ℓ} :
    (P : Token × Lexer → Type ℓ) (o : Outcome Modes) (f : Modes → Token × Lexer)
    → ((m : Modes) → P (f m))
    → Always P (o >>= λ m. done (f m))
every P (done m) f h = h m
every P (panic e) f h = tt
