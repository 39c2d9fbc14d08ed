-- ===== src/Rust/Effects.antt =====
-- A computation of the programs returns a value or panics; a program prints lines.
use sa_plugin_sla.Prelude.{
  ℕ, ℤ, Bool, true, false, String, List, [], ◌∷◌, Option, none, some, ◌≡◌, refl, ◌⊎◌, inl, inr,
}

pub data Panic : Type 0 where
  overflow divide_by_zero out_of_bounds unwrap_failed explicit : Panic

pub data Outcome {ℓ} (A : Type ℓ) : Type ℓ where
  done : A → Outcome A
  panic : Panic → Outcome A

infixl 5 ◌>>=◌ ◌>>◌
abbrev pub ◌>>=◌ {ℓ κ} : {A : Type ℓ} {B : Type κ} → Outcome A → (A → Outcome B) → Outcome B
done a >>= f = f a
panic e >>= f = panic e

abbrev pub ◌>>◌ {ℓ κ} : {A : Type ℓ} {B : Type κ} → Outcome A → Outcome B → Outcome B
m >> k = m >>= λ _. k

-- `Option::unwrap`
abbrev pub unwrap {ℓ} : {A : Type ℓ} → Option A → Outcome A
unwrap none = panic unwrap_failed
unwrap (some a) = done a

-- `assert!`
abbrev pub assert : Bool → Outcome (Unit {0})
assert true = done tt
assert false = panic explicit

pub Outcome-cases {ℓ} :
    {A : Type ℓ} (o : Outcome A) → ((a : A) × (o ≡ done a)) ⊎ ((e : Panic) × (o ≡ panic e))
Outcome-cases (done a) = inl (a, refl)
Outcome-cases (panic e) = inr (e, refl)

-- What `println!` writes: the literal parts of the format, and the values that it shows.
pub data Piece : Type 0 where
  lit : String → Piece
  int : ℤ → Piece
  nat : ℕ → Piece
  flag : Bool → Piece
  chars : List ℕ → Piece

abbrev pub Line : Type 0
Line = List Piece

-- How a program ends: the lines that it has printed, and whether `main` returned.
pub record Exit : Type 0 where
  pub stdout : List Line
  pub status : Outcome (Unit {0})

abbrev pub exit_ok : List Line → Exit
exit_ok ls = record { stdout = ls; status = done tt }

-- `println!` of a computed value, as the last statement of `main`.
abbrev pub print {ℓ} : {A : Type ℓ} → (A → Line) → Outcome A → Exit
print f (done a) = exit_ok (f a ∷ [])
print f (panic e) = record { stdout = []; status = panic e }

abbrev pub int_line : ℤ → Line
int_line z = int z ∷ []

abbrev pub nat_line : ℕ → Line
nat_line n = nat n ∷ []

abbrev pub flag_line : Bool → Line
flag_line b = flag b ∷ []
