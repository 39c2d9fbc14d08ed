-- ===== src/Rust/Sum.antt =====
-- `iter().sum()` over `i32`, and the loops that add to an accumulator.
use sa_plugin_sla.Prelude.{
  ℤ, pos, ◌+ℤ◌, ◌≤ℤ◌, List, [], ◌∷◌, ◌≡◌, ◌↔◌, inl, inr, arith, int_laws, All,
}
use sa_plugin_sla.Rust.Effects.{Outcome, Panic, done, panic, ◌>>=◌, Outcome-cases}
use sa_plugin_sla.Rust.I32.{InI32, add_i32, add_i32-done, add_i32-inv}

unfoldable pub sum_from : ℤ → List ℤ → Outcome ℤ
sum_from acc [] = done acc
sum_from acc (x ∷ xs) = add_i32 acc x >>= λ acc'. sum_from acc' xs

unfoldable pub sum_i32 : List ℤ → Outcome ℤ
unfolding sum_from
sum_i32 xs = sum_from (pos 0) xs

-- The sum without overflow.
abbrev pub total : List ℤ → ℤ
total [] = pos 0
total (x ∷ xs) = x +ℤ total xs

-- Every partial sum from `acc` on fits.
abbrev pub Fits : ℤ → List ℤ → Type 0
Fits acc [] = Unit
Fits acc (x ∷ xs) = InI32 (acc +ℤ x) × Fits (acc +ℤ x) xs

pub zero-add : (a : ℤ) → pos 0 +ℤ a ≡ a
zero-add a = omega int_laws

pub total_nonneg : (xs : List ℤ) → All (λ x. pos 0 ≤ℤ x) xs → pos 0 ≤ℤ total xs
total_nonneg [] h = omega arith
total_nonneg (x ∷ xs) h = omega (int_laws, total_nonneg xs h.1)

pub sum_from-done : (acc : ℤ) (xs : List ℤ) → Fits acc xs → sum_from acc xs ≡ done (acc +ℤ total xs)
unfolding sum_from
sum_from-done acc [] h = ap_done (omega int_laws)
  where
    ap_done : {a b : ℤ} → a ≡ b → ◌≡◌ {A = Outcome ℤ} (done a) (done b)
    ap_done p = cc
sum_from-done acc (x ∷ xs) h =
    rw (add_i32-done acc x h.0) (rw (sum_from-done (acc +ℤ x) xs h.1) (cc (shift)))
  where
    shift : acc +ℤ x +ℤ total xs ≡ acc +ℤ (x +ℤ total xs)
    shift = omega int_laws

pub sum_from-Fits : (acc s : ℤ) (xs : List ℤ) → sum_from acc xs ≡ done s → Fits acc xs
unfolding sum_from
sum_from-Fits acc s [] h = tt
sum_from-Fits acc s (x ∷ xs) h = elim (Outcome-cases (add_i32 acc x)) [
  | inl (y, e) ↦ let q = add_i32-inv acc x y e in rw q.0 (q.1, sum_from-Fits y s xs (rw e at h))
  | inr (p, e) ↦ absurd (done≢panic (rw e at h))
]
  where
    done≢panic : {p : Panic} → ◌≡◌ {A = Outcome ℤ} (panic p) (done s) → ⊥
    done≢panic r = cc

-- The loop returns exactly where no partial sum overflows, and then it returns the sum.
pub sum_i32-done : (xs : List ℤ) → Fits (pos 0) xs → sum_i32 xs ≡ done (total xs)
unfolding sum_i32
sum_i32-done xs h = rw (sum_from-done (pos 0) xs h) (cc (zero-add (total xs)))

pub sum_i32-inv : (s : ℤ) (xs : List ℤ) → sum_i32 xs ≡ done s → Fits (pos 0) xs × (s ≡ total xs)
unfolding sum_i32
sum_i32-inv s xs h =
    let fits = sum_from-Fits (pos 0) s xs h in
    (fits, cc (sum_from-done (pos 0) xs fits, zero-add (total xs)))

pub sum_i32-done_iff :
    (s : ℤ) (xs : List ℤ) → (sum_i32 xs ≡ done s) ↔ (Fits (pos 0) xs × (s ≡ total xs))
sum_i32-done_iff s xs = (sum_i32-inv s xs, λ h. rw (sum_i32-done xs h.0) (cc (h.1)))

-- Values of zero or more whose sum fits have partial sums that fit.
pub Fits-of_nonneg :
    (acc : ℤ) (xs : List ℤ)
    → pos 0 ≤ℤ acc
    → All (λ x. pos 0 ≤ℤ x) xs
    → InI32 (acc +ℤ total xs)
    → Fits acc xs
Fits-of_nonneg acc [] a h b = tt
Fits-of_nonneg acc (x ∷ xs) a h b = (
  omega (int_laws, total_nonneg xs h.1),
  Fits-of_nonneg (acc +ℤ x) xs (omega int_laws) h.1 (omega int_laws),
)
