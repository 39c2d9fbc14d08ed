-- ===== src/Compiler/ConsumptionLaws.antt =====
-- Laws of the analysis of consumption.
use sa_plugin_sla.Prelude.{ℕ, ◌+◌, ◌≡◌, refl, subst, inl, inr, Bool, true, false, arith}
use sa_plugin_sla.Compiler.Consumption.{
  MacroParamConsumption, never, always, conditional, sequence, branch, looped, always_if,
}
use sa_plugin_sla.Compiler.Paths.{
  Counts, Exactly, Both, Either, Rounds, halt, again, Once_if, Describes,
}

pub Describes-iff :
    (a : MacroParamConsumption) (P Q : Counts)
    → ((n : ℕ) → P n → Q n)
    → ((n : ℕ) → Q n → P n)
    → Describes a P
    → Describes a Q
Describes-iff never P Q f g (z, only) = (f 0 z, λ n q. only n (g n q))
Describes-iff always P Q f g ((n, p), least) = ((n, f n p), λ m q. least m (g m q))
Describes-iff conditional P Q f g (z, (n, p, l)) = (f 0 z, (n, f n p, l))

pub Describes-nothing : Describes never (Exactly 0)
Describes-nothing = (refl, λ n e. e)

pub Describes-once : Describes always (Exactly 1)
Describes-once = ((1, refl), λ n e. omega arith)

-- Every answer has a path.
some_path : (a : MacroParamConsumption) (P : Counts) → Describes a P → (n : ℕ) × P n
some_path never P (z, only) = (0, z)
some_path always P (w, least) = w
some_path conditional P (z, w) = (0, z)

pub Describes-sequence :
    (a b : MacroParamConsumption) (P Q : Counts)
    → Describes a P
    → Describes b Q
    → Describes (sequence a b) (Both P Q)
unfolding sequence
Describes-sequence never never P Q (z, f) (w, g) =
    ((0, 0, z, w, refl), λ n (k, m, p, q, e). omega (arith, f k p, g m q))
Describes-sequence never always P Q (z, f) ((m, q), g) =
    ((m, (0, m, z, q, omega arith)), λ n (k, m', p, q', e). omega (arith, g m' q'))
Describes-sequence never conditional P Q (z, f) (w, (m, q, l)) =
    ((0, 0, z, w, refl), (m, (0, m, z, q, omega arith), l))
Describes-sequence always b P Q ((k, p), f) h =
    let (m, q) = some_path b Q h in
    ((k + m, (k, m, p, q, refl)), λ n (k', m', p', q', e). omega (arith, f k' p'))
Describes-sequence conditional never P Q (z, (k, p, l)) (w, g) =
    ((0, 0, z, w, refl), (k, (k, 0, p, w, omega arith), l))
Describes-sequence conditional always P Q (z, (k, p, l)) ((m, q), g) =
    ((m, (0, m, z, q, omega arith)), λ n (k', m', p', q', e). omega (arith, g m' q'))
Describes-sequence conditional conditional P Q (z, (k, p, l)) (w, (m, q, l')) =
    ((0, 0, z, w, refl), (k, (k, 0, p, w, omega arith), l))

pub Describes-branch :
    (a b : MacroParamConsumption) (P Q : Counts)
    → Describes a P
    → Describes b Q
    → Describes (branch a b) (Either P Q)
unfolding branch
Describes-branch never never P Q (z, f) (w, g) =
    (inl z, λ n c. elim c [ inl p ↦ f n p | inr q ↦ g n q ])
Describes-branch never always P Q (z, f) ((m, q), g) = (inl z, (m, inr q, g m q))
Describes-branch never conditional P Q (z, f) (w, (m, q, l)) = (inl z, (m, inr q, l))
Describes-branch always never P Q ((k, p), f) (w, g) = (inr w, (k, inl p, f k p))
Describes-branch always always P Q ((k, p), f) (w, g) =
    ((k, inl p), λ n c. elim c [ inl p' ↦ f n p' | inr q ↦ g n q ])
Describes-branch always conditional P Q ((k, p), f) (w, (m, q, l)) = (inr w, (k, inl p, f k p))
Describes-branch conditional b P Q (z, (k, p, l)) h = (inl z, (k, inl p, l))

Rounds-zero : (P : Counts) → ((n : ℕ) → P n → n ≡ 0) → (n : ℕ) → Rounds P n → n ≡ 0
Rounds-zero P f n halt = refl
Rounds-zero P f n (again {k} {m} p r) = omega (arith, f k p, Rounds-zero P f m r)

one_round : (P : Counts) (n : ℕ) → P n → Rounds P n
one_round P n p = let e : n + 0 ≡ n = omega arith in subst (λ m. Rounds P m) e (again p halt)

pub Describes-loop :
    (a : MacroParamConsumption) (P : Counts) → Describes a P → Describes (looped a) (Rounds P)
unfolding looped
Describes-loop never P (z, f) = (halt, Rounds-zero P f)
Describes-loop always P ((k, p), f) = (halt, (k, one_round P k p, f k p))
Describes-loop conditional P (z, (k, p, l)) = (halt, (k, one_round P k p, l))

pub Describes-if :
    (b : Bool) (a : MacroParamConsumption) (P : Counts)
    → Describes a P
    → Describes (always_if b a) (Once_if b P)
unfolding always_if
Describes-if true a P h = Describes-once
Describes-if false a P h = h

-- What consumes nothing may stand before or behind.
pub Describes-behind :
    (a : MacroParamConsumption) (P Q : Counts)
    → Describes never P
    → Describes a Q
    → Describes a (Both P Q)
Describes-behind a P Q (z, f) =
    Describes-iff a Q (Both P Q) (λ n q. (0, n, z, q, omega arith))
      (λ n (k, m, p, q, e). let e' : m ≡ n = omega (arith, f k p) in subst Q e' q)

pub Describes-before :
    (a : MacroParamConsumption) (P Q : Counts)
    → Describes never Q
    → Describes a P
    → Describes a (Both P Q)
Describes-before a P Q (z, f) =
    Describes-iff a P (Both P Q) (λ n p. (n, 0, p, z, omega arith))
      (λ n (k, m, p, q, e). let e' : k ≡ n = omega (arith, f m q) in subst P e' p)
