-- ===== src/Compiler/TextLaws.antt =====
-- How the operations on texts read a text that is put together from words and separators.
use sa_plugin_sla.Prelude.{
  ◌==◌, ℕ, ◌≡◌, refl, ap, ◌∙◌, Bool, true, false, not, ◌&&◌, [], ◌∷◌, ◌++◌, arith,
}
use sa_plugin_sla.Compiler.Text.{
  Bytes, drop_while, take_while, is_empty, trim_end, trim, split_scalar, last_is, without_last,
}

abbrev pub every : (ℕ → Bool) → Bytes → Bool
every p [] = true
every p (c ∷ cs) = p c && every p cs

abbrev pub no : (ℕ → Bool) → ℕ → Bool
no p c = not (p c)

abbrev pub is_not : ℕ → ℕ → Bool
is_not x c = not (c == x)

pub every-append :
    (p : ℕ → Bool) (s t : Bytes) → every p s ≡ true → every p t ≡ true → every p (s ++ t) ≡ true
every-append p [] t hs ht = ht
every-append p (c ∷ s) t hs ht = ground (arith, every-append p s t)

pub every-implies :
    (p q : ℕ → Bool) (s : Bytes)
    → ((c : ℕ) → p c ≡ true → q c ≡ true)
    → every p s ≡ true
    → every q s ≡ true
every-implies p q [] f h = refl
every-implies p q (c ∷ s) f h = ground (arith, f c, every-implies p q s f)

pub take_while-append :
    (p : ℕ → Bool) (s : Bytes) (c : ℕ) (rest : Bytes)
    → every p s ≡ true
    → p c ≡ false
    → take_while p (s ++ (c ∷ rest)) ≡ s
unfolding take_while
take_while-append p [] c rest hs hc = ground arith
take_while-append p (d ∷ s) c rest hs hc = ground (arith, take_while-append p s c rest)

pub drop_while-append :
    (p : ℕ → Bool) (s : Bytes) (c : ℕ) (rest : Bytes)
    → every p s ≡ true
    → p c ≡ false
    → drop_while p (s ++ (c ∷ rest)) ≡ c ∷ rest
unfolding drop_while
drop_while-append p [] c rest hs hc = ground arith
drop_while-append p (d ∷ s) c rest hs hc = ground (arith, drop_while-append p s c rest)

pub drop_while-word :
    (p : ℕ → Bool) (s t : Bytes)
    → every (no p) s ≡ true
    → is_empty s ≡ false
    → drop_while p (s ++ t) ≡ s ++ t
unfolding drop_while
drop_while-word p [] t h ne = cc
drop_while-word p (c ∷ s) t h ne = ground arith

pub trim_end-word : (p : ℕ → Bool) (s : Bytes) → every (no p) s ≡ true → trim_end p s ≡ s
unfolding trim_end
trim_end-word p [] h = refl
trim_end-word p (c ∷ s) h = ground (arith, trim_end-word p s)

pub is_empty-append : (s t : Bytes) → is_empty t ≡ false → is_empty (s ++ t) ≡ false
is_empty-append [] t h = h
is_empty-append (c ∷ s) t h = refl

pub drop_while-itself : (p : ℕ → Bool) (s : Bytes) → every (no p) s ≡ true → drop_while p s ≡ s
unfolding drop_while
drop_while-itself p [] h = refl
drop_while-itself p (c ∷ s) h = ground arith

pub trim-word : (p : ℕ → Bool) (s : Bytes) → every (no p) s ≡ true → trim p s ≡ s
unfolding trim
trim-word p s h = ap (trim_end p) (drop_while-itself p s h) ∙ trim_end-word p s h

pub is_empty-append_left : (s t : Bytes) → is_empty s ≡ false → is_empty (s ++ t) ≡ false
is_empty-append_left [] t ne = cc
is_empty-append_left (c ∷ s) t ne = refl

pub trim_end-append :
    (p : ℕ → Bool) (s t : Bytes)
    → trim_end p t ≡ t
    → is_empty t ≡ false
    → trim_end p (s ++ t) ≡ s ++ t
unfolding trim_end
trim_end-append p [] t h ne = h
trim_end-append p (c ∷ s) t h ne = ground (arith, trim_end-append p s t, is_empty-append s t)

pub split_scalar-append :
    (sep : ℕ) (s rest : Bytes)
    → every (is_not sep) s ≡ true
    → split_scalar sep (s ++ (sep ∷ rest)) ≡ s ∷ split_scalar sep rest
unfolding split_scalar
split_scalar-append sep [] rest h = ground arith
split_scalar-append sep (c ∷ s) rest h = ground (arith, split_scalar-append sep s rest)

pub split_scalar-word :
    (sep : ℕ) (s : Bytes) → every (is_not sep) s ≡ true → split_scalar sep s ≡ s ∷ []
unfolding split_scalar
split_scalar-word sep [] h = refl
split_scalar-word sep (c ∷ s) h = ground (arith, split_scalar-word sep s)

pub last_is-append : (x : ℕ) (s : Bytes) → last_is x (s ++ (x ∷ [])) ≡ true
unfolding last_is
last_is-append x [] = ground arith
last_is-append x (c ∷ []) = ground arith
last_is-append x (c ∷ d ∷ s) = last_is-append x (d ∷ s)

pub last_is-word : (x : ℕ) (s : Bytes) → every (is_not x) s ≡ true → last_is x s ≡ false
unfolding last_is
last_is-word x [] h = refl
last_is-word x (c ∷ []) h = ground arith
last_is-word x (c ∷ d ∷ s) h = ground (arith, last_is-word x (d ∷ s))

pub without_last-append : (s : Bytes) (x : ℕ) → without_last (s ++ (x ∷ [])) ≡ s
without_last-append [] x = refl
without_last-append (c ∷ []) x = refl
without_last-append (c ∷ d ∷ s) x = ap (◌∷◌ c) (without_last-append (d ∷ s) x)
