-- ===== src/Compiler/ContractLaws.antt =====
-- src/contract_parser.zig reads back what the printer of declarations writes.
use mathlib.Core.List.{append-nil, append_assoc}
use sa_plugin_sla.Prelude.{
  ◌==◌, ℕ, ◌≡◌, refl, ap, ◌∙◌, Bool, true, false, not, ◌&&◌, &&-true, some, List, [], ◌∷◌, ◌++◌,
  map, arith,
}
use sa_plugin_sla.Compiler.Text.{
  Bytes, codes, bytes_eq, is_blank, is_line_blank, drop_while, is_empty, trim_end, trim,
  split_scalar,
}
use sa_plugin_sla.Compiler.Contracts.{
  Param, dots, marked_param, parse_param, parse_params, no_params,
}
use sa_plugin_sla.Compiler.ContractPrinter.{
  reserved, one_of, is_word_byte, IsWord, IsPlain, ArePlain, nil, cons, mark, print_param, pieces,
  more, join,
}
use sa_plugin_sla.Compiler.TextLaws.{
  every, no, is_not, every-append, every-implies, drop_while-word, trim-word, trim_end-word,
  is_empty-append, trim_end-append, split_scalar-append, split_scalar-word,
}

pub one_of-not :
    (x c : ℕ) (xs : Bytes) → one_of xs x ≡ true → one_of xs c ≡ false → (c == x) ≡ false
one_of-not x c [] hx hc = cc
one_of-not x c (y ∷ ys) hx hc = ground (arith, one_of-not x c ys)

-- A byte of a word is none of the reserved ones.
pub word_byte-not : (x c : ℕ) → one_of reserved x ≡ true → is_word_byte c ≡ true → is_not x c ≡ true
unfolding is_word_byte
word_byte-not x c hx hc = ap not (one_of-not x c reserved hx (ground arith))

pub word_byte-no_line_blank : (c : ℕ) → is_word_byte c ≡ true → no is_line_blank c ≡ true
word_byte-no_line_blank c h =
    ground (
      arith,
      word_byte-not b' ' c refl h,
      word_byte-not b'\t' c refl h,
      word_byte-not b'\r' c refl h,
    )

pub word_byte-no_blank : (c : ℕ) → is_word_byte c ≡ true → no is_blank c ≡ true
word_byte-no_blank c h = ground (arith, word_byte-no_line_blank c h)

pub word_not :
    (q : ℕ → Bool) {s : Bytes}
    → IsWord s
    → ((c : ℕ) → is_word_byte c ≡ true → q c ≡ true)
    → every q s ≡ true
word_not q {s} w f = every-implies is_word_byte q s f w.word

pub mark-every :
    (q : ℕ → Bool) (p : Param)
    → q b'&' ≡ true
    → q b'^' ≡ true
    → q b'*' ≡ true
    → every q (mark p) ≡ true
mark-every q p a b c = ground arith

-- The name with its mark has none of the bytes `q` stands for.
pub marked_every :
    (q : ℕ → Bool) {p : Param}
    → IsPlain p
    → ((c : ℕ) → is_word_byte c ≡ true → q c ≡ true)
    → every q (mark p) ≡ true
    → every q (mark p ++ p.name) ≡ true
marked_every q {p} h f m = every-append q (mark p) p.name m (word_not q h.name f)

marked-nonempty : {p : Param} → IsPlain p → is_empty (mark p ++ p.name) ≡ false
marked-nonempty {p} h = is_empty-append (mark p) p.name h.name.nonempty

name-unmarked :
    (name ty : Bytes)
    → every is_word_byte name ≡ true
    → marked_param name ty
      ≡ record { name = name; ty = ty; is_borrow = false; is_move = false; is_raw = false }
unfolding marked_param
name-unmarked [] ty h = refl
name-unmarked (c ∷ name) ty h =
    let w = (&&-true (is_word_byte c) _ h).0 in
    ground
      (arith, word_byte-not b'&' c refl w, word_byte-not b'^' c refl w, word_byte-not b'*' c refl w)

marked_param-mark : (p : Param) → IsPlain p → marked_param (mark p ++ p.name) p.ty ≡ p
unfolding marked_param
marked_param-mark p h = ground (arith, name-unmarked p.name p.ty h.name.word)

split_param :
    {p : Param}
    → IsPlain p
    → split_scalar b':' (print_param p) ≡ (mark p ++ p.name) ∷ (b' ' ∷ p.ty) ∷ []
split_param {p} h =
    split_scalar-append b':' (mark p ++ p.name) (b' ' ∷ p.ty) (
      marked_every (is_not b':') h (λ c. word_byte-not b':' c refl)
        (mark-every (is_not b':') p refl refl refl))
    ∙ ap (◌∷◌ (mark p ++ p.name)) (
        split_scalar-word b':' (b' ' ∷ p.ty)
          (word_not (is_not b':') h.ty (λ c. word_byte-not b':' c refl)))

trim_marked : {p : Param} → IsPlain p → trim is_blank (mark p ++ p.name) ≡ mark p ++ p.name
trim_marked {p} h =
    trim-word is_blank (mark p ++ p.name)
      (marked_every (no is_blank) h word_byte-no_blank (mark-every (no is_blank) p refl refl refl))

trim_type : {s : Bytes} → IsWord s → trim is_blank (b' ' ∷ s) ≡ s
unfolding trim drop_while
trim_type {s} w = trim-word is_blank s (word_not (no is_blank) w word_byte-no_blank)

parse_param-print : {p : Param} → IsPlain p → parse_param (print_param p) ≡ some p
unfolding parse_param
parse_param-print {p} h =
    rw (parse_param, split_param h, trim_marked h, trim_type h.ty) (ap some (marked_param-mark p h))

trim_param : {p : Param} → IsPlain p → trim is_blank (print_param p) ≡ print_param p
unfolding trim
trim_param {p} h =
    ap (trim_end is_blank) (
      drop_while-word is_blank (mark p ++ p.name) (b':' ∷ b' ' ∷ p.ty)
        (marked_every (no is_blank) h word_byte-no_blank
          (mark-every (no is_blank) p refl refl refl))
        (marked-nonempty h))
    ∙ trim_end-append is_blank (mark p ++ p.name) (b':' ∷ b' ' ∷ p.ty)
        (trim_end-append is_blank (b':' ∷ b' ' ∷ []) p.ty
          (trim_end-word is_blank p.ty (word_not (no is_blank) h.ty word_byte-no_blank))
          h.ty.nonempty)
        refl

not_dots :
    (s t : Bytes)
    → every (is_not b'.') s ≡ true
    → is_empty s ≡ false
    → bytes_eq (s ++ t) dots ≡ false
not_dots [] t h ne = cc
not_dots (c ∷ s) t h ne = ground arith

param-not_dots : {p : Param} → IsPlain p → bytes_eq (print_param p) dots ≡ false
param-not_dots {p} h =
    not_dots (mark p ++ p.name) _
      (marked_every (is_not b'.') h (λ c. word_byte-not b'.' c refl)
        (mark-every (is_not b'.') p refl refl refl))
      (marked-nonempty h)

-- What the loop over the parameters does with a printed one, behind a space or not.
step_param :
    {p : Param} (acc : List Param) (rest : List Bytes) (text : Bytes)
    → IsPlain p
    → trim is_blank text ≡ print_param p
    → parse_params acc false (text ∷ rest) ≡ parse_params (acc ++ (p ∷ [])) false rest
unfolding parse_params
step_param {p} acc rest text h e =
    let full = ap is_empty e ∙ is_empty-append (mark p ++ p.name) (b':' ∷ b' ' ∷ p.ty) refl in
    let plain = ap (λ t. bytes_eq t dots) e ∙ param-not_dots h in
    rw (parse_params, full, plain, ap parse_param e ∙ parse_param-print h) refl

parse_params-spaced :
    {ps : List Param} (acc : List Param) (variadic : Bool)
    → ArePlain ps
    → (variadic && no_params (acc ++ ps)) ≡ false
    → parse_params acc false (map (◌∷◌ b' ') (pieces ps variadic)) ≡ some (acc ++ ps, variadic)
unfolding parse_params
parse_params-spaced acc true nil h = rw append-nil (rw (rw append-nil at h) refl)
parse_params-spaced acc false nil h = rw append-nil refl
parse_params-spaced acc variadic (cons {p} {ps} hp hps) h =
    step_param acc (map (◌∷◌ b' ') (pieces ps variadic)) (b' ' ∷ print_param p) hp (trim_param hp)
    ∙ parse_params-spaced (acc ++ (p ∷ [])) variadic hps (rw append_assoc h)
    ∙ rw append_assoc refl

not_comma : {p : Param} → IsPlain p → every (is_not b',') (print_param p) ≡ true
not_comma {p} h =
    every-append (is_not b',') (mark p ++ p.name) (b':' ∷ b' ' ∷ p.ty)
      (marked_every (is_not b',') h (λ c. word_byte-not b',' c refl)
        (mark-every (is_not b',') p refl refl refl))
      (word_not (is_not b',') h.ty (λ c. word_byte-not b',' c refl))

split_more :
    {ps : List Param} (text : Bytes) (variadic : Bool)
    → ArePlain ps
    → every (is_not b',') text ≡ true
    → split_scalar b',' (text ++ more (pieces ps variadic))
      ≡ text ∷ map (◌∷◌ b' ') (pieces ps variadic)
split_more text true nil h =
    split_scalar-append b',' text (codes " ...") h
    ∙ ap (◌∷◌ text) (split_scalar-word b',' (codes " ...") refl)
split_more text false nil h = rw append-nil (split_scalar-word b',' text h)
split_more text variadic (cons {p} {ps} hp hps) h =
    split_scalar-append b',' text _ h
    ∙ ap (◌∷◌ text) (split_more (b' ' ∷ print_param p) variadic hps (not_comma hp))

-- The loop over the parameters reads back what `join` printed.
pub parse_params-join :
    {ps : List Param} (variadic : Bool)
    → ArePlain ps
    → (variadic && no_params ps) ≡ false
    → parse_params [] false (split_scalar b',' (join (pieces ps variadic))) ≡ some (ps, variadic)
unfolding parse_params split_scalar
parse_params-join true nil h = cc
parse_params-join false nil h = refl
parse_params-join variadic (cons {p} {ps} hp hps) h =
    ap (parse_params [] false) (split_more (print_param p) variadic hps (not_comma hp))
    ∙ step_param [] (map (◌∷◌ b' ') (pieces ps variadic)) (print_param p) hp (trim_param hp)
    ∙ parse_params-spaced (p ∷ []) variadic hps h
