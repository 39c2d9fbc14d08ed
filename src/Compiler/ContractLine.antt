-- ===== src/Compiler/ContractLine.antt =====
-- src/contract_parser.zig reads back the line that the printer writes for a declaration.
use mathlib.Core.List.{append-nil}
use sa_plugin_sla.Prelude.{
  ◌==◌, ℕ, ◌≡◌, refl, ap, ◌∙◌, Bool, true, false, not, ◌&&◌, some, List, [], ◌∷◌, ◌++◌, arith,
}
use sa_plugin_sla.Compiler.Text.{Bytes, is_blank, drop_while, take_while, trim, split_scalar}
use sa_plugin_sla.Compiler.Contracts.{
  Param, ExternalFunction, parse_params, close_paren, is_name_byte, fallible_type, parse_return,
  extern_from_name, parse_extern_line,
}
use sa_plugin_sla.Compiler.ContractPrinter.{
  is_word_byte, IsWord, IsPlain, ArePlain, nil, cons, IsPrintable, mark, print_param, pieces, more,
  join, bang, print_return, print_behind_name, print_function,
}
use sa_plugin_sla.Compiler.ContractLaws.{
  word_not, word_byte-not, word_byte-no_blank, mark-every, marked_every, parse_params-join,
}
use sa_plugin_sla.Compiler.TextLaws.{
  every, no, is_not, every-append, take_while-append, drop_while-append, drop_while-word,
  drop_while-itself, trim-word, trim_end-word, last_is-append, last_is-word, without_last-append,
}

abbrev no_paren : ℕ → Bool
no_paren c = not (c == b'(') && not (c == b')')

close_paren-append :
    (s rest : Bytes) → every no_paren s ≡ true → close_paren 1 (s ++ (b')' ∷ rest)) ≡ some (s, rest)
unfolding close_paren
close_paren-append [] rest h = refl
close_paren-append (c ∷ s) rest h = ground (arith, close_paren-append s rest)

-- A test that the bytes of words pass, and the bytes that the printer puts between them.
pub record IsHarmless (q : ℕ → Bool) : Type 0 where
  pub words : (c : ℕ) → is_word_byte c ≡ true → q c ≡ true
  pub comma : q b',' ≡ true
  pub space : q b' ' ≡ true
  pub colon : q b':' ≡ true
  pub dot : q b'.' ≡ true
  pub borrow : q b'&' ≡ true
  pub move : q b'^' ≡ true
  pub raw : q b'*' ≡ true

param_every : {q : ℕ → Bool} {p : Param} → IsHarmless q → IsPlain p → every q (print_param p) ≡ true
param_every {q} {p} m h =
    every-append q (mark p ++ p.name) (b':' ∷ b' ' ∷ p.ty)
      (marked_every q h m.words (mark-every q p m.borrow m.move m.raw))
      (ground (arith, m.colon, m.space, word_not q h.ty m.words))

more-every :
    {q : ℕ → Bool} {ps : List Param} (variadic : Bool)
    → IsHarmless q
    → ArePlain ps
    → every q (more (pieces ps variadic)) ≡ true
more-every true m nil = ground (arith, m.comma, m.space, m.dot)
more-every false m nil = refl
more-every {q} variadic m (cons {p} {ps} hp hps) = ground (
  arith,
  m.comma,
  m.space,
  every-append q (print_param p) (more (pieces ps variadic)) (param_every m hp)
      (more-every variadic m hps),
)

pub join-every :
    {q : ℕ → Bool} {ps : List Param} (variadic : Bool)
    → IsHarmless q
    → ArePlain ps
    → every q (join (pieces ps variadic)) ≡ true
join-every true m nil = ground (arith, m.dot)
join-every false m nil = refl
join-every {q} variadic m (cons {p} {ps} hp hps) =
    every-append q (print_param p) (more (pieces ps variadic)) (param_every m hp)
      (more-every variadic m hps)

fallible_type-bang :
    {s : Bytes} (fallible : Bool) → IsWord s → fallible_type (s ++ bang fallible) ≡ (s, fallible)
unfolding fallible_type
fallible_type-bang {s} true w =
    rw (fallible_type, last_is-append b'!' s, without_last-append s b'!')
      (ap (λ t. (t, true)) (trim_end-word is_blank s (word_not (no is_blank) w word_byte-no_blank)))
fallible_type-bang {s} false w =
    rw
      (
        append-nil,
        fallible_type,
        last_is-word b'!' s (word_not (is_not b'!') w (λ c. word_byte-not b'!' c refl)),
      )
      refl

pub return_every :
    {q : ℕ → Bool} {s : Bytes} (fallible : Bool)
    → IsWord s
    → ((c : ℕ) → is_word_byte c ≡ true → q c ≡ true)
    → q b'!' ≡ true
    → every q (s ++ bang fallible) ≡ true
return_every {q} {s} true w f h = every-append q s (b'!' ∷ []) (word_not q w f) (ground (arith, h))
return_every {q} {s} false w f h = rw append-nil (word_not q w f)

parse_return-print :
    (f : ExternalFunction)
    → IsPrintable f
    → parse_return (print_return f) ≡ (f.ret_ty, f.return_fallible)
unfolding parse_return drop_while
parse_return-print f h =
    let ty = f.ret_ty ++ bang f.return_fallible in
    let clear = return_every f.return_fallible h.ret_ty word_byte-no_blank refl in
    ap (λ t. fallible_type (trim is_blank t)) (drop_while-itself is_blank ty clear)
    ∙ ap fallible_type (trim-word is_blank ty clear)
    ∙ fallible_type-bang f.return_fallible h.ret_ty

word_byte-name : (c : ℕ) → is_word_byte c ≡ true → is_name_byte c ≡ true
word_byte-name c h = ground (arith, word_byte-not b'(' c refl h, word_byte-no_blank c h)

word_byte-no_paren : (c : ℕ) → is_word_byte c ≡ true → no_paren c ≡ true
word_byte-no_paren c h = ground (arith, word_byte-not b'(' c refl h, word_byte-not b')' c refl h)

no_paren-IsHarmless : IsHarmless no_paren
no_paren-IsHarmless = record {
  words = word_byte-no_paren;
  comma = refl;
  space = refl;
  colon = refl;
  dot = refl;
  borrow = refl;
  move = refl;
  raw = refl;
}

-- The declaration is put together from what its parts are read as.
extern_from_name-parts :
    (f : ExternalFunction) (after params_str behind : Bytes)
    → take_while is_name_byte after ≡ f.name
    → drop_while is_name_byte after ≡ b'(' ∷ (params_str ++ (b')' ∷ behind))
    → close_paren 1 (params_str ++ (b')' ∷ behind)) ≡ some (params_str, behind)
    → parse_return behind ≡ (f.ret_ty, f.return_fallible)
    → parse_params [] false (split_scalar b',' params_str) ≡ some (f.params, f.is_variadic)
    → extern_from_name after ≡ some f
unfolding extern_from_name drop_while
extern_from_name-parts f after params_str behind name open_at closed ret params =
    rw (extern_from_name, open_at, closed, ret, params, name) refl

extern_from_name-print :
    (f : ExternalFunction)
    → IsPrintable f
    → extern_from_name (f.name ++ print_behind_name f) ≡ some f
extern_from_name-print f h =
    let params = join (pieces f.params f.is_variadic) in
    let behind = print_return f in
    let name = word_not is_name_byte h.name word_byte-name in
    extern_from_name-parts f _ params behind
      (take_while-append is_name_byte f.name b'(' (params ++ (b')' ∷ behind)) name refl)
      (drop_while-append is_name_byte f.name b'(' (params ++ (b')' ∷ behind)) name refl)
      (close_paren-append params behind (join-every f.is_variadic no_paren-IsHarmless h.params))
      (parse_return-print f h) (parse_params-join f.is_variadic h.params h.fixed)

-- The line of a declaration is read back.
pub parse_extern_line-print :
    (f : ExternalFunction) → IsPrintable f → parse_extern_line (print_function f) ≡ some f
unfolding parse_extern_line drop_while
parse_extern_line-print f h =
    let clear = word_not (no is_blank) h.name word_byte-no_blank in
    ap extern_from_name
      (drop_while-word is_blank f.name (print_behind_name f) clear h.name.nonempty)
    ∙ extern_from_name-print f h
