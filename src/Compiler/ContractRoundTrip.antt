-- ===== src/Compiler/ContractRoundTrip.antt =====
-- src/contract_parser.zig reads back the declarations that the printer writes.
use mathlib.Core.List.{append-nil, append_assoc}
use sa_plugin_sla.Prelude.{◌≡◌, refl, ap, ◌∙◌, true, false, ◌||◌, some, List, [], ◌∷◌, ◌++◌}
use sa_plugin_sla.Compiler.Text.{
  Bytes, codes, is_line_blank, drop_while, is_empty, trim_end, trim, split_scalar, starts_with,
}
use sa_plugin_sla.Compiler.Contracts.{
  ExternalFunction, extern_word, parse_extern_line, parse_sai_lines, parse_sai,
}
use sa_plugin_sla.Compiler.ContractPrinter.{
  IsWord, nil, cons, IsPrintable, ArePrintable, pieces, join, bang, print_return, print_behind_name,
  print_function, print_sai,
}
use sa_plugin_sla.Compiler.ContractLaws.{word_not, word_byte-not, word_byte-no_line_blank}
use sa_plugin_sla.Compiler.TextLaws.{
  every, is_not, every-append, trim_end-word, is_empty-append, is_empty-append_left,
  trim_end-append, split_scalar-append,
}
use sa_plugin_sla.Compiler.ContractLine.{
  IsHarmless, join-every, return_every, parse_extern_line-print,
}

no_newline-IsHarmless : IsHarmless (is_not b'\n')
no_newline-IsHarmless = record {
  words = λ c. word_byte-not b'\n' c refl;
  comma = refl;
  space = refl;
  colon = refl;
  dot = refl;
  borrow = refl;
  move = refl;
  raw = refl;
}

function-is_one_line :
    (f : ExternalFunction) → IsPrintable f → every (is_not b'\n') (print_function f) ≡ true
function-is_one_line f h =
    every-append (is_not b'\n') f.name (print_behind_name f)
      (word_not (is_not b'\n') h.name (λ c. word_byte-not b'\n' c refl))
      (every-append (is_not b'\n') (join (pieces f.params f.is_variadic)) (b')' ∷ print_return f)
        (join-every f.is_variadic no_newline-IsHarmless h.params)
        (return_every f.return_fallible h.ret_ty (λ c. word_byte-not b'\n' c refl) refl))

-- A text that ends with no blank.
unfoldable pub Ends : Bytes → Type 0
Ends t = (trim_end is_line_blank t ≡ t) × (is_empty t ≡ false)

pub Ends-append : (s t : Bytes) → Ends t → Ends (s ++ t)
unfolding Ends
Ends-append s t (e, ne) = (trim_end-append is_line_blank s t e ne, is_empty-append s t ne)

is_empty_word : {s : Bytes} (t : Bytes) → IsWord s → is_empty (s ++ t) ≡ false
is_empty_word {s} t w = is_empty-append_left s t w.nonempty

function-Ends : (f : ExternalFunction) → IsPrintable f → Ends (print_function f)
unfolding Ends
function-Ends f h = Ends-append (codes "@extern ") (f.name ++ print_behind_name f) (
    Ends-append f.name (print_behind_name f) (
      Ends-append (b'(' ∷ join (pieces f.params f.is_variadic)) (b')' ∷ print_return f) (
        Ends-append (codes ") -> ") (f.ret_ty ++ bang f.return_fallible) (
          trim_end-word is_line_blank (f.ret_ty ++ bang f.return_fallible)
              (return_every f.return_fallible h.ret_ty word_byte-no_line_blank refl),
          is_empty_word (bang f.return_fallible) h.ret_ty,
        ))))

trim-function :
    (f : ExternalFunction)
    → IsPrintable f
    → trim is_line_blank (print_function f) ≡ print_function f
unfolding trim drop_while Ends
trim-function f h = (function-Ends f h).0

step_extern :
    (found : List ExternalFunction) (f : ExternalFunction) (raw_line : Bytes) (lines : List Bytes)
    → (is_empty (trim is_line_blank raw_line)
        || starts_with (trim is_line_blank raw_line) (codes "//"))
      ≡ false
    → starts_with (trim is_line_blank raw_line) extern_word ≡ true
    → parse_extern_line (trim is_line_blank raw_line) ≡ some f
    → parse_sai_lines found (raw_line ∷ lines) ≡ parse_sai_lines (found ++ (f ∷ [])) lines
unfolding parse_sai_lines
step_extern found f raw_line lines kept extern read = rw (parse_sai_lines, kept, extern, read) refl

step_function :
    (found : List ExternalFunction) (f : ExternalFunction) (lines : List Bytes)
    → IsPrintable f
    → parse_sai_lines found (print_function f ∷ lines) ≡ parse_sai_lines (found ++ (f ∷ [])) lines
step_function found f lines h =
    let e = trim-function f h in
    step_extern found f (print_function f) lines
      (ap (λ t. is_empty t || starts_with t (codes "//")) e) (ap (λ t. starts_with t extern_word) e)
      (ap parse_extern_line e ∙ parse_extern_line-print f h)

parse_sai_lines-print :
    {fs : List ExternalFunction} (found : List ExternalFunction)
    → ArePrintable fs
    → parse_sai_lines found (split_scalar b'\n' (print_sai fs)) ≡ some (found ++ fs)
unfolding parse_sai_lines split_scalar trim drop_while
parse_sai_lines-print found nil = rw append-nil refl
parse_sai_lines-print found (cons {f} {fs} h hs) =
    ap (parse_sai_lines found)
      (split_scalar-append b'\n' (print_function f) (print_sai fs) (function-is_one_line f h))
    ∙ step_function found f (split_scalar b'\n' (print_sai fs)) h
    ∙ parse_sai_lines-print (found ++ (f ∷ [])) hs
    ∙ rw append_assoc refl

-- Functions whose names and types are words, whose parameters have at most one mark, and which
-- are variadic only behind a fixed parameter, are read back from their printed declarations:
-- their names, their parameters with their marks, their types, whether they may fail and whether
-- they are variadic.
pub parse_sai-print_sai :
    {fs : List ExternalFunction} → ArePrintable fs → parse_sai (print_sai fs) ≡ some fs
unfolding parse_sai
parse_sai-print_sai h = parse_sai_lines-print [] h
