-- ===== src/Compiler/ConstantRoundTrip.antt =====
-- src/contract_parser.zig reads back the constants of `.sal` files, in the form that these files
-- have.
use mathlib.Core.List.{append-nil, append_assoc}
use sa_plugin_sla.Prelude.{
  ℕ, ◌≡◌, refl, ap, ◌∙◌, Bool, true, false, not, ◌||◌, some, List, [], ◌∷◌, ◌++◌, map, arith,
}
use sa_plugin_sla.Compiler.Text.{
  Bytes, codes, is_blank, is_line_blank, drop_while, take_while, is_empty, trim, split_scalar,
  starts_with, skip, parse_i64,
}
use sa_plugin_sla.Compiler.Defines.{
  LayoutDefine, def_word, is_def_name_byte, is_not_equals, without_plus, or_zero, parse_def_line,
  parse_sal_lines, parse_sal,
}
use sa_plugin_sla.Compiler.TextLaws.{
  every, no, is_not, every-append, every-implies, take_while-append, drop_while-append,
  drop_while-word, trim-word, trim_end-word, is_empty-append, split_scalar-append,
}
use sa_plugin_sla.Compiler.ContractPrinter.{one_of}
use sa_plugin_sla.Compiler.ContractLaws.{one_of-not}
use sa_plugin_sla.Compiler.ContractRoundTrip.{Ends, Ends-append}
use sa_plugin_sla.Compiler.ConstantValue.{parse_i64-decimal}
use sa_plugin_sla.Companions.Decimal.{decimal, is_digit, decimal-digits, is_empty-decimal}
use sa_plugin_sla.Compiler.Constants.{
  Sign, unsigned, plus, minus, Constant, reserved_in_names, is_name_char, IsConstant, AreConstants,
  nil, cons, print_sign, print_value, print_define, print_sal, value_of, define,
}

without_plus-digits : (s : Bytes) → every is_digit s ≡ true → without_plus s ≡ s
without_plus-digits [] h = refl
without_plus-digits (c ∷ s) h = ground arith

or_zero-value :
    (sign : Sign) (n : ℕ)
    → or_zero (parse_i64 (without_plus (print_sign sign ++ decimal n))) ≡ value_of sign n
or_zero-value unsigned n =
    ap (λ s. or_zero (parse_i64 s)) (without_plus-digits (decimal n) (decimal-digits n))
    ∙ ap or_zero ((parse_i64-decimal n).0)
    ∙ ground arith
or_zero-value plus n = ap or_zero ((parse_i64-decimal n).0) ∙ ground arith
or_zero-value minus n = ap or_zero ((parse_i64-decimal n).1) ∙ ground arith

value_every :
    (q : ℕ → Bool) (c : Constant)
    → ((d : ℕ) → is_digit d ≡ true → q d ≡ true)
    → q b'+' ≡ true
    → q b'-' ≡ true
    → every q (print_value c) ≡ true
value_every q c f p m =
    every-append q (print_sign c.sign) (decimal c.magnitude) (ground arith)
      (every-implies is_digit q (decimal c.magnitude) f (decimal-digits c.magnitude))

name_every :
    (q : ℕ → Bool) {c : Constant}
    → IsConstant c
    → ((d : ℕ) → is_name_char d ≡ true → q d ≡ true)
    → every q c.name ≡ true
name_every q {c} h f = every-implies is_name_char q c.name f h.name

name_char-not :
    (x c : ℕ) → one_of reserved_in_names x ≡ true → is_name_char c ≡ true → is_not x c ≡ true
unfolding is_name_char
name_char-not x c hx hc = ap not (one_of-not x c reserved_in_names hx (ground arith))

define_parts :
    (line behind : Bytes) (d : LayoutDefine)
    → drop_while is_not_equals (drop_while is_def_name_byte (drop_while is_blank (skip 4 line)))
      ≡ b'=' ∷ behind
    → take_while is_def_name_byte (drop_while is_blank (skip 4 line)) ≡ d.name
    → trim is_blank behind ≡ d.val_str
    → or_zero (parse_i64 (without_plus d.val_str)) ≡ d.val_int
    → parse_def_line line ≡ some d
unfolding parse_def_line
define_parts line behind d equals name value read =
    rw (parse_def_line, equals, value, name, read) refl

name_char-no_blank : (c : ℕ) → is_name_char c ≡ true → no is_blank c ≡ true
name_char-no_blank c h = ground (arith, name_char-not b' ' c refl h, name_char-not b'\t' c refl h)

name_char-def_name : (c : ℕ) → is_name_char c ≡ true → is_def_name_byte c ≡ true
name_char-def_name c h = ground (arith, name_char-no_blank c h, name_char-not b'=' c refl h)

-- The line of a constant is read back.
parse_def_line-print :
    (c : Constant) → IsConstant c → parse_def_line (print_define c) ≡ some (define c)
unfolding drop_while trim
parse_def_line-print c h =
    let behind = b'=' ∷ b' ' ∷ print_value c in
    let named = name_every is_def_name_byte h name_char-def_name in
    let start =
      drop_while-word is_blank c.name (b' ' ∷ behind)
        (name_every (no is_blank) h name_char-no_blank) h.nonempty in
    define_parts (print_define c) (b' ' ∷ print_value c) (define c)
      (ap (λ s. drop_while is_not_equals (drop_while is_def_name_byte s)) start
        ∙ ap (drop_while is_not_equals)
            (drop_while-append is_def_name_byte c.name b' ' behind named refl))
      (ap (take_while is_def_name_byte) start
        ∙ take_while-append is_def_name_byte c.name b' ' behind named refl)
      (trim-word is_blank (print_value c)
        (value_every (no is_blank) c (λ d e. ground arith) refl refl))
      (or_zero-value c.sign c.magnitude)

define-is_one_line : (c : Constant) → IsConstant c → every (is_not b'\n') (print_define c) ≡ true
define-is_one_line c h =
    every-append (is_not b'\n') c.name (codes " = " ++ print_value c)
      (name_every (is_not b'\n') h (λ d. name_char-not b'\n' d refl))
      (value_every (is_not b'\n') c (λ d e. ground arith) refl refl)

value-Ends : (c : Constant) → Ends (print_value c)
unfolding Ends
value-Ends c = (
  trim_end-word is_line_blank (print_value c)
      (value_every (no is_line_blank) c (λ d e. ground arith) refl refl),
  is_empty-append (print_sign c.sign) (decimal c.magnitude) (is_empty-decimal c.magnitude),
)

trim-define : (c : Constant) → trim is_line_blank (print_define c) ≡ print_define c
unfolding trim drop_while Ends
trim-define c =
    (Ends-append (codes "#def ") (c.name ++ (codes " = " ++ print_value c)) (
      Ends-append c.name (codes " = " ++ print_value c)
        (Ends-append (codes " = ") (print_value c) (value-Ends c)))).0

step_def :
    (found : List LayoutDefine) (d : LayoutDefine) (raw_line : Bytes) (lines : List Bytes)
    → (is_empty (trim is_line_blank raw_line)
        || starts_with (trim is_line_blank raw_line) (codes "//"))
      ≡ false
    → starts_with (trim is_line_blank raw_line) def_word ≡ true
    → parse_def_line (trim is_line_blank raw_line) ≡ some d
    → parse_sal_lines found (raw_line ∷ lines) ≡ parse_sal_lines (found ++ (d ∷ [])) lines
unfolding parse_sal_lines
step_def found d raw_line lines kept def read = rw (parse_sal_lines, kept, def, read) refl

step_define :
    (found : List LayoutDefine) (c : Constant) (lines : List Bytes)
    → IsConstant c
    → parse_sal_lines found (print_define c ∷ lines)
      ≡ parse_sal_lines (found ++ (define c ∷ [])) lines
step_define found c lines h =
    let e = trim-define c in
    step_def found (define c) (print_define c) lines
      (ap (λ t. is_empty t || starts_with t (codes "//")) e) (ap (λ t. starts_with t def_word) e)
      (ap parse_def_line e ∙ parse_def_line-print c h)

parse_sal_lines-print :
    {cs : List Constant} (found : List LayoutDefine)
    → AreConstants cs
    → parse_sal_lines found (split_scalar b'\n' (print_sal cs)) ≡ some (found ++ map define cs)
unfolding parse_sal_lines split_scalar trim drop_while
parse_sal_lines-print found nil = rw append-nil refl
parse_sal_lines-print found (cons {c} {cs} h hs) =
    ap (parse_sal_lines found)
      (split_scalar-append b'\n' (print_define c) (print_sal cs) (define-is_one_line c h))
    ∙ step_define found c (split_scalar b'\n' (print_sal cs)) h
    ∙ parse_sal_lines-print (found ++ (define c ∷ [])) hs
    ∙ rw append_assoc refl

-- Constants with names that have no blank, newline or `=`, and with a value in decimal behind a
-- plus or a minus sign or none, are read back: the name, the text of the value, and the value,
-- which is 0 in place of every number that is no `i64`.
pub parse_sal-print_sal :
    {cs : List Constant} → AreConstants cs → parse_sal (print_sal cs) ≡ some (map define cs)
unfolding parse_sal
parse_sal-print_sal h = parse_sal_lines-print [] h
