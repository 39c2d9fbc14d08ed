-- ===== src/Compiler/Lexing/Scanned.antt =====
-- src/lexer.zig: the tokens that `scan` tells apart stay in the buffer, invalid ones aside, and
-- are no tokens of braces or templates.
use sa_plugin_sla.Prelude.{
  ltb, ◌==◌, if◌then◌else◌, ℕ, suc, ◌+◌, ◌≤◌, ◌≡◌, refl, ◌⊎◌, inl, inr, length, Bool, Bool-cases,
  true, false, ◌&&◌, ◌||◌, &&-true, List, [], ◌∷◌, arith,
}
use sa_plugin_sla.Compiler.Text.{Bytes, skip, take_while, bytes_eq}
use sa_plugin_sla.Compiler.Lexing.Tokens
use sa_plugin_sla.Compiler.Lexing.Tokens.{Tag, invalid, keywords, find_keyword, check_keyword}
use sa_plugin_sla.Compiler.Lexing.Scan.{
  is_digit, is_alphabetic, is_alphanumeric, is_word, head_is, count_while, string_len, hex_len,
  number_len, scan_hex, scan_decimal, scan_number,
}
use sa_plugin_sla.Compiler.Lexing.Bounds.{
  length-skip, count_while-bound, string_len-bound, hex_len-bound, number_len-bound,
}
use sa_plugin_sla.Compiler.Lexing.Symbols.{
  follows, scan_question, scan_less, either, scan_string, scan_word, scan,
}

-- The tags that neither change the modes of the lexer nor end the input.
abbrev pub is_plain : Tag → Bool
is_plain Tokens.eof = false
is_plain Tokens.l_brace = false
is_plain Tokens.r_brace = false
is_plain Tokens.template_start = false
is_plain Tokens.template_interp = false
is_plain Tokens.template_end = false
is_plain tag = true

-- A plain tag with a length that stays in the text, or is one too many for an invalid token.
pub record IsScanned (cs : Bytes) (r : Tag × ℕ) : Type 0 where
  pub plain : is_plain r.0 ≡ true
  pub near : r.1 ≤ suc (length cs)
  pub inside : (r.0 ≡ invalid) ⊎ (r.1 ≤ length cs)

choose :
    {cs : Bytes} (b : Bool) {r s : Tag × ℕ}
    → IsScanned cs r
    → IsScanned cs s
    → IsScanned cs (if b then r else s)
choose true h k = h
choose false h k = k

short : {cs : Bytes} (tag : Tag) → is_plain tag ≡ true → IsScanned cs (tag, 0)
short tag h = record { plain = h; near = omega arith; inside = inr (omega arith) }

fits :
    {cs : Bytes} (tag : Tag) (n : ℕ) → is_plain tag ≡ true → n ≤ length cs → IsScanned cs (tag, n)
fits tag n h le = record { plain = h; near = omega arith; inside = inr le }

-- One byte more.
one_more :
    (cs : Bytes) (p : ℕ → Bool) (tag : Tag) {r : Tag × ℕ}
    → is_plain tag ≡ true
    → IsScanned cs r
    → IsScanned cs (if head_is p cs then (tag, 1) else r)
one_more [] p tag h k = k
one_more (c ∷ cs) p tag h k = choose (p c) (fits tag 1 h (omega arith)) k

follows-IsScanned :
    (x : ℕ) (longer shorter : Tag) (cs : Bytes)
    → is_plain longer ≡ true
    → is_plain shorter ≡ true
    → IsScanned cs (follows x longer shorter cs)
follows-IsScanned x longer shorter cs h k = one_more cs (λ d. d == x) longer h (short shorter k)

either-IsScanned :
    (x : ℕ) (first : Tag) (y : ℕ) (second neither : Tag) (cs : Bytes)
    → is_plain first ≡ true
    → is_plain second ≡ true
    → is_plain neither ≡ true
    → IsScanned cs (either x first y second neither cs)
either-IsScanned x first y second neither cs h k m =
    one_more cs (λ d. d == x) first h (follows-IsScanned y second neither cs k m)

question-IsScanned : (cs : Bytes) → IsScanned cs (scan_question cs)
question-IsScanned [] = short Tokens.question_mark refl
question-IsScanned (c ∷ []) =
    choose (c == b'?') (fits Tokens.question_question 1 refl (omega arith)) (
      choose (c == b'.' && true) (fits Tokens.question_dot 1 refl (omega arith))
        (short Tokens.question_mark refl))
question-IsScanned (c ∷ d ∷ cs) =
    choose (c == b'?')
      (choose _ (fits Tokens.question_question_equal 2 refl (omega arith))
        (fits Tokens.question_question 1 refl (omega arith)))
      (choose _ (fits Tokens.question_dot 1 refl (omega arith)) (short Tokens.question_mark refl))

less-IsScanned : (cs : Bytes) → IsScanned cs (scan_less cs)
less-IsScanned [] = short Tokens.less_than refl
less-IsScanned (c ∷ []) = ground arith
less-IsScanned (c ∷ d ∷ cs) = choose (c == b'<') (fits Tokens.less_less 1 refl (omega arith)) (
    choose _ (fits Tokens.spaceship 2 refl (omega arith))
      (follows-IsScanned b'=' Tokens.less_equal Tokens.less_than (c ∷ d ∷ cs) refl refl))

string-IsScanned : (cs : Bytes) → IsScanned cs (scan_string cs)
unfolding scan_string
string-IsScanned cs = elim (Bool-cases (ltb (string_len cs) (length cs))) [
  | inl closed ↦ rw closed (fits Tokens.string_literal (string_len cs + 1) refl (ground arith))
  | inr open_end ↦
      rw open_end (record { plain = refl; near = string_len-bound cs; inside = inl refl })
]

abbrev all_plain : List (Bytes × Tag) → Bool
all_plain [] = true
all_plain ((w, tag) ∷ more) = is_plain tag && all_plain more

plain_if :
    (b : Bool) (t u : Tag)
    → is_plain t ≡ true
    → is_plain u ≡ true
    → is_plain (if b then t else u) ≡ true
plain_if true t u h k = h
plain_if false t u h k = k

find_keyword-plain :
    (table : List (Bytes × Tag)) (str : Bytes)
    → all_plain table ≡ true
    → is_plain (find_keyword table str) ≡ true
find_keyword-plain [] str h = refl
find_keyword-plain ((w, tag) ∷ more) str h =
    let (this, others) = &&-true (is_plain tag) (all_plain more) h in
    plain_if (bytes_eq str w) tag _ this (find_keyword-plain more str others)

word-IsScanned : (c : ℕ) (cs : Bytes) → IsScanned cs (scan_word c cs)
unfolding scan_word check_keyword
word-IsScanned c cs =
    fits _ _ (find_keyword-plain keywords (c ∷ take_while is_word cs) refl)
      (count_while-bound is_word cs)

further-bound :
    (p : ℕ → Bool) (n : ℕ) (s : Bytes) → n ≤ length s → n + count_while p (skip n s) ≤ length s
further-bound p n s h = omega (arith, count_while-bound p (skip n s), length-skip n s)

hex-IsScanned : (c : ℕ) (cs : Bytes) → IsScanned (c ∷ cs) (scan_hex (c ∷ cs))
unfolding scan_hex
hex-IsScanned c cs =
    let s = c ∷ cs in
    let hex = 1 + hex_len cs in
    let letters = hex + count_while is_alphabetic (skip hex s) in
    let hex_le : hex ≤ length s = omega (arith, hex_len-bound cs) in
    let letters_le = further-bound is_alphabetic hex s hex_le in
    fits Tokens.int_literal _ refl (further-bound is_digit letters s letters_le)

decimal-IsScanned : (cs : Bytes) → IsScanned cs (scan_decimal cs)
unfolding scan_decimal
decimal-IsScanned cs =
    let len_le = number_len-bound false cs in
    choose _ (fits Tokens.float_literal _ refl len_le) (
      fits Tokens.int_literal _ refl
        (further-bound is_alphanumeric (number_len false cs).0 cs len_le))

and_false : (b : Bool) → (b && false) ≡ false
and_false b = ground arith

number-IsScanned : (c : ℕ) (cs : Bytes) → IsScanned cs (scan_number c cs)
unfolding scan_number
number-IsScanned c [] = rw (and_false (c == b'0')) (decimal-IsScanned [])
number-IsScanned c (d ∷ cs) = choose _ (hex-IsScanned d cs) (decimal-IsScanned (d ∷ cs))

-- What `scan` answers is plain and stays in the text, if it is not an invalid token.
pub scan-IsScanned : (c : ℕ) (cs : Bytes) → IsScanned cs (scan c cs)
unfolding scan
scan-IsScanned c cs = choose (c == b'@') (short Tokens.at refl) (
    choose (c == b'?') (question-IsScanned cs) (
      choose (c == b'+') (follows-IsScanned b'=' _ _ cs refl refl) (
        choose (c == b'-') (either-IsScanned b'>' _ b'=' _ _ cs refl refl refl) (
          choose (c == b'*') (follows-IsScanned b'=' _ _ cs refl refl) (
            choose (c == b'/') (follows-IsScanned b'=' _ _ cs refl refl) (
              choose (c == b'%') (follows-IsScanned b'=' _ _ cs refl refl) (
                choose (c == b'=') (either-IsScanned b'>' _ b'=' _ _ cs refl refl refl) (
                  choose (c == b'&') (either-IsScanned b'=' _ b'&' _ _ cs refl refl refl) (
                    choose (c == b'^') (short Tokens.caret refl) (
                      choose (c == b'|') (either-IsScanned b'|' _ b'=' _ _ cs refl refl refl) (
                        choose (c == b'!') (follows-IsScanned b'=' _ _ cs refl refl) (
                          choose (c == b'.') (follows-IsScanned b'.' _ _ cs refl refl) (
                            choose (c == b',') (short Tokens.comma refl) (
                              choose (c == b';') (short Tokens.semicolon refl) (
                                choose (c == b':') (follows-IsScanned b':' _ _ cs refl refl) (
                                  choose (c == b'(') (short Tokens.l_paren refl) (
                                    choose (c == b')') (short Tokens.r_paren refl) (
                                      choose (c == b'[') (short Tokens.l_bracket refl) (
                                        choose (c == b']') (short Tokens.r_bracket refl) (
                                          choose (c == b'<') (less-IsScanned cs) (
                                            choose (c == b'>')
                                              (either-IsScanned b'>' _ b'=' _ _ cs refl refl refl)
                                              (choose (c == b'"') (string-IsScanned cs) (
                                                choose (is_alphabetic c || c == b'_')
                                                  (word-IsScanned c cs)
                                                  (choose (is_digit c) (number-IsScanned c cs)
                                                    (short invalid refl)))))))))))))))))))))))))
