-- ===== src/Compiler/Lexing/Scan.antt =====
-- src/lexer.zig: how far a token reaches. Each function gets the bytes from the current place on,
-- and says by how many the loop there moves `index`.
use sa_plugin_sla.Prelude.{
  leb, ◌==◌, if◌then◌else◌, ℕ, ◌+◌, Bool, true, false, not, ◌&&◌, ◌||◌, [], ◌∷◌,
}
use sa_plugin_sla.Compiler.Text.{Bytes, skip}
use sa_plugin_sla.Compiler.Lexing.Tokens.{Tag, int_literal, float_literal}

abbrev pub is_digit : ℕ → Bool
is_digit c = leb b'0' c && leb c b'9'

abbrev pub is_alphabetic : ℕ → Bool
is_alphabetic c = leb b'a' c && leb c b'z' || leb b'A' c && leb c b'Z'

abbrev pub is_alphanumeric : ℕ → Bool
is_alphanumeric c = is_alphabetic c || is_digit c

abbrev pub is_hex : ℕ → Bool
is_hex c = is_digit c || leb b'a' c && leb c b'f' || leb b'A' c && leb c b'F'

abbrev pub is_space : ℕ → Bool
is_space c = c == b' ' || c == b'\t' || c == b'\n' || c == b'\r'

abbrev pub is_word : ℕ → Bool
is_word c = is_alphanumeric c || c == b'_'

-- The byte at the current place, if there is one, passes the test.
abbrev pub head_is : (ℕ → Bool) → Bytes → Bool
head_is p [] = false
head_is p (c ∷ cs) = p c

unfoldable pub count_while : (ℕ → Bool) → Bytes → ℕ
count_while p [] = 0
count_while p (c ∷ cs) = let more = count_while p cs in if p c then 1 + more else 0

-- What `next` passes over in front of a token: `skipWhitespace`, and, behind a line comment,
-- `next` again. The flag tells that the place is in a comment.
unfoldable pub gap : Bool → Bytes → ℕ
gap in_comment [] = 0
gap false (c ∷ cs) =
    let after_space = gap false cs in
    let in_line = gap true cs in
    if is_space c
    then 1 + after_space
    else if c == b'/' && head_is (λ d. d == b'/') cs
    then 1 + in_line
    else 0
gap true (c ∷ cs) =
    let after_line = gap false cs in
    let in_line = gap true cs in if c == b'\n' then 1 + after_line else 1 + in_line

-- A string up to its closing quote. A backslash passes over the next byte, whether there is one
-- or not.
unfoldable pub string_len : Bytes → ℕ
string_len [] = 0
string_len (c ∷ []) = if c == b'"' then 0 else if c == b'\\' then 2 else 1
string_len (c ∷ d ∷ ds) =
    let one = string_len (d ∷ ds) in
    let two = string_len ds in if c == b'"' then 0 else if c == b'\\' then 2 + two else 1 + one

-- A piece of template text, up to a backtick or `${`.
unfoldable pub template_len : Bytes → ℕ
template_len [] = 0
template_len (c ∷ []) = if c == b'\\' then 2 else if c == b'`' then 0 else 1
template_len (c ∷ d ∷ ds) =
    let one = template_len (d ∷ ds) in
    let two = template_len ds in
    if c == b'\\' then 2 + two else if c == b'`' || c == b'$' && d == b'{' then 0 else 1 + one

-- Hexadecimal digits with `_` in front of some of them.
unfoldable pub hex_len : Bytes → ℕ
hex_len [] = 0
hex_len (c ∷ cs) =
    let more = hex_len cs in if is_hex c || c == b'_' && head_is is_hex cs then 1 + more else 0

-- Whether the loop over a number passes over the byte `c` in front of `cs`.
abbrev pub in_number : ℕ → Bytes → Bool
in_number c cs =
    if c == b'.'
    then not (head_is (λ d. d == b'.') cs) && head_is is_digit cs
    else if c == b'_'
    then head_is is_digit cs
    else is_digit c

-- Its length, and `is_float` at the end.
unfoldable pub number_len : Bool → Bytes → ℕ × Bool
number_len is_float [] = (0, is_float)
number_len is_float (c ∷ cs) =
    let (more, ends_float) = number_len (is_float || c == b'.') cs in
    if in_number c cs then (1 + more, ends_float) else (0, is_float)

-- A hexadecimal number behind its first digit, which `x` follows: its tag, and how many bytes.
unfoldable pub scan_hex : Bytes → Tag × ℕ
unfolding hex_len count_while
scan_hex cs =
    let hex = 1 + hex_len (skip 1 cs) in
    let letters = hex + count_while is_alphabetic (skip hex cs) in
    (int_literal, letters + count_while is_digit (skip letters cs))

unfoldable pub scan_decimal : Bytes → Tag × ℕ
unfolding count_while number_len
scan_decimal cs =
    let (len, is_float) = number_len false cs in
    if is_float
    then (float_literal, len)
    else (int_literal, len + count_while is_alphanumeric (skip len cs))

unfoldable pub scan_number : ℕ → Bytes → Tag × ℕ
unfolding scan_hex scan_decimal
scan_number c cs =
    if c == b'0' && head_is (λ d. d == b'x' || d == b'X') cs then scan_hex cs else scan_decimal cs
