-- ===== src/Compiler/Lexing/Symbols.antt =====
-- src/lexer.zig: the tags of the tokens that `next` tells apart by their first bytes.
use sa_plugin_sla.Prelude.{ltb, ◌==◌, if◌then◌else◌, ℕ, ◌+◌, length, not, ◌&&◌, ◌||◌, ◌∷◌}
use sa_plugin_sla.Compiler.Text.{Bytes, take_while, skip}
use sa_plugin_sla.Compiler.Lexing.Tokens
use sa_plugin_sla.Compiler.Lexing.Tokens.{Tag, check_keyword}
use sa_plugin_sla.Compiler.Lexing.Scan.{
  is_digit, is_alphabetic, is_word, head_is, count_while, string_len, scan_number,
}

-- One more byte `x` makes the longer token.
abbrev pub follows : ℕ → Tag → Tag → Bytes → Tag × ℕ
follows x longer shorter cs = if head_is (λ d. d == x) cs then (longer, 1) else (shorter, 0)

-- Behind `?`.
abbrev pub scan_question : Bytes → Tag × ℕ
scan_question cs =
    if head_is (λ d. d == b'?') cs
    then (if head_is (λ d. d == b'=') (skip 1 cs) && not (head_is (λ d. d == b'=') (skip 2 cs))
        then (Tokens.question_question_equal, 2)
        else (Tokens.question_question, 1))
    else if head_is (λ d. d == b'.') cs && not (head_is is_digit (skip 1 cs))
    then (Tokens.question_dot, 1)
    else (Tokens.question_mark, 0)

-- Behind `<`.
abbrev pub scan_less : Bytes → Tag × ℕ
scan_less cs =
    if head_is (λ d. d == b'<') cs
    then (Tokens.less_less, 1)
    else if head_is (λ d. d == b'=') cs && head_is (λ d. d == b'>') (skip 1 cs)
    then (Tokens.spaceship, 2)
    else follows b'=' Tokens.less_equal Tokens.less_than cs

-- Two bytes to choose by.
abbrev pub either : ℕ → Tag → ℕ → Tag → Tag → Bytes → Tag × ℕ
either x first y second neither cs =
    if head_is (λ d. d == x) cs then (first, 1) else follows y second neither cs

unfoldable pub scan_string : Bytes → Tag × ℕ
unfolding string_len
scan_string cs =
    let len = string_len cs in
    if ltb len (length cs) then (Tokens.string_literal, len + 1) else (Tokens.invalid, len)

unfoldable pub scan_word : ℕ → Bytes → Tag × ℕ
unfolding count_while take_while check_keyword
scan_word c cs = (check_keyword (c ∷ take_while is_word cs), count_while is_word cs)

-- The tag of the token that begins with the byte `c` in front of `cs`, and how many of these
-- belong to it. The braces and the backtick, which change the state of the lexer, are not here.
unfoldable pub scan : ℕ → Bytes → Tag × ℕ
unfolding scan_string scan_word scan_number
scan c cs =
    if c == b'@'
    then (Tokens.at, 0)
    else if c == b'?'
    then scan_question cs
    else if c == b'+'
    then follows b'=' Tokens.plus_equal Tokens.plus cs
    else if c == b'-'
    then either b'>' Tokens.arrow b'=' Tokens.minus_equal Tokens.minus cs
    else if c == b'*'
    then follows b'=' Tokens.asterisk_equal Tokens.asterisk cs
    else if c == b'/'
    then follows b'=' Tokens.slash_equal Tokens.slash cs
    else if c == b'%'
    then follows b'=' Tokens.percent_equal Tokens.percent cs
    else if c == b'='
    then either b'>' Tokens.fat_arrow b'=' Tokens.equal_equal Tokens.equal cs
    else if c == b'&'
    then either b'=' Tokens.ampersand_equal b'&' Tokens.amp_amp Tokens.ampersand cs
    else if c == b'^'
    then (Tokens.caret, 0)
    else if c == b'|'
    then either b'|' Tokens.pipe_pipe b'=' Tokens.pipe_equal Tokens.pipe cs
    else if c == b'!'
    then follows b'=' Tokens.bang_equal Tokens.bang cs
    else if c == b'.'
    then follows b'.' Tokens.range Tokens.dot cs
    else if c == b','
    then (Tokens.comma, 0)
    else if c == b';'
    then (Tokens.semicolon, 0)
    else if c == b':'
    then follows b':' Tokens.double_colon Tokens.colon cs
    else if c == b'('
    then (Tokens.l_paren, 0)
    else if c == b')'
    then (Tokens.r_paren, 0)
    else if c == b'['
    then (Tokens.l_bracket, 0)
    else if c == b']'
    then (Tokens.r_bracket, 0)
    else if c == b'<'
    then scan_less cs
    else if c == b'>'
    then either b'>' Tokens.greater_greater b'=' Tokens.greater_equal Tokens.greater_than cs
    else if c == b'"'
    then scan_string cs
    else if is_alphabetic c || c == b'_'
    then scan_word c cs
    else if is_digit c
    then scan_number c cs
    else (Tokens.invalid, 0)
