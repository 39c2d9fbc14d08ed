-- ===== src/Tests/Lexing.antt =====
-- The tests in src/lexer.zig, and the theorems on the lexer and on peekBlockSpan at texts.
use sa_plugin_sla.Prelude.{
  some, none, false, ◌≡◌, refl, [], ◌∷◌, List, ℕ, zero, suc, Option, ◌⊎◌, arith,
}
use sa_plugin_sla.Rust.{done, panic, out_of_bounds, ◌>>=◌, below}
use sa_plugin_sla.Compiler.Text.{Bytes, codes, take_while}
use sa_plugin_sla.Compiler.Lexing.Tokens
use sa_plugin_sla.Compiler.Lexing.Tokens.{Tag, Token, check_keyword}
use sa_plugin_sla.Compiler.Lexing.Scan.{
  count_while, gap, string_len, template_len, hex_len, number_len, scan_hex, scan_decimal,
  scan_number,
}
use sa_plugin_sla.Compiler.Lexing.Symbols.{scan_string, scan_word, scan}
use sa_plugin_sla.Compiler.Lexing.Lexer.{
  Lexer, init, next_template, open_modes, open_brace, open_template, next_at, skip_gap, next_from,
  next, lexeme,
}
use sa_plugin_sla.Compiler.Lexing.Outcomes.{Always}
use sa_plugin_sla.Compiler.Lexing.Pieces.{IsUnclosed, Advances}
use sa_plugin_sla.Compiler.Lexing.Progress.{next-Advances}
use sa_plugin_sla.Compiler.Lexing.Nested.{IsNested, IsNestedBehind}
use sa_plugin_sla.Compiler.Lexing.Nesting.{next-IsNested}
use sa_plugin_sla.Compiler.Lexing.Total.{IsDone, next-IsDone}
use sa_plugin_sla.Compiler.Lexing.Ends.{Reaches}
use sa_plugin_sla.Compiler.Lexing.BlockEnd.{block_end}
use sa_plugin_sla.Compiler.Lexing.Answers.{peek_block_span-answers, peek_block_span-block_end}
use sa_plugin_sla.Compiler.Lexing.Unclosed.{
  open_string, peek_block_span-endless, lexeme-open_string,
}
use sa_plugin_sla.Compiler.Lexing.Lexemes.{HasText, next-HasText}
use sa_plugin_sla.Compiler.Lexing.Shift.{shift, shift_outcome, next-shift}
use sa_plugin_sla.Compiler.Lexing.SkipBlock.{Parser, map_answer, peek_span, skip_span}
use sa_plugin_sla.Compiler.Lexing.Spans.{at_brace, skip_span-peek_span}
use sa_plugin_sla.Compiler.Lexing.PeekBlock.{
  peek_l_brace, peek_r_brace, peek_outside, peek_token, peek_on, peek_after, peek_loop,
  peek_block_span,
}

-- The tags of the first tokens.
unfoldable tags : ℕ → Lexer → List Tag
unfolding next
tags zero l = []
tags (suc n) l = elim (next l) [ done (t, m) ↦ t.tag ∷ tags n m | panic e ↦ [] ]

basic_lexing :
    tags 15 (init (codes "struct Option<T> { has_value: bool, value: T }"))
    ≡ Tokens.keyword_struct ∷ Tokens.identifier ∷ Tokens.less_than ∷ Tokens.identifier
      ∷ Tokens.greater_than ∷ Tokens.l_brace ∷ Tokens.identifier ∷ Tokens.colon ∷ Tokens.identifier
      ∷ Tokens.comma ∷ Tokens.identifier ∷ Tokens.colon ∷ Tokens.identifier ∷ Tokens.r_brace
      ∷ Tokens.eof ∷ []
unfolding tags next count_while gap string_len template_len hex_len number_len scan_hex scan_decimal
    scan_number scan_string scan_word scan next_template open_modes open_brace open_template next_at
    skip_gap next_from check_keyword take_while below
basic_lexing = refl

numeric_separators :
    tags 6 (init (codes "1_000 7_000.5 0xFF_FF 1_000..2"))
    ≡ Tokens.int_literal ∷ Tokens.float_literal ∷ Tokens.int_literal ∷ Tokens.int_literal
      ∷ Tokens.range ∷ Tokens.int_literal ∷ []
unfolding tags next count_while gap string_len template_len hex_len number_len scan_hex scan_decimal
    scan_number scan_string scan_word scan next_template open_modes open_brace open_template next_at
    skip_gap next_from check_keyword take_while below
numeric_separators = refl

lone_separator : tags 2 (init (codes "1_ ")) ≡ Tokens.int_literal ∷ Tokens.identifier ∷ []
unfolding tags next count_while gap string_len template_len hex_len number_len scan_hex scan_decimal
    scan_number scan_string scan_word scan next_template open_modes open_brace open_template next_at
    skip_gap next_from check_keyword take_while below
lone_separator = refl

nested_template :
    tags 9 (init (codes "`a ${f({`x`})} b`"))
    ≡ Tokens.template_start ∷ Tokens.template_string ∷ Tokens.template_interp ∷ Tokens.identifier
      ∷ Tokens.l_paren ∷ Tokens.l_brace ∷ Tokens.template_start ∷ Tokens.template_string
      ∷ Tokens.template_end ∷ []
unfolding tags next count_while gap string_len template_len hex_len number_len scan_hex scan_decimal
    scan_number scan_string scan_word scan next_template open_modes open_brace open_template next_at
    skip_gap next_from check_keyword take_while below
nested_template = refl

-- The braces of the interpolation do not end the block.
block_with_template : peek_block_span 20 (codes "{ `a}${b}c` } d") ≡ some (done (some 13))
unfolding peek_block_span peek_loop peek_after peek_on peek_token peek_outside peek_l_brace
    peek_r_brace next count_while gap string_len template_len hex_len number_len scan_hex
    scan_decimal scan_number scan_string scan_word scan next_template open_modes open_brace
    open_template next_at skip_gap next_from check_keyword take_while below
block_with_template = refl

-- Behind the first brace of an interpolation.
abbrev in_interpolation : Lexer
in_interpolation = record {
  buffer = codes "`${ {} }`";
  index = 3;
  modes = record { in_template = false; interp_depth = 1; tmpl_stack = 0 ∷ [] };
}

in_interpolation-IsNested : IsNested in_interpolation.index in_interpolation.modes
in_interpolation-IsNested = record {
  depth_le = omega arith;
  room = omega arith;
  saved = (omega arith, refl, tt);
  text = λ t. cc;
  code = λ c. refl;
}

next-Advances_example : Always (Advances in_interpolation) (next in_interpolation)
next-Advances_example = next-Advances in_interpolation (omega arith)

next-IsNested_example : Always IsNestedBehind (next in_interpolation)
next-IsNested_example = next-IsNested in_interpolation in_interpolation-IsNested

next-IsDone_example : IsDone (next in_interpolation)
next-IsDone_example = next-IsDone in_interpolation in_interpolation-IsNested (omega arith)

abbrev block : Bytes
block = codes "{ `a}${b}c` } d"

peek_block_span-answers_example :
    ((r : Option ℕ) × (peek_block_span 20 block ≡ some (done r)))
    ⊎ (((m : Lexer) × Reaches (init block) m × IsUnclosed m)
        × ((rounds : ℕ) → peek_block_span rounds block ≡ none))
peek_block_span-answers_example = peek_block_span-answers 20 block (omega arith) (omega arith)

peek_block_span-block_end_example : peek_block_span 20 block ≡ block_end 20 (init block) 0
peek_block_span-block_end_example = peek_block_span-block_end 20 block

peek_block_span-endless_example : peek_block_span 9 (b'{' ∷ b'`' ∷ b'a' ∷ b'b' ∷ b'}' ∷ []) ≡ none
peek_block_span-endless_example = peek_block_span-endless 9 (b'a' ∷ b'b' ∷ b'}' ∷ []) refl

lexeme-open_string_example :
    (next (init (open_string (b'a' ∷ []))) >>= λ r. lexeme r.1.buffer r.0.loc) ≡ panic out_of_bounds
lexeme-open_string_example = lexeme-open_string (b'a' ∷ []) refl

abbrev text_with_block : Bytes
text_with_block = codes "a { `}` } b"

peek_text_with_block : peek_span 20 (at_brace text_with_block 2) ≡ some (done (some (2, 9)))
unfolding peek_span peek_block_span peek_loop peek_after peek_on peek_token peek_outside
    peek_l_brace peek_r_brace next count_while gap string_len template_len hex_len number_len
    scan_hex scan_decimal scan_number scan_string scan_word scan next_template open_modes open_brace
    open_template next_at skip_gap next_from check_keyword take_while below
peek_text_with_block = refl

skip_span-peek_span_example :
    map_answer (λ (x : (ℕ × ℕ) × Parser). x.0) (skip_span 20 (at_brace text_with_block 2))
    ≡ some (done (some (2, 9)))
skip_span-peek_span_example =
    skip_span-peek_span 20 text_with_block 2 (codes " `}` } b") (some (2, 9)) refl (omega arith)
      peek_text_with_block

-- The block from its brace on, in the whole text.
next-shift_example :
    next (shift 2 text_with_block (init (codes "{ `}` } b")))
    ≡ shift_outcome 2 text_with_block (next (init (codes "{ `}` } b")))
next-shift_example =
    next-shift 2 text_with_block (init (codes "{ `}` } b"))
      (record { tail = refl; within = omega arith })

next-HasText_example :
    Always
      (λ (r : Token × Lexer). (r.0.tag ≡ Tokens.invalid) ⊎ HasText in_interpolation.buffer r.0.loc)
      (next in_interpolation)
next-HasText_example = next-HasText in_interpolation (omega arith)
