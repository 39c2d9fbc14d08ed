-- ===== src/Compiler/Lexing/Tokens.antt =====
-- src/lexer.zig: the tokens, and the words that are keywords.
use sa_plugin_sla.Prelude.{ℕ, if◌then◌else◌, List, [], ◌∷◌}
use sa_plugin_sla.Compiler.Text.{Bytes, codes, bytes_eq}

pub data Tag : Type 0 where
  eof invalid identifier int_literal float_literal string_literal template_start template_string :
      Tag
  template_interp template_end keyword_struct keyword_union keyword_enum keyword_trait
        keyword_overload keyword_dyn :
      Tag
  keyword_impl keyword_mod keyword_using keyword_pub keyword_extern keyword_async keyword_await
        keyword_unsafe :
      Tag
  keyword_as keyword_fn keyword_if keyword_else keyword_match keyword_switch keyword_return
        keyword_for :
      Tag
  keyword_while keyword_break keyword_continue keyword_in keyword_let keyword_const keyword_var
        keyword_inline :
      Tag
  keyword_macro keyword_mut keyword_type keyword_go keyword_defer keyword_select plus plus_equal :
      Tag
  minus_equal asterisk_equal slash_equal percent_equal pipe_equal ampersand_equal minus asterisk :
      Tag
  slash percent equal equal_equal bang_equal less_equal greater_equal ampersand : Tag
  amp_amp caret bang pipe pipe_pipe less_less greater_greater spaceship : Tag
  dot comma semicolon colon double_colon l_paren r_paren l_brace : Tag
  r_brace l_bracket r_bracket less_than greater_than arrow fat_arrow range : Tag
  question_mark question_question question_question_equal question_dot at : Tag

-- The bytes from `start` to before `end`.
pub record Loc : Type 0 where
  pub start : ℕ
  pub end : ℕ

pub record Token : Type 0 where
  pub tag : Tag
  pub loc : Loc

abbrev pub keywords : List (Bytes × Tag)
keywords =
    (codes "struct", keyword_struct)
    ∷ (codes "union", keyword_union)
    ∷ (codes "enum", keyword_enum)
    ∷ (codes "trait", keyword_trait)
    ∷ (codes "overload", keyword_overload)
    ∷ (codes "dyn", keyword_dyn)
    ∷ (codes "impl", keyword_impl)
    ∷ (codes "mod", keyword_mod)
    ∷ (codes "using", keyword_using)
    ∷ (codes "pub", keyword_pub)
    ∷ (codes "extern", keyword_extern)
    ∷ (codes "async", keyword_async)
    ∷ (codes "await", keyword_await)
    ∷ (codes "unsafe", keyword_unsafe)
    ∷ (codes "as", keyword_as)
    ∷ (codes "fn", keyword_fn)
    ∷ (codes "if", keyword_if)
    ∷ (codes "else", keyword_else)
    ∷ (codes "match", keyword_match)
    ∷ (codes "switch", keyword_switch)
    ∷ (codes "return", keyword_return)
    ∷ (codes "for", keyword_for)
    ∷ (codes "while", keyword_while)
    ∷ (codes "break", keyword_break)
    ∷ (codes "continue", keyword_continue)
    ∷ (codes "in", keyword_in)
    ∷ (codes "let", keyword_let)
    ∷ (codes "const", keyword_const)
    ∷ (codes "var", keyword_var)
    ∷ (codes "inline", keyword_inline)
    ∷ (codes "macro", keyword_macro)
    ∷ (codes "mut", keyword_mut)
    ∷ (codes "type", keyword_type)
    ∷ (codes "go", keyword_go)
    ∷ (codes "defer", keyword_defer)
    ∷ (codes "select", keyword_select)
    ∷ []

abbrev pub find_keyword : List (Bytes × Tag) → Bytes → Tag
find_keyword [] str = identifier
find_keyword ((word, tag) ∷ more) str = if bytes_eq str word then tag else find_keyword more str

unfoldable pub check_keyword : Bytes → Tag
check_keyword str = find_keyword keywords str
