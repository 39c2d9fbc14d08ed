-- ===== src/Compiler/Lexing/Lexer.antt =====
-- src/lexer.zig: the lexer and its state.
use sa_plugin_sla.Prelude.{
  ltb, leb, ◌==◌, if◌then◌else◌, ℕ, ◌+◌, ◌-◌, length, Bool, true, false, ◌||◌, ◌&&◌, List, [], ◌∷◌,
}
use sa_plugin_sla.Rust.{Outcome, done, panic, out_of_bounds, ◌>>=◌, below}
use sa_plugin_sla.Compiler.Text.{Bytes, skip, take, starts_with}
use sa_plugin_sla.Compiler.Lexing.Tokens.{
  Tag, eof, invalid, template_start, template_string, template_interp, template_end, l_brace,
  r_brace, Loc, Token,
}
use sa_plugin_sla.Compiler.Lexing.Scan.{gap, template_len}
use sa_plugin_sla.Compiler.Lexing.Symbols.{scan}

-- The state that templates need: `tmpl_stack` holds the saved depths in use, the newest first, so
-- that `tmpl_sp` is its length.
pub record Modes : Type 0 where
  pub in_template : Bool
  pub interp_depth : ℕ
  pub tmpl_stack : List ℕ

pub record Lexer : Type 0 where
  pub buffer : Bytes
  pub index : ℕ
  pub modes : Modes

abbrev pub no_modes : Modes
no_modes = record { in_template = false; interp_depth = 0; tmpl_stack = [] }

abbrev pub init : Bytes → Lexer
init buffer = record { buffer = buffer; index = 0; modes = no_modes }

-- What is left of the buffer.
abbrev pub rest : Lexer → Bytes
rest l = skip l.index l.buffer

-- The token of the next `len` bytes, and the lexer behind it in the given modes.
abbrev pub emit : Tag → ℕ → Modes → Lexer → Token × Lexer
emit tag len modes l = (
  record { tag = tag; loc = record { start = l.index; end = l.index + len } },
  record l { index = l.index + len; modes = modes },
)

-- A backtick in template text ends the template.
abbrev pub close_template : List ℕ → Lexer → Token × Lexer
close_template [] l = emit invalid 1 l.modes l
close_template (depth ∷ depths) l =
    emit template_end 1 (record { in_template = false; interp_depth = depth; tmpl_stack = depths })
      l

unfoldable pub next_template : Lexer → Token × Lexer
unfolding template_len
next_template l =
    let len = template_len (rest l) in
    if starts_with (rest l) (b'$' ∷ b'{' ∷ [])
    then emit template_interp 2 (record l.modes { in_template = false; interp_depth = 1 }) l
    else if starts_with (rest l) (b'`' ∷ [])
    then close_template l.modes.tmpl_stack l
    else if leb (length l.buffer) (l.index + len)
    then emit invalid len l.modes l
    else emit template_string len l.modes l

-- `interp_depth` is a `u16`.
unfoldable pub open_modes : Modes → Outcome Modes
unfolding below
open_modes m =
    if ltb 0 m.interp_depth
    then (below 65536 (m.interp_depth + 1) >>= λ depth. done (record m { interp_depth = depth }))
    else done m

unfoldable pub open_brace : Lexer → Outcome (Token × Lexer)
unfolding open_modes
open_brace l = open_modes l.modes >>= λ modes. done (emit l_brace 1 modes l)

abbrev pub close_brace : Modes → Modes
close_brace m =
    if ltb 0 m.interp_depth
    then record m {
      interp_depth = m.interp_depth - 1;
      in_template = m.in_template || m.interp_depth - 1 == 0;
    }
    else m

unfoldable pub open_template : Lexer → Token × Lexer
open_template l =
    if leb 8 (length l.modes.tmpl_stack)
    then emit invalid 1 l.modes l
    else emit template_start 1
        (record {
          in_template = true;
          interp_depth = 0;
          tmpl_stack = l.modes.interp_depth ∷ l.modes.tmpl_stack;
        })
        l

-- The token that begins at the current place with the byte `c` in front of `cs`.
unfoldable pub next_at : Lexer → ℕ → Bytes → Outcome (Token × Lexer)
unfolding open_brace open_template scan
next_at l c cs =
    if c == b'{'
    then open_brace l
    else if c == b'}'
    then done (emit r_brace 1 (close_brace l.modes) l)
    else if c == b'`'
    then done (open_template l)
    else (let (tag, len) = scan c cs in done (emit tag (1 + len) l.modes l))

unfoldable pub skip_gap : Lexer → Lexer
unfolding gap
skip_gap l = record l { index = l.index + gap false (rest l) }

unfoldable pub next_from : Lexer → Bytes → Outcome (Token × Lexer)
unfolding next_at
next_from l [] = done (emit eof 0 l.modes l)
next_from l (c ∷ cs) = next_at l c cs

unfoldable pub next : Lexer → Outcome (Token × Lexer)
unfolding next_template skip_gap next_from
next l =
    if l.modes.in_template
    then done (next_template l)
    else (let behind = skip_gap l in next_from behind (rest behind))

-- `lexeme` of src/parser.zig: the text at a place. A slice panics behind the end of the buffer.
unfoldable pub lexeme : Bytes → Loc → Outcome Bytes
lexeme buffer loc =
    if leb loc.start loc.end && leb loc.end (length buffer)
    then done (take (loc.end - loc.start) (skip loc.start buffer))
    else panic out_of_bounds
