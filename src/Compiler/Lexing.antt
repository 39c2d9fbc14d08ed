-- ===== src/Compiler/Lexing.antt =====
-- src/lexer.zig: the tokens of a source text, and what src/parser.zig builds on them.
pub mod Tokens
pub mod Scan
pub mod Symbols
pub mod Lexer
pub mod PeekBlock
pub mod Bounds
pub mod Scanned
pub mod Outcomes
pub mod Pieces
pub mod Progress
pub mod Ends
pub mod Total
pub mod Moves
pub mod BlockEnd
pub mod Rounds
pub mod Mirror
pub mod Lexemes
pub mod Endless
pub mod Answers
pub mod Unclosed
pub mod Shift
pub mod SkipBlock
pub mod SkipRounds
pub mod Passes
pub mod SkipLaws
pub mod Spans
pub mod Nested
pub mod Nesting
