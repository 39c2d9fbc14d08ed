-- ===== src/Lib.antt =====
-- Models of the Rust reference programs of the Sla compiler plugin, which stand in demos/rosetta,
-- and of parts of the compiler itself, and theorems about them.
--
-- The repository is a compiler for the language Sla, written in Zig (src/), with a standard
-- library (sla_std/) and a catalogue of programs. Every folder demos/rosetta/NN_name holds one
-- program twice: main.rs is its Rust reference, which says what the program computes and prints,
-- and main.sla is the program that the compiler is given. The models of programs here are of the
-- Rust references. A program is a `main` with the types and functions that it uses; the programs
-- do not call one another. A comment in front of a definition names the folder that it is about,
-- and a definition has the name of its function or type there, with the folder's name before
-- `_main`. Where a `main` computes on constants of its own, the steps are a function of them, and
-- `main` applies it. A function that takes an array of a fixed size is modelled on lists of every
-- length, unless it only indexes it by constants.
--
-- What the programs share:
--   Prelude      names of the libraries, Boolean tests, integers, lists and bits on native numbers
--   Rust         panics (`Outcome`), the lines that a program prints (`Exit`), `i32`, `u8`, `u32` and
--                `usize` with the overflow checks of a debug build, and `iter().sum()`
-- The programs, by what they are about, each with the laws about it beside it:
--   Threads      126_mpmc_channel, 122_condvar_wait_notify, 130_park_unpark_thread and
--                123_barrier_sync as steps of a state under a schedule; locks, atomic cells and joined
--                threads
--   Tasks        futures, executors and the clock of 09_async_await
--   Codec        frames, varints and base64
--   Resources    cells, guards with destructors, and the mutex of 102_raii_guard
--   Numeric      formulas, choices, factorial and Fibonacci numbers on `i32`
--   Loops        `while`, `loop`, `break`, `continue` and labels
--   Folds        loops and iterators over arrays
--   Collections  queues, maps and buffers
--   Dispatch     decisions on requests, states and patterns
--   Errors       `Option`, `Result` and caught panics
--   Traits       trait objects and static dispatch
--   Operators    operators, events and patterns on user-defined types
--   Basics       functions of a line, values, references and layouts
--   Companions   the programs from 201 to 300, which check the texts of companion files: a `main` is a
--                function of the texts that it includes, in the order in which it includes them
-- The compiler, in the same way:
--   Compiler     src/control_flow_rules.zig, over the nodes of src/ast.zig that it looks into: what a
--                macro body consumes (macroParamConsumption is macro_param_consumption), where it has
--                a `?`, and how the states of branches are merged; and src/contract_parser.zig, on
--                lists of bytes: parseSai is parse_sai and parseSal is parse_sal, their errors `none`.
--                Compiler/Lexing is src/lexer.zig, whose `next` is a function from a lexer to a token
--                and the lexer behind it (Lexer.antt; what begins a token in Symbols, how far its loops
--                go in Scan), with peekBlockSpan (PeekBlock) and skipBlockSpan (SkipBlock) of
--                src/parser.zig, which use it. The laws are on where tokens lie (Pieces, Progress,
--                Lexemes, Shift), on the state of templates (Nested, Nesting, Moves, Total), on when and with
--                what the loop of peekBlockSpan ends (Ends, BlockEnd, Rounds, Mirror, Endless,
--                Answers, Unclosed), and on skipBlockSpan beside it (SkipRounds, Passes, SkipLaws, Spans)
-- The tests:
--   Tests        the theorems at concrete inputs, and the lines that programs print, those of
--                Companions on the texts that their files have
--
-- Bounds and fuel. Integers are exact, and each operation checks the range of its type: a result
-- out of range is `panic overflow`, as in a debug build; an atomic addition wraps. `while` and
-- `loop`, recursive functions on `i32` and `block_on` take fuel, and `none` means that it ran out.
-- A call of `factorial` or `fib` has fuel for its argument; a loop takes its fuel as an argument,
-- at least one more than its rounds; that of the
-- loops over tokens needs
-- two rounds more than the text has bytes, since each token has a byte. The stack is taken to be large enough for the recursion.
-- Threads move one at a time: a schedule is the list of the threads that move, a thread that is
-- blocked is passed over, and a wakeup that nobody has asked for is a move of its own, as the
-- library permits for condition variables and for `park`.
--
-- What is not modelled: the rest of the compiler and of its parser, the standard library and the tools; the text
-- that 200_sa_asm_quine prints, which is its own; and programs of a few lines that show memory
-- layout, foreign functions or types only. The texts of the companion files are parameters. The
-- system clock is a parameter of 09_async_await, the record `Readings`. The arithmetic of `f32` is
-- a parameter of the vector programs 301, 302 and 303, the record `Float`. The memory order of
-- atomic operations is not modelled, since their threads run one after the other in these
-- programs.
pub mod Prelude
pub mod Rust
pub mod Folds
pub mod Dispatch
pub mod Numeric
pub mod Codec
pub mod Resources
pub mod Threads
pub mod Tasks
pub mod Errors
pub mod Collections
pub mod Loops
pub mod Traits
pub mod Operators
pub mod Compiler
pub mod Companions
pub mod Basics
pub mod Tests
