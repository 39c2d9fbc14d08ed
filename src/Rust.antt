-- ===== src/Rust.antt =====
-- What the programs use of the language: a computation that may panic, machine integers that panic
-- on overflow, sums of them, and the lines that a program prints.
mod Effects
mod I32
mod Words
mod Sum
pub use Effects.*
unfoldable pub use I32.*
unfoldable pub use Words.*
unfoldable pub use Sum.*
