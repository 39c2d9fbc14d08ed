-- ===== src/Loops.antt =====
-- Loops with counters: demos/rosetta 21_while_loop, 22_break_continue, 23_nested_loops,
-- 103_labeled_break and 197_profile_guided_opt. A `loop` or `while` has fuel for its rounds, and
-- `none` means that the fuel ran out. The counters and sums are `i32`.
pub mod Counters
pub mod Laws
