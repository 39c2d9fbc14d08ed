-- ===== src/Operators/Events.antt =====
-- An event loop, and patterns that ignore parts of a value.
use sa_plugin_sla.Prelude.{if◌then◌else◌, ℤ, pos, eqb_ℤ, Bool, true, List, [], ◌∷◌}
use sa_plugin_sla.Rust.{Outcome, done, ◌>>=◌, assert, Exit, print, int_line, add_i32}

-- 57_event_loop
pub data Event : Type 0 where
  tick : ℤ → Event
  reset : Event
  tick_after_reset : ℤ → Event

unfoldable pub run_loop_from : ℤ → List Event → Outcome ℤ
run_loop_from acc [] = done acc
run_loop_from acc (tick value ∷ events) = add_i32 acc value >>= λ acc'. run_loop_from acc' events
run_loop_from acc (reset ∷ events) = run_loop_from (pos 0) events
run_loop_from acc (tick_after_reset value ∷ events) =
    add_i32 acc value >>= λ acc'. run_loop_from acc' events

unfoldable pub run_loop : List Event → Outcome ℤ
unfolding run_loop_from
run_loop events = run_loop_from (pos 0) events

unfoldable pub event_loop_main : Exit
unfolding run_loop
event_loop_main =
    print int_line (run_loop (tick (pos 2) ∷ tick (pos 3) ∷ reset ∷ tick_after_reset (pos 4) ∷ []))

-- 310_blank_identifier_discard: the slice pattern takes the second of four elements and the rest
-- after it, and the sum reads the first of that rest.
pub record Pair : Type 0 where
  pub first : ℤ
  pub second : ℤ
  pub third : ℤ

unfoldable pub discard_sum : ℤ × ℤ × ℤ × ℤ → ℤ × ℤ → Outcome ℤ
discard_sum (_, second, third, _) (w2, _) = add_i32 second third >>= λ s. add_i32 s w2

unfoldable pub blank_identifier_demo : Outcome ℤ
unfolding discard_sum
blank_identifier_demo = discard_sum (pos 10, pos 20, pos 30, pos 40) (pos 7, pos 8)

unfoldable pub blank_identifier_main : Outcome (Unit {0})
unfolding blank_identifier_demo
blank_identifier_main = blank_identifier_demo >>= λ got. assert (eqb_ℤ got (pos 57))

-- 39_generic_enum_i32
pub data Maybe (T : Type 0) : Type 0 where
  present : T → Maybe T
  empty : Maybe T

unfoldable pub value_or_zero : Maybe ℤ → ℤ
value_or_zero (present v) = v
value_or_zero empty = pos 0

unfoldable pub generic_enum_main : Exit
unfolding value_or_zero
generic_enum_main = print int_line (done (value_or_zero (present (pos 7))))

-- 10_generics_monomorph
pub record OptionValue (T : Type 0) : Type 0 where
  pub is_some : Bool
  pub value : T

unfoldable pub unwrap_value_or : OptionValue ℤ → ℤ → ℤ
unwrap_value_or opt default = if opt.is_some then opt.value else default

unfoldable pub generics_main : Exit
unfolding unwrap_value_or
generics_main =
    print int_line (done (unwrap_value_or (record { is_some = true; value = pos 42 }) (pos 0)))
