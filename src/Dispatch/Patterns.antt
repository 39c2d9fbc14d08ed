-- ===== src/Dispatch/Patterns.antt =====
-- Range, or- and @-patterns: demos/rosetta 305_range_pattern_macro, 306_or_pattern_macro,
-- 307_at_binding_macro and 308_rest_pattern_macro. Also 43_tagged_union, 60_enum_branch,
-- 56_state_machine and 06_enum_and_match.
use sa_plugin_sla.Prelude.{
  if◌then◌else◌, length, filter, ℤ, pos, negsuc, leb_ℤ, ℕ, Bool, true, false, ◌&&◌, List, [], ◌∷◌,
}
use sa_plugin_sla.Rust.{
  Outcome, done, ◌>>=◌, Piece, lit, int, Line, Exit, exit_ok, print, int_line, nat_line, add_i32,
  mul_i32,
}

-- `lo..=hi`
unfoldable pub in_range : ℕ → ℕ → ℤ → Bool
in_range lo hi x = leb_ℤ (pos lo) x && leb_ℤ x (pos hi)

-- 305_range_pattern_macro
unfoldable pub grade : ℤ → ℤ
unfolding in_range
grade score =
    if in_range 0 59 score
    then pos 0
    else if in_range 60 79 score
    then pos 1
    else if in_range 80 89 score
    then pos 2
    else if in_range 90 100 score
    then pos 3
    else negsuc 0

abbrev comma : Piece
comma = lit ","

unfoldable pub range_pattern_main : Exit
unfolding grade
range_pattern_main = exit_ok (
    (int (grade (pos 45))
      ∷ comma
      ∷ int (grade (pos 72))
      ∷ comma
      ∷ int (grade (pos 85))
      ∷ comma
      ∷ int (grade (pos 95))
      ∷ comma
      ∷ int (grade (pos 101))
      ∷ [])
    ∷ [])

-- 306_or_pattern_macro
pub data Color : Type 0 where
  red green blue yellow cyan magenta : Color

unfoldable pub is_primary : Color → Bool
is_primary red = true
is_primary green = true
is_primary blue = true
is_primary _ = false

unfoldable pub or_pattern_main : Exit
unfolding is_primary
or_pattern_main =
    print nat_line (done (length (filter is_primary (red ∷ yellow ∷ blue ∷ cyan ∷ []))))

-- 307_at_binding_macro
unfoldable pub transform : ℤ → Outcome ℤ
unfolding in_range
transform x =
    if in_range 1 5 x
    then mul_i32 x (pos 10)
    else if in_range 6 10 x
    then mul_i32 x (pos 100)
    else done (pos 0)

unfoldable pub at_binding_main : Exit
unfolding transform
at_binding_main =
    print (λ l. l)
      (do
        a ← transform (pos 3)
        b ← transform (pos 8)
        c ← transform (pos 15)
        done (int a ∷ comma ∷ int b ∷ comma ∷ int c ∷ []))

-- 308_rest_pattern_macro
unfoldable pub sum_first_two : List ℤ → Outcome ℤ
sum_first_two (a ∷ b ∷ rest) = add_i32 a b
sum_first_two _ = done (pos 0)

unfoldable pub head : ℤ × ℤ × ℤ → ℤ
head t = t.0

unfoldable pub rest_pattern_main : Exit
unfolding sum_first_two head
rest_pattern_main =
    print (λ l. l)
      (do
        s ← sum_first_two (pos 10 ∷ pos 20 ∷ pos 30 ∷ pos 40 ∷ [])
        let h = head (pos 100, pos 200, pos 300)
        done (int s ∷ comma ∷ int h ∷ []))

-- 43_tagged_union
pub data Shape : Type 0 where
  circle : ℤ → Shape
  square : ℤ → Shape

unfoldable pub area : Shape → Outcome ℤ
area (circle r) = mul_i32 r r >>= λ rr. mul_i32 rr (pos 3)
area (square s) = mul_i32 s s

unfoldable pub tagged_union_main : Exit
unfolding area
tagged_union_main = print int_line (area (square (pos 6)))

-- 06_enum_and_match
pub data Message : Type 0 where
  quit : Message
  move : ℤ → ℤ → Message

unfoldable pub process_msg : Message → Outcome ℤ
process_msg quit = done (pos 0)
process_msg (move x y) = add_i32 x y

unfoldable pub enum_and_match_main : Exit
unfolding process_msg
enum_and_match_main = print int_line (process_msg (move (pos 10) (pos 20)))

-- 60_enum_branch
pub data Flag : Type 0 where
  a b : Flag

unfoldable pub enum_branch_value : Flag → ℤ
enum_branch_value a = pos 1
enum_branch_value b = pos 2

unfoldable pub enum_branch_main : Exit
unfolding enum_branch_value
enum_branch_main = print int_line (done (enum_branch_value b))

-- 56_state_machine
pub data State : Type 0 where
  idle running finished : State

unfoldable pub state_line : State → Line
state_line idle = lit "0" ∷ []
state_line running = lit "1" ∷ []
state_line finished = lit "2" ∷ []

unfoldable pub state_machine_main : Exit
unfolding state_line
state_machine_main = exit_ok (state_line finished ∷ [])
