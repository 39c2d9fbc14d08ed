-- ===== src/Traits/Objects.antt =====
-- A trait is a record of its methods over the implementing type, and a trait object is a value
-- together with the methods for its type.
use sa_plugin_sla.Prelude.{ℤ, pos, List, [], ◌∷◌}
use sa_plugin_sla.Rust.{Outcome, done, ◌>>=◌, Exit, print, int_line, add_i32}

-- 07_trait_vtable and 163_object_safety_rules
pub record Draw (T : Type 0) : Type 0 where
  pub draw : T → ℤ

pub record DynDraw : Type 1 where
  pub Target : Type 0
  pub methods : Draw Target
  pub value : Target

unfoldable pub render : DynDraw → ℤ
render item = item.methods.draw item.value

pub record Button : Type 0 where
  pub id : ℤ

unfoldable pub button_draw : Draw Button
button_draw = record { draw = λ (b : Button). b.id }

unfoldable pub trait_vtable_main : Exit
unfolding render button_draw
trait_vtable_main = print int_line (
    done
      (render (record { Target = Button; methods = button_draw; value = record { id = pos 77 } })))

-- 163_object_safety_rules
pub record Sprite : Type 0 where
  pub value : ℤ

unfoldable pub sprite_draw : Draw Sprite
sprite_draw = record { draw = λ (s : Sprite). s.value }

unfoldable pub object_safety_main : Exit
unfolding render sprite_draw
object_safety_main = print int_line (
    done (
      render (record { Target = Sprite; methods = sprite_draw; value = record { value = pos 4 } })))

-- 32_trait_object_vector: a score is computed when the sum asks for it.
pub record Score (T : Type 0) : Type 0 where
  pub score : T → Outcome ℤ

pub record DynScore : Type 1 where
  pub Target : Type 0
  pub methods : Score Target
  pub value : Target

pub data AddOne : Type 0 where
  add_one_to : ℤ → AddOne

pub data AddTwo : Type 0 where
  add_two_to : ℤ → AddTwo

unfoldable pub score_add_one : AddOne → Outcome ℤ
score_add_one (add_one_to z) = add_i32 z (pos 1)

unfoldable pub score_add_two : AddTwo → Outcome ℤ
score_add_two (add_two_to z) = add_i32 z (pos 2)

abbrev pub boxed_one : ℤ → DynScore
boxed_one z = record {
  Target = AddOne;
  methods = record { score = score_add_one };
  value = add_one_to z;
}

abbrev pub boxed_two : ℤ → DynScore
boxed_two z = record {
  Target = AddTwo;
  methods = record { score = score_add_two };
  value = add_two_to z;
}

unfoldable pub total_score_from : ℤ → List DynScore → Outcome ℤ
total_score_from acc [] = done acc
total_score_from acc (v ∷ vs) = do
  s ← v.methods.score v.value
  acc' ← add_i32 acc s
  total_score_from acc' vs

unfoldable pub total_score : List DynScore → Outcome ℤ
unfolding total_score_from
total_score vs = total_score_from (pos 0) vs

unfoldable pub trait_object_main : Exit
unfolding total_score score_add_one score_add_two
trait_object_main = print int_line (total_score (boxed_one (pos 4) ∷ boxed_two (pos 5) ∷ []))
