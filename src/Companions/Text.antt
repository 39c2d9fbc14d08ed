-- ===== src/Companions/Text.antt =====
-- What the programs that check companion files use of `str`: the search for a text in a text.
use sa_plugin_sla.Prelude.{
  ℤ, pos, ℕ, suc, String, Bool, true, false, ltb, if◌then◌else◌, ◌||◌, Option, none, some, [], ◌∷◌,
}
use sa_plugin_sla.Compiler.Text.{Bytes, codes, starts_with}

-- Whether `needle` occurs in the text.
unfoldable pub occurs : Bytes → Bytes → Bool
occurs needle [] = starts_with [] needle
occurs needle (c ∷ s) = starts_with (c ∷ s) needle || occurs needle s

-- The first place where it occurs, in characters: they are ordered as the offsets in bytes are.
unfoldable pub first_place : Bytes → Bytes → Option ℕ
first_place needle [] = if starts_with [] needle then some 0 else none
first_place needle (c ∷ s) =
    let later = first_place needle s in
    if starts_with (c ∷ s) needle
    then some 0
    else elim later [ none ↦ none | some n ↦ some (suc n) ]

unfoldable pub contains : String → String → Bool
unfolding occurs
contains text needle = occurs (codes needle) (codes text)

unfoldable pub find : String → String → Option ℕ
unfolding first_place
find text needle = first_place (codes needle) (codes text)

abbrev pub begins_with : String → String → Bool
begins_with text prefix = starts_with (codes text) (codes prefix)

-- `<` of `Option<usize>`: `None` is below every `Some`.
abbrev pub lt_option : Option ℕ → Option ℕ → Bool
lt_option none none = false
lt_option none (some b) = true
lt_option (some a) none = false
lt_option (some a) (some b) = ltb a b

abbrev pub bool_as_i32 : Bool → ℤ
bool_as_i32 true = pos 1
bool_as_i32 false = pos 0
