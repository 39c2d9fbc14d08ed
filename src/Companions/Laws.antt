-- ===== src/Companions/Laws.antt =====
-- The search for a text in a text, and what 240_mod_entry_point_override answers.
use sa_plugin_sla.Prelude.{
  ◌==◌, pos, ◌≡◌, refl, sym, ap, subst, ◌∙◌, inl, inr, ◌↔◌, String, Bool, Bool-cases, true, &&-true,
  [], ◌∷◌, ◌++◌, arith,
}
use sa_plugin_sla.Rust.{exit_ok, int_line}
use sa_plugin_sla.Compiler.Text.{Bytes, codes, starts_with}
use sa_plugin_sla.Companions.Text.{occurs, contains, bool_as_i32}
use sa_plugin_sla.Companions.Layers.{mod_entry_point_override_main}

-- `needle` stands somewhere in `text`.
abbrev pub Occurs : Bytes → Bytes → Type 0
Occurs needle text = (before behind : Bytes) × (text ≡ before ++ (needle ++ behind))

starts_with-split :
    (text prefix : Bytes)
    → starts_with text prefix ≡ true
    → (behind : Bytes) × (text ≡ prefix ++ behind)
starts_with-split text [] h = (text, refl)
starts_with-split [] (p ∷ prefix) h = cc
starts_with-split (c ∷ text) (p ∷ prefix) h =
    let (same, more) = &&-true (c == p) (starts_with text prefix) h in
    let (behind, e) = starts_with-split text prefix more in
    let first : c ≡ p = ground arith in
    (behind, ap (◌∷◌ c) e ∙ ap (λ d. d ∷ (prefix ++ behind)) first)

starts_with-append : (prefix behind : Bytes) → starts_with (prefix ++ behind) prefix ≡ true
starts_with-append [] [] = refl
starts_with-append [] (c ∷ behind) = refl
starts_with-append (p ∷ prefix) behind = ground (arith, starts_with-append prefix behind)

occurs-Occurs : (needle text : Bytes) → occurs needle text ≡ true → Occurs needle text
unfolding occurs
occurs-Occurs needle [] h = let (behind, e) = starts_with-split [] needle h in ([], behind, e)
occurs-Occurs needle (c ∷ text) h = elim (Bool-cases (starts_with (c ∷ text) needle)) [
  | inl here ↦ let (behind, e) = starts_with-split (c ∷ text) needle here in ([], behind, e)
  | inr later ↦
      let (before, behind, e) = occurs-Occurs needle text (ground arith) in
      (c ∷ before, behind, ap (◌∷◌ c) e)
]

occurs-append : (before needle behind : Bytes) → occurs needle (before ++ (needle ++ behind)) ≡ true
unfolding occurs
occurs-append [] [] [] = refl
occurs-append [] [] (c ∷ behind) = refl
occurs-append [] (n ∷ needle) behind = ground (arith, starts_with-append (n ∷ needle) behind)
occurs-append (c ∷ before) needle behind = ground (arith, occurs-append before needle behind)

-- The text has `needle` somewhere in it.
unfoldable pub Has : String → String → Type 0
Has text needle = Occurs (codes needle) (codes text)

pub contains_iff : (text needle : String) → (contains text needle ≡ true) ↔ Has text needle
unfolding contains Has
contains_iff text needle = (
  occurs-Occurs (codes needle) (codes text),
  λ (before, behind, e).
      subst (λ t. occurs (codes needle) t ≡ true) (sym e)
        (occurs-append before (codes needle) behind),
)

prints_1 :
    (b : Bool)
    → (exit_ok (int_line (bool_as_i32 b) ∷ []) ≡ exit_ok (int_line (pos 1) ∷ [])) ↔ (b ≡ true)
prints_1 b = ground arith

-- 240_mod_entry_point_override prints 1 exactly if the entry names both directories, calls the override and nowhere
-- calls the default, and each directory's module names its detail, which exports the seed.
pub mod_entry_point_override_iff :
    (entry default default_seed override_entry override_seed : String)
    → (mod_entry_point_override_main entry default default_seed override_entry override_seed
        ≡ exit_ok (int_line (pos 1) ∷ []))
      ↔ (Has entry "entry/default/index.sa"
          × Has entry "entry/override/index.sa"
          × Has entry "call @override_entry_value()"
          × (Has entry "call @default_entry_value()" → ⊥)
          × Has default "entry/default/detail/seed.sa"
          × Has default_seed "@export default_seed()"
          × Has override_entry "entry/override/detail/seed.sa"
          × Has override_seed "@export override_seed()")
mod_entry_point_override_iff entry default default_seed override_entry override_seed = ground (
  arith,
  contains_iff entry "entry/default/index.sa",
  contains_iff entry "entry/override/index.sa",
  contains_iff entry "call @override_entry_value()",
  contains_iff entry "call @default_entry_value()",
  contains_iff default "entry/default/detail/seed.sa",
  contains_iff default_seed "@export default_seed()",
  contains_iff override_entry "entry/override/detail/seed.sa",
  contains_iff override_seed "@export override_seed()",
)
