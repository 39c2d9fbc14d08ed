-- ===== src/Compiler/BranchLaws.antt =====
-- Laws of the merging of branches, and of `?` in macro bodies.
use sa_plugin_sla.Prelude.{
  if◌then◌else◌, ℕ, ◌+◌, ◌≡◌, refl, ◌∙◌, ◌≢◌, ◌↔◌, ◌⊎◌, Bool, true, false, ◌&&◌, ◌||◌, List, [],
  ◌∷◌, arith,
}
use sa_plugin_sla.Compiler.Branches.{
  BranchStateMergeAction, restore_then, restore_else, keep_current, plan_branch_state_merge,
  MultiBranchStateMergeAction, restore_single, intersect_live, plan_multi_branch_state_merge,
  ValueState, uninitialized, active, same_state, intersect_from, intersect_live_branch_value_states,
}

abbrev pub all_are : ValueState → List ValueState → Bool
all_are s [] = true
all_are s (t ∷ ts) = same_state t s && all_are s ts

abbrev pub some_is : ValueState → List ValueState → Bool
some_is s [] = false
some_is s (t ∷ ts) = same_state t s || some_is s ts

intersect_from-flags :
    (first : ValueState) (p q : Bool) (states : List ValueState)
    → intersect_from first p q states
      ≡ (p && all_are first states, q || some_is uninitialized states)
unfolding intersect_from
intersect_from-flags first p q [] = ground arith
intersect_from-flags first p q (s ∷ states) =
    intersect_from-flags first (p && same_state s first) (q || same_state s uninitialized) states
    ∙ ground arith

all_are-some_is_uninitialized :
    (s : ValueState) (states : List ValueState)
    → s ≢ uninitialized
    → all_are s states ≡ true
    → some_is uninitialized states ≡ false
all_are-some_is_uninitialized s [] n h = refl
all_are-some_is_uninitialized s (t ∷ ts) n h = ground (arith, all_are-some_is_uninitialized s ts n)

-- The merged state of live branches does not depend on their order: it is active exactly if the
-- value is active in all of them, and uninitialized exactly if it is so in one of them.
pub intersect_live_iff :
    (first : ValueState) (states : List ValueState)
    → let merged = intersect_live_branch_value_states (first ∷ states) in
      ((merged ≡ active) ↔ (all_are active (first ∷ states) ≡ true))
      × ((merged ≡ uninitialized) ↔ (some_is uninitialized (first ∷ states) ≡ true))
unfolding intersect_live_branch_value_states
intersect_live_iff first states =
    rw (intersect_from-flags first true (same_state first uninitialized) states)
      (ground (arith, all_are-some_is_uninitialized first states))

abbrev pub live : Bool → ℕ
live terminated = if terminated then 0 else 1

-- The plan for two branches and the one for any number of them agree: both go back to the state
-- before the branches if none is live, both take the state of the only live one, and both merge
-- the states if two are live.
pub plan_branch-plan_multi :
    (t e : Bool)
    → let plan = plan_branch_state_merge t e in
      let multi = plan_multi_branch_state_merge (live t + live e) in
      ((plan ≡ BranchStateMergeAction.restore_pre)
        ↔ (multi ≡ MultiBranchStateMergeAction.restore_pre))
      × (((plan ≡ restore_then) ⊎ (plan ≡ restore_else)) ↔ (multi ≡ restore_single))
      × ((plan ≡ keep_current) ↔ (multi ≡ intersect_live))
unfolding plan_branch_state_merge plan_multi_branch_state_merge
plan_branch-plan_multi true true = ground arith
plan_branch-plan_multi true false = ground arith
plan_branch-plan_multi false true = ground arith
plan_branch-plan_multi false false = ground arith
