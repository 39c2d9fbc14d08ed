-- ===== src/Resources/LockLaws.antt =====
-- Laws of 102_raii_guard: the mutex after calls.
use native.Mathlib.Nat.{add-zero}
use sa_plugin_sla.Prelude.{
  length, ℤ, pos, ◌+ℤ◌, ℕ, suc, ◌+◌, ◌*◌, ◌≤◌, ◌≡◌, refl, ap, ◌∙◌, Bool, true, false, List, [], ◌∷◌,
  arith,
}
use sa_plugin_sla.Rust.{checked, add_i32}
use sa_plugin_sla.Resources.Locks.{
  Mutex, Called, returned, panicked, blocked, inspect, after, inspect_all,
}

-- The call ended with the mutex unlocked.
abbrev pub Unlocked : Called → Type 0
Unlocked (returned v m) = m.held ≡ false
Unlocked (panicked e m) = m.held ≡ false
Unlocked blocked = ⊥

inspect-Unlocked : (m : Mutex) (skip : Bool) → m.held ≡ false → Unlocked (inspect m skip)
unfolding inspect
inspect-Unlocked m skip h = ground arith

after-Unlocked :
    (c : Called) (next : Mutex → List ℤ × Called)
    → Unlocked c
    → ((m : Mutex) → m.held ≡ false → Unlocked (next m).1)
    → Unlocked (after c next).1
unfolding after
after-Unlocked (returned v m) next u h = h m u
after-Unlocked (panicked e m) next u h = u
after-Unlocked blocked next u h = u

-- No sequence of calls on an unlocked mutex blocks: it ends with the mutex unlocked, also if a call
-- panics or the mutex was poisoned before.
pub inspect_all-Unlocked :
    (m : Mutex) (skips : List Bool) → m.held ≡ false → Unlocked (inspect_all m skips).1
unfolding inspect_all
inspect_all-Unlocked m [] h = h
inspect_all-Unlocked m (skip ∷ skips) h =
    after-Unlocked (inspect m skip) (λ m'. inspect_all m' skips) (inspect-Unlocked m skip h)
      (λ m'. inspect_all-Unlocked m' skips)

abbrev pub updates : List Bool → ℕ
updates [] = 0
updates (true ∷ skips) = updates skips
updates (false ∷ skips) = suc (updates skips)

abbrev pub free_with : ℕ → Mutex
free_with n = record { held = false; poisoned = false; value = pos n }

inspect-free :
    (n : ℕ) (skip : Bool)
    → n + 3 * updates (skip ∷ []) ≤ 2147483647
    → inspect (free_with n) skip
      ≡ returned (pos (n + 3 * updates (skip ∷ []))) (free_with (n + 3 * updates (skip ∷ [])))
unfolding inspect add_i32 checked ◌+ℤ◌
inspect-free n true h = ground arith
inspect-free n false h = ground arith

-- A sequence of calls that stays in range adds 3 for every call that does not skip, and all of them
-- return.
pub inspect_all-value :
    (n : ℕ) (skips : List Bool)
    → n + 3 * updates skips ≤ 2147483647
    → ((inspect_all (free_with n) skips).1 ≡ returned (pos 0) (free_with (n + 3 * updates skips)))
      × (length (inspect_all (free_with n) skips).0 ≡ length skips)
unfolding inspect_all
inspect_all-value n [] h = (rw add-zero, refl)
inspect_all-value n (skip ∷ skips) h =
    let split : updates (skip ∷ skips) ≡ updates (skip ∷ []) + updates skips = ground arith in
    let (last, count) = inspect_all-value (n + 3 * updates (skip ∷ [])) skips (omega arith) in
    rw (inspect-free n skip (omega arith))
      (last ∙ ap (λ k. returned (pos 0) (free_with k)) (omega arith), ap suc count)
