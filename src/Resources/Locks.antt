-- ===== src/Resources/Locks.antt =====
-- 102_raii_guard: a mutex and the guard that unlocks it on every way out of `inspect`.
use sa_plugin_sla.Prelude.{
  if◌then◌else◌, ℤ, pos, Bool, true, false, ◌||◌, Option, none, some, List, [], ◌∷◌,
}
use sa_plugin_sla.Rust.{Panic, unwrap_failed, done, panic, Exit, print, int_line, add_i32}

pub record Mutex : Type 0 where
  pub held : Bool
  pub poisoned : Bool
  pub value : ℤ

-- How a call on a mutex ends: it returns, it panics, or it waits for a lock that is never given back.
pub data Called : Type 0 where
  returned : ℤ → Mutex → Called
  panicked : Panic → Mutex → Called
  blocked : Called

-- The guard's destructor unlocks; if it runs because of a panic, it poisons the mutex too.
unfoldable pub unlock : Bool → Mutex → Mutex
unlock panicking m = record m { held = false; poisoned = m.poisoned || panicking }

-- The body of `inspect` below the lock.
unfoldable pub inspect_locked : Mutex → Bool → Called
unfolding unlock
inspect_locked m skip =
    if skip then returned m.value (unlock false m) else elim (add_i32 m.value (pos 3)) [
      | done v ↦ returned v (unlock false (record m { value = v }))
      | panic e ↦ panicked e (unlock true m)
    ]

-- `lock().unwrap()` takes the lock, and panics on a poisoned mutex while its guard, inside the error,
-- unlocks again.
unfoldable pub inspect : Mutex → Bool → Called
unfolding inspect_locked
inspect m skip =
    if m.held
    then blocked
    else if m.poisoned
    then panicked unwrap_failed m
    else inspect_locked (record m { held = true }) skip

-- What follows a call: the next calls, if it returned.
unfoldable pub after : Called → (Mutex → List ℤ × Called) → List ℤ × Called
after (returned v m) next = let (vs, last) = next m in (v ∷ vs, last)
after (panicked e m) next = ([], panicked e m)
after blocked next = ([], blocked)

-- A sequence of calls: the results that they return, and how it ends.
unfoldable pub inspect_all : Mutex → List Bool → List ℤ × Called
unfolding inspect after
inspect_all m [] = ([], returned (pos 0) m)
inspect_all m (skip ∷ skips) = after (inspect m skip) (λ m'. inspect_all m' skips)

-- `main`: the two calls, and the line that it prints if both return. `none` means that it waits for
-- ever.
unfoldable pub two_calls : Mutex → Option Exit
unfolding inspect
two_calls counter = elim (inspect counter true) [
  | blocked ↦ none
  | panicked e m ↦ some (record { stdout = []; status = panic e })
  | returned first m ↦ elim (inspect m false) [
    | blocked ↦ none
    | panicked e m' ↦ some (record { stdout = []; status = panic e })
    | returned second m' ↦ some (print int_line (add_i32 first second))
  ]
]

unfoldable pub raii_guard_main : Option Exit
unfolding two_calls
raii_guard_main = two_calls (record { held = false; poisoned = false; value = pos 0 })
