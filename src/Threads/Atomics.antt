-- ===== src/Threads/Atomics.antt =====
-- Atomic cells, locks used by one thread at a time, and threads that are joined at once.
use sa_plugin_sla.Prelude.{
  ltb, if◌then◌else◌, ℤ, pos, negsuc, pos_part, neg_part, ◌+ℤ◌, eqb_ℤ, rem_ℤ, ℕ, zero, suc, ◌+◌,
  ◌-◌, ◌%◌, Bool, true, false, ◌&&◌, Option, none, some, [], ◌∷◌,
}
use sa_plugin_sla.Rust.{
  unwrap_failed, Outcome, done, panic, ◌>>=◌, lit, Exit, exit_ok, print, int_line, add_i32,
}

-- An atomic addition wraps.
unfoldable pub wrap_i32 : ℤ → ℤ
wrap_i32 z =
    let w = (pos_part z + 4294967296 - neg_part z % 4294967296) % 4294967296 in
    if ltb w 2147483648 then pos w else negsuc (4294967295 - w)

-- The old value, and the new content.
unfoldable pub fetch_add : ℤ → ℤ → ℤ × ℤ
unfolding wrap_i32
fetch_add n cell = (cell, wrap_i32 (cell +ℤ n))

-- 109_atomic_fetch_add
unfoldable pub fetch_add_main : Exit
unfolding fetch_add
fetch_add_main = let (old, new) = fetch_add (pos 3) (pos 5) in print int_line (add_i32 old new)

-- 76_lockfree_counter
unfoldable pub lockfree_main : Exit
unfolding fetch_add
lockfree_main = let (old, counter) = fetch_add (pos 2) (pos 1) in print int_line (done counter)

-- 108_atomic_spin_lock: whether the exchange succeeded, and the new content.
unfoldable pub compare_exchange : ℤ → ℤ → ℤ → Bool × ℤ
compare_exchange current new cell = if eqb_ℤ cell current then (true, new) else (false, cell)

-- The loop spins while the exchange fails; `none` means that the fuel ran out.
unfoldable pub acquire : ℕ → ℤ → Option ℤ
unfolding compare_exchange
acquire zero lock = none
acquire (suc fuel) lock =
    let (taken, lock') = compare_exchange (pos 0) (pos 1) lock in
    let again = acquire fuel lock' in if taken then some lock' else again

unfoldable pub spin_lock_main : Exit
unfolding acquire
spin_lock_main = elim (acquire 1 (pos 0)) [
  | some lock ↦ exit_ok ((lit "1" ∷ []) ∷ [])
  | none ↦ exit_ok []
]

-- 121_rwlock_reader_writer: the reader is joined before the writer locks.
unfoldable pub rwlock_total : ℤ → Outcome ℤ
rwlock_total shared = do
  let first = shared
  shared' ← add_i32 shared (pos 2)
  let second = shared'
  add_i32 first second

unfoldable pub rwlock_main : Exit
unfolding rwlock_total
rwlock_main = print int_line (rwlock_total (pos 1))

-- 128_rcu_read_copy_update
unfoldable pub rcu_total : ℤ → Outcome ℤ
rcu_total old_snapshot = do
  let reader_seen = old_snapshot
  new_snapshot ← add_i32 old_snapshot (pos 1)
  add_i32 reader_seen new_snapshot

unfoldable pub rcu_main : Exit
unfolding rcu_total
rcu_main = print int_line (rcu_total (pos 1))

-- 129_seqlock_optimistic: the two cells that the writer and the reader share.
pub record SeqLock : Type 0 where
  pub version : ℤ
  pub payload : ℤ

unfoldable pub write : ℤ → SeqLock → SeqLock
unfolding fetch_add
write v s =
    let s1 : SeqLock = record s { version = (fetch_add (pos 1) s.version).1 } in
    let s2 : SeqLock = record s1 { payload = v } in
    record s2 { version = (fetch_add (pos 1) s2.version).1 }

-- What the reader makes of its three loads.
unfoldable pub read_result : ℤ → ℤ → ℤ → Outcome ℤ
read_result begin value end =
    if eqb_ℤ begin end && eqb_ℤ (rem_ℤ begin (pos 2)) (pos 0)
    then add_i32 value end
    else done (pos 0)

unfoldable pub seqlock_main : Exit
unfolding write read_result
seqlock_main =
    let s = write (pos 10) (record { version = pos 0; payload = pos 0 }) in
    print int_line (read_result s.version s.payload s.version)

-- 61_thread_pool
unfoldable pub worker_score : ℤ → ℤ → Outcome ℤ
worker_score base delta = add_i32 base delta

-- `join().unwrap()` panics if the thread did, with a panic of its own.
abbrev join : Outcome ℤ → Outcome ℤ
join (done v) = done v
join (panic e) = panic unwrap_failed

unfoldable pub thread_pool_main : Exit
unfolding worker_score
thread_pool_main = print int_line (do
  a ← join (worker_score (pos 1) (pos 2))
  b ← join (worker_score (pos 2) (pos 3))
  ab ← add_i32 a b
  c ← join (worker_score (pos 3) (pos 4))
  add_i32 ab c)

-- 184_pthread_spawn_join
unfoldable pub worker : ℤ → Outcome ℤ
worker value = add_i32 value (pos 4)

unfoldable pub spawn_join_main : Exit
unfolding worker
spawn_join_main = print int_line (join (worker (pos 1)))
