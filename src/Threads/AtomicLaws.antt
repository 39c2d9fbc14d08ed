-- ===== src/Threads/AtomicLaws.antt =====
-- Laws of 129_seqlock_optimistic and of atomic additions.
use sa_plugin_sla.Prelude.{ℤ, pos, ◌+ℤ◌, rem_ℤ, ℕ, ◌+◌, ◌*◌, ◌%◌, ◌≤◌, ◌≡◌, ap, arith}
use sa_plugin_sla.Rust.{done, InI32, add_i32-done}
use sa_plugin_sla.Threads.Atomics.{wrap_i32, fetch_add, SeqLock, write, read_result}

wrap_i32-exact : (z : ℤ) → InI32 z → wrap_i32 z ≡ z
unfolding wrap_i32
wrap_i32-exact z h = ground arith

wrap_i32-InI32 : (z : ℤ) → InI32 (wrap_i32 z)
unfolding wrap_i32
wrap_i32-InI32 z = ground arith

next_version : (m : ℕ) → m + 1 ≤ 2147483647 → wrap_i32 (pos m +ℤ pos 1) ≡ pos (m + 1)
unfolding wrap_i32 ◌+ℤ◌
next_version m h = ground arith

accepts_even :
    (v : ℤ) (m : ℕ)
    → m % 2 ≡ 0
    → InI32 (v +ℤ pos m)
    → read_result (pos m) v (pos m) ≡ done (v +ℤ pos m)
unfolding read_result rem_ℤ
accepts_even v m e h = ground (arith, add_i32-done v (pos m) h)

-- A write advances the version by two and keeps its parity, so a reader that comes after it accepts
-- the written value, if the new version and the sum that the reader returns fit.
pub write-then_read :
    (n : ℕ) (v : ℤ) (s : SeqLock)
    → s.version ≡ pos (2 * n)
    → 2 * n + 2 ≤ 2147483647
    → InI32 (v +ℤ pos (2 * n + 2))
    → let t = write v s in
      (t.version ≡ pos (2 * n + 2))
      × (read_result t.version t.payload t.version ≡ done (v +ℤ pos (2 * n + 2)))
unfolding write fetch_add read_result
write-then_read n v s e h k =
    let once : (write v s).version ≡ pos (2 * n + 2) =
      rw (e, next_version (2 * n) (omega arith), next_version (2 * n + 1) (omega arith))
        (ap pos (omega arith)) in
    (once, rw once (accepts_even v (2 * n + 2) (omega arith) k))
