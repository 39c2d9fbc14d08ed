-- ===== src/Threads.antt =====
-- Threads: demos/rosetta 126_mpmc_channel, 62_channel_pingpong, 122_condvar_wait_notify,
-- 123_barrier_sync, 130_park_unpark_thread, 108_atomic_spin_lock, 109_atomic_fetch_add,
-- 76_lockfree_counter, 121_rwlock_reader_writer, 128_rcu_read_copy_update, 129_seqlock_optimistic,
-- 61_thread_pool and 184_pthread_spawn_join. Threads that interleave are a step function: a
-- scheduler names the thread that moves, and `none` means that this thread is blocked or finished.
-- A schedule is a list of such names, and a thread that cannot move is passed over.
pub mod Channel
pub mod Condvar
pub mod Park
pub mod Barrier
pub mod Atomics
pub mod ChannelLaws
pub mod CondvarLaws
pub mod ParkLaws
pub mod BarrierLaws
pub mod AtomicLaws
