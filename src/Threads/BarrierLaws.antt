-- ===== src/Threads/BarrierLaws.antt =====
-- Laws of 123_barrier_sync.
use sa_plugin_sla.Prelude.{
  ltb, if◌then◌else◌, replicate, All, pos, ◌≤ℤ◌, int_laws, ℕ, zero, suc, ◌+◌, ◌-◌, ◌≤◌, ◌<◌, ◌≡◌,
  refl, ap, ◌∙◌, some, arith,
}
use sa_plugin_sla.Rust.{done, total, zero-add, sum_i32-done, Fits-of_nonneg}
use sa_plugin_sla.Threads.Barrier.{Barrier, arrive, or_stay, arrivals, start, results}
use native.Mathlib.Decide.{dec_lt}

arrive-waits :
    (b : Barrier)
    → 0 < b.outside
    → b.waiting + 1 < b.size
    → arrive b ≡ some (record b { outside = b.outside - 1; waiting = b.waiting + 1 })
unfolding arrive
arrive-waits b h l = ground arith

arrive-opens :
    (b : Barrier)
    → 0 < b.outside
    → b.waiting + 1 ≡ b.size
    → arrive b
      ≡ some
          (record b { outside = b.outside - 1; waiting = 0; passed = b.passed + (b.waiting + 1) })
unfolding arrive
arrive-opens b h l = ground arith

-- The last arrival of a row.
arrivals-suc :
    (k : ℕ) (b : Barrier) → arrivals (suc k) b ≡ or_stay (arrivals k b) (arrive (arrivals k b))
unfolding arrivals
arrivals-suc zero b = refl
arrivals-suc (suc k) b = arrivals-suc k (or_stay b (arrive b))

arrivals-wait :
    (threads k : ℕ)
    → k < threads
    → arrivals k (start threads)
      ≡ record { size = threads; outside = threads - k; waiting = k; passed = 0 }
unfolding arrivals start
arrivals-wait threads zero h = ground arith
arrivals-wait threads (suc k) h =
    arrivals-suc k (start threads)
    ∙ rw (arrivals-wait threads k (omega arith)) (
        rw
          (arrive-waits (record { size = threads; outside = threads - k; waiting = k; passed = 0 })
            (omega arith) (omega arith))
          (ground arith))

-- After `k` arrivals at a barrier of `threads` threads, all `k` of them wait and none has passed if
-- some thread is still missing; with the last arrival all of them have passed.
pub arrivals-eq :
    (threads k : ℕ)
    → 0 < threads
    → k ≤ threads
    → arrivals k (start threads) ≡ (
        if ltb k threads
        then record { size = threads; outside = threads - k; waiting = k; passed = 0 }
        else record { size = threads; outside = 0; waiting = 0; passed = threads })
arrivals-eq threads zero p h = rw (arrivals-wait threads zero p) (ground arith)
arrivals-eq threads (suc k) p h = elim (dec_lt (suc k) threads) [
  | yes l ↦ rw (arrivals-wait threads (suc k) l) (ground arith)
  | no l ↦
      arrivals-suc k (start threads)
      ∙ rw (arrivals-wait threads k (omega arith)) (
          rw
            (arrive-opens
              (record { size = threads; outside = threads - k; waiting = k; passed = 0 })
              (omega arith) (omega arith))
            (ground arith))
]

total-ones : (n : ℕ) → total (replicate n (pos 1)) ≡ pos n
total-ones zero = refl
total-ones (suc n) = rw (total-ones n) (omega int_laws)

ones_nonneg : (n : ℕ) → All (λ x. pos 0 ≤ℤ x) (replicate n (pos 1))
ones_nonneg zero = tt
ones_nonneg (suc n) = (omega arith, ones_nonneg n)

-- With all the threads there, the results of the joined threads add up to their number.
pub results-all :
    (threads : ℕ)
    → 0 < threads
    → threads ≤ 2147483647
    → results (arrivals threads (start threads)) ≡ done (pos threads)
unfolding results
results-all threads p h =
    let all : (arrivals threads (start threads)).passed ≡ threads =
      ap (λ (b : Barrier). b.passed) (arrivals-eq threads threads p (omega arith)) ∙ ground arith in
    rw all (
      sum_i32-done (replicate threads (pos 1)) (
        Fits-of_nonneg (pos 0) (replicate threads (pos 1)) (omega arith) (ones_nonneg threads)
          (rw (total-ones threads, zero-add (pos threads)) (omega arith)))
      ∙ cc (total-ones threads))
