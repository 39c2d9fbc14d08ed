-- ===== src/Threads/Channel.antt =====
-- 126_mpmc_channel: two producers send their values, in order, over one channel.
use sa_plugin_sla.Prelude.{ℤ, pos, ℕ, zero, suc, Option, none, some, List, [], ◌∷◌, ◌++◌}
use sa_plugin_sla.Rust.{
  unwrap_failed, Outcome, done, panic, ◌>>=◌, Exit, print, int_line, add_i32, sum_i32,
}

pub data Producer : Type 0 where
  producer_a producer_b : Producer

pub record Chan : Type 0 where
  pub pending_a : List ℤ
  pub pending_b : List ℤ
  pub queue : List ℤ

-- `send` appends to the queue. The receiver outlives the producers, so it does not fail.
unfoldable pub send_a : List ℤ → Chan → Option Chan
send_a [] c = none
send_a (x ∷ rest) c = some (record c { pending_a = rest; queue = c.queue ++ x ∷ [] })

unfoldable pub send_b : List ℤ → Chan → Option Chan
send_b [] c = none
send_b (x ∷ rest) c = some (record c { pending_b = rest; queue = c.queue ++ x ∷ [] })

unfoldable pub step : Producer → Chan → Option Chan
unfolding send_a send_b
step producer_a c = send_a c.pending_a c
step producer_b c = send_b c.pending_b c

abbrev pub or_stay : Chan → Option Chan → Chan
or_stay c none = c
or_stay c (some d) = d

unfoldable pub run : List Producer → Chan → Chan
unfolding step
run [] c = c
run (p ∷ schedule) c = run schedule (or_stay c (step p c))

unfoldable pub start : Chan
start = record { pending_a = pos 1 ∷ pos 2 ∷ []; pending_b = pos 3 ∷ pos 4 ∷ []; queue = [] }

abbrev pub take : ℕ → List ℤ → List ℤ
take zero xs = []
take (suc n) [] = []
take (suc n) (x ∷ xs) = x ∷ take n xs

-- Once both producers are joined, their senders are gone, and the iterator ends with the queue.
unfoldable pub received : Chan → Outcome ℤ
received c = sum_i32 (take 4 c.queue)

unfoldable pub mpmc_main : List Producer → Exit
unfolding run start received
mpmc_main schedule = print int_line (received (run schedule start))

-- 62_channel_pingpong: one thread sends to itself over the queue.
unfoldable pub recv : List ℤ → Outcome (ℤ × List ℤ)
recv [] = panic unwrap_failed
recv (x ∷ queue) = done (x, queue)

unfoldable pub round_trip : ℤ → Outcome ℤ
unfolding recv
round_trip ball = do
  r ← recv ([] ++ ball ∷ [])
  next ← add_i32 r.0 (pos 1)
  r' ← recv (r.1 ++ next ∷ [])
  done r'.0

unfoldable pub pingpong_main : Exit
unfolding round_trip
pingpong_main = print int_line (round_trip (pos 8))
