-- ===== src/Tests/Channel.antt =====
-- 126_mpmc_channel under a schedule that alternates between the producers.
use sa_plugin_sla.Prelude.{pos, ◌≡◌, refl, List, [], ◌∷◌, arith}
use sa_plugin_sla.Rust.{exit_ok, int_line}
use sa_plugin_sla.Threads.Channel.{
  Producer, producer_a, producer_b, send_a, send_b, step, run, mpmc_main,
}
use sa_plugin_sla.Threads.ChannelLaws.{Interleaves, run-Interleaves, mpmc_main-fair}

abbrev alternate : List Producer
alternate = producer_a ∷ producer_b ∷ producer_a ∷ producer_b ∷ []

run-Interleaves_example :
    Interleaves
      (pos 1 ∷ pos 2 ∷ [])
      (pos 3 ∷ pos 4 ∷ [])
      (run alternate (record {
        pending_a = pos 1 ∷ pos 2 ∷ [];
        pending_b = pos 3 ∷ pos 4 ∷ [];
        queue = [];
      })).queue
unfolding run step send_a send_b
run-Interleaves_example =
    run-Interleaves (pos 1 ∷ pos 2 ∷ []) (pos 3 ∷ pos 4 ∷ []) alternate refl refl

mpmc_main-fair_example : mpmc_main alternate ≡ exit_ok (int_line (pos 10) ∷ [])
mpmc_main-fair_example = mpmc_main-fair alternate (omega arith) (omega arith)
