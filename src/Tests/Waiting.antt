-- ===== src/Tests/Waiting.antt =====
-- 122_condvar_wait_notify: the main thread sleeps first, is woken for nothing, and sleeps again.
use sa_plugin_sla.Prelude.{◌≡◌, ◌⊎◌, true, List, [], ◌∷◌, map}
use sa_plugin_sla.Threads.Condvar.{
  Thread, main_thread, notifier, Move, thread, spurious, finished, step, run, start,
}
use sa_plugin_sla.Threads.CondvarLaws.{can_move, condvar-progress, condvar-finishes}

abbrev restless : List Move
restless = thread main_thread ∷ thread main_thread ∷ spurious ∷ thread main_thread ∷ []

abbrev to_the_end : List Move
to_the_end =
    thread main_thread
    ∷ thread main_thread
    ∷ thread notifier
    ∷ thread notifier
    ∷ thread notifier
    ∷ thread notifier
    ∷ thread main_thread
    ∷ thread main_thread
    ∷ []

condvar-finishes_example :
    (threads : List Thread) × ((run (map thread threads) (run restless start)).main_pc ≡ finished)
condvar-finishes_example = condvar-finishes restless

condvar-progress_example :
    let s = run restless start in
    (s.main_pc ≡ finished)
    ⊎ (can_move (step (thread main_thread) s) ≡ true)
    ⊎ (can_move (step (thread notifier) s) ≡ true)
condvar-progress_example = condvar-progress restless
