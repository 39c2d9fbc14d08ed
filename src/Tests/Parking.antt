-- ===== src/Tests/Parking.antt =====
-- 130_park_unpark_thread: the token is made available before the worker parks.
use sa_plugin_sla.Prelude.{◌≡◌, ◌⊎◌, true, List, [], ◌∷◌}
use sa_plugin_sla.Threads.Park.{Move, main_thread, worker, finished, returned, step, run, start}
use sa_plugin_sla.Threads.ParkLaws.{can_move, all_threads, park-progress, park-finishes}

abbrev early : List Move
early = worker ∷ main_thread ∷ main_thread ∷ []

park-finishes_example :
    (more : List Move) × (all_threads more ≡ true)
    × ((run more (run early start)).main_pc ≡ finished)
    × ((run more (run early start)).worker_pc ≡ returned)
park-finishes_example = park-finishes early

park-progress_example :
    let s = run early start in
    ((s.main_pc ≡ finished) × (s.worker_pc ≡ returned))
    ⊎ (can_move (step main_thread s) ≡ true)
    ⊎ (can_move (step worker s) ≡ true)
park-progress_example = park-progress early
