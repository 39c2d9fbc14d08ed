-- ===== src/Folds.antt =====
-- The programs that loop over an array and add up what they find: demos/rosetta 29_const_data,
-- 13_array_sum, 14_slice_window, 33_iterator_map, 34_iterator_filter,
-- 44_slice_iteration, 49_pipeline_map, 65_job_scheduler, 66_actor_mailbox, 73_scene_nodes,
-- 82_sql_scan, 116_va_list_variadic, 119_simd_intrinsics, 138_epoll_kqueue_event and
-- 174_backtrace_capture. An array of a fixed size is a list here, so the functions are modelled at
-- every length.
use sa_plugin_sla.Prelude.{
  if◌then◌else◌, filter, ℤ, pos, leb_ℤ, eqb_ℤ, Bool, true, false, ◌&&◌, List, [], ◌∷◌, map,
}
use sa_plugin_sla.Rust.{Outcome, done, ◌>>=◌, ◌>>◌, Exit, print, int_line, add_i32, sum_i32}
pub mod Arrays
pub mod Laws

-- 65_job_scheduler
pub record Job : Type 0 where
  pub ready : Bool
  pub cost : ℤ

unfoldable pub scheduled_cost_from : ℤ → List Job → Outcome ℤ
scheduled_cost_from acc [] = done acc
scheduled_cost_from acc (job ∷ jobs) =
    (if job.ready then add_i32 acc job.cost else done acc) >>= λ acc'. scheduled_cost_from acc' jobs

unfoldable pub scheduled_cost : List Job → Outcome ℤ
unfolding scheduled_cost_from
scheduled_cost jobs = scheduled_cost_from (pos 0) jobs

unfoldable pub job_scheduler_main : Exit
unfolding scheduled_cost
job_scheduler_main = print int_line (
    scheduled_cost (
      record { ready = true; cost = pos 1 }
      ∷ record { ready = false; cost = pos 2 }
      ∷ record { ready = true; cost = pos 3 }
      ∷ record { ready = true; cost = pos 4 }
      ∷ []))

-- 73_scene_nodes
pub record SceneNode : Type 0 where
  pub visible : Bool
  pub weight : ℤ

unfoldable pub visible_weight_from : ℤ → List SceneNode → Outcome ℤ
visible_weight_from acc [] = done acc
visible_weight_from acc (node ∷ nodes) =
    (if node.visible then add_i32 acc node.weight else done acc) >>= λ acc'.
    visible_weight_from acc' nodes

unfoldable pub visible_weight : List SceneNode → Outcome ℤ
unfolding visible_weight_from
visible_weight nodes = visible_weight_from (pos 0) nodes

unfoldable pub scene_nodes_main : Exit
unfolding visible_weight
scene_nodes_main = print int_line (
    visible_weight (
      record { visible = true; weight = pos 4 }
      ∷ record { visible = false; weight = pos 5 }
      ∷ record { visible = true; weight = pos 6 }
      ∷ []))

-- 66_actor_mailbox
pub record Message : Type 0 where
  pub actor : ℤ
  pub payload : ℤ

unfoldable pub mailbox_score_from : ℤ → List Message → Outcome ℤ
mailbox_score_from acc [] = done acc
mailbox_score_from acc (message ∷ inbox) = do
  both ← add_i32 message.actor message.payload
  acc' ← add_i32 acc both
  mailbox_score_from acc' inbox

unfoldable pub mailbox_score : List Message → Outcome ℤ
unfolding mailbox_score_from
mailbox_score inbox = mailbox_score_from (pos 0) inbox

unfoldable pub actor_mailbox_main : Exit
unfolding mailbox_score
actor_mailbox_main = print int_line (
    mailbox_score
      (record { actor = pos 1; payload = pos 2 } ∷ record { actor = pos 2; payload = pos 3 } ∷ []))

-- 82_sql_scan
pub record Row : Type 0 where
  pub active : Bool
  pub age : ℤ

unfoldable pub qualifies : Row → Bool
qualifies row = row.active && leb_ℤ (pos 18) row.age

unfoldable pub ages : List Row → List ℤ
unfolding qualifies
ages rows = map (λ (row : Row). row.age) (filter qualifies rows)

unfoldable pub sql_scan_score : List Row → Outcome ℤ
unfolding ages
sql_scan_score rows = sum_i32 (ages rows)

unfoldable pub sql_scan_main : Exit
unfolding sql_scan_score
sql_scan_main = print int_line (
    sql_scan_score (
      record { active = true; age = pos 21 }
      ∷ record { active = false; age = pos 40 }
      ∷ record { active = true; age = pos 17 }
      ∷ []))

-- 138_epoll_kqueue_event
pub record Event : Type 0 where
  pub token : ℤ
  pub ready : Bool

unfoldable pub ready_sum : List Event → Outcome ℤ
ready_sum events =
    sum_i32 (map (λ (event : Event). event.token) (filter (λ event. event.ready) events))

unfoldable pub epoll_main : Exit
unfolding ready_sum
epoll_main = print int_line (
    ready_sum (
      record { token = pos 1; ready = true }
      ∷ record { token = pos 2; ready = true }
      ∷ record { token = pos 4; ready = false }
      ∷ []))

-- 174_backtrace_capture: an entry that is not zero is a frame.
unfoldable pub backtrace_depth_from : ℤ → List ℤ → Outcome ℤ
backtrace_depth_from depth [] = done depth
backtrace_depth_from depth (frame ∷ frames) =
    (if eqb_ℤ frame (pos 0) then done depth else add_i32 depth (pos 1)) >>= λ depth'.
    backtrace_depth_from depth' frames

unfoldable pub synthetic_backtrace_depth : List ℤ → Outcome ℤ
unfolding backtrace_depth_from
synthetic_backtrace_depth frames = backtrace_depth_from (pos 0) frames

unfoldable pub backtrace_main : Exit
unfolding synthetic_backtrace_depth
backtrace_main =
    print int_line (synthetic_backtrace_depth (pos 101 ∷ pos 202 ∷ pos 303 ∷ pos 0 ∷ []))
