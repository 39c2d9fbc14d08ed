-- ===== src/Tests/Mains.antt =====
-- Programs with the lines that they print.
use sa_plugin_sla.Prelude.{pos, negsuc, ◌+ℤ◌, ◌-ℤ◌, ◌*ℤ◌, quot_ℤ, rem_ℤ, ◌≡◌, refl, some, [], ◌∷◌}
use sa_plugin_sla.Rust.{
  lit, int, nat, chars, exit_ok, checked, add_i32, mul_i32, div_i32, rem_i32, below, add_u8, mul_u8,
  sum_from, sum_i32,
}
use sa_plugin_sla.Codec.Base64.{b64, base64_main, encode, index, sextets}
use sa_plugin_sla.Collections.Maps.{at_key, get, insert, router_main}
use sa_plugin_sla.Collections.Queues.{
  drop, fill_zero, fill_zero_from, job_queue_main, loop_main, pop_front, push_back,
  queue_rotate_main, rotate_left, set_elem, take,
}
use sa_plugin_sla.Dispatch.Patterns.{
  grade, in_range, range_pattern_main, state_line, state_machine_main,
}
use sa_plugin_sla.Dispatch.Requests.{
  as_i32, parser_tokens_main, token_score, token_score_from, token_value,
}
use sa_plugin_sla.Errors.Results.{
  chained_sum, compute, if_let_main, question, result_question_main, triple_ok, unwrap_or,
}
use sa_plugin_sla.Folds.{
  actor_mailbox_main, ages, backtrace_depth_from, backtrace_main, job_scheduler_main, mailbox_score,
  mailbox_score_from, qualifies, scheduled_cost, scheduled_cost_from, sql_scan_main, sql_scan_score,
  synthetic_backtrace_depth,
}
use sa_plugin_sla.Folds.Arrays.{
  even_sum_from, first, iterator_filter_main, skip, slice, slice_window_main,
}
use sa_plugin_sla.Loops.Counters.{cold, hot, nested_loops_main, profile_main, repeat_add, row, rows}
use sa_plugin_sla.Numeric.Choices.{cache_eviction_main, evict_key}
use sa_plugin_sla.Operators.Events.{event_loop_main, run_loop, run_loop_from}
use sa_plugin_sla.Operators.Vectors.{alias_flattening_main, bullet_of, bullet_total, spawn_bullet}
use sa_plugin_sla.Resources.Cells.{
  build, builder_main, new_builder, run_calls, vtable, waker_main, with_method, with_path,
}
use sa_plugin_sla.Resources.Locks.{
  after, inspect, inspect_locked, raii_guard_main, two_calls, unlock,
}
use sa_plugin_sla.Tasks.Future.{
  branch_a, branch_b, branch_c, drain_queue, executor_main, executor_total, select_biased,
  select_main, task_one, task_three, task_two,
}
use sa_plugin_sla.Threads.Atomics.{
  acquire, compare_exchange, fetch_add, read_result, seqlock_main, spin_lock_main, wrap_i32, write,
}
use sa_plugin_sla.Threads.Channel.{pingpong_main, recv, round_trip}
use sa_plugin_sla.Traits.Objects.{
  score_add_one, score_add_two, total_score, total_score_from, trait_object_main,
}

job_scheduler_prints : job_scheduler_main ≡ exit_ok ((int (pos 8) ∷ []) ∷ [])
unfolding job_scheduler_main ◌*ℤ◌ add_i32 ◌-ℤ◌ checked scheduled_cost scheduled_cost_from ◌+ℤ◌
job_scheduler_prints = refl

actor_mailbox_prints : actor_mailbox_main ≡ exit_ok ((int (pos 8) ∷ []) ∷ [])
unfolding actor_mailbox_main ◌*ℤ◌ add_i32 ◌-ℤ◌ mailbox_score_from checked mailbox_score ◌+ℤ◌
actor_mailbox_prints = refl

sql_scan_prints : sql_scan_main ≡ exit_ok ((int (pos 21) ∷ []) ∷ [])
unfolding sql_scan_main ◌*ℤ◌ qualifies sql_scan_score add_i32 ◌-ℤ◌ ages sum_i32 checked sum_from
    ◌+ℤ◌
sql_scan_prints = refl

backtrace_prints : backtrace_main ≡ exit_ok ((int (pos 3) ∷ []) ∷ [])
unfolding backtrace_main ◌*ℤ◌ add_i32 backtrace_depth_from ◌-ℤ◌ checked synthetic_backtrace_depth
    ◌+ℤ◌
backtrace_prints = refl

slice_window_prints : slice_window_main ≡ exit_ok ((int (pos 5) ∷ []) ∷ [])
unfolding slice_window_main ◌*ℤ◌ add_i32 ◌-ℤ◌ skip sum_i32 slice checked first sum_from ◌+ℤ◌
slice_window_prints = refl

iterator_filter_prints : iterator_filter_main ≡ exit_ok ((int (pos 6) ∷ []) ∷ [])
unfolding iterator_filter_main ◌*ℤ◌ add_i32 ◌-ℤ◌ rem_ℤ even_sum_from checked rem_i32 div_i32 quot_ℤ
    ◌+ℤ◌
iterator_filter_prints = refl

parser_tokens_prints : parser_tokens_main ≡ exit_ok ((int (pos 15) ∷ []) ∷ [])
unfolding parser_tokens_main token_score as_i32 ◌*ℤ◌ add_i32 ◌-ℤ◌ checked token_value
    token_score_from ◌+ℤ◌
parser_tokens_prints = refl

range_pattern_prints :
    range_pattern_main
    ≡ exit_ok (
        (int (pos 0)
          ∷ lit ","
          ∷ int (pos 1)
          ∷ lit ","
          ∷ int (pos 2)
          ∷ lit ","
          ∷ int (pos 3)
          ∷ lit ","
          ∷ int (negsuc 0)
          ∷ [])
        ∷ [])
unfolding range_pattern_main grade in_range
range_pattern_prints = refl

state_machine_prints : state_machine_main ≡ exit_ok ((lit "2" ∷ []) ∷ [])
unfolding state_machine_main state_line
state_machine_prints = refl

cache_eviction_prints : cache_eviction_main ≡ exit_ok ((int (pos 30) ∷ []) ∷ [])
unfolding cache_eviction_main evict_key
cache_eviction_prints = refl

base64_prints : base64_main ≡ exit_ok ((chars (84 ∷ 87 ∷ 70 ∷ 117 ∷ []) ∷ []) ∷ [])
unfolding base64_main index add_u8 below b64 sextets encode mul_u8
base64_prints = refl

waker_prints : waker_main ≡ exit_ok ((nat 3 ∷ []) ∷ [])
unfolding waker_main after run_calls vtable
waker_prints = refl

builder_prints : builder_main ≡ exit_ok ((lit "POST" ∷ lit " " ∷ lit "/api" ∷ []) ∷ [])
unfolding builder_main new_builder with_method with_path build
builder_prints = refl

raii_guard_prints : raii_guard_main ≡ some (exit_ok ((int (pos 3) ∷ []) ∷ []))
unfolding raii_guard_main two_calls inspect inspect_locked unlock add_i32 checked ◌+ℤ◌
raii_guard_prints = refl

pingpong_prints : pingpong_main ≡ exit_ok ((int (pos 9) ∷ []) ∷ [])
unfolding pingpong_main ◌*ℤ◌ add_i32 ◌-ℤ◌ checked round_trip recv ◌+ℤ◌
pingpong_prints = refl

spin_lock_prints : spin_lock_main ≡ exit_ok ((lit "1" ∷ []) ∷ [])
unfolding spin_lock_main compare_exchange acquire
spin_lock_prints = refl

seqlock_prints : seqlock_main ≡ exit_ok ((int (pos 12) ∷ []) ∷ [])
unfolding seqlock_main fetch_add ◌*ℤ◌ add_i32 wrap_i32 ◌-ℤ◌ read_result rem_ℤ write checked ◌+ℤ◌
seqlock_prints = refl

select_prints : select_main ≡ some (exit_ok ((int (pos 11) ∷ []) ∷ []))
unfolding select_main branch_a branch_c select_biased branch_b
select_prints = refl

executor_prints : executor_main ≡ exit_ok ((int (pos 6) ∷ []) ∷ [])
unfolding executor_main ◌*ℤ◌ add_i32 drain_queue ◌-ℤ◌ checked task_two executor_total task_one
    task_three ◌+ℤ◌
executor_prints = refl

result_question_prints : result_question_main ≡ exit_ok ((int (pos 21) ∷ []) ∷ [])
unfolding result_question_main ◌*ℤ◌ ◌-ℤ◌ compute unwrap_or question checked mul_i32 ◌+ℤ◌ triple_ok
result_question_prints = refl

if_let_prints : if_let_main ≡ exit_ok ((int (pos 9) ∷ []) ∷ [])
unfolding if_let_main chained_sum ◌*ℤ◌ add_i32 ◌-ℤ◌ checked ◌+ℤ◌
if_let_prints = refl

queue_rotate_prints :
    queue_rotate_main
    ≡ exit_ok ((int (pos 2) ∷ lit "," ∷ int (pos 3) ∷ lit "," ∷ int (pos 1) ∷ []) ∷ [])
unfolding queue_rotate_main drop take rotate_left sa_plugin_sla.Collections.Queues.index
queue_rotate_prints = refl

job_queue_prints : job_queue_main ≡ exit_ok ((int (pos 10) ∷ []) ∷ [])
unfolding job_queue_main ◌*ℤ◌ add_i32 pop_front ◌-ℤ◌ checked push_back ◌+ℤ◌
job_queue_prints = refl

loop_prints :
    loop_main
    ≡ exit_ok (
        (lit "[" ∷ nat 0 ∷ lit "," ∷ nat 0 ∷ lit "," ∷ nat 0 ∷ lit "," ∷ nat 0 ∷ lit "]" ∷ []) ∷ [])
unfolding loop_main fill_zero_from set_elem fill_zero
loop_prints = refl

router_prints : router_main ≡ exit_ok ((int (pos 2) ∷ []) ∷ [])
unfolding router_main get at_key insert
router_prints = refl

nested_loops_prints : nested_loops_main ≡ exit_ok ((int (pos 18) ∷ []) ∷ [])
unfolding nested_loops_main ◌*ℤ◌ add_i32 ◌-ℤ◌ rows checked mul_i32 row ◌+ℤ◌
nested_loops_prints = refl

profile_prints : profile_main ≡ exit_ok ((int (pos 10) ∷ []) ∷ [])
unfolding profile_main ◌*ℤ◌ cold add_i32 ◌-ℤ◌ hot checked repeat_add ◌+ℤ◌
profile_prints = refl

trait_object_prints : trait_object_main ≡ exit_ok ((int (pos 12) ∷ []) ∷ [])
unfolding trait_object_main score_add_two ◌*ℤ◌ add_i32 ◌-ℤ◌ score_add_one total_score_from checked
    total_score ◌+ℤ◌
trait_object_prints = refl

alias_flattening_prints : alias_flattening_main ≡ exit_ok ((int (pos 150) ∷ []) ∷ [])
unfolding alias_flattening_main ◌*ℤ◌ add_i32 bullet_total ◌-ℤ◌ bullet_of checked spawn_bullet ◌+ℤ◌
alias_flattening_prints = refl

event_loop_prints : event_loop_main ≡ exit_ok ((int (pos 4) ∷ []) ∷ [])
unfolding event_loop_main ◌*ℤ◌ run_loop add_i32 ◌-ℤ◌ checked ◌+ℤ◌ run_loop_from
event_loop_prints = refl
