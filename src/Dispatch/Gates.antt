-- ===== src/Dispatch/Gates.antt =====
-- Flags and counters: demos/rosetta 100_full_app, 70_integration_service, 80_workflow, 84_sync_gate,
-- 91_db_session, 96_task_orchestrator, 97_sync_service, 98_build_pipeline and 99_release_bundle.
use sa_plugin_sla.Prelude.{if◌then◌else◌, ℤ, pos, negsuc, ltb_ℤ, Bool, true, false, not, ◌&&◌, ◌||◌}
use sa_plugin_sla.Rust.{Outcome, done, ◌>>=◌, Exit, print, int_line, flag_line, add_i32, sub_i32}

-- 100_full_app
pub record AppRequest : Type 0 where
  pub authenticated : Bool
  pub route_ok : Bool
  pub db_ready : Bool
  pub rate_limited : Bool

unfoldable pub handle_request : AppRequest → ℤ
handle_request req =
    if not req.authenticated
    then pos 401
    else if not req.route_ok
    then pos 404
    else if not req.db_ready
    then pos 503
    else if req.rate_limited
    then pos 429
    else pos 200

unfoldable pub full_app_main : Exit
unfolding handle_request
full_app_main = print int_line (
    done (
      handle_request
        (record { authenticated = true; route_ok = true; db_ready = true; rate_limited = false })))

-- 70_integration_service
pub record ServiceSnapshot : Type 0 where
  pub users_ok : Bool
  pub orders_ok : Bool
  pub users : ℤ
  pub orders : ℤ

unfoldable pub integrated_total : ServiceSnapshot → Outcome ℤ
integrated_total snapshot =
    if not snapshot.users_ok
    then done (negsuc 0)
    else if not snapshot.orders_ok
    then done (negsuc 1)
    else add_i32 snapshot.users snapshot.orders

unfoldable pub integration_service_main : Exit
unfolding integrated_total
integration_service_main =
    print int_line (
      integrated_total
        (record { users_ok = true; orders_ok = true; users = pos 2; orders = pos 4 }))

-- `i32::from` of a `bool`.
unfoldable pub from_bool : Bool → ℤ
from_bool b = if b then pos 1 else pos 0

-- 80_workflow
pub record WorkflowState : Type 0 where
  pub lint_ok : Bool
  pub tests_ok : Bool
  pub package_ok : Bool

unfoldable pub completed_steps : WorkflowState → Outcome ℤ
unfolding from_bool
completed_steps state = do
  two ← add_i32 (from_bool state.lint_ok) (from_bool state.tests_ok)
  add_i32 two (from_bool state.package_ok)

unfoldable pub workflow_main : Exit
unfolding completed_steps
workflow_main =
    print int_line
      (completed_steps (record { lint_ok = true; tests_ok = true; package_ok = false }))

-- 84_sync_gate
pub record GateState : Type 0 where
  pub arrived : ℤ
  pub required : ℤ
  pub drained : Bool

unfoldable pub gate_code : GateState → ℤ
gate_code state =
    if ltb_ℤ state.arrived state.required then pos 0 else if state.drained then pos 2 else pos 1

unfoldable pub sync_gate_main : Exit
unfolding gate_code
sync_gate_main =
    print int_line
      (done (gate_code (record { arrived = pos 3; required = pos 3; drained = false })))

-- 91_db_session
pub record Session : Type 0 where
  pub connected : Bool
  pub transaction_open : Bool

unfoldable pub can_commit : Session → Bool
can_commit session = session.connected && session.transaction_open

unfoldable pub db_session_main : Exit
unfolding can_commit
db_session_main =
    print flag_line (done (can_commit (record { connected = true; transaction_open = true })))

-- 96_task_orchestrator
pub record Task : Type 0 where
  pub deps_done : Bool
  pub priority : ℤ
  pub retries : ℤ
  pub cooldown : Bool

unfoldable pub ready_score : Task → Outcome ℤ
ready_score task =
    if task.deps_done
    then if task.cooldown then done (pos 0) else sub_i32 task.priority task.retries
    else done (pos 0)

unfoldable pub task_orchestrator_main : Exit
unfolding ready_score
task_orchestrator_main =
    print int_line (
      ready_score
        (record { deps_done = true; priority = pos 7; retries = pos 2; cooldown = false }))

-- 97_sync_service
unfoldable pub sync_needed : ℤ → ℤ → Bool → Bool → Bool
sync_needed local_version remote_version dirty offline =
    if offline then false else dirty || ltb_ℤ local_version remote_version

unfoldable pub sync_service_main : Exit
unfolding sync_needed
sync_service_main = print flag_line (done (sync_needed (pos 7) (pos 9) false false))

-- 98_build_pipeline
unfoldable pub artifact_count : Bool → Bool → Bool → Bool → Outcome ℤ
unfolding from_bool
artifact_count compiled tests_passed docs_built packaged =
    if compiled && tests_passed && packaged
    then add_i32 (pos 1) (from_bool docs_built)
    else done (pos 0)

unfoldable pub build_pipeline_main : Exit
unfolding artifact_count
build_pipeline_main = print int_line (artifact_count true true true true)

-- 99_release_bundle
pub record BundleManifest : Type 0 where
  pub binary : Bool
  pub config : Bool
  pub checksums : Bool
  pub signatures : Bool

unfoldable pub release_ready : BundleManifest → Bool
release_ready manifest =
    manifest.binary && manifest.config && manifest.checksums && manifest.signatures

unfoldable pub release_bundle_main : Exit
unfolding release_ready
release_bundle_main = print flag_line (
    done (
      release_ready (record { binary = true; config = true; checksums = true; signatures = true })))
