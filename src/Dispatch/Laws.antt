-- ===== src/Dispatch/Laws.antt =====
-- Laws of the decisions on requests, flags and values.
use sa_plugin_sla.Prelude.{
  if◌then◌else◌, ℤ, pos, negsuc, ◌+ℤ◌, ◌*ℤ◌, ◌≤ℤ◌, ◌<ℤ◌, String, ◌≡◌, ◌≢◌, ◌↔◌, ◌⊎◌, Bool, true,
  false, ◌&&◌, arith, eq_iff,
}
use sa_plugin_sla.Rust.{done, checked, add_i32, mul_i32}
use sa_plugin_sla.Dispatch.Requests.{Request, route_status, dispatch, resolver_id}
use sa_plugin_sla.Dispatch.Gates.{
  AppRequest, handle_request, ServiceSnapshot, integrated_total, from_bool, WorkflowState,
  completed_steps, GateState, gate_code, artifact_count,
}
use sa_plugin_sla.Dispatch.Patterns.{in_range, grade, transform}

abbrev pub IsServed : AppRequest → Type 0
IsServed req =
    (req.authenticated ≡ true)
    × (req.route_ok ≡ true)
    × (req.db_ready ≡ true)
    × (req.rate_limited ≡ false)

-- A request is answered 200 exactly when it is authenticated, its route exists, the database is
-- ready and no limit is hit, and 401 exactly when it is not authenticated, whatever else fails.
pub handle_request-IsServed_iff :
    (req : AppRequest)
    → ((handle_request req ≡ pos 200) ↔ IsServed req)
      × ((handle_request req ≡ pos 401) ↔ (req.authenticated ≡ false))
unfolding handle_request
handle_request-IsServed_iff req = ground arith

-- The codes of the gate: 0 exactly below the required count, and 2 exactly for a drained gate that
-- has reached it.
pub gate_code-open_iff :
    (state : GateState)
    → ((gate_code state ≡ pos 0) ↔ (state.arrived <ℤ state.required))
      × ((gate_code state ≡ pos 2) ↔ ((state.required ≤ℤ state.arrived) × (state.drained ≡ true)))
unfolding gate_code
gate_code-open_iff state = ground arith

-- For counts of zero or more a result below zero means exactly that a service is down, and -1
-- exactly that it is the users'.
pub integrated_total-down_iff :
    (s : ServiceSnapshot) (n : ℤ)
    → pos 0 ≤ℤ s.users
    → pos 0 ≤ℤ s.orders
    → integrated_total s ≡ done n
    → ((n <ℤ pos 0) ↔ ((s.users_ok ≡ false) ⊎ (s.orders_ok ≡ false)))
      × ((n ≡ negsuc 0) ↔ (s.users_ok ≡ false))
unfolding integrated_total add_i32 checked ◌+ℤ◌
integrated_total-down_iff s n a b h = ground arith

-- The number of completed steps is between 0 and 3, and it is 3 exactly when every step has passed.
pub completed_steps_bounds :
    (state : WorkflowState) (n : ℤ)
    → completed_steps state ≡ done n
    → (pos 0 ≤ℤ n)
      × (n ≤ℤ pos 3)
      × ((n ≡ pos 3)
          ↔ ((state.lint_ok ≡ true) × (state.tests_ok ≡ true) × (state.package_ok ≡ true)))
unfolding completed_steps add_i32 checked ◌+ℤ◌
completed_steps_bounds state n h = ground arith

-- The count always comes back, and it is positive exactly when the build compiled, passed its tests
-- and was packaged; it is 2 exactly when the docs were built too.
pub artifact_count_cases :
    (compiled tests_passed docs_built packaged : Bool)
    → (n : ℤ) × (artifact_count compiled tests_passed docs_built packaged ≡ done n)
      × ((pos 1 ≤ℤ n) ↔ (compiled && tests_passed && packaged ≡ true))
      × ((n ≡ pos 2) ↔ ((compiled && tests_passed && packaged ≡ true) × (docs_built ≡ true)))
unfolding artifact_count add_i32 checked ◌+ℤ◌
artifact_count_cases compiled tests_passed docs_built packaged = (
  if compiled && tests_passed && packaged then pos 1 +ℤ from_bool docs_built else pos 0,
  ground arith,
  ground arith,
  ground arith,
)

-- On the valid scores from 0 to 100 a higher score never has a lower grade.
pub grade_mono : (x y : ℤ) → pos 0 ≤ℤ x → x ≤ℤ y → y ≤ℤ pos 100 → grade x ≤ℤ grade y
unfolding grade
grade_mono x y a b c = ground arith

-- A score has the grade -1 exactly if it is not from 0 to 100.
pub grade-invalid_iff : (x : ℤ) → (grade x ≡ negsuc 0) ↔ ((x <ℤ pos 0) ⊎ (pos 100 <ℤ x))
unfolding grade
grade-invalid_iff x = ground arith

-- `transform` never overflows: it returns a number from 0 to 1000 for every argument.
pub transform_bounds : (x : ℤ) → (n : ℤ) × (transform x ≡ done n) × (pos 0 ≤ℤ n) × (n ≤ℤ pos 1000)
unfolding transform mul_i32 checked ◌*ℤ◌
transform_bounds x = (
  if in_range 1 5 x then x *ℤ pos 10 else if in_range 6 10 x then x *ℤ pos 100 else pos 0,
  ground arith,
  ground arith,
  ground arith,
)

-- A route has the status 404 exactly if the pair of method and path is none of the two known ones.
pub route_status-404_iff :
    (req : Request)
    → (route_status req ≡ pos 404) ↔ (
        ¬ ((req.method ≡ "GET") × (req.path ≡ "/health"))
        × ¬ ((req.method ≡ "POST") × (req.path ≡ "/jobs")))
unfolding route_status
route_status-404_iff req = ground (
  arith,
  eq_iff req.method "GET",
  eq_iff req.path "/health",
  eq_iff req.method "POST",
  eq_iff req.path "/jobs",
)

-- Without a loaded config every command ends with 64, and with one exactly the commands other than
-- `sync` and `status` do.
pub dispatch-64_iff :
    (command : String) (config_loaded : Bool)
    → (dispatch command config_loaded ≡ pos 64)
      ↔ ((config_loaded ≡ false) ⊎ ((command ≢ "sync") × (command ≢ "status")))
unfolding dispatch
dispatch-64_iff command config_loaded =
    ground (arith, eq_iff command "sync", eq_iff command "status")

-- A resolver has an id other than 0 exactly for the user query, nested or not, and for the mutation
-- that creates a user without nesting.
pub resolver_id-known_iff :
    (operation field : String) (nested : Bool)
    → (resolver_id operation field nested ≢ pos 0) ↔ (
        ((operation ≡ "query") × (field ≡ "user"))
        ⊎ ((operation ≡ "mutation") × (field ≡ "createUser") × (nested ≡ false)))
unfolding resolver_id
resolver_id-known_iff operation field nested = ground (
  arith,
  eq_iff operation "query",
  eq_iff field "user",
  eq_iff operation "mutation",
  eq_iff field "createUser",
)
