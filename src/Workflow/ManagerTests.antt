-- ===== src/Workflow/ManagerTests.antt =====
-- packages/workflows: definitions, transitions and the manager on small inputs.
use nuxt_laravelize.Common.Map
use nuxt_laravelize.Common.{ℕ, ◌<◌, ◌≡◌, refl, true, false, some, [], ◌∷◌}
use nuxt_laravelize.Workflow.Json.{null}
use nuxt_laravelize.Workflow.Tests.{step_a, step_b}
use nuxt_laravelize.Workflow.Identity.{
  stable_identity, is_reserved_version, assert_workflow_version, assert_workflow_name,
}
use nuxt_laravelize.Workflow.Types.{StepState, WorkflowError, StepSnapshot, WorkflowDefinition}
use nuxt_laravelize.Workflow.Transition.{
  first_uncommitted, update_step, start_step, commit_step, fail_step, wait_step, is_to_compensate,
  last_to_compensate,
}
use nuxt_laravelize.Workflow.Definition.{
  assert_definition, register, Resolver, exact, resolve_exact, Reference, Registry,
}
use nuxt_laravelize.Workflow.Transition.Forward.{forward_boundary-update}
use nuxt_laravelize.Workflow.Transition.Backward.{due_at, last_to_compensate-last}
use nuxt_laravelize.Workflow.Validation.Boundary.{after_marker, forward_boundary}
use nuxt_laravelize.Workflow.Definition.Registered.{resolve_exact-exact, register-keeps}
use nuxt_laravelize.Common.Text.{codes}
use nuxt_laravelize.Common.Map.{Map}
use nuxt_laravelize.Common.Exec.{ok}

abbrev pub order : WorkflowDefinition
order = record {
  name = "order";
  version = "v1";
  steps =
      record { name = "a"; compensable = true; max_attempts = 3 }
      ∷ record { name = "b"; compensable = false; max_attempts = 1 }
      ∷ [];
}

abbrev order_v1 : Reference
order_v1 = record { name = "order"; version = "v1" }

abbrev pub resolver : Resolver
resolver reference = ok order

order_resolved : resolve_exact resolver order_v1 ≡ ok order
unfolding resolve_exact exact assert_definition assert_workflow_name assert_workflow_version
    stable_identity is_reserved_version codes
order_resolved = refl

resolve_exact-exact_example :
    (order.name ≡ order_v1.name)
    × (order.version ≡ order_v1.version)
    × (assert_definition order ≡ ok tt)
    × (resolver order_v1 ≡ ok order)
resolve_exact-exact_example = resolve_exact-exact resolver order_v1 order order_resolved

abbrev registered : Registry
registered = record {
  definitions = ("order\0v1", order) ∷ [];
  versions_by_name = ("order", "v1" ∷ []) ∷ [];
}

order_known : Map.get "order\0v1" registered.definitions ≡ some order
unfolding Map.get
order_known = refl

abbrev order_v2 : WorkflowDefinition
order_v2 = record order { version = "v2" }

register-keeps_example :
    Map.get "order\0v1" (register (order_v2 ∷ []) registered).1.definitions ≡ some order
register-keeps_example = register-keeps (order_v2 ∷ []) registered "order\0v1" order order_known

abbrev done_a : StepSnapshot
done_a = record step_a { state = StepState.committed; attempts = 1; output = some null }

a_is_done : forward_boundary (done_a ∷ step_b ∷ []) StepState.running true ≡ true
unfolding forward_boundary after_marker
a_is_done = refl

b_is_next : first_uncommitted (done_a ∷ step_b ∷ []) ≡ some 1
unfolding first_uncommitted
b_is_next = refl

abbrev fault : WorkflowError
fault = record { name = "Error"; message = "down" }

forward_boundary-update_example :
    (forward_boundary (update_step start_step 1 (done_a ∷ step_b ∷ [])) StepState.running true
      ≡ true)
    × (forward_boundary
          (update_step (wait_step StepState.waiting_retry fault 50) 1 (done_a ∷ step_b ∷ []))
          StepState.waiting_retry
          false
        ≡ true)
    × (forward_boundary
          (update_step (fail_step StepState.failed fault) 1 (done_a ∷ step_b ∷ []))
          StepState.failed
          false
        ≡ true)
    × (forward_boundary
          (update_step (commit_step null) 1 (done_a ∷ step_b ∷ []))
          StepState.running
          true
        ≡ true)
forward_boundary-update_example =
    forward_boundary-update (done_a ∷ step_b ∷ []) 1 StepState.running true a_is_done b_is_next
      fault 50 null

a_is_due : last_to_compensate order.steps (done_a ∷ step_b ∷ []) ≡ some 0
unfolding last_to_compensate is_to_compensate
a_is_due = refl

last_to_compensate-last_example :
    (due_at 0 order.steps (done_a ∷ step_b ∷ []) ≡ true)
    × ((later : ℕ) → 0 < later → due_at later order.steps (done_a ∷ step_b ∷ []) ≡ false)
last_to_compensate-last_example =
    last_to_compensate-last order.steps (done_a ∷ step_b ∷ []) 0 a_is_due
