-- ===== src/Workflow/Manager/Start.antt =====
-- packages/workflows/src/manager.ts: `start`.
use nuxt_laravelize.Common.{
  ℕ, ◌+◌, String, Bool, true, false, not, ◌&&◌, ◌||◌, none, List, [], ◌∷◌, str_eq, ◌==◌,
  if◌then◌else◌,
}
use nuxt_laravelize.Workflow.Receipts.{same_bool, accepts_create}
use nuxt_laravelize.Workflow.Store.{Action, check_action, create, Created}
use nuxt_laravelize.Workflow.Identity.{
  check, WorkflowFailure, type_error, workflow_identity_conflict, workflow_store_contract,
}
use nuxt_laravelize.Workflow.Json.{canonical_json, Json}
use nuxt_laravelize.Workflow.Validation.{step_key, compensation_key, assert_matches_definition}
use nuxt_laravelize.Workflow.Types.{
  WorkflowState, StepState, StepSnapshot, WorkflowSnapshot, WorkflowStep, WorkflowDefinition,
}
use nuxt_laravelize.Workflow.Manager.{of_result}
use nuxt_laravelize.Workflow.Definition.{checked, Resolver, resolve_exact, Reference}
use nuxt_laravelize.Common.Exec.{Result, ok, throw, ◌>>◌, ◌>>=◌}

-- What `start` is called with: a reference, or a definition and whether its handlers are the ones
-- that are registered.
pub data StartReference : Type 0 where
  by_reference : Reference → StartReference
  by_definition : WorkflowDefinition → (same_handlers : Bool) → StartReference

abbrev reference_of : StartReference → Reference
reference_of (by_reference r) = r
reference_of (by_definition d same_handlers) = record { name = d.name; version = d.version }

same_definition_steps : List WorkflowStep → List WorkflowStep → Bool
same_definition_steps [] [] = true
same_definition_steps (a ∷ as') (b ∷ bs) =
    str_eq a.name b.name
    && same_bool a.compensable b.compensable
    && a.max_attempts == b.max_attempts
    && same_definition_steps as' bs
same_definition_steps _ _ = false

-- `sameDefinition`, where a definition was given.
unfoldable pub is_same_definition : StartReference → WorkflowDefinition → Bool
unfolding same_definition_steps
is_same_definition (by_reference r) registered = true
is_same_definition (by_definition d same_handlers) registered =
    str_eq d.name registered.name
    && str_eq d.version registered.version
    && same_handlers
    && same_definition_steps d.steps registered.steps

abbrev new_step : String → ℕ → WorkflowStep → StepSnapshot
new_step id index step = record {
  name = step.name;
  state = StepState.pending;
  attempts = 0;
  compensation_attempts = 0;
  idempotency_key = step_key id index;
  compensation_idempotency_key = compensation_key id step index;
  output = none;
  retry_at = none;
  error = none;
}

unfoldable pub new_steps : String → ℕ → List WorkflowStep → List StepSnapshot
new_steps id index [] = []
new_steps id index (step ∷ steps) = new_step id index step ∷ new_steps id (index + 1) steps

-- The snapshot that a start asks the store to create.
unfoldable pub new_snapshot :
    String → WorkflowDefinition → Json → String → (now : ℕ) → WorkflowSnapshot
unfolding new_steps
new_snapshot id definition input start_key now = record {
  id = id;
  workflow_name = definition.name;
  workflow_version = definition.version;
  start_key = start_key;
  canonical_input = canonical_json input;
  input = input;
  state = WorkflowState.pending;
  revision = 0;
  steps = new_steps id 0 definition.steps;
  lease = none;
  cancellation_requested = false;
  created_at = now;
  updated_at = now;
}

-- `assertWorkflowCreateReceipt` and `assertStartResult`
unfoldable pub start_result :
    WorkflowSnapshot → WorkflowDefinition → Created → Result WorkflowFailure WorkflowSnapshot
start_result requested definition answer =
    if not (accepts_create requested answer.snapshot answer.created)
    then throw workflow_store_contract
    else checked (assert_matches_definition answer.snapshot definition) (
        checked
          (check
            (answer.created
              || str_eq answer.snapshot.workflow_name requested.workflow_name
                && str_eq answer.snapshot.workflow_version requested.workflow_version
                && str_eq answer.snapshot.start_key requested.start_key
                && str_eq answer.snapshot.canonical_input requested.canonical_input
                && str_eq (canonical_json answer.snapshot.input) requested.canonical_input)
            workflow_identity_conflict)
          (ok answer.snapshot))

unfoldable pub start :
    Resolver → StartReference → Json → String → (now : ℕ) → (id : String) → Action WorkflowSnapshot
start resolver reference input start_key now id = do
  check_action (check (not (str_eq start_key "")) type_error)
  definition ← of_result (resolve_exact resolver (reference_of reference))
  check_action (check (is_same_definition reference definition) type_error)
  let snapshot = new_snapshot id definition input start_key now in
      do
        check_action (assert_matches_definition snapshot definition)
        answer ← create snapshot
        of_result (start_result snapshot definition answer)
