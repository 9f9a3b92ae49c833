-- ===== src/Workflow/Validation.antt =====
-- packages/workflows/src/validation.ts: the invariants of a persisted snapshot. What the source
-- checks of the shape of an unknown value, the types here already say.
pub mod Boundary
pub mod Step
use nuxt_laravelize.Common.{
  ℕ, ◌+◌, String, Bool, true, false, not, ◌&&◌, ◌||◌, Option, none, some, List, [], ◌∷◌, str_eq,
  leb, if◌then◌else◌, all, any,
}
use nuxt_laravelize.Workflow.Identity.{
  Checked, check, and_then, max_opaque_text, stable_identity, assert_workflow_version,
  invalid_workflow_snapshot, workflow_identity_conflict, WorkflowFailure,
}
use nuxt_laravelize.Workflow.Json.{◌+++◌, canonical_json}
use nuxt_laravelize.Workflow.Types.{
  is_state, is_step, WorkflowState, StepState, StepSnapshot, WorkflowLease, WorkflowSnapshot,
  WorkflowStep, WorkflowDefinition, WorkflowError,
}
use nuxt_laravelize.Workflow.Validation.Boundary.{is_active, state_boundary}
use nuxt_laravelize.Workflow.Validation.Step.{
  bounded_text, is_safe, is_timestamp, same_optional, step_valid,
}
use nuxt_laravelize.Common.Text.{utf16_length, decimal, utf16_take}
use nuxt_laravelize.Common.Exec.{Result, ok, throw}

names_fresh : List String → List StepSnapshot → Bool
names_fresh seen [] = true
names_fresh seen (step ∷ steps) =
    not (any (str_eq step.name) seen) && names_fresh (step.name ∷ seen) steps

abbrev pub lease_valid : Option WorkflowLease → Bool
lease_valid none = true
lease_valid (some lease) = bounded_text lease.token max_opaque_text && is_timestamp lease.expires_at

-- `assertSnapshot` behind the check of the version.
unfoldable pub snapshot_body_valid : WorkflowSnapshot → Bool
unfolding names_fresh
snapshot_body_valid s =
    bounded_text s.start_key max_opaque_text
    && leb (utf16_length s.canonical_input) 1000000
    && str_eq (canonical_json s.input) s.canonical_input
    && is_safe s.revision
    && is_timestamp s.created_at
    && is_timestamp s.updated_at
    && leb s.created_at s.updated_at
    && lease_valid s.lease
    && all step_valid s.steps
    && names_fresh [] s.steps
    && state_boundary s

-- `assertWorkflowSnapshot`: a bad version keeps its own error, all else is one error.
unfoldable pub assert_workflow_snapshot : WorkflowSnapshot → Checked
assert_workflow_snapshot s =
    and_then
      (check (bounded_text s.id max_opaque_text && stable_identity s.workflow_name)
        invalid_workflow_snapshot)
      (and_then (assert_workflow_version s.workflow_version)
        (check (snapshot_body_valid s) invalid_workflow_snapshot))

abbrev pub step_key : String → ℕ → String
step_key id index = id +++ ":step:" +++ decimal index

abbrev pub compensation_key : String → WorkflowStep → ℕ → Option String
compensation_key id step index =
    if step.compensable then some (id +++ ":compensate:" +++ decimal index) else none

-- The persisted steps from `index` on have the identities that the definition's steps give them.
unfoldable pub steps_match : String → ℕ → List WorkflowStep → List StepSnapshot → Bool
steps_match id index [] [] = true
steps_match id index (step ∷ steps) (persisted ∷ rest) =
    str_eq persisted.name step.name
    && str_eq persisted.idempotency_key (step_key id index)
    && same_optional persisted.compensation_idempotency_key (compensation_key id step index)
    && steps_match id (index + 1) steps rest
steps_match id index _ _ = false

-- The bounds that the definition sets on one persisted step.
unfoldable pub step_within : WorkflowState → WorkflowStep → StepSnapshot → Bool
step_within state definition step =
    leb step.attempts definition.max_attempts
    && leb step.compensation_attempts definition.max_attempts
    && not (is_step step.state StepState.waiting_retry && leb definition.max_attempts step.attempts)
    && not (
        is_step step.state StepState.compensation_waiting_retry
        && leb definition.max_attempts step.compensation_attempts)
    && not (
        is_state state WorkflowState.failed
        && is_step step.state StepState.committed
        && definition.compensable)

unfoldable pub steps_within : WorkflowState → List WorkflowStep → List StepSnapshot → Bool
unfolding step_within
steps_within state (definition ∷ definitions) (step ∷ steps) =
    step_within state definition step && steps_within state definitions steps
steps_within state _ _ = true

-- A committed step whose definition can compensate it.
unfoldable pub has_compensatable_commit : List WorkflowStep → List StepSnapshot → Bool
has_compensatable_commit (definition ∷ definitions) (step ∷ steps) =
    is_step step.state StepState.committed && definition.compensable
    || has_compensatable_commit definitions steps
has_compensatable_commit _ _ = false

unfoldable pub compensating_grounds : WorkflowDefinition → WorkflowSnapshot → Bool
compensating_grounds definition s =
    not (is_state s.state WorkflowState.compensating)
    || any is_active s.steps
    || has_compensatable_commit definition.steps s.steps
    || any (λ step. is_step step.state StepState.compensated) s.steps

unfoldable pub matches_definition : WorkflowDefinition → WorkflowSnapshot → Bool
matches_definition definition s =
    str_eq s.workflow_name definition.name
    && str_eq s.workflow_version definition.version
    && steps_match s.id 0 definition.steps s.steps

-- `assertWorkflowSnapshotMatchesDefinition`
unfoldable pub assert_matches_definition : WorkflowSnapshot → WorkflowDefinition → Checked
assert_matches_definition s definition = and_then (assert_workflow_snapshot s) (
    and_then (check (matches_definition definition s) workflow_identity_conflict) (
      check (steps_within s.state definition.steps s.steps && compensating_grounds definition s)
        invalid_workflow_snapshot))

abbrev error_name : String → String
error_name name = if str_eq name "" then "Error" else name

-- A persisted error of the previous release, with its texts cut to their bounds.
unfoldable pub normalize_error : Option WorkflowError → Option WorkflowError
normalize_error none = none
normalize_error (some e) =
    some (record { name = utf16_take 128 (error_name e.name); message = utf16_take 4096 e.message })

-- `normalizePersistedSteps`
unfoldable pub normalize_steps : List StepSnapshot → List StepSnapshot
unfolding normalize_error
normalize_steps [] = []
normalize_steps (step ∷ steps) =
    record step { error = normalize_error step.error } ∷ normalize_steps steps

-- `normalizePersistedWorkflowSnapshot`
unfoldable pub normalize_persisted : WorkflowSnapshot → Result WorkflowFailure WorkflowSnapshot
normalize_persisted s =
    let normal = record s { steps = normalize_steps s.steps } in
    elim (assert_workflow_snapshot normal) [ throw e ↦ throw e | ok u ↦ ok normal ]
