-- ===== src/Workflow/Store/Managed.antt =====
-- The fields of a snapshot that a store manages, and the checks that they leave alone.
use nuxt_laravelize.Common.{
  ℕ, ◌≤◌, String, ◌≡◌, refl, Bool, true, false, ◌&&◌, Option, none, some, List, [], ◌∷◌, arith,
  eq_refl, leb, ◌||◌,
}
use nuxt_laravelize.Workflow.Receipts.{
  same_number, same_output, same_error, same_lease, same_step, same_steps, same_content,
  same_snapshot,
}
use nuxt_laravelize.Workflow.Json.{same_json_refl, Json}
use nuxt_laravelize.Workflow.Validation.{lease_valid, snapshot_body_valid, assert_workflow_snapshot}
use nuxt_laravelize.Workflow.Types.{
  is_state, is_step, WorkflowState, StepState, WorkflowError, StepSnapshot, WorkflowLease,
  WorkflowSnapshot,
}
use nuxt_laravelize.Workflow.Validation.Boundary.{
  compensation_boundary, boundary_of, state_boundary,
}
use nuxt_laravelize.Workflow.Validation.Step.{is_safe, is_timestamp, same_optional}
use nuxt_laravelize.Common.Exec.{ok}

same_output_refl : (o : Option Json) → same_output o o ≡ true
same_output_refl none = refl
same_output_refl (some a) = same_json_refl a

same_number_refl : (o : Option ℕ) → same_number o o ≡ true
same_number_refl none = refl
same_number_refl (some n) = ground arith

same_error_refl : (o : Option WorkflowError) → same_error o o ≡ true
same_error_refl none = refl
same_error_refl (some e) = ground (arith, eq_refl e.name, eq_refl e.message)

same_key_refl : (o : Option String) → same_optional o o ≡ true
same_key_refl none = refl
same_key_refl (some k) = eq_refl k

same_step_state_refl : (s : StepState) → is_step s s ≡ true
same_step_state_refl s = ground arith

pub same_state_refl : (s : WorkflowState) → is_state s s ≡ true
same_state_refl s = ground arith

pub same_lease_refl : (o : Option WorkflowLease) → same_lease o o ≡ true
same_lease_refl none = refl
same_lease_refl (some lease) = ground (arith, eq_refl lease.token)

same_step_refl : (a : StepSnapshot) → same_step a a ≡ true
unfolding same_step
same_step_refl a = ground (
  arith,
  eq_refl a.name,
  eq_refl a.idempotency_key,
  same_step_state_refl a.state,
  same_key_refl a.compensation_idempotency_key,
  same_output_refl a.output,
  same_number_refl a.retry_at,
  same_error_refl a.error,
)

same_steps_refl : (steps : List StepSnapshot) → same_steps steps steps ≡ true
unfolding same_steps
same_steps_refl [] = refl
same_steps_refl (a ∷ steps) = ground (arith, same_step_refl a, same_steps_refl steps)

pub same_content_refl : (s : WorkflowSnapshot) → same_content s s ≡ true
unfolding same_content
same_content_refl s = ground (
  arith,
  eq_refl s.id,
  eq_refl s.workflow_name,
  eq_refl s.workflow_version,
  eq_refl s.start_key,
  eq_refl s.canonical_input,
  same_json_refl s.input,
  same_state_refl s.state,
  same_steps_refl s.steps,
)

pub same_snapshot_refl : (s : WorkflowSnapshot) → same_snapshot s s ≡ true
unfolding same_snapshot
same_snapshot_refl s = ground (arith, same_content_refl s, same_lease_refl s.lease)

-- A snapshot with other values in the fields that a store manages.
abbrev pub managed :
    WorkflowSnapshot
    → (revision : ℕ) → Option WorkflowLease
    → (cancellation_requested : Bool) → (updated_at : ℕ) → WorkflowSnapshot
managed s revision lease cancellation_requested updated_at = record s {
  revision = revision;
  lease = lease;
  cancellation_requested = cancellation_requested;
  updated_at = updated_at;
}

-- What the managed fields of a snapshot have to be.
abbrev pub managed_valid :
    WorkflowSnapshot → (revision : ℕ) → Option WorkflowLease → (updated_at : ℕ) → Bool
managed_valid s revision lease updated_at =
    is_safe revision && is_timestamp updated_at && leb s.created_at updated_at && lease_valid lease

pub managed_contract :
    (s : WorkflowSnapshot) (revision : ℕ) (lease : Option WorkflowLease) (cancellation : Bool)
    (updated_at : ℕ)
    → assert_workflow_snapshot s ≡ ok tt
    → managed_valid s revision lease updated_at ≡ true
    → state_boundary (managed s revision lease cancellation updated_at) ≡ true
    → assert_workflow_snapshot (managed s revision lease cancellation updated_at) ≡ ok tt
unfolding assert_workflow_snapshot snapshot_body_valid
managed_contract s revision lease cancellation updated_at valid fields boundary = ground arith

-- A cancellation does not change what the state of an unfinished workflow asks of its steps.
pub boundary_managed :
    (s : WorkflowSnapshot) (revision : ℕ) (lease : Option WorkflowLease) (updated_at : ℕ)
    → state_boundary (managed s revision lease s.cancellation_requested updated_at)
      ≡ state_boundary s
unfolding state_boundary boundary_of compensation_boundary
boundary_managed s revision lease updated_at = ground arith

pub boundary_cancelled :
    (s : WorkflowSnapshot) (revision : ℕ) (lease : Option WorkflowLease) (updated_at : ℕ)
    → (is_state s.state WorkflowState.completed || is_state s.state WorkflowState.failed) ≡ false
    → state_boundary s ≡ true
    → state_boundary (managed s revision lease true updated_at) ≡ true
unfolding state_boundary boundary_of compensation_boundary
boundary_cancelled s revision lease updated_at unfinished valid = ground arith

-- The checks that a valid snapshot has passed.
pub valid_fields :
    (s : WorkflowSnapshot)
    → assert_workflow_snapshot s ≡ ok tt
    → (state_boundary s ≡ true)
      × (s.created_at ≤ s.updated_at)
      × (is_timestamp s.updated_at ≡ true)
      × (is_safe s.revision ≡ true)
      × (lease_valid s.lease ≡ true)
unfolding assert_workflow_snapshot snapshot_body_valid
valid_fields s valid = (ground arith, ground arith, ground arith, ground arith, ground arith)
