-- ===== src/Workflow/Receipts.antt =====
-- packages/workflows/src/validation.ts: what the manager accepts as the answer of a store.
use nuxt_laravelize.Common.{
  ℕ, ◌+◌, max, String, Bool, true, false, not, ◌&&◌, ◌||◌, Option, none, some, List, [], ◌∷◌,
  str_eq, ltb, leb, ◌==◌, if◌then◌else◌,
}
use nuxt_laravelize.Workflow.Identity.{
  Checked, check, WorkflowFailure, workflow_identity_conflict, workflow_store_contract,
}
use nuxt_laravelize.Workflow.Json.{canonical_json, same_json, Json}
use nuxt_laravelize.Workflow.Validation.{assert_workflow_snapshot}
use nuxt_laravelize.Workflow.Types.{
  is_state, is_step, WorkflowState, WorkflowError, StepSnapshot, WorkflowLease, WorkflowSnapshot,
}
use nuxt_laravelize.Workflow.Validation.Step.{same_optional, is_given}
use nuxt_laravelize.Common.Exec.{Result, ok, throw}
use nuxt_laravelize.Workflow.Store.Recovery.{before}

abbrev pub same_bool : Bool → Bool → Bool
same_bool true b = b
same_bool false b = not b

abbrev pub same_number : Option ℕ → Option ℕ → Bool
same_number none none = true
same_number (some a) (some b) = a == b
same_number _ _ = false

abbrev pub same_output : Option Json → Option Json → Bool
same_output none none = true
same_output (some a) (some b) = same_json a b
same_output _ _ = false

abbrev pub same_error : Option WorkflowError → Option WorkflowError → Bool
same_error none none = true
same_error (some a) (some b) = str_eq a.name b.name && str_eq a.message b.message
same_error _ _ = false

abbrev pub same_lease : Option WorkflowLease → Option WorkflowLease → Bool
same_lease none none = true
same_lease (some a) (some b) = str_eq a.token b.token && a.expires_at == b.expires_at
same_lease _ _ = false

unfoldable pub same_step : StepSnapshot → StepSnapshot → Bool
same_step a b =
    str_eq a.name b.name
    && is_step a.state b.state
    && a.attempts == b.attempts
    && a.compensation_attempts == b.compensation_attempts
    && str_eq a.idempotency_key b.idempotency_key
    && same_optional a.compensation_idempotency_key b.compensation_idempotency_key
    && same_output a.output b.output
    && same_number a.retry_at b.retry_at
    && same_error a.error b.error

unfoldable pub same_steps : List StepSnapshot → List StepSnapshot → Bool
same_steps [] [] = true
same_steps (a ∷ as') (b ∷ bs) = same_step a b && same_steps as' bs
same_steps _ _ = false

-- `sameStructuredValue` on snapshots without the fields that a store manages: the revision, the
-- cancellation and the lease, and without `updatedAt`.
unfoldable pub same_content : WorkflowSnapshot → WorkflowSnapshot → Bool
same_content a b =
    str_eq a.id b.id
    && str_eq a.workflow_name b.workflow_name
    && str_eq a.workflow_version b.workflow_version
    && str_eq a.start_key b.start_key
    && str_eq a.canonical_input b.canonical_input
    && same_json a.input b.input
    && is_state a.state b.state
    && same_steps a.steps b.steps
    && a.created_at == b.created_at

unfoldable pub same_snapshot : WorkflowSnapshot → WorkflowSnapshot → Bool
same_snapshot a b =
    same_content a b
    && a.revision == b.revision
    && same_lease a.lease b.lease
    && same_bool a.cancellation_requested b.cancellation_requested
    && a.updated_at == b.updated_at

unfoldable pub same_step_identity : StepSnapshot → StepSnapshot → Bool
same_step_identity a b =
    str_eq a.name b.name
    && str_eq a.idempotency_key b.idempotency_key
    && same_optional a.compensation_idempotency_key b.compensation_idempotency_key

unfoldable pub same_step_identities : List StepSnapshot → List StepSnapshot → Bool
unfolding same_step_identity
same_step_identities [] [] = true
same_step_identities (a ∷ as') (b ∷ bs) = same_step_identity a b && same_step_identities as' bs
same_step_identities _ _ = false

unfoldable pub identity_unchanged : WorkflowSnapshot → WorkflowSnapshot → Bool
unfolding same_step_identities
identity_unchanged current candidate =
    str_eq current.id candidate.id
    && str_eq current.workflow_name candidate.workflow_name
    && str_eq current.workflow_version candidate.workflow_version
    && str_eq current.start_key candidate.start_key
    && current.created_at == candidate.created_at
    && str_eq current.canonical_input candidate.canonical_input
    && same_json current.input candidate.input
    && same_step_identities current.steps candidate.steps

-- `assertWorkflowIdentityUnchanged`
unfoldable pub assert_identity_unchanged : WorkflowSnapshot → WorkflowSnapshot → Checked
assert_identity_unchanged current candidate =
    check (identity_unchanged current candidate) workflow_identity_conflict

abbrev pub is_ok : Checked → Bool
is_ok (ok u) = true
is_ok (throw e) = false

-- `contractSnapshot`: a receipt is a valid snapshot.
abbrev pub contract : WorkflowSnapshot → Bool
contract receipt = is_ok (assert_workflow_snapshot receipt)

unfoldable pub accepts_create : WorkflowSnapshot → WorkflowSnapshot → (created : Bool) → Bool
accepts_create requested persisted true = contract persisted && same_snapshot persisted requested
accepts_create requested persisted false =
    contract persisted
    && str_eq persisted.workflow_name requested.workflow_name
    && str_eq persisted.workflow_version requested.workflow_version
    && str_eq persisted.start_key requested.start_key
    && str_eq persisted.canonical_input requested.canonical_input
    && str_eq (canonical_json persisted.input) requested.canonical_input

-- The lease and the revision that a claim gives the snapshot that was observed.
unfoldable pub claimed_from : WorkflowSnapshot → String → ℕ → ℕ → WorkflowSnapshot
claimed_from s token now expires_at = record s {
  revision = s.revision + 1;
  updated_at = max s.updated_at now;
  lease = some (record { token = token; expires_at = expires_at });
}

unfoldable pub accepts_claim : WorkflowSnapshot → WorkflowSnapshot → String → ℕ → ℕ → Bool
accepts_claim observed receipt token now expires_at =
    contract receipt
    && ltb now expires_at
    && same_snapshot receipt (claimed_from observed token now expires_at)

abbrev pub lease_end : Option WorkflowLease → ℕ → ℕ
lease_end none otherwise = otherwise
lease_end (some lease) otherwise = lease.expires_at

unfoldable pub accepts_renewal :
    WorkflowSnapshot → WorkflowSnapshot → (expected_revision : ℕ) → String → ℕ → ℕ → Bool
accepts_renewal observed renewed expected_revision token now expires_at =
    let race = not observed.cancellation_requested && renewed.cancellation_requested in
    contract renewed
    && (observed.revision == expected_revision
        || observed.revision == expected_revision + 1 && observed.cancellation_requested)
    && ltb now expires_at
    && (if race
        then leb observed.updated_at renewed.updated_at
        else renewed.updated_at == observed.updated_at)
    && renewed.revision == observed.revision + (if race then 1 else 0)
    && (same_bool renewed.cancellation_requested observed.cancellation_requested || race)
    && same_content renewed observed
    && same_lease renewed.lease (
        some (record {
          token = token;
          expires_at = max (lease_end observed.lease expires_at) expires_at;
        }))

unfoldable pub cancelled_from : WorkflowSnapshot → ℕ → WorkflowSnapshot
cancelled_from s now = record s {
  revision = s.revision + 1;
  cancellation_requested = true;
  updated_at = max s.updated_at now;
}

unfoldable pub accepts_cancellation : WorkflowSnapshot → WorkflowSnapshot → ℕ → Bool
accepts_cancellation observed receipt now =
    contract receipt && same_snapshot receipt (cancelled_from observed now)

-- `leaseValid` of a commit that keeps the lease.
unfoldable pub kept_lease_valid : Option WorkflowLease → Option WorkflowLease → String → ℕ → Bool
kept_lease_valid (some before) (some after) token now =
    str_eq after.token token
    && str_eq after.token before.token
    && leb before.expires_at after.expires_at
    && ltb now after.expires_at
kept_lease_valid _ _ token now = false

-- The updated time, the lease, the cancellation and the revision of a receipt for one candidate.
unfoldable pub commit_fields_valid :
    (original candidate committed : WorkflowSnapshot) → String → ℕ → (release : Bool) → Bool
commit_fields_valid original candidate committed token now release =
    let race = original.revision == candidate.revision + 1 && original.cancellation_requested in
    let merge = not candidate.cancellation_requested && committed.cancellation_requested in
    let acknowledged =
      not original.cancellation_requested
      && candidate.cancellation_requested
      && committed.cancellation_requested in
    let cancels = merge || acknowledged || race in
    let earliest = max original.updated_at candidate.updated_at in
    (original.revision == candidate.revision || race)
    && (same_bool committed.cancellation_requested candidate.cancellation_requested || merge)
    && committed.revision == candidate.revision + (if cancels then 2 else 1)
    && (if release
        then not (is_given committed.lease)
        else kept_lease_valid original.lease committed.lease token now)
    && (if cancels
        then leb earliest committed.updated_at
          && (not original.cancellation_requested || committed.updated_at == earliest)
        else committed.updated_at == candidate.updated_at)
    && not (is_state candidate.state WorkflowState.failed && merge)

-- `assertWorkflowCommitReceipt`, with the candidate's own revision as the expected one.
unfoldable pub accepts_commit :
    (original candidate committed : WorkflowSnapshot) → String → ℕ → (release : Bool) → Bool
unfolding commit_fields_valid
accepts_commit original candidate committed token now release =
    contract committed
    && contract candidate
    && identity_unchanged original candidate
    && identity_unchanged original committed
    && same_content committed candidate
    && commit_fields_valid original candidate committed token now release

-- A receipt that is accepted is what the manager goes on with.
abbrev pub receipt : Bool → WorkflowSnapshot → Result WorkflowFailure WorkflowSnapshot
receipt true s = ok s
receipt false s = throw workflow_store_contract
