-- ===== src/Workflow/Tests.antt =====
-- packages/workflows: one workflow on small inputs.
use nuxt_laravelize.Common.Map
use nuxt_laravelize.Common.{
  ◌≡◌, refl, false, none, some, [], ◌∷◌, arith, eq_iff, ◌≢◌, inl, true, String,
}
use nuxt_laravelize.Workflow.Json.{null, canonical_json, same_json}
use nuxt_laravelize.Workflow.Identity.{
  stable_identity, is_reserved_version, assert_workflow_version, assert_expected_revision,
  assert_lease_token, assert_store_timestamp, assert_lease_arguments, WorkflowFailure,
}
use nuxt_laravelize.Workflow.Validation.{snapshot_body_valid, assert_workflow_snapshot}
use nuxt_laravelize.Workflow.Types.{WorkflowState, StepState, StepSnapshot, WorkflowSnapshot}
use nuxt_laravelize.Workflow.Store.{
  required, is_leased, saved, claim, Store, empty, is_lease_of, renew_lease, merged, commit,
  request_cancellation,
}
use nuxt_laravelize.Workflow.Store.Evolution.{IsFiled, Keeps}
use nuxt_laravelize.Workflow.Validation.Boundary.{
  boundary_of, state_boundary, after_marker, forward_boundary,
}
use nuxt_laravelize.Workflow.Validation.Step.{
  bounded_text, is_safe, is_timestamp, step_fields_valid, step_valid,
}
use nuxt_laravelize.Common.Text.{codes, utf16_length}
use nuxt_laravelize.Common.Map.{Map}
use nuxt_laravelize.Common.Exec.{ok, throw}
use nuxt_laravelize.Workflow.Store.Calls.{
  run_calls, empty-IsFiled, run_calls-IsFiled, creating, claiming, cancelling, renewing, Call,
}
use nuxt_laravelize.Workflow.Receipts.{
  same_step_identity, same_step_identities, identity_unchanged, assert_identity_unchanged,
  accepts_claim, accepts_renewal, accepts_cancellation, accepts_commit,
}
use nuxt_laravelize.Workflow.State.{is_terminal_state, is_workflow_terminal}
use nuxt_laravelize.Workflow.Transition.{with_step, start_step}
use nuxt_laravelize.Workflow.Store.History.{run_calls-Keeps}
use nuxt_laravelize.Workflow.Store.Managed.{same_content_refl}
use nuxt_laravelize.Workflow.Store.Commits.{commit_accepted}
use nuxt_laravelize.Workflow.Store.Fencing.{claim_excludes, commit_fenced}
use nuxt_laravelize.Workflow.Store.Contract.{
  claim_accepted, cancellation_accepted, renewal_accepted, IsOpen,
}

abbrev pub step_a : StepSnapshot
step_a = record {
  name = "a";
  state = StepState.pending;
  attempts = 0;
  compensation_attempts = 0;
  idempotency_key = "w:step:0";
  compensation_idempotency_key = some "w:compensate:0";
  output = none;
  retry_at = none;
  error = none;
}

abbrev pub step_b : StepSnapshot
step_b = record step_a {
  name = "b";
  idempotency_key = "w:step:1";
  compensation_idempotency_key = none;
}

abbrev pub sample : WorkflowSnapshot
sample = record {
  id = "w";
  workflow_name = "order";
  workflow_version = "v1";
  start_key = "k";
  canonical_input = "null";
  input = null;
  state = WorkflowState.pending;
  revision = 0;
  steps = step_a ∷ step_b ∷ [];
  lease = none;
  cancellation_requested = false;
  created_at = 0;
  updated_at = 0;
}

sample_valid : assert_workflow_snapshot sample ≡ ok tt
unfolding assert_workflow_snapshot snapshot_body_valid assert_workflow_version stable_identity
    is_reserved_version bounded_text utf16_length canonical_json is_safe is_timestamp step_valid
    step_fields_valid state_boundary boundary_of codes
sample_valid = refl

abbrev pub one : Store
one = record { snapshots = ("w", sample) ∷ []; start_keys = ("order\0v1\0k", "w") ∷ [] }

one_stored : Map.get "w" one.snapshots ≡ some sample
unfolding Map.get
one_stored = refl

pub one-IsFiled : IsFiled one
unfolding Map.get
one-IsFiled = record { filed = λ id snapshot h. ground (arith, h, eq_iff "w" id) }

abbrev claimed : WorkflowSnapshot
claimed = record sample {
  revision = 1;
  lease = some (record { token = "t"; expires_at = 100 });
  updated_at = 10;
}

claim-one : (claim "w" 0 "t" 10 100 one).0 ≡ ok claimed
unfolding claim required saved assert_lease_arguments assert_expected_revision assert_lease_token
    assert_store_timestamp utf16_length codes is_leased Map.get
claim-one = refl

run_calls-Keeps_example :
    Keeps one (run_calls (claiming "w" 0 "t" 10 100 ∷ cancelling "w" 1 20 ∷ []) one)
run_calls-Keeps_example =
    run_calls-Keeps (claiming "w" 0 "t" 10 100 ∷ cancelling "w" 1 20 ∷ []) one one-IsFiled

run_calls-IsFiled_example :
    IsFiled (run_calls (creating sample ∷ claiming "w" 0 "t" 10 100 ∷ []) empty)
run_calls-IsFiled_example =
    run_calls-IsFiled (creating sample ∷ claiming "w" 0 "t" 10 100 ∷ []) empty empty-IsFiled

abbrev renewing_t : Call
renewing_t = renewing "w" 1 "t" 40 200

abbrev claiming_u : Call
claiming_u = claiming "w" 1 "u" 45 300

abbrev cancelling_w : Call
cancelling_w = cancelling "w" 1 60

claim_excludes_example :
    (claim "w" 2 "u" 90 190
      (run_calls (renewing_t ∷ claiming_u ∷ cancelling_w ∷ []) (claim "w" 0 "t" 10 100 one).1)).0
    ≢ ok sample
claim_excludes_example =
    claim_excludes "w" 0 "t" 10 100 one claimed claim-one
      (renewing_t ∷ claiming_u ∷ cancelling_w ∷ []) (tt, (omega arith, (tt, tt))) 2 "u" 90 190
      (omega arith) sample

other_token : ◌≢◌ {A = String} "t" "u"
other_token e = ground (arith, eq_iff "t" "u", e)

commit_fenced_example :
    (e : WorkflowFailure) × (commit claimed 1 "u" 20 true
        (run_calls (renewing_t ∷ cancelling_w ∷ []) (claim "w" 0 "t" 10 100 one).1)
      ≡ (throw e, run_calls (renewing_t ∷ cancelling_w ∷ []) (claim "w" 0 "t" 10 100 one).1))
commit_fenced_example =
    commit_fenced "w" 0 "u" "t" 10 100 one claimed other_token claim-one
      (renewing_t ∷ cancelling_w ∷ []) (tt, (tt, tt)) claimed 1 20 true refl

abbrev running : Store
running = record one { snapshots = ("w", claimed) ∷ [] }

running_stored : Map.get "w" running.snapshots ≡ some claimed
unfolding Map.get
running_stored = refl

sample-IsOpen : IsOpen sample
sample-IsOpen = record { valid = sample_valid; countable = omega arith }

claim_accepted_example : accepts_claim sample claimed "t" 10 100 ≡ true
claim_accepted_example =
    claim_accepted one "w" sample one_stored sample-IsOpen "t" 10 100 claimed claim-one

abbrev cancelled : WorkflowSnapshot
cancelled = record sample { revision = 1; cancellation_requested = true; updated_at = 20 }

request_cancellation-one : (request_cancellation "w" 0 20 one).0 ≡ ok cancelled
unfolding request_cancellation required saved assert_expected_revision assert_store_timestamp
    is_workflow_terminal is_terminal_state Map.get
request_cancellation-one = refl

cancellation_accepted_example : accepts_cancellation sample cancelled 20 ≡ true
cancellation_accepted_example =
    cancellation_accepted one "w" sample one_stored sample-IsOpen 20 cancelled
      request_cancellation-one (omega arith)

claimed_valid : assert_workflow_snapshot claimed ≡ ok tt
unfolding assert_workflow_snapshot snapshot_body_valid assert_workflow_version stable_identity
    is_reserved_version bounded_text utf16_length canonical_json is_safe is_timestamp step_valid
    step_fields_valid state_boundary boundary_of codes
claimed_valid = refl

abbrev prolonged : WorkflowSnapshot
prolonged = record claimed { lease = some (record { token = "t"; expires_at = 130 }) }

running_renewed : (renew_lease "w" 1 "t" 30 130 running).0 ≡ ok prolonged
unfolding renew_lease required saved assert_lease_arguments assert_expected_revision
    assert_lease_token assert_store_timestamp utf16_length codes is_lease_of Map.get
running_renewed = refl

renewal_accepted_example : accepts_renewal claimed prolonged 1 "t" 30 130 ≡ true
renewal_accepted_example =
    renewal_accepted running "w" claimed claimed running_stored claimed_valid
      (inl (refl, refl, refl)) (same_content_refl claimed) refl 1 "t" 30 130 prolonged refl
      running_renewed

abbrev started : WorkflowSnapshot
started = with_step start_step 0 WorkflowState.running claimed

abbrev started_merged : WorkflowSnapshot
started_merged = record started { revision = 2 }

running_committed : (commit started 1 "t" 10 false running).0 ≡ ok started_merged
unfolding commit required saved assert_expected_revision assert_lease_token assert_store_timestamp
    assert_workflow_snapshot snapshot_body_valid assert_workflow_version stable_identity
    is_reserved_version bounded_text utf16_length canonical_json is_safe is_timestamp step_valid
    step_fields_valid state_boundary boundary_of codes is_lease_of Map.get assert_identity_unchanged
    identity_unchanged same_step_identities same_step_identity merged start_step forward_boundary
    after_marker same_json
running_committed = refl

same_started : identity_unchanged claimed started ≡ true
unfolding identity_unchanged same_step_identities same_step_identity same_json start_step
same_started = refl

commit_accepted_example : accepts_commit claimed started started_merged "t" 10 false ≡ true
commit_accepted_example =
    commit_accepted running claimed started claimed "t" 10 false started_merged running_stored
      (inl (refl, refl, refl)) (omega arith)
      (
        record { token = "t"; expires_at = 100 },
        record { token = "t"; expires_at = 100 },
        refl,
        refl,
        refl,
        refl,
        omega arith,
      )
      refl (omega arith) same_started (λ h. h) (λ h. h) running_committed
