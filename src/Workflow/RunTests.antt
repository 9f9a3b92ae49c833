-- ===== src/Workflow/RunTests.antt =====
-- packages/workflows: the manager processes a workflow, which another process cancels meanwhile.
use nuxt_laravelize.Common.Map
use nuxt_laravelize.Workflow.Validation.{
  snapshot_body_valid, assert_workflow_snapshot, steps_match, steps_within, compensating_grounds,
  matches_definition, assert_matches_definition, normalize_steps, normalize_persisted,
}
use nuxt_laravelize.Workflow.Validation.Step.{
  bounded_text, is_safe, is_timestamp, step_fields_valid, step_valid,
}
use nuxt_laravelize.Workflow.Validation.Boundary.{forward_boundary, state_boundary}
use nuxt_laravelize.Workflow.Identity.{
  stable_identity, is_reserved_version, assert_workflow_version, assert_lease_arguments,
}
use nuxt_laravelize.Workflow.Json.{same_json, canonical_json, null}
use nuxt_laravelize.Workflow.Store.{
  save, normalized, get, is_leased, is_lease_of, claim, renew_lease, merged, commit,
  request_cancellation, Store,
}
use nuxt_laravelize.Workflow.Manager.{
  resolve_snapshot, read, commit_once, is_conflict, commit_candidate, Again,
}
use nuxt_laravelize.Workflow.Manager.Process.{
  is_claim_conflict, advance_claimed, claim_and_advance, not_due, process_result, ProcessCall,
  processed,
}
use nuxt_laravelize.Workflow.Manager.Advance.{finish_step, run_step, advance}
use nuxt_laravelize.Workflow.Manager.Heartbeat.{
  after_renewal, renew, renewals, verdict, with_heartbeat, HandlerRun, resolved,
}
use nuxt_laravelize.Workflow.Transition.{
  is_compensating, first_uncommitted, start_step, commit_step,
}
use nuxt_laravelize.Workflow.Receipts.{
  same_step, same_steps, same_content, same_snapshot, identity_unchanged, assert_identity_unchanged,
  claimed_from, accepts_claim, accepts_renewal, kept_lease_valid, accepts_commit,
}
use nuxt_laravelize.Workflow.Definition.{resolve_exact}
use nuxt_laravelize.Workflow.State.{is_workflow_terminal, is_workflow_waiting}
use nuxt_laravelize.Common.Text.{utf16_length, decimal}
use nuxt_laravelize.Common.{true, ◌≡◌, refl, false, some, [], ◌∷◌}
use nuxt_laravelize.Common.Map.{Map}
use nuxt_laravelize.Workflow.Types.{WorkflowSnapshot, StepState, WorkflowState}
use nuxt_laravelize.Workflow.Manager.Reported.{process_result-IsSettled}
use nuxt_laravelize.Workflow.Manager.Committed.{IsSettled}
use nuxt_laravelize.Workflow.Tests.{one, sample, step_a, step_b}
use nuxt_laravelize.Workflow.ManagerTests.{resolver, order}
use nuxt_laravelize.Common.Exec.{ok}

abbrev alone : Store → Store
alone s = s

-- Another process asks for the cancellation while the handler runs.
abbrev cancels : Store → Store
cancels s = (request_cancellation "w" 2 15 s).1

-- A handler that returns `null`, with one renewal of the lease while it runs.
abbrev handled : HandlerRun
handled = record {
  aborted_before = false;
  beats = record { now = 12; checked_at = 12; others = alone } ∷ [];
  outcome = resolved (ok null);
  others = cancels;
  aborted_after = false;
}

abbrev again : Again
again = record { at = 20; before_read = alone; before_commit = alone }

abbrev first_call : ProcessCall
first_call = record {
  token = "t";
  now = 10;
  is_aborted = false;
  around = record {
    is_aborted = false;
    before_start = alone;
    start_at = 11;
    start_again = again;
    finish_at = 16;
    finish_again = again;
    retry_from = 16;
    delay = some 1000;
    run = handled;
  };
  before = alone;
  meanwhile = alone;
  refused = alone;
}

abbrev reported : WorkflowSnapshot
reported = record sample {
  state = WorkflowState.running;
  revision = 4;
  steps =
      record step_a { state = StepState.committed; attempts = 1; output = some null } ∷ step_b ∷ [];
  cancellation_requested = true;
  updated_at = 16;
}

sample_found : (read "w" one).0 ≡ ok sample
unfolding snapshot_body_valid assert_workflow_snapshot normalize_steps normalize_persisted
    bounded_text is_safe is_timestamp step_fields_valid step_valid state_boundary stable_identity
    is_reserved_version assert_workflow_version normalized get read utf16_length canonical_json
    Map.get
sample_found = refl

order_resolves : resolve_snapshot resolver sample ≡ ok order
unfolding snapshot_body_valid assert_workflow_snapshot steps_match steps_within compensating_grounds
    matches_definition assert_matches_definition bounded_text is_safe is_timestamp step_fields_valid
    step_valid state_boundary stable_identity is_reserved_version resolve_snapshot resolve_exact
    utf16_length decimal canonical_json
order_resolves = refl

order_processed : (process_result resolver 30000 "w" first_call one).0 ≡ ok (processed reported)
unfolding snapshot_body_valid assert_workflow_snapshot steps_match steps_within compensating_grounds
    matches_definition assert_matches_definition normalize_steps normalize_persisted bounded_text
    is_safe is_timestamp step_fields_valid step_valid forward_boundary state_boundary
    stable_identity is_reserved_version assert_lease_arguments save normalized get is_leased
    is_lease_of claim renew_lease merged commit request_cancellation resolve_snapshot read
    commit_once is_conflict commit_candidate is_claim_conflict advance_claimed claim_and_advance
    not_due process_result finish_step run_step advance after_renewal renew renewals verdict
    with_heartbeat is_compensating first_uncommitted start_step commit_step same_step same_steps
    same_content same_snapshot identity_unchanged assert_identity_unchanged claimed_from
    accepts_claim accepts_renewal kept_lease_valid accepts_commit resolve_exact is_workflow_terminal
    is_workflow_waiting utf16_length decimal canonical_json same_json Map.get Map.put
order_processed = refl

process_result-IsSettled_example :
    IsSettled order reported (process_result resolver 30000 "w" first_call one).1
process_result-IsSettled_example =
    process_result-IsSettled resolver 30000 "w" first_call one sample order sample_found
      order_resolves reported order_processed
