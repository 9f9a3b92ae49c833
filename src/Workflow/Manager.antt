-- ===== src/Workflow/Manager.antt =====
-- packages/workflows/src/manager.ts: `WorkflowManager` over the in-memory store. What the manager is
-- given from outside is an argument: clock readings, tokens, the answers of the retry schedule and of
-- the step handlers, and what other processes do to the store meanwhile.
pub mod Heartbeat
pub mod Advance
pub mod Process
pub mod Start
pub mod Guards
pub mod Committed
pub mod Processed
pub mod Reported
use nuxt_laravelize.Common.{
  ℕ, zero, suc, max, String, Bool, true, false, ◌&&◌, ◌||◌, Option, none, some, List, [], ◌∷◌,
  str_eq, if◌then◌else◌,
}
use nuxt_laravelize.Workflow.Store.{Action, Store, get, check_action, commit}
use nuxt_laravelize.Workflow.Identity.{
  check, WorkflowFailure, revision_conflict, workflow_not_found, workflow_lease_lost,
  workflow_execution_aborted,
}
use nuxt_laravelize.Workflow.Receipts.{accepts_commit, receipt}
use nuxt_laravelize.Workflow.Validation.{
  assert_workflow_snapshot, assert_matches_definition, normalize_persisted,
}
use nuxt_laravelize.Workflow.Types.{
  is_state, WorkflowState, StepState, WorkflowError, StepSnapshot, WorkflowLease, WorkflowSnapshot,
  WorkflowStep, WorkflowDefinition, is_step,
}
use nuxt_laravelize.Workflow.Manager.Heartbeat.{
  failed, HandlerRun, Ran, lease_lost, aborted, stopped, returned, with_heartbeat,
}
use nuxt_laravelize.Workflow.Transition.{
  begin_compensation_or_cancel, with_step, commit_step, forward_failure, compensation_failure,
  delay_within, is_compensating, cancel_waiting, first_uncommitted, start_step, start_compensation,
  last_to_compensate, finish_compensation,
}
use nuxt_laravelize.Workflow.Definition.{checked, Resolver, resolve_exact}
use nuxt_laravelize.Common.Exec.{pure, raise, Result, ok, throw, ◌>>=◌, ◌>>◌}

-- `assertProcessable`, of a snapshot and the definition that the resolver has for it.
unfoldable pub resolve_snapshot :
    Resolver → WorkflowSnapshot → Result WorkflowFailure WorkflowDefinition
resolve_snapshot resolver s =
    checked (assert_workflow_snapshot s)
      (elim (resolve_exact resolver
        (record { name = s.workflow_name; version = s.workflow_version })) [
          | throw e ↦ throw e
          | ok definition ↦ checked (assert_matches_definition s definition) (ok definition)
        ])

abbrev pub of_result : {A : Type 0} → Result WorkflowFailure A → Action A
of_result r s = (r, s)

-- `required`
abbrev pub stored_or_throw : Option WorkflowSnapshot → Result WorkflowFailure WorkflowSnapshot
stored_or_throw none = throw workflow_not_found
stored_or_throw (some s) = ok s

unfoldable pub read : String → Action WorkflowSnapshot
read id = do
  value ← get id
  snapshot ← of_result (stored_or_throw value)
  of_result (normalize_persisted snapshot)

-- One attempt of `commit` to have the store take a candidate.
unfoldable pub commit_once :
    (original : WorkflowSnapshot)
    → WorkflowDefinition
    → String
    → WorkflowSnapshot
    → (release : Bool) → (now : ℕ) → Action WorkflowSnapshot
commit_once original definition token next release now = do
  check_action (assert_matches_definition next definition)
  answer ← commit next original.revision token now release
  committed ← of_result (receipt (accepts_commit original next answer token now release) answer)
  check_action (assert_matches_definition committed definition)
  pure committed

abbrev pub candidate_at : WorkflowSnapshot → ℕ → WorkflowSnapshot
candidate_at next now = record next { updated_at = max next.updated_at now }

abbrev pub is_final : WorkflowState → Bool
is_final state = is_state state WorkflowState.completed || is_state state WorkflowState.failed

-- What a final state becomes when a cancellation came first.
unfoldable pub cancellation_candidate :
    WorkflowDefinition → (candidate authoritative : WorkflowSnapshot) → WorkflowSnapshot
cancellation_candidate definition candidate authoritative =
    begin_compensation_or_cancel definition true (
      if is_state candidate.state WorkflowState.failed
      then record candidate {
        revision = authoritative.revision;
        cancellation_requested = true;
        updated_at = max candidate.updated_at authoritative.updated_at;
        lease = authoritative.lease;
      }
      else authoritative)

abbrev holds_token : Option WorkflowLease → String → Bool
holds_token none token = false
holds_token (some lease) token = str_eq lease.token token

-- What a commit meets behind a conflict: what other processes do before the snapshot is read again,
-- and between that reading and the second commit, whose clock reading is `at`.
pub record Again : Type 0 where
  pub at : ℕ
  pub before_read : Store → Store
  pub before_commit : Store → Store

-- Other processes use the store.
abbrev pub interfere : (Store → Store) → Action Unit
interfere others s = (ok tt, others s)

-- The handler of a revision conflict. The second candidate is never final, so its own conflict is
-- thrown on.
unfoldable pub commit_cancelled :
    WorkflowDefinition → String → (candidate : WorkflowSnapshot) → Again → Action WorkflowSnapshot
commit_cancelled definition token candidate again = do
  interfere again.before_read
  authoritative ← read candidate.id
  check_action (assert_matches_definition authoritative definition)
  check_action (
      check (authoritative.cancellation_requested && holds_token authoritative.lease token)
        revision_conflict)
  interfere again.before_commit
  commit_once authoritative definition token
      (candidate_at (cancellation_candidate definition candidate authoritative) again.at) true
      again.at

unfoldable pub is_conflict : Result WorkflowFailure WorkflowSnapshot → Bool
is_conflict (throw revision_conflict) = true
is_conflict _ = false

-- `commit`, with the clock reading of the first attempt and what it meets behind a conflict. The store
-- is the only one that throws a revision conflict.
unfoldable pub commit_candidate :
    (original : WorkflowSnapshot)
    → WorkflowDefinition
    → String
    → WorkflowSnapshot
    → (release : Bool) → (now : ℕ) → Again
    → Action WorkflowSnapshot
commit_candidate original definition token next release now again s =
    let candidate = candidate_at next now in
    let (r, s') = commit_once original definition token candidate release now s in
    if is_conflict r && is_final candidate.state
    then commit_cancelled definition token candidate again s'
    else (r, s')
