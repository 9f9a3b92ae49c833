-- ===== src/Workflow/Manager/Process.antt =====
-- packages/workflows/src/manager.ts: the methods of `WorkflowManager`.
use nuxt_laravelize.Common.{
  ℕ, ◌+◌, String, Bool, true, false, ◌||◌, Option, none, some, List, [], ◌∷◌, ltb, ◌==◌,
  if◌then◌else◌,
}
use nuxt_laravelize.Workflow.Store.{
  Action, get, check_action, normalized, claim, request_cancellation, Store,
}
use nuxt_laravelize.Workflow.Identity.{
  WorkflowFailure, revision_conflict, lease_conflict, workflow_execution_aborted,
}
use nuxt_laravelize.Workflow.Receipts.{accepts_claim, accepts_cancellation, receipt}
use nuxt_laravelize.Workflow.Validation.{assert_matches_definition}
use nuxt_laravelize.Workflow.State.{
  is_workflow_terminal, is_workflow_waiting, workflow_next_retry_at,
}
use nuxt_laravelize.Workflow.Types.{WorkflowSnapshot, WorkflowDefinition}
use nuxt_laravelize.Workflow.Manager.{interfere, resolve_snapshot, of_result, read}
use nuxt_laravelize.Workflow.Definition.{Resolver}
use nuxt_laravelize.Workflow.Manager.Advance.{advance, Surroundings}
use nuxt_laravelize.Common.Exec.{pure, raise, Result, ok, throw, ◌>>=◌, ◌>>◌}

-- What `processResult` reports.
pub data ProcessResult : Type 0 where
  terminal contended processed : WorkflowSnapshot → ProcessResult
  waiting : WorkflowSnapshot → (retry_at : ℕ) → ProcessResult

abbrev pub snapshot_of : ProcessResult → WorkflowSnapshot
snapshot_of (terminal s) = s
snapshot_of (contended s) = s
snapshot_of (processed s) = s
snapshot_of (waiting s retry_at) = s

abbrev pub wait_until : Bool → Option ℕ → Option ℕ
wait_until true retry_at = retry_at
wait_until false retry_at = none

-- `classifyClaimConflict`
unfoldable pub classify_claim_conflict : WorkflowSnapshot → ProcessResult
classify_claim_conflict s =
    if is_workflow_terminal s
    then terminal s
    else elim (wait_until (is_workflow_waiting s) (workflow_next_retry_at s)) [
      | none ↦ contended s
      | some retry_at ↦ waiting s retry_at
    ]

-- What one call is given: its token, the clock reading of the claim, the signal at the start, and
-- the surroundings of the transition. `before` is what other processes do to the store before the
-- call, `meanwhile` what they do between its reading and its claim, and `refused` what they do
-- between a claim that conflicts and the next reading.
pub record ProcessCall : Type 0 where
  pub token : String
  pub now : ℕ
  pub is_aborted : Bool
  pub around : Surroundings
  pub before : Store → Store
  pub meanwhile : Store → Store
  pub refused : Store → Store

unfoldable pub is_claim_conflict : Result WorkflowFailure WorkflowSnapshot → Bool
is_claim_conflict (throw revision_conflict) = true
is_claim_conflict (throw lease_conflict) = true
is_claim_conflict _ = false

module _ (resolver : Resolver) (lease_duration : ℕ) where
  -- The snapshot that another process left, once the claim has failed.
  unfoldable pub reread : (refused : Store → Store) → String → Action ProcessResult
  reread refused id = do
    interfere refused
    authoritative ← read id
    definition ← of_result (resolve_snapshot resolver authoritative)
    pure (classify_claim_conflict authoritative)

  -- A claim that the store has granted.
  unfoldable pub advance_claimed :
      ProcessCall
      → (observed : WorkflowSnapshot) → WorkflowDefinition
      → WorkflowSnapshot
      → Action ProcessResult
  advance_claimed call observed definition claimed = do
    taken ← of_result (
        receipt (accepts_claim observed claimed call.token call.now (call.now + lease_duration))
          claimed)
    check_action (assert_matches_definition taken definition)
    interfere call.around.before_start
    next ← advance lease_duration definition call.token call.around taken
    pure (processed next)

  unfoldable pub claim_and_advance :
      String
      → ProcessCall
      → (observed : WorkflowSnapshot) → WorkflowDefinition
      → Action ProcessResult
  claim_and_advance id call observed definition s =
      let (r, s') =
        claim id observed.revision call.token call.now (call.now + lease_duration)
          (call.meanwhile s) in
      if is_claim_conflict r
      then reread call.refused id s'
      else (do claimed ← of_result r; advance_claimed call observed definition claimed) s'

  -- A retry that is not due yet.
  unfoldable pub not_due : WorkflowSnapshot → ℕ → Option ℕ
  not_due s now = elim (wait_until (is_workflow_waiting s) (workflow_next_retry_at s)) [
    | none ↦ none
    | some retry_at ↦ if ltb now retry_at then some retry_at else none
  ]

  unfoldable pub process_observed :
      String → ProcessCall → WorkflowSnapshot → WorkflowDefinition → Action ProcessResult
  process_observed id call observed definition =
      if is_workflow_terminal observed
      then pure (terminal observed)
      else elim (not_due observed call.now) [
        | some retry_at ↦ pure (waiting observed retry_at)
        | none ↦ claim_and_advance id call observed definition
      ]

  unfoldable pub process_result : String → ProcessCall → Action ProcessResult
  unfolding process_observed
  process_result id call = if call.is_aborted then raise workflow_execution_aborted else do
    observed ← read id
    definition ← of_result (resolve_snapshot resolver observed)
    process_observed id call observed definition

  -- `meanwhile` is what other processes do between the reading and the request.
  unfoldable pub cancel : String → ℕ → (meanwhile : Store → Store) → Action WorkflowSnapshot
  cancel id now meanwhile = do
    snapshot ← read id
    definition ← of_result (resolve_snapshot resolver snapshot)
    if is_workflow_terminal snapshot || snapshot.cancellation_requested then pure snapshot else do
      interfere meanwhile
      answer ← request_cancellation id snapshot.revision now
      of_result (receipt (accepts_cancellation snapshot answer now) answer)

  -- The loop of `run`: one call of `process` for each transition that is left.
  unfoldable pub run_from : String → List ProcessCall → WorkflowSnapshot → Action WorkflowSnapshot
  run_from id [] snapshot s = (ok snapshot, s)
  run_from id (call ∷ calls) snapshot s =
      if is_workflow_terminal snapshot
      then (ok snapshot, s)
      else let (r, s') = process_result id call (call.before s) in
        elim r [
          | throw e ↦ (throw e, s')
          | ok result ↦
              if (snapshot_of result).revision == snapshot.revision
              then (ok (snapshot_of result), s')
              else run_from id calls (snapshot_of result) s'
        ]

  unfoldable pub run : String → List ProcessCall → Action WorkflowSnapshot
  unfolding run_from
  run id calls = do
    snapshot ← read id
    definition ← of_result (resolve_snapshot resolver snapshot)
    run_from id calls snapshot

-- `status`
unfoldable pub status : String → Action (Option WorkflowSnapshot)
status id = do value ← get id; of_result (normalized value)
