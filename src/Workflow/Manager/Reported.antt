-- ===== src/Workflow/Manager/Reported.antt =====
-- packages/workflows/src/manager.ts: what `processResult` reports as processed.
use nuxt_laravelize.Common.{
  ℕ, ◌+◌, String, ◌≡◌, refl, Bool, true, false, Option, none, some, arith, if◌then◌else◌, ◌≢◌, sym,
  ap,
}
use nuxt_laravelize.Common.Exec.{Result, ok, pure}
use nuxt_laravelize.Workflow.Store.{Action, Store, get, check_action, claim}
use nuxt_laravelize.Workflow.Identity.{WorkflowFailure}
use nuxt_laravelize.Workflow.Receipts.{accepts_claim, receipt}
use nuxt_laravelize.Workflow.Types.{WorkflowSnapshot, WorkflowDefinition}
use nuxt_laravelize.Workflow.State.{
  is_workflow_terminal, is_workflow_waiting, workflow_next_retry_at,
}
use nuxt_laravelize.Workflow.Validation.{assert_matches_definition}
use nuxt_laravelize.Workflow.Definition.{Resolver}
use nuxt_laravelize.Workflow.Manager.{of_result, read, resolve_snapshot}
use nuxt_laravelize.Workflow.Manager.Advance.{advance}
use nuxt_laravelize.Workflow.Manager.Committed.{if-Yields, Yields, bind-Yields, IsSettled}
use nuxt_laravelize.Workflow.Manager.Processed.{advance-Commits}
use nuxt_laravelize.Workflow.Manager.Process.{
  ProcessResult, ProcessCall, terminal, contended, processed, waiting, wait_until, not_due, reread,
  classify_claim_conflict, is_claim_conflict, advance_claimed, claim_and_advance, process_observed,
  process_result, snapshot_of,
}
use mathlib.Core.Path.{subst}

-- A result that is processed has a snapshot that is settled.
abbrev IsReported : WorkflowDefinition → ProcessResult → Store → Type 0
IsReported definition result s =
    (r : WorkflowSnapshot) → result ≡ processed r → IsSettled definition r s

abbrev Reports : WorkflowDefinition → Result WorkflowFailure ProcessResult × Store → Type 0
Reports definition = Yields (IsReported definition)

-- A snapshot that another process left is never reported as processed.
not_processed :
    (s : WorkflowSnapshot) (retry_at : Option ℕ) (r : WorkflowSnapshot)
    → (if is_workflow_terminal s
        then terminal s
        else elim retry_at [ none ↦ contended s | some t ↦ waiting s t ])
      ≢ processed r
not_processed s none r e = absurd (ground (arith, e))
not_processed s (some t) r e = absurd (ground (arith, e))

processed_same : (s r : WorkflowSnapshot) → ProcessResult.processed s ≡ processed r → s ≡ r
processed_same s r e = ap snapshot_of e

module _ (resolver : Resolver) (lease_duration : ℕ) (id : String) (call : ProcessCall)
    (observed : WorkflowSnapshot) (definition : WorkflowDefinition) where
  reread-Reports :
      (s : Store) → Reports definition (reread resolver lease_duration call.refused id s)
  unfolding reread classify_claim_conflict
  reread-Reports s =
      bind-Yields (λ a s'. Unit) (IsReported definition) (read id) _ (call.refused s) (λ a done. tt)
        λ authoritative s1 u.
          bind-Yields (λ a s'. Unit) (IsReported definition)
            (of_result (resolve_snapshot resolver authoritative)) _ s1 (λ a done. tt)
            λ found s2 u' result told r same. absurd (
              not_processed authoritative
                (wait_until (is_workflow_waiting authoritative)
                  (workflow_next_retry_at authoritative))
                r (ground (arith, told, same)))

  advance_claimed-Reports :
      (claimed : WorkflowSnapshot) (s : Store)
      → Reports definition
          (advance_claimed resolver lease_duration call observed definition claimed s)
  unfolding advance_claimed
  advance_claimed-Reports claimed s =
      bind-Yields (λ a s'. Unit) (IsReported definition)
        (of_result (
          receipt (accepts_claim observed claimed call.token call.now (call.now + lease_duration))
            claimed))
        _ s (λ a done. tt)
        λ taken s1 u.
          bind-Yields (λ a s'. Unit) (IsReported definition)
            (check_action (assert_matches_definition taken definition)) _ s1 (λ a done. tt)
            λ u' s2 u''.
              bind-Yields (IsSettled definition) (IsReported definition)
                (advance lease_duration definition call.token call.around taken) _
                (call.around.before_start s2)
                (advance-Commits lease_duration definition call.token call.around taken
                  (call.around.before_start s2))
                λ next s3 settled result told r same.
                  subst (λ x. IsSettled definition x s3)
                    (processed_same next r (ground (arith, told, same))) settled

  claim_and_advance-Reports :
      (s : Store)
      → Reports definition (claim_and_advance resolver lease_duration id call observed definition s)
  unfolding claim_and_advance
  claim_and_advance-Reports s =
      let (r, s') =
        claim id observed.revision call.token call.now (call.now + lease_duration)
          (call.meanwhile s) in
      if-Yields (IsReported definition) (is_claim_conflict r) _ _ (reread-Reports s') (
        bind-Yields (λ a s'. Unit) (IsReported definition) (of_result r)
          (advance_claimed resolver lease_duration call observed definition) s' (λ a done. tt)
          λ claimed s1 u. advance_claimed-Reports claimed s1)

  due-Reports :
      (over : Bool) (retry_at : Option ℕ) (m : Action ProcessResult) (s : Store)
      → Reports definition (m s)
      → Reports definition (
          (if over
              then pure (terminal observed)
              else elim retry_at [ some t ↦ pure (waiting observed t) | none ↦ m ])
            s)
  due-Reports true retry_at m s h result told r same = absurd (ground (arith, told, same))
  due-Reports false none m s h result told r same = h result told r same
  due-Reports false (some t) m s h result told r same = absurd (ground (arith, told, same))

  process_observed-Reports :
      (s : Store)
      → Reports definition (process_observed resolver lease_duration id call observed definition s)
  unfolding process_observed
  process_observed-Reports s =
      due-Reports (is_workflow_terminal observed)
        (not_due resolver lease_duration observed call.now)
        (claim_and_advance resolver lease_duration id call observed definition) s
        (claim_and_advance-Reports s)

module _ (resolver : Resolver) (lease_duration : ℕ) (id : String) (call : ProcessCall) (s : Store)
    (observed : WorkflowSnapshot) (definition : WorkflowDefinition) where
  read-same : (read id s).1 ≡ s
  unfolding read get
  read-same = ground arith

  process_result-observed :
      (ready : call.is_aborted ≡ false)
      → (read id s).0 ≡ ok observed
      → resolve_snapshot resolver observed ≡ ok definition
      → process_result resolver lease_duration id call s
        ≡ process_observed resolver lease_duration id call observed definition s
  unfolding process_result
  process_result-observed ready found matched = ground (arith, ready, found, matched, read-same)

  not_aborted :
      (r : WorkflowSnapshot)
      → (process_result resolver lease_duration id call s).0 ≡ ok (processed r)
      → call.is_aborted ≡ false
  unfolding process_result
  not_aborted r h = ground (arith, h)

  -- If the workflow can be read and its definition resolves, and the manager reports a snapshot as
  -- processed, then the store that the call leaves holds this snapshot under its id, the snapshot
  -- has no lease, and it matches the definition. What other processes do to the store is arbitrary:
  -- between the reading and the claim, before the first commit, at each beat and at the end of the
  -- handler, and around the reading behind a conflict.
  pub process_result-IsSettled :
      (read id s).0 ≡ ok observed
      → resolve_snapshot resolver observed ≡ ok definition
      → (r : WorkflowSnapshot)
      → (process_result resolver lease_duration id call s).0 ≡ ok (processed r)
      → IsSettled definition r (process_result resolver lease_duration id call s).1
  process_result-IsSettled found matched r h =
      let same = process_result-observed (not_aborted r h) found matched in
      subst (λ (answer : Result WorkflowFailure ProcessResult × Store). Reports definition answer)
        (sym same) (process_observed-Reports resolver lease_duration id call observed definition s)
        (processed r) h r refl
