-- ===== src/Workflow/Manager/Guards.antt =====
-- When the manager leaves a workflow alone.
use nuxt_laravelize.Common.{ℕ, ◌<◌, String, ◌≡◌, true, false, some, arith}
use nuxt_laravelize.Workflow.Store.{get, Store}
use nuxt_laravelize.Workflow.State.{
  is_workflow_terminal, is_workflow_waiting, workflow_next_retry_at,
}
use nuxt_laravelize.Workflow.Types.{WorkflowSnapshot, WorkflowDefinition}
use nuxt_laravelize.Workflow.Manager.{resolve_snapshot, read}
use nuxt_laravelize.Workflow.Definition.{Resolver}
use nuxt_laravelize.Workflow.Manager.Process.{
  not_due, process_observed, process_result, ProcessCall, waiting, terminal,
}
use nuxt_laravelize.Common.Exec.{ok}

module _ (resolver : Resolver) (lease_duration : ℕ) (id : String) (call : ProcessCall) (s : Store)
    (observed : WorkflowSnapshot) (definition : WorkflowDefinition)
    (ready : call.is_aborted ≡ false) (found : (read id s).0 ≡ ok observed)
    (resolved : resolve_snapshot resolver observed ≡ ok definition) where
  read-same : (read id s).1 ≡ s
  unfolding read get
  read-same = ground arith

  -- If a workflow that can be read and resolved has ended, then a call that is not aborted reports
  -- it as terminal, and the store stays as it is.
  pub process_result-terminal :
      is_workflow_terminal observed ≡ true
      → process_result resolver lease_duration id call s ≡ (ok (terminal observed), s)
  unfolding process_result process_observed
  process_result-terminal over = ground (arith, found, resolved, over, ready, read-same)

  -- If a workflow that can be read and resolved waits for a retry at an instant, then a call that
  -- is not aborted and comes before the instant reports it as waiting until then, and the store
  -- stays as it is.
  pub process_result-waiting :
      (retry_at : ℕ)
      → is_workflow_terminal observed ≡ false
      → is_workflow_waiting observed ≡ true
      → workflow_next_retry_at observed ≡ some retry_at
      → call.now < retry_at
      → process_result resolver lease_duration id call s ≡ (ok (waiting observed retry_at), s)
  unfolding process_result process_observed not_due
  process_result-waiting retry_at unfinished waits due early =
      ground (arith, found, resolved, unfinished, waits, due, early, ready, read-same)
