-- ===== src/Workflow/State.antt =====
-- packages/workflows/src/state.ts.
use nuxt_laravelize.Common.{
  ℕ, Bool, true, false, ◌&&◌, ◌||◌, Option, none, List, [], ◌∷◌, if◌then◌else◌,
}
use nuxt_laravelize.Workflow.Types.{
  is_state, is_step, WorkflowState, StepState, StepSnapshot, WorkflowSnapshot,
}

unfoldable pub is_terminal_state : WorkflowState → Bool
is_terminal_state WorkflowState.completed = true
is_terminal_state WorkflowState.failed = true
is_terminal_state WorkflowState.compensated = true
is_terminal_state WorkflowState.compensation_failed = true
is_terminal_state WorkflowState.cancelled = true
is_terminal_state _ = false

unfoldable pub is_workflow_terminal : WorkflowSnapshot → Bool
unfolding is_terminal_state
is_workflow_terminal snapshot = is_terminal_state snapshot.state

unfoldable pub is_workflow_waiting : WorkflowSnapshot → Bool
is_workflow_waiting snapshot =
    is_state snapshot.state WorkflowState.waiting_retry
    || is_state snapshot.state WorkflowState.compensation_waiting_retry

-- The first step that waits, and its `retryAt`.
unfoldable pub first_retry_at : List StepSnapshot → Option ℕ
first_retry_at [] = none
first_retry_at (step ∷ steps) =
    if is_step step.state StepState.waiting_retry
      || is_step step.state StepState.compensation_waiting_retry
    then step.retry_at
    else first_retry_at steps

unfoldable pub workflow_next_retry_at : WorkflowSnapshot → Option ℕ
unfolding first_retry_at
workflow_next_retry_at snapshot =
    if is_state snapshot.state WorkflowState.waiting_retry && snapshot.cancellation_requested
    then none
    else first_retry_at snapshot.steps
