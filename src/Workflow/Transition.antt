-- ===== src/Workflow/Transition.antt =====
-- packages/workflows/src/manager.ts: the next snapshot of each transition, before it is committed.
pub mod Forward
pub mod Backward
use mathlib.Core.Option
use nuxt_laravelize.Common.{
  ℕ, zero, suc, ◌+◌, Bool, true, false, ◌&&◌, ◌||◌, Option, none, some, List, [], ◌∷◌, map, ltb,
  if◌then◌else◌,
}
use nuxt_laravelize.Workflow.Json.{Json}
use nuxt_laravelize.Workflow.Validation.{has_compensatable_commit}
use nuxt_laravelize.Workflow.Types.{
  is_step, WorkflowState, StepState, WorkflowError, StepSnapshot, WorkflowSnapshot, WorkflowStep,
  WorkflowDefinition,
}

abbrev pub is_compensating_state : WorkflowState → Bool
is_compensating_state WorkflowState.compensating = true
is_compensating_state WorkflowState.compensation_waiting_retry = true
is_compensating_state _ = false

-- `isCompensating`
unfoldable pub is_compensating : WorkflowSnapshot → Bool
is_compensating s = is_compensating_state s.state

-- `beginCompensationOrCancel`
unfoldable pub begin_compensation_or_cancel :
    WorkflowDefinition → (cancellation : Bool) → WorkflowSnapshot → WorkflowSnapshot
begin_compensation_or_cancel definition cancellation s = record s {
  state =
      if has_compensatable_commit definition.steps s.steps
      then WorkflowState.compensating
      else if cancellation
      then WorkflowState.cancelled
      else WorkflowState.failed;
}

-- A cancellation takes a step that waits for its retry back to `pending`.
unfoldable pub cancel_step : StepSnapshot → StepSnapshot
cancel_step step =
    if is_step step.state StepState.waiting_retry
    then record step { state = StepState.pending; retry_at = none; error = none }
    else step

unfoldable pub cancel_waiting : WorkflowDefinition → WorkflowSnapshot → WorkflowSnapshot
cancel_waiting definition s =
    begin_compensation_or_cancel definition true (record s { steps = map cancel_step s.steps })

-- `snapshot.steps.findIndex(step => step.state !== 'committed')`
unfoldable pub first_uncommitted : List StepSnapshot → Option ℕ
first_uncommitted [] = none
first_uncommitted (step ∷ steps) =
    if is_step step.state StepState.committed
    then Option.map suc (first_uncommitted steps)
    else some 0

-- A write to one step of the copied array.
abbrev pub update_step : (StepSnapshot → StepSnapshot) → ℕ → List StepSnapshot → List StepSnapshot
update_step f index [] = []
update_step f zero (step ∷ steps) = f step ∷ steps
update_step f (suc index) (step ∷ steps) = step ∷ update_step f index steps

abbrev pub with_step :
    (StepSnapshot → StepSnapshot) → ℕ → WorkflowState → WorkflowSnapshot → WorkflowSnapshot
with_step f index state s = record s { steps = update_step f index s.steps; state = state }

unfoldable pub start_step : StepSnapshot → StepSnapshot
start_step step = record step {
  state = StepState.running;
  attempts = step.attempts + 1;
  retry_at = none;
  error = none;
}

unfoldable pub start_compensation : StepSnapshot → StepSnapshot
start_compensation step = record step {
  state = StepState.compensating;
  compensation_attempts = step.compensation_attempts + 1;
  retry_at = none;
  error = none;
}

unfoldable pub commit_step : Json → StepSnapshot → StepSnapshot
commit_step output step = record step { state = StepState.committed; output = some output }

unfoldable pub fail_step : StepState → WorkflowError → StepSnapshot → StepSnapshot
fail_step state error step = record step { state = state; error = some error }

unfoldable pub wait_step : StepState → WorkflowError → ℕ → StepSnapshot → StepSnapshot
wait_step state error retry_at step = record step {
  state = state;
  error = some error;
  retry_at = some retry_at;
}

-- `finishForwardFailure`: `delay` is what the retry schedule answers while attempts are left.
unfoldable pub forward_failure :
    WorkflowDefinition
    → ℕ
    → WorkflowError
    → (delay : Option ℕ) → (now : ℕ) → WorkflowSnapshot
    → WorkflowSnapshot
forward_failure definition index error (some delay) now s =
    with_step (wait_step StepState.waiting_retry error (now + delay)) index
      WorkflowState.waiting_retry s
forward_failure definition index error none now s =
    begin_compensation_or_cancel definition false
      (with_step (fail_step StepState.failed error) index WorkflowState.failed s)

-- `finishCompensationFailure`
unfoldable pub compensation_failure :
    ℕ → WorkflowError → (delay : Option ℕ) → (now : ℕ) → WorkflowSnapshot → WorkflowSnapshot
compensation_failure index error (some delay) now s =
    with_step (wait_step StepState.compensation_waiting_retry error (now + delay)) index
      WorkflowState.compensation_waiting_retry s
compensation_failure index error none now s =
    with_step (fail_step StepState.compensation_failed error) index
      WorkflowState.compensation_failed s

-- The delay that the retry schedule gives, asked only while attempts are left.
abbrev pub delay_within : (attempts most : ℕ) → Option ℕ → Option ℕ
delay_within attempts most delay = if ltb attempts most then delay else none

-- The last step that is to be compensated: the loop runs from the end.
unfoldable pub is_to_compensate : WorkflowStep → StepSnapshot → Bool
is_to_compensate definition step =
    (is_step step.state StepState.committed
      || is_step step.state StepState.compensation_waiting_retry
      || is_step step.state StepState.compensating)
    && definition.compensable

-- The later step, if there is one, else this one.
abbrev pub later_or : Option ℕ → Bool → Option ℕ
later_or (some index) this = some (suc index)
later_or none this = if this then some 0 else none

unfoldable pub last_to_compensate : List WorkflowStep → List StepSnapshot → Option ℕ
unfolding is_to_compensate
last_to_compensate (definition ∷ definitions) (step ∷ steps) =
    later_or (last_to_compensate definitions steps) (is_to_compensate definition step)
last_to_compensate _ _ = none

-- The end of a compensation that has no step left.
unfoldable pub finish_compensation : WorkflowSnapshot → WorkflowSnapshot
finish_compensation s = record s {
  state = if s.cancellation_requested then WorkflowState.cancelled else WorkflowState.compensated;
}
