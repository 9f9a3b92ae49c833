-- ===== src/Workflow/Manager/Advance.antt =====
-- packages/workflows/src/manager.ts: `advance`, which takes a claimed workflow through one transition.
use nuxt_laravelize.Workflow.Manager.{Again, commit_candidate}
use nuxt_laravelize.Common.{
  ℕ, zero, suc, String, Bool, true, false, ◌||◌, Option, none, some, List, [], ◌∷◌, if◌then◌else◌,
}
use nuxt_laravelize.Workflow.Store.{Action, Store}
use nuxt_laravelize.Workflow.Identity.{workflow_lease_lost, workflow_execution_aborted}
use nuxt_laravelize.Workflow.Types.{
  WorkflowState, StepState, WorkflowError, StepSnapshot, WorkflowSnapshot, WorkflowStep,
  WorkflowDefinition, is_step,
}
use nuxt_laravelize.Workflow.Manager.Heartbeat.{
  failed, HandlerRun, Ran, lease_lost, aborted, stopped, returned, with_heartbeat,
}
use nuxt_laravelize.Workflow.Transition.{
  begin_compensation_or_cancel, with_step, commit_step, forward_failure, compensation_failure,
  delay_within, is_compensating, cancel_waiting, first_uncommitted, start_step, start_compensation,
  last_to_compensate, finish_compensation,
}
use nuxt_laravelize.Common.Exec.{raise, ok, throw, ◌>>=◌}

-- What the caller and the world add to one transition: the clock readings of its two commits, and
-- what each meets behind a conflict; the run of the handler; the answer of the retry schedule.
-- `before_start` is what other processes do to the store between the claim and the first commit.
pub record Surroundings : Type 0 where
  pub is_aborted : Bool
  pub before_start : Store → Store
  pub start_at : ℕ
  pub finish_at : ℕ
  pub start_again : Again
  pub finish_again : Again
  pub retry_from : ℕ
  pub delay : Option ℕ
  pub run : HandlerRun

abbrev attempts_of : List StepSnapshot → ℕ → ℕ
attempts_of [] index = 0
attempts_of (step ∷ steps) zero = step.attempts
attempts_of (step ∷ steps) (suc index) = attempts_of steps index

abbrev compensation_attempts_of : List StepSnapshot → ℕ → ℕ
compensation_attempts_of [] index = 0
compensation_attempts_of (step ∷ steps) zero = step.compensation_attempts
compensation_attempts_of (step ∷ steps) (suc index) = compensation_attempts_of steps index

abbrev limit_of : List WorkflowStep → ℕ → ℕ
limit_of [] index = 0
limit_of (step ∷ steps) zero = step.max_attempts
limit_of (step ∷ steps) (suc index) = limit_of steps index

abbrev pub state_of : List StepSnapshot → ℕ → StepState
state_of [] index = StepState.pending
state_of (step ∷ steps) zero = step.state
state_of (step ∷ steps) (suc index) = state_of steps index

abbrev pub step_interrupted : WorkflowError
step_interrupted = record {
  name = "Error";
  message = "Previous step attempt was interrupted before its result was committed";
}

abbrev pub compensation_interrupted : WorkflowError
compensation_interrupted = record {
  name = "Error";
  message = "Previous compensation attempt was interrupted before its result was committed";
}

module _ (lease_duration : ℕ) (definition : WorkflowDefinition) (token : String)
    (around : Surroundings) where
  -- The commit that ends a transition.
  abbrev pub finish : (original next : WorkflowSnapshot) → Action WorkflowSnapshot
  finish original next =
      commit_candidate original definition token next true around.finish_at around.finish_again

  unfoldable pub finish_forward_failure :
      WorkflowSnapshot → ℕ → WorkflowError → Action WorkflowSnapshot
  finish_forward_failure s index error = finish s (
      forward_failure definition index error
        (delay_within (attempts_of s.steps index) (limit_of definition.steps index) around.delay)
        around.retry_from s)

  unfoldable pub finish_compensation_failure :
      WorkflowSnapshot → ℕ → WorkflowError → Action WorkflowSnapshot
  finish_compensation_failure s index error = finish s (
      compensation_failure index error
        (delay_within (compensation_attempts_of s.steps index) (limit_of definition.steps index)
          around.delay)
        around.retry_from s)

  -- What `execute` does with the run of a step.
  unfoldable pub finish_step : WorkflowSnapshot → ℕ → Ran → Action WorkflowSnapshot
  finish_step started index lease_lost = raise workflow_lease_lost
  finish_step started index aborted = raise workflow_execution_aborted
  finish_step started index stopped = finish started (
      begin_compensation_or_cancel definition true
        (record (with_step (λ step. record step { state = StepState.pending }) index
          WorkflowState.running started) { cancellation_requested = true }))
  finish_step started index (failed error) = finish_forward_failure started index error
  finish_step started index (returned (throw error) observed) =
      finish_forward_failure started index error
  finish_step started index (returned (ok output) observed) =
      finish started (record (with_step (commit_step output) index WorkflowState.running started) {
        cancellation_requested = observed || started.cancellation_requested;
      })

  unfoldable pub finish_compensating : WorkflowSnapshot → ℕ → Ran → Action WorkflowSnapshot
  finish_compensating started index lease_lost = raise workflow_lease_lost
  finish_compensating started index aborted = raise workflow_execution_aborted
  finish_compensating started index (failed error) = finish_compensation_failure started index error
  finish_compensating started index _ = finish started (
      with_step (λ step. record step { state = StepState.compensated }) index
        WorkflowState.compensating started)

  -- What a transition does between its two commits: the handler runs, and the store goes on.
  abbrev pub run_handler : (abort_on_cancellation : Bool) → WorkflowSnapshot → Action Ran
  run_handler abort_on_cancellation started s =
      let (ran, s') =
        with_heartbeat started token lease_duration abort_on_cancellation around.run s in
      (ok ran, s')

  -- The step at an index starts, runs, and ends.
  unfoldable pub run_step : WorkflowSnapshot → ℕ → Action WorkflowSnapshot
  run_step s index = do
    started ←
        commit_candidate s definition token (with_step start_step index WorkflowState.running s)
          false around.start_at around.start_again
    ran ← run_handler true started
    finish_step started index ran

  -- The step at an index goes on from `running`, which a process left behind, or starts.
  unfoldable pub execute_step : WorkflowSnapshot → ℕ → Action WorkflowSnapshot
  execute_step s index =
      if is_step (state_of s.steps index) StepState.running
      then finish_forward_failure s index step_interrupted
      else run_step s index

  unfoldable pub execute : WorkflowSnapshot → Action WorkflowSnapshot
  unfolding execute_step
  execute s = elim (first_uncommitted s.steps) [
    | none ↦ finish s (record s { state = WorkflowState.completed })
    | some index ↦ execute_step s index
  ]

  unfoldable pub run_compensation : WorkflowSnapshot → ℕ → Action WorkflowSnapshot
  run_compensation s index = do
    started ←
        commit_candidate s definition token
          (with_step start_compensation index WorkflowState.compensating s) false around.start_at
          around.start_again
    ran ← run_handler false started
    finish_compensating started index ran

  unfoldable pub compensate_step : WorkflowSnapshot → ℕ → Action WorkflowSnapshot
  compensate_step s index =
      if is_step (state_of s.steps index) StepState.compensating
      then finish_compensation_failure s index compensation_interrupted
      else run_compensation s index

  unfoldable pub compensate : WorkflowSnapshot → Action WorkflowSnapshot
  unfolding compensate_step
  compensate s = elim (last_to_compensate definition.steps s.steps) [
    | none ↦ finish s (finish_compensation s)
    | some index ↦ compensate_step s index
  ]

  unfoldable pub advance : WorkflowSnapshot → Action WorkflowSnapshot
  unfolding execute compensate
  advance s =
      if around.is_aborted
      then raise workflow_execution_aborted
      else if is_compensating s
      then compensate s
      else if s.cancellation_requested
      then finish s (cancel_waiting definition s)
      else execute s
