-- ===== src/Workflow/Manager/Processed.antt =====
-- packages/workflows/src/manager.ts: every way through a transition ends in a commit, or throws.
use nuxt_laravelize.Common.{ℕ, String, Bool, true, false, Option, none, some, if◌then◌else◌}
use nuxt_laravelize.Common.Exec.{ok, throw, raise}
use nuxt_laravelize.Workflow.Identity.{workflow_execution_aborted}
use nuxt_laravelize.Workflow.Store.{Action, Store}
use nuxt_laravelize.Workflow.Types.{
  WorkflowSnapshot, WorkflowDefinition, WorkflowError, is_step, StepState, WorkflowState,
}
use nuxt_laravelize.Workflow.Manager.{commit_candidate}
use nuxt_laravelize.Workflow.Manager.Heartbeat.{Ran, lease_lost, aborted, stopped, returned, failed}
use nuxt_laravelize.Workflow.Manager.Advance.{
  Surroundings, finish, finish_forward_failure, finish_compensation_failure, finish_step,
  finish_compensating, run_handler, execute_step, execute, compensate_step, compensate, advance,
  state_of, step_interrupted, compensation_interrupted, run_step, run_compensation,
}
use nuxt_laravelize.Workflow.Manager.Committed.{
  IsCommitted, throw-IsCommitted, bind-IsCommitted, commit_candidate-IsCommitted,
}
use nuxt_laravelize.Workflow.Transition.{
  is_compensating, first_uncommitted, last_to_compensate, cancel_waiting, with_step, start_step,
  start_compensation, finish_compensation,
}

module _ (lease_duration : ℕ) (definition : WorkflowDefinition) (token : String)
    (around : Surroundings) where
  abbrev Commits : Action WorkflowSnapshot → Type 0
  Commits m = (s : Store) → IsCommitted definition (m s)

  finish-Commits :
      (original next : WorkflowSnapshot)
      → Commits (finish lease_duration definition token around original next)
  finish-Commits original next s =
      commit_candidate-IsCommitted definition original token next around.finish_at
        around.finish_again s

  finish_forward_failure-Commits :
      (started : WorkflowSnapshot) (index : ℕ) (error : WorkflowError)
      → Commits (finish_forward_failure lease_duration definition token around started index error)
  unfolding finish_forward_failure
  finish_forward_failure-Commits started index error = finish-Commits started _

  finish_compensation_failure-Commits :
      (started : WorkflowSnapshot) (index : ℕ) (error : WorkflowError)
      → Commits
          (finish_compensation_failure lease_duration definition token around started index error)
  unfolding finish_compensation_failure
  finish_compensation_failure-Commits started index error = finish-Commits started _

  finish_step-Commits :
      (started : WorkflowSnapshot) (index : ℕ) (ran : Ran)
      → Commits (finish_step lease_duration definition token around started index ran)
  unfolding finish_step
  finish_step-Commits started index lease_lost = throw-IsCommitted definition _
  finish_step-Commits started index aborted = throw-IsCommitted definition _
  finish_step-Commits started index stopped = finish-Commits started _
  finish_step-Commits started index (failed error) =
      finish_forward_failure-Commits started index error
  finish_step-Commits started index (returned (throw error) observed) =
      finish_forward_failure-Commits started index error
  finish_step-Commits started index (returned (ok output) observed) = finish-Commits started _

  finish_compensating-Commits :
      (started : WorkflowSnapshot) (index : ℕ) (ran : Ran)
      → Commits (finish_compensating lease_duration definition token around started index ran)
  unfolding finish_compensating
  finish_compensating-Commits started index lease_lost = throw-IsCommitted definition _
  finish_compensating-Commits started index aborted = throw-IsCommitted definition _
  finish_compensating-Commits started index (failed error) =
      finish_compensation_failure-Commits started index error
  finish_compensating-Commits started index stopped = finish-Commits started _
  finish_compensating-Commits started index (returned value observed) = finish-Commits started _

  option-Commits :
      (o : Option ℕ) (m : Action WorkflowSnapshot) (k : ℕ → Action WorkflowSnapshot)
      → Commits m
      → ((index : ℕ) → Commits (k index))
      → Commits (elim o [ none ↦ m | some index ↦ k index ])
  option-Commits none m k p q = p
  option-Commits (some index) m k p q = q index

  if-Commits :
      (b : Bool) (m k : Action WorkflowSnapshot)
      → Commits m
      → Commits k
      → Commits (if b then m else k)
  if-Commits true m k p q = p
  if-Commits false m k p q = q

  run_step-Commits :
      (snapshot : WorkflowSnapshot) (index : ℕ)
      → Commits (run_step lease_duration definition token around snapshot index)
  unfolding run_step
  run_step-Commits snapshot index s =
      bind-IsCommitted definition
        (commit_candidate snapshot definition token
          (with_step start_step index WorkflowState.running snapshot) false around.start_at
          around.start_again)
        _ s
        λ started s'.
          bind-IsCommitted definition
            (run_handler lease_duration definition token around true started)
            (finish_step lease_duration definition token around started index) s'
            λ ran. finish_step-Commits started index ran

  execute_step-Commits :
      (snapshot : WorkflowSnapshot) (index : ℕ)
      → Commits (execute_step lease_duration definition token around snapshot index)
  unfolding execute_step
  execute_step-Commits snapshot index =
      if-Commits (is_step (state_of snapshot.steps index) StepState.running)
        (finish_forward_failure lease_duration definition token around snapshot index
          step_interrupted)
        (run_step lease_duration definition token around snapshot index)
        (finish_forward_failure-Commits snapshot index step_interrupted)
        (run_step-Commits snapshot index)

  run_compensation-Commits :
      (snapshot : WorkflowSnapshot) (index : ℕ)
      → Commits (run_compensation lease_duration definition token around snapshot index)
  unfolding run_compensation
  run_compensation-Commits snapshot index s =
      bind-IsCommitted definition
        (commit_candidate snapshot definition token
          (with_step start_compensation index WorkflowState.compensating snapshot) false
          around.start_at around.start_again)
        _ s
        λ started s'.
          bind-IsCommitted definition
            (run_handler lease_duration definition token around false started)
            (finish_compensating lease_duration definition token around started index) s'
            λ ran. finish_compensating-Commits started index ran

  compensate_step-Commits :
      (snapshot : WorkflowSnapshot) (index : ℕ)
      → Commits (compensate_step lease_duration definition token around snapshot index)
  unfolding compensate_step
  compensate_step-Commits snapshot index =
      if-Commits (is_step (state_of snapshot.steps index) StepState.compensating)
        (finish_compensation_failure lease_duration definition token around snapshot index
          compensation_interrupted)
        (run_compensation lease_duration definition token around snapshot index)
        (finish_compensation_failure-Commits snapshot index compensation_interrupted)
        (run_compensation-Commits snapshot index)

  execute-Commits :
      (snapshot : WorkflowSnapshot)
      → Commits (execute lease_duration definition token around snapshot)
  unfolding execute
  execute-Commits snapshot =
      option-Commits (first_uncommitted snapshot.steps)
        (finish lease_duration definition token around snapshot
          (record snapshot { state = WorkflowState.completed }))
        (execute_step lease_duration definition token around snapshot)
        (finish-Commits snapshot (record snapshot { state = WorkflowState.completed }))
        (execute_step-Commits snapshot)

  compensate-Commits :
      (snapshot : WorkflowSnapshot)
      → Commits (compensate lease_duration definition token around snapshot)
  unfolding compensate
  compensate-Commits snapshot =
      option-Commits (last_to_compensate definition.steps snapshot.steps)
        (finish lease_duration definition token around snapshot (finish_compensation snapshot))
        (compensate_step lease_duration definition token around snapshot)
        (finish-Commits snapshot (finish_compensation snapshot)) (compensate_step-Commits snapshot)

  pub advance-Commits :
      (snapshot : WorkflowSnapshot)
      → Commits (advance lease_duration definition token around snapshot)
  unfolding advance
  advance-Commits snapshot =
      let forward = execute lease_duration definition token around snapshot in
      let backward = compensate lease_duration definition token around snapshot in
      let cancelled =
        finish lease_duration definition token around snapshot
          (cancel_waiting definition snapshot) in
      let onward : Action WorkflowSnapshot =
        if snapshot.cancellation_requested then cancelled else forward in
      if-Commits around.is_aborted (raise workflow_execution_aborted)
        (if is_compensating snapshot then backward else onward)
        (throw-IsCommitted definition workflow_execution_aborted)
        (if-Commits (is_compensating snapshot) backward onward (compensate-Commits snapshot) (
          if-Commits snapshot.cancellation_requested cancelled forward
            (finish-Commits snapshot (cancel_waiting definition snapshot))
            (execute-Commits snapshot)))
