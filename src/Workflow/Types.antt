-- ===== src/Workflow/Types.antt =====
-- packages/workflows/src/types.ts. A field that may be absent is an `Option`; the format version,
-- which is 1 in every snapshot, is left out.
use nuxt_laravelize.Common.{ℕ, String, Bool, Option, List, ◌==◌}
use nuxt_laravelize.Workflow.Json.{Json}

pub data WorkflowState : Type 0 where
  pending running waiting_retry completed failed compensating : WorkflowState
  compensation_waiting_retry compensated compensation_failed cancelled : WorkflowState

pub data StepState : Type 0 where
  pending running waiting_retry committed compensating : StepState
  compensation_waiting_retry compensated failed compensation_failed : StepState

pub record WorkflowError : Type 0 where
  pub name : String
  pub message : String

pub record StepSnapshot : Type 0 where
  pub name : String
  pub state : StepState
  pub attempts : ℕ
  pub compensation_attempts : ℕ
  pub idempotency_key : String
  pub compensation_idempotency_key : Option String
  pub output : Option Json
  pub retry_at : Option ℕ
  pub error : Option WorkflowError

pub record WorkflowLease : Type 0 where
  pub token : String
  pub expires_at : ℕ

pub record WorkflowSnapshot : Type 0 where
  pub id : String
  pub workflow_name : String
  pub workflow_version : String
  pub start_key : String
  pub canonical_input : String
  pub input : Json
  pub state : WorkflowState
  pub revision : ℕ
  pub steps : List StepSnapshot
  pub lease : Option WorkflowLease
  pub cancellation_requested : Bool
  pub created_at : ℕ
  pub updated_at : ℕ

-- A step of a definition: `compensable` says that it has a `compensate` handler. The handlers
-- themselves are what the caller supplies.
pub record WorkflowStep : Type 0 where
  pub name : String
  pub compensable : Bool
  pub max_attempts : ℕ

pub record WorkflowDefinition : Type 0 where
  pub name : String
  pub version : String
  pub steps : List WorkflowStep

abbrev rank : WorkflowState → ℕ
rank WorkflowState.pending = 0
rank WorkflowState.running = 1
rank WorkflowState.waiting_retry = 2
rank WorkflowState.completed = 3
rank WorkflowState.failed = 4
rank WorkflowState.compensating = 5
rank WorkflowState.compensation_waiting_retry = 6
rank WorkflowState.compensated = 7
rank WorkflowState.compensation_failed = 8
rank WorkflowState.cancelled = 9

-- `===` on states.
abbrev pub is_state : WorkflowState → WorkflowState → Bool
is_state a b = rank a == rank b

abbrev step_rank : StepState → ℕ
step_rank StepState.pending = 0
step_rank StepState.running = 1
step_rank StepState.waiting_retry = 2
step_rank StepState.committed = 3
step_rank StepState.compensating = 4
step_rank StepState.compensation_waiting_retry = 5
step_rank StepState.compensated = 6
step_rank StepState.failed = 7
step_rank StepState.compensation_failed = 8

abbrev pub is_step : StepState → StepState → Bool
is_step a b = step_rank a == step_rank b
