-- ===== src/Workflow/Validation/Step.antt =====
-- packages/workflows/src/validation.ts: one persisted step, and the checks of single fields.
use nuxt_laravelize.Common.{
  ℕ, String, Bool, true, false, not, ◌&&◌, ◌||◌, Option, none, some, str_eq, leb, if◌then◌else◌,
  max_safe_integer,
}
use nuxt_laravelize.Workflow.Identity.{max_timestamp, max_opaque_text, stable_identity}
use nuxt_laravelize.Workflow.Types.{StepState, WorkflowError, StepSnapshot}
use nuxt_laravelize.Common.Text.{utf16_length}

-- `assertBoundedText`, where the empty text is refused.
unfoldable pub bounded_text : String → ℕ → Bool
bounded_text s most = not (str_eq s "") && leb (utf16_length s) most

-- `assertNonnegativeInteger`
unfoldable pub is_safe : ℕ → Bool
is_safe n = leb n max_safe_integer

unfoldable pub is_timestamp : ℕ → Bool
is_timestamp n = leb n max_timestamp

abbrev pub same_optional : Option String → Option String → Bool
same_optional none none = true
same_optional (some a) (some b) = str_eq a b
same_optional _ _ = false

-- `outputStates`
abbrev pub is_output_state : StepState → Bool
is_output_state StepState.committed = true
is_output_state StepState.compensating = true
is_output_state StepState.compensation_waiting_retry = true
is_output_state StepState.compensated = true
is_output_state StepState.compensation_failed = true
is_output_state _ = false

-- `attemptStates`
abbrev pub is_attempt_state : StepState → Bool
is_attempt_state StepState.running = true
is_attempt_state StepState.waiting_retry = true
is_attempt_state StepState.failed = true
is_attempt_state _ = false

-- `compensationAttemptStates`
abbrev pub is_compensation_attempt_state : StepState → Bool
is_compensation_attempt_state StepState.compensating = true
is_compensation_attempt_state StepState.compensation_waiting_retry = true
is_compensation_attempt_state StepState.compensated = true
is_compensation_attempt_state StepState.compensation_failed = true
is_compensation_attempt_state _ = false

-- `waitingStates`
abbrev pub is_waiting_state : StepState → Bool
is_waiting_state StepState.waiting_retry = true
is_waiting_state StepState.compensation_waiting_retry = true
is_waiting_state _ = false

-- `errorStates`
abbrev pub is_error_state : StepState → Bool
is_error_state StepState.waiting_retry = true
is_error_state StepState.failed = true
is_error_state StepState.compensation_waiting_retry = true
is_error_state StepState.compensation_failed = true
is_error_state _ = false

abbrev pub is_given : {A : Type 0} → Option A → Bool
is_given none = false
is_given (some a) = true

-- `assertError`
unfoldable pub error_valid : Option WorkflowError → Bool
error_valid none = false
error_valid (some e) = bounded_text e.name 128 && leb (utf16_length e.message) 4096

abbrev key_valid : Option String → Bool
key_valid none = true
key_valid (some key) = bounded_text key max_opaque_text

abbrev retry_valid : Option ℕ → Bool
retry_valid none = true
retry_valid (some t) = is_timestamp t

-- What the state of a step asks of its other fields.
unfoldable pub step_fields_valid : StepSnapshot → Bool
step_fields_valid step =
    (if is_output_state step.state
      then leb 1 step.attempts && is_given step.output
      else not (is_given step.output))
    && (not (is_attempt_state step.state) || leb 1 step.attempts)
    && (not (is_compensation_attempt_state step.state)
        || leb 1 step.compensation_attempts && is_given step.compensation_idempotency_key)
    && (if is_waiting_state step.state
        then is_given step.retry_at && is_given step.error
        else not (is_given step.retry_at))
    && (if is_error_state step.state then error_valid step.error else not (is_given step.error))

-- `assertStep`
unfoldable pub step_valid : StepSnapshot → Bool
step_valid step =
    stable_identity step.name
    && is_safe step.attempts
    && is_safe step.compensation_attempts
    && bounded_text step.idempotency_key max_opaque_text
    && key_valid step.compensation_idempotency_key
    && retry_valid step.retry_at
    && step_fields_valid step
