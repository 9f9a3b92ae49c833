-- ===== src/Workflow/Validation/Boundary.antt =====
-- packages/workflows/src/validation.ts: what the state of a workflow asks of the states of its steps.
use nuxt_laravelize.Common.{
  ℕ, ◌+◌, Bool, true, false, not, ◌&&◌, ◌||◌, Option, none, some, List, [], ◌∷◌, ltb, leb, ◌==◌,
  if◌then◌else◌, length, all, any, select,
}
use nuxt_laravelize.Workflow.Types.{
  is_state, is_step, WorkflowState, StepState, WorkflowSnapshot, StepSnapshot,
}
use nuxt_laravelize.Workflow.Validation.Step.{is_given}

-- The loop `while (states[index] === state) index++`: what it leaves.
abbrev pub skip : StepState → List StepSnapshot → List StepSnapshot
skip state [] = []
skip state (step ∷ steps) =
    let rest = skip state steps in if is_step step.state state then rest else step ∷ steps

abbrev pub is_end : List StepSnapshot → Bool
is_end [] = true
is_end (step ∷ steps) = false

-- The marker after the committed steps, where there is one or it may be missing.
unfoldable pub after_marker : StepState → Bool → List StepSnapshot → Bool
after_marker marker optional [] = optional
after_marker marker optional (step ∷ steps) =
    if is_step step.state marker
    then is_end (skip StepState.pending steps)
    else optional && is_end (skip StepState.pending (step ∷ steps))

-- `assertForwardBoundary`
unfoldable pub forward_boundary : List StepSnapshot → StepState → Bool → Bool
unfolding after_marker
forward_boundary steps marker optional =
    after_marker marker optional (skip StepState.committed steps)

abbrev pub is_active : StepSnapshot → Bool
is_active step =
    is_step step.state StepState.compensating
    || is_step step.state StepState.compensation_waiting_retry

-- A committed step with a key to compensate it under.
abbrev pub owes_compensation : StepSnapshot → Bool
owes_compensation step =
    is_step step.state StepState.committed && is_given step.compensation_idempotency_key

abbrev pub indexed : ℕ → List StepSnapshot → List (ℕ × StepSnapshot)
indexed n [] = []
indexed n (step ∷ steps) = (n, step) ∷ indexed (n + 1) steps

abbrev pub active_state : WorkflowState → Option StepState
active_state WorkflowState.compensation_waiting_retry = some StepState.compensation_waiting_retry
active_state WorkflowState.compensating = some StepState.compensating
active_state _ = none

-- The first two checks of `assertCompensationBoundary`, on the active steps.
unfoldable pub active_valid : WorkflowState → List (ℕ × StepSnapshot) → Bool
active_valid state [] = not (is_state state WorkflowState.compensation_waiting_retry)
active_valid state ((index, step) ∷ []) = elim (active_state state) [
  | none ↦ false
  | some expected ↦ is_step step.state expected
]
active_valid state (first ∷ second ∷ rest) = false

-- The loop over `pendingSeen`.
unfoldable pub pending_last : Bool → List StepSnapshot → Bool
pending_last seen [] = true
pending_last seen (step ∷ steps) =
    not (is_step step.state StepState.running || is_step step.state StepState.waiting_retry)
    && (is_step step.state StepState.pending || not seen)
    && pending_last (is_step step.state StepState.pending || seen) steps

-- Compensation goes backwards: behind `index` nothing is left to compensate, and before it nothing
-- is compensated yet.
unfoldable pub backwards_at : ℕ → List (ℕ × StepSnapshot) → Bool
backwards_at index [] = true
backwards_at index ((i, step) ∷ rest) =
    not (ltb index i && owes_compensation step)
    && not (ltb i index && is_step step.state StepState.compensated)
    && backwards_at index rest

abbrev backwards_from : List (ℕ × StepSnapshot) → List StepSnapshot → Bool
backwards_from [] steps = true
backwards_from ((index, step) ∷ rest) steps = backwards_at index (indexed 0 steps)

-- The check of the state `compensation_failed`, on the steps that failed to compensate.
abbrev one_failure : List (ℕ × StepSnapshot) → List StepSnapshot → Bool
one_failure ((index, step) ∷ []) steps = backwards_at index (indexed 0 steps)
one_failure _ steps = false

unfoldable pub compensation_boundary : WorkflowSnapshot → Bool
compensation_boundary s =
    let active = select (λ (p : ℕ × StepSnapshot). is_active p.1) (indexed 0 s.steps) in
    active_valid s.state active
    && leb (length (select (λ step. is_step step.state StepState.failed) s.steps)) 1
    && not (
        (is_state s.state WorkflowState.compensating || is_state s.state WorkflowState.compensated)
        && all (λ step. is_step step.state StepState.pending) s.steps)
    && (not (is_state s.state WorkflowState.compensated)
        || any (λ step. is_step step.state StepState.compensated) s.steps)
    && pending_last false s.steps
    && backwards_from active s.steps
    && not (
        (is_state s.state WorkflowState.compensated || is_state s.state WorkflowState.cancelled)
        && any (λ step. is_step step.state StepState.compensation_failed || owes_compensation step)
            s.steps)
    && (not (is_state s.state WorkflowState.compensation_failed)
        || one_failure
            (select (λ (p : ℕ × StepSnapshot). is_step p.1.state StepState.compensation_failed)
              (indexed 0 s.steps))
            s.steps)

abbrev pub untouched : StepSnapshot → Bool
untouched step =
    is_step step.state StepState.pending
    && step.attempts == 0
    && step.compensation_attempts == 0
    && not (is_given step.output)

-- `assertStateBoundary`
unfoldable pub boundary_of : WorkflowState → WorkflowSnapshot → Bool
boundary_of WorkflowState.pending s = all untouched s.steps
boundary_of WorkflowState.completed s =
    not s.cancellation_requested && all (λ step. is_step step.state StepState.committed) s.steps
boundary_of WorkflowState.running s = forward_boundary s.steps StepState.running true
boundary_of WorkflowState.waiting_retry s = forward_boundary s.steps StepState.waiting_retry false
boundary_of WorkflowState.failed s =
    not s.cancellation_requested && forward_boundary s.steps StepState.failed false
boundary_of WorkflowState.cancelled s = s.cancellation_requested && compensation_boundary s
boundary_of _ s = compensation_boundary s

unfoldable pub state_boundary : WorkflowSnapshot → Bool
unfolding boundary_of
state_boundary s = boundary_of s.state s
