-- ===== src/Workflow/Transition/Forward.antt =====
-- The forward transitions keep the steps in the order that a snapshot asks of them.
use nuxt_laravelize.Common.{
  ℕ, zero, suc, ◌≡◌, refl, Bool, true, false, some, List, [], ◌∷◌, arith, all,
}
use nuxt_laravelize.Workflow.Types.{is_step, StepState, StepSnapshot, WorkflowError}
use nuxt_laravelize.Workflow.Transition.{
  first_uncommitted, update_step, start_step, fail_step, wait_step, commit_step,
}
use nuxt_laravelize.Workflow.Validation.Boundary.{skip, is_end, after_marker, forward_boundary}
use nuxt_laravelize.Workflow.Json.{Json}

first_uncommitted-cons :
    (step : StepSnapshot) (steps : List StepSnapshot) (index : ℕ)
    → first_uncommitted (step ∷ steps) ≡ some (suc index)
    → (is_step step.state StepState.committed ≡ true) × (first_uncommitted steps ≡ some index)
unfolding first_uncommitted
first_uncommitted-cons step steps index h = (ground (arith, h), ground (arith, h))

first_uncommitted-head :
    (step : StepSnapshot) (steps : List StepSnapshot)
    → first_uncommitted (step ∷ steps) ≡ some 0
    → is_step step.state StepState.committed ≡ false
unfolding first_uncommitted
first_uncommitted-head step steps h = ground (arith, h)

-- The steps behind an index are pending.
abbrev pub pending_after : ℕ → List StepSnapshot → Bool
pending_after index [] = true
pending_after zero (step ∷ steps) = all (λ next. is_step next.state StepState.pending) steps
pending_after (suc index) (step ∷ steps) = pending_after index steps

skip-pending :
    (steps : List StepSnapshot)
    → is_end (skip StepState.pending steps) ≡ true
    → all (λ next. is_step next.state StepState.pending) steps ≡ true
skip-pending [] h = refl
skip-pending (step ∷ steps) h = ground (arith, h, skip-pending steps)

pending-skip :
    (steps : List StepSnapshot)
    → all (λ next. is_step next.state StepState.pending) steps ≡ true
    → is_end (skip StepState.pending steps) ≡ true
pending-skip [] h = refl
pending-skip (step ∷ steps) h = ground (arith, h, pending-skip steps)

boundary-pending_after :
    (steps : List StepSnapshot) (index : ℕ) (marker : StepState) (optional : Bool)
    → forward_boundary steps marker optional ≡ true
    → first_uncommitted steps ≡ some index
    → pending_after index steps ≡ true
unfolding forward_boundary after_marker
boundary-pending_after [] index marker optional h found = refl
boundary-pending_after (step ∷ steps) zero marker optional h found =
    ground (arith, h, first_uncommitted-head step steps found, skip-pending steps)
boundary-pending_after (step ∷ steps) (suc index) marker optional h found =
    let (done, rest) = first_uncommitted-cons step steps index found in
    ground (arith, h, done, boundary-pending_after steps index marker optional, rest)

marked-boundary :
    (steps : List StepSnapshot) (index : ℕ) (marker : StepState) (optional : Bool)
    (f : StepSnapshot → StepSnapshot)
    → ((step : StepSnapshot) → (f step).state ≡ marker)
    → is_step marker StepState.committed ≡ false
    → first_uncommitted steps ≡ some index
    → pending_after index steps ≡ true
    → forward_boundary (update_step f index steps) marker optional ≡ true
unfolding forward_boundary after_marker
marked-boundary [] index marker optional f marks unmarked found waits =
    absurd (unfold first_uncommitted in cc found)
marked-boundary (step ∷ steps) zero marker optional f marks unmarked found waits =
    ground (arith, marks step, unmarked, waits, pending-skip steps)
marked-boundary (step ∷ steps) (suc index) marker optional f marks unmarked found waits =
    let (done, rest) = first_uncommitted-cons step steps index found in
    ground (arith, done, rest, waits, marked-boundary steps index marker optional f marks unmarked)

pending-boundary :
    (steps : List StepSnapshot)
    → all (λ next. is_step next.state StepState.pending) steps ≡ true
    → forward_boundary steps StepState.running true ≡ true
unfolding forward_boundary after_marker
pending-boundary [] h = refl
pending-boundary (step ∷ steps) h = ground (arith, h, pending-skip steps)

committed-boundary :
    (steps : List StepSnapshot) (index : ℕ) (f : StepSnapshot → StepSnapshot)
    → ((step : StepSnapshot) → (f step).state ≡ StepState.committed)
    → first_uncommitted steps ≡ some index
    → pending_after index steps ≡ true
    → forward_boundary (update_step f index steps) StepState.running true ≡ true
unfolding forward_boundary
committed-boundary [] index f marks found waits = absurd (unfold first_uncommitted in cc found)
committed-boundary (step ∷ steps) zero f marks found waits =
    ground (arith, marks step, pending-boundary steps waits)
committed-boundary (step ∷ steps) (suc index) f marks found waits =
    let (done, rest) = first_uncommitted-cons step steps index found in
    ground (arith, done, rest, committed-boundary steps index f marks rest waits)

-- What the manager does to the first step that is not committed, while the steps are in order.
module _ (steps : List StepSnapshot) (index : ℕ) (marker : StepState) (optional : Bool)
    (ordered : forward_boundary steps marker optional ≡ true)
    (found : first_uncommitted steps ≡ some index) where
  -- If the steps are in the order of a forward state, then starting, delaying, failing or
  -- committing the first step that is not committed leaves them in the order that the state
  -- running, waiting_retry, failed or running asks for.
  pub forward_boundary-update :
      (error : WorkflowError) (retry_at : ℕ) (output : Json)
      → (forward_boundary (update_step start_step index steps) StepState.running true ≡ true)
        × (forward_boundary
              (update_step (wait_step StepState.waiting_retry error retry_at) index steps)
              StepState.waiting_retry
              false
            ≡ true)
        × (forward_boundary
              (update_step (fail_step StepState.failed error) index steps)
              StepState.failed
              false
            ≡ true)
        × (forward_boundary (update_step (commit_step output) index steps) StepState.running true
            ≡ true)
  unfolding start_step wait_step fail_step commit_step
  forward_boundary-update error retry_at output =
      let waits = boundary-pending_after steps index marker optional ordered found in
      (
        marked-boundary steps index StepState.running true start_step (λ step. refl) refl found
            waits,
        marked-boundary steps index StepState.waiting_retry false
            (wait_step StepState.waiting_retry error retry_at) (λ step. refl) refl found waits,
        marked-boundary steps index StepState.failed false (fail_step StepState.failed error)
            (λ step. refl) refl found waits,
        committed-boundary steps index (commit_step output) (λ step. refl) found waits,
      )
