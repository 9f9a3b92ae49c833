-- ===== src/Workflow/Transition/Backward.antt =====
-- Compensation goes from the last step to the first.
use nuxt_laravelize.Common.{
  ℕ, zero, suc, ◌<◌, ◌≡◌, inl, inr, Bool, true, false, none, some, List, [], ◌∷◌, arith,
  Option-cases, refl,
}
use nuxt_laravelize.Workflow.Types.{StepSnapshot, WorkflowStep}
use nuxt_laravelize.Workflow.Transition.{is_to_compensate, last_to_compensate}
use nuxt_laravelize.Workflow.Store.Recovery.{last}
use nuxt_laravelize.Workflow.Validation.{has_compensatable_commit}

-- The definition and the snapshot of the step at an index, if it is to be compensated.
abbrev pub due_at : ℕ → List WorkflowStep → List StepSnapshot → Bool
due_at index [] steps = false
due_at index (definition ∷ definitions) [] = false
due_at zero (definition ∷ definitions) (step ∷ steps) = is_to_compensate definition step
due_at (suc index) (definition ∷ definitions) (step ∷ steps) = due_at index definitions steps

none_due :
    (definitions : List WorkflowStep) (steps : List StepSnapshot)
    → last_to_compensate definitions steps ≡ none
    → (index : ℕ) → due_at index definitions steps ≡ false
unfolding last_to_compensate
none_due [] [] h index = ground arith
none_due [] (step ∷ steps) h index = ground arith
none_due (definition ∷ definitions) [] h index = ground arith
none_due (definition ∷ definitions) (step ∷ steps) h zero = ground (arith, h)
none_due (definition ∷ definitions) (step ∷ steps) h (suc index) =
    none_due definitions steps (ground (arith, h)) index

none_due_after :
    (definition : WorkflowStep) (definitions : List WorkflowStep) (step : StepSnapshot)
    (steps : List StepSnapshot)
    → last_to_compensate definitions steps ≡ none
    → (later : ℕ) → 0 < later
    → due_at later (definition ∷ definitions) (step ∷ steps) ≡ false
none_due_after definition definitions step steps gone zero after = absurd (omega (arith, after))
none_due_after definition definitions step steps gone (suc index) after =
    none_due definitions steps gone index

due_after :
    (definition : WorkflowStep) (definitions : List WorkflowStep) (step : StepSnapshot)
    (steps : List StepSnapshot) (index rest : ℕ)
    → last_to_compensate definitions steps ≡ some rest
    → last_to_compensate (definition ∷ definitions) (step ∷ steps) ≡ some index
    → ((later : ℕ) → rest < later → due_at later definitions steps ≡ false)
    → (later : ℕ) → index < later
    → due_at later (definition ∷ definitions) (step ∷ steps) ≡ false
unfolding last_to_compensate
due_after definition definitions step steps index rest found h last zero after =
    absurd (omega (arith, after))
due_after definition definitions step steps index rest found h last (suc later) after =
    last later (ground (arith, h, found, after))

-- If the manager finds a step to compensate, then that step is due, and no step behind it is.
pub last_to_compensate-last :
    (definitions : List WorkflowStep) (steps : List StepSnapshot) (index : ℕ)
    → last_to_compensate definitions steps ≡ some index
    → (due_at index definitions steps ≡ true)
      × ((later : ℕ) → index < later → due_at later definitions steps ≡ false)
unfolding last_to_compensate
last_to_compensate-last [] [] index h = absurd (cc h)
last_to_compensate-last [] (step ∷ steps) index h = absurd (cc h)
last_to_compensate-last (definition ∷ definitions) [] index h = absurd (cc h)
last_to_compensate-last (definition ∷ definitions) (step ∷ steps) index h =
    elim (Option-cases (last_to_compensate definitions steps)) [
      | inl gone ↦ (
        ground (arith, h, gone),
        λ later after.
            none_due_after definition definitions step steps gone later
              (ground (arith, h, gone, after)),
      )
      | inr (rest, found) ↦
          let (due, last) = last_to_compensate-last definitions steps rest found in
          (
            ground (arith, h, found, due),
            due_after definition definitions step steps index rest found h last,
          )
    ]

-- If the manager finds no step to compensate, then no step that is committed has a compensation.
pub last_to_compensate-none :
    (definitions : List WorkflowStep) (steps : List StepSnapshot)
    → last_to_compensate definitions steps ≡ none
    → has_compensatable_commit definitions steps ≡ false
unfolding last_to_compensate has_compensatable_commit is_to_compensate
last_to_compensate-none [] [] h = refl
last_to_compensate-none [] (step ∷ steps) h = refl
last_to_compensate-none (definition ∷ definitions) [] h = refl
last_to_compensate-none (definition ∷ definitions) (step ∷ steps) h =
    ground (arith, h, last_to_compensate-none definitions steps)
