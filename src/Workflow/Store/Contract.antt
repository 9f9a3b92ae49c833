-- ===== src/Workflow/Store/Contract.antt =====
-- The in-memory store gives the answers that the manager's receipt checks ask of a store.
use nuxt_laravelize.Common.Map
use nuxt_laravelize.Common.{
  ℕ, ◌+◌, ◌≤◌, max, String, ◌≡◌, true, some, arith, max_safe_integer, ◌⊎◌, false, ◌||◌, eq_refl,
  ◌==◌, inl, inr, ltb, Option-cases,
}
use nuxt_laravelize.Workflow.Identity.{
  max_timestamp, assert_expected_revision, assert_lease_token, assert_store_timestamp,
  assert_lease_arguments,
}
use nuxt_laravelize.Workflow.Receipts.{
  claimed_from, accepts_claim, cancelled_from, accepts_cancellation, same_content, accepts_renewal,
}
use nuxt_laravelize.Workflow.Validation.{assert_workflow_snapshot}
use nuxt_laravelize.Workflow.Types.{WorkflowSnapshot, WorkflowLease}
use nuxt_laravelize.Workflow.Store.{
  claim, request_cancellation, Store, is_lease_of, cancellation_race, renew_lease, leased_until,
}
use nuxt_laravelize.Workflow.Store.Effects.{
  claim-saves, request_cancellation-saves, renew_lease-saves,
}
use nuxt_laravelize.Workflow.Store.Managed.{
  same_snapshot_refl, managed_contract, boundary_managed, boundary_cancelled, valid_fields,
}
use nuxt_laravelize.Workflow.Validation.Step.{bounded_text, is_safe, is_timestamp}
use nuxt_laravelize.Common.Map.{Map}
use nuxt_laravelize.Common.Exec.{ok}
use nuxt_laravelize.Workflow.State.{is_terminal_state, is_workflow_terminal}
use mathlib.Core.Path.{subst}

-- What the manager needs of a stored snapshot: it is valid, and a revision is left to count up to.
pub record IsOpen (current : WorkflowSnapshot) : Type 0 where
  pub valid : assert_workflow_snapshot current ≡ ok tt
  pub countable : current.revision + 1 ≤ max_safe_integer

module _ (s : Store) (id : String) (current : WorkflowSnapshot)
    (there : Map.get id s.snapshots ≡ some current) (is_open : IsOpen current) where
  -- If the stored snapshot is valid and its revision can be counted up, then what the store answers
  -- to a claim of that revision, the manager's receipt check accepts.
  pub claim_accepted :
      (token : String) (now expires_at : ℕ) (r : WorkflowSnapshot)
      → (claim id current.revision token now expires_at s).0 ≡ ok r
      → accepts_claim current r token now expires_at ≡ true
  unfolding accepts_claim claimed_from assert_lease_arguments assert_expected_revision
      assert_lease_token assert_store_timestamp is_safe is_timestamp bounded_text
  claim_accepted token now expires_at r h =
      let (found, here, exact', free, args, made, left) =
        claim-saves id current.revision token now expires_at s r h in
      let (boundary, born, stamped, safe, leased) = valid_fields current is_open.valid in
      ground (
        arith,
        there,
        here,
        args,
        made,
        is_open.countable,
        boundary_managed current (current.revision + 1)
            (some (record { token = token; expires_at = expires_at })) (max current.updated_at now),
        managed_contract current (current.revision + 1)
            (some (record { token = token; expires_at = expires_at }))
            current.cancellation_requested (max current.updated_at now) is_open.valid,
        same_snapshot_refl r,
      )

  -- If the stored snapshot is valid and its revision can be counted up, then what the store answers
  -- to a cancellation of that revision at a valid time, the manager's receipt check accepts.
  pub cancellation_accepted :
      (now : ℕ) (r : WorkflowSnapshot)
      → (request_cancellation id current.revision now s).0 ≡ ok r
      → now ≤ max_timestamp
      → accepts_cancellation current r now ≡ true
  unfolding accepts_cancellation cancelled_from is_safe is_timestamp is_workflow_terminal
      is_terminal_state
  cancellation_accepted now r h stamp =
      let (found, here, exact', active, made, left) =
        request_cancellation-saves id current.revision now s r h in
      let (boundary, born, stamped, safe, leased) = valid_fields current is_open.valid in
      ground (
        arith,
        there,
        here,
        active,
        made,
        is_open.countable,
        boundary_cancelled current (current.revision + 1) current.lease
            (max current.updated_at now),
        managed_contract current (current.revision + 1) current.lease true
            (max current.updated_at now) is_open.valid,
        same_snapshot_refl r,
      )

-- What a process saw of a workflow, and what is stored: the same, or one cancellation later.
abbrev pub IsAhead : (observed current : WorkflowSnapshot) → Type 0
IsAhead observed current =
    ((current.revision ≡ observed.revision)
      × (current.cancellation_requested ≡ observed.cancellation_requested)
      × (current.updated_at ≡ observed.updated_at))
    ⊎ ((current.revision ≡ observed.revision + 1)
        × (observed.cancellation_requested ≡ false)
        × (current.cancellation_requested ≡ true)
        × (observed.updated_at ≤ current.updated_at))

-- A snapshot whose lease was renewed until `expires_at`.
abbrev pub renewed : WorkflowSnapshot → String → ℕ → WorkflowSnapshot
renewed current token expires_at = record current {
  lease = some (record { token = token; expires_at = max (leased_until current.lease) expires_at });
}

renewed-valid :
    (current : WorkflowSnapshot) (expected_revision : ℕ) (token : String) (now expires_at : ℕ)
    → assert_workflow_snapshot current ≡ ok tt
    → assert_lease_arguments expected_revision token now expires_at ≡ ok tt
    → assert_workflow_snapshot (renewed current token expires_at) ≡ ok tt
unfolding assert_lease_arguments assert_expected_revision assert_lease_token assert_store_timestamp
    is_timestamp bounded_text
renewed-valid current expected_revision token now expires_at valid args =
    let (boundary, born, stamped, safe, leased) = valid_fields current valid in
    ground (
      arith,
      args,
      boundary,
      born,
      stamped,
      safe,
      leased,
      boundary_managed current current.revision
          (some
            (record { token = token; expires_at = max (leased_until current.lease) expires_at }))
          current.updated_at,
      managed_contract current current.revision
          (some
            (record { token = token; expires_at = max (leased_until current.lease) expires_at }))
          current.cancellation_requested current.updated_at valid,
    )

args-order :
    (expected_revision : ℕ) (token : String) (now expires_at : ℕ)
    → assert_lease_arguments expected_revision token now expires_at ≡ ok tt
    → ltb now expires_at ≡ true
unfolding assert_lease_arguments
args-order expected_revision token now expires_at args = ground (arith, args)

is_lease_of-given :
    (s : WorkflowSnapshot) (token : String) (now : ℕ)
    → is_lease_of s token now ≡ true
    → (lease : WorkflowLease) × (s.lease ≡ some lease)
unfolding is_lease_of
is_lease_of-given s token now held = elim (Option-cases s.lease) [
  | inl free ↦ absurd (ground (arith, held, free))
  | inr given ↦ given
]

renewed-accepted :
    (observed current : WorkflowSnapshot) (expected_revision : ℕ) (token : String)
    (now expires_at : ℕ) (lease : WorkflowLease)
    → IsAhead observed current
    → same_content (renewed current token expires_at) observed ≡ true
    → current.lease ≡ some lease
    → current.lease ≡ observed.lease
    → (observed.revision == expected_revision || cancellation_race observed expected_revision)
      ≡ true
    → ltb now expires_at ≡ true
    → assert_workflow_snapshot (renewed current token expires_at) ≡ ok tt
    → accepts_renewal observed
        (renewed current token expires_at)
        expected_revision
        token
        now
        expires_at
      ≡ true
unfolding accepts_renewal
renewed-accepted observed current expected_revision token now expires_at lease (inl ahead) content
      given same seen order valid =
    ground (arith, ahead, content, given, same, seen, order, valid, eq_refl token)
renewed-accepted observed current expected_revision token now expires_at lease (inr ahead) content
      given same seen order valid =
    ground (arith, ahead, content, given, same, seen, order, valid, eq_refl token)

-- If the stored snapshot is valid and is the observed one, but for at most one cancellation in
-- between, and the observed revision is the expected one or the one behind it with a cancellation,
-- then what the store answers to a renewal, the manager's receipt check accepts.
pub renewal_accepted :
    (s : Store) (id : String) (observed current : WorkflowSnapshot)
    → Map.get id s.snapshots ≡ some current
    → assert_workflow_snapshot current ≡ ok tt
    → IsAhead observed current
    → same_content current observed ≡ true
    → current.lease ≡ observed.lease
    → (expected_revision : ℕ) (token : String) (now expires_at : ℕ) (r : WorkflowSnapshot)
    → (observed.revision == expected_revision || cancellation_race observed expected_revision)
      ≡ true
    → (renew_lease id expected_revision token now expires_at s).0 ≡ ok r
    → accepts_renewal observed r expected_revision token now expires_at ≡ true
renewal_accepted s id observed current there valid ahead content same expected_revision token now
      expires_at r seen h =
    let (found, here, held, known, args, made, left) =
      renew_lease-saves id expected_revision token now expires_at s r h in
    let is_current : found ≡ current = ground (arith, there, here) in
    let (lease, given) =
      is_lease_of-given current token now
        (subst (λ c. is_lease_of c token now ≡ true) is_current held) in
    rw (made, is_current)
      (renewed-accepted observed current expected_revision token now expires_at lease ahead
        (unfold same_content in content) given same seen
        (args-order expected_revision token now expires_at args)
        (renewed-valid current expected_revision token now expires_at valid args))
