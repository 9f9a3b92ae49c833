-- ===== src/Workflow/Store/Effects.antt =====
-- What each call of the store leaves: it throws and changes nothing, or it saves one snapshot.
use nuxt_laravelize.Common.Map
use nuxt_laravelize.Common.{
  ℕ, ◌+◌, max, String, ◌≡◌, inl, inr, Bool, true, false, ◌||◌, some, arith, ◌==◌, Option-cases,
}
use nuxt_laravelize.Workflow.Identity.{assert_lease_arguments, WorkflowFailure}
use nuxt_laravelize.Workflow.Receipts.{identity_unchanged, assert_identity_unchanged}
use nuxt_laravelize.Workflow.Validation.{assert_workflow_snapshot}
use nuxt_laravelize.Workflow.State.{is_workflow_terminal}
use nuxt_laravelize.Workflow.Types.{WorkflowSnapshot}
use nuxt_laravelize.Workflow.Store.{
  save, is_leased, is_lease_of, claim, cancellation_race, renew_lease, merged, commit,
  request_cancellation, Store, leased_until,
}
use nuxt_laravelize.Common.Map.{Map}
use nuxt_laravelize.Common.Exec.{ok, throw}

module _ (id : String) (expected_revision : ℕ) (token : String) (now expires_at : ℕ)
    (s : Store) where
  pub claim-throws :
      {e : WorkflowFailure}
      → (claim id expected_revision token now expires_at s).0 ≡ throw e
      → (claim id expected_revision token now expires_at s).1 ≡ s
  unfolding claim
  claim-throws h = ground arith

  pub claim-saves :
      (r : WorkflowSnapshot)
      → (claim id expected_revision token now expires_at s).0 ≡ ok r
      → (current : WorkflowSnapshot) × (Map.get id s.snapshots ≡ some current)
        × (current.revision ≡ expected_revision)
        × (is_leased current now ≡ false)
        × (assert_lease_arguments expected_revision token now expires_at ≡ ok tt)
        × (r ≡ record current {
          revision = current.revision + 1;
          lease = some (record { token = token; expires_at = expires_at });
          updated_at = max current.updated_at now;
        })
        × ((claim id expected_revision token now expires_at s).1 ≡ save id r s)
  unfolding claim
  claim-saves r h = elim (Option-cases (Map.get id s.snapshots)) [
    | inl gone ↦ absurd (ground arith)
    | inr (current, there) ↦ (
      current,
      there,
      ground (arith, there),
      ground (arith, there),
      ground (arith, there),
      ground (arith, there),
      ground (arith, there),
    )
  ]

  pub renew_lease-throws :
      {e : WorkflowFailure}
      → (renew_lease id expected_revision token now expires_at s).0 ≡ throw e
      → (renew_lease id expected_revision token now expires_at s).1 ≡ s
  unfolding renew_lease
  renew_lease-throws h = ground arith

  pub renew_lease-saves :
      (r : WorkflowSnapshot)
      → (renew_lease id expected_revision token now expires_at s).0 ≡ ok r
      → (current : WorkflowSnapshot) × (Map.get id s.snapshots ≡ some current)
        × (is_lease_of current token now ≡ true)
        × ((current.revision == expected_revision || cancellation_race current expected_revision)
            ≡ true)
        × (assert_lease_arguments expected_revision token now expires_at ≡ ok tt)
        × (r ≡ record current {
          lease =
              some (record {
                token = token;
                expires_at = max (leased_until current.lease) expires_at;
              });
        })
        × ((renew_lease id expected_revision token now expires_at s).1 ≡ save id r s)
  unfolding renew_lease
  renew_lease-saves r h = elim (Option-cases (Map.get id s.snapshots)) [
    | inl gone ↦ absurd (ground arith)
    | inr (current, there) ↦ (
      current,
      there,
      ground (arith, there),
      ground (arith, there),
      ground (arith, there),
      ground (arith, there),
      ground (arith, there),
    )
  ]

module _ (snapshot : WorkflowSnapshot) (expected_revision : ℕ) (token : String) (now : ℕ)
    (release : Bool) (s : Store) where
  pub commit-throws :
      {e : WorkflowFailure}
      → (commit snapshot expected_revision token now release s).0 ≡ throw e
      → (commit snapshot expected_revision token now release s).1 ≡ s
  unfolding commit
  commit-throws h = ground arith

  pub commit-saves :
      (r : WorkflowSnapshot)
      → (commit snapshot expected_revision token now release s).0 ≡ ok r
      → (current : WorkflowSnapshot) × (Map.get snapshot.id s.snapshots ≡ some current)
        × (assert_workflow_snapshot current ≡ ok tt)
        × (assert_workflow_snapshot snapshot ≡ ok tt)
        × (identity_unchanged current snapshot ≡ true)
        × (is_lease_of current token now ≡ true)
        × ((current.revision == expected_revision || cancellation_race current expected_revision)
            ≡ true)
        × (r ≡ merged current snapshot release)
        × ((commit snapshot expected_revision token now release s).1 ≡ save r.id r s)
  unfolding commit assert_identity_unchanged
  commit-saves r h = elim (Option-cases (Map.get snapshot.id s.snapshots)) [
    | inl gone ↦ absurd (ground arith)
    | inr (current, there) ↦ (
      current,
      there,
      ground (arith, there),
      ground (arith, there),
      ground (arith, there),
      ground (arith, there),
      ground (arith, there),
      ground (arith, there),
      ground (arith, there),
    )
  ]

module _ (id : String) (expected_revision now : ℕ) (s : Store) where
  pub request_cancellation-throws :
      {e : WorkflowFailure}
      → (request_cancellation id expected_revision now s).0 ≡ throw e
      → (request_cancellation id expected_revision now s).1 ≡ s
  unfolding request_cancellation
  request_cancellation-throws h = ground arith

  pub request_cancellation-saves :
      (r : WorkflowSnapshot)
      → (request_cancellation id expected_revision now s).0 ≡ ok r
      → (current : WorkflowSnapshot) × (Map.get id s.snapshots ≡ some current)
        × (current.revision ≡ expected_revision)
        × (is_workflow_terminal current ≡ false)
        × (r ≡ record current {
          cancellation_requested = true;
          revision = current.revision + 1;
          updated_at = max current.updated_at now;
        })
        × ((request_cancellation id expected_revision now s).1 ≡ save id r s)
  unfolding request_cancellation
  request_cancellation-saves r h = elim (Option-cases (Map.get id s.snapshots)) [
    | inl gone ↦ absurd (ground arith)
    | inr (current, there) ↦ (
      current,
      there,
      ground (arith, there),
      ground (arith, there),
      ground (arith, there),
      ground (arith, there),
    )
  ]
