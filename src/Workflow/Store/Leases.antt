-- ===== src/Workflow/Store/Leases.antt =====
-- packages/workflows/src/store.ts: a property of a stored snapshot, and the calls that keep it.
use nuxt_laravelize.Common.Map
use nuxt_laravelize.Workflow.Store.{
  save, is_leased, is_lease_of, claim, commit, Store, required, store_new, replay_start,
  create_under, create, merged, leased_until, renew_lease, request_cancellation,
}
use nuxt_laravelize.Workflow.Types.{WorkflowSnapshot}
use nuxt_laravelize.Common.{
  ℕ, ◌+◌, max, String, ◌≡◌, refl, sym, ap, ◌∙◌, inl, inr, Bool, true, false, some, arith, str_eq,
  eq_iff, Bool-cases,
}
use nuxt_laravelize.Workflow.Store.Effects.{
  claim-throws, claim-saves, renew_lease-throws, renew_lease-saves, commit-throws, commit-saves,
  request_cancellation-throws, request_cancellation-saves,
}
use nuxt_laravelize.Common.Map.{Map, get-put, get-has}
use nuxt_laravelize.Common.Exec.{Result-cases}
use mathlib.Core.Path.{subst}

-- A property of the snapshot under an id.
abbrev pub At : (WorkflowSnapshot → Type 0) → String → Store → Type 0
At P id s = (current : WorkflowSnapshot) × (Map.get id s.snapshots ≡ some current) × P current

module _ (P : WorkflowSnapshot → Type 0) (id : String) (s : Store) (at : At P id s) where
  -- What a call saves has the property, if it is saved under the id.
  At-save :
      (t : Store) (j : String) (next : WorkflowSnapshot)
      → t ≡ save j next s
      → (j ≡ id → P next)
      → At P id t
  unfolding save
  At-save t j next left kept = elim (Bool-cases (str_eq j id)) [
    | inl same ↦ (next, rw (left, get-put) (ground (arith, same)), kept ((eq_iff j id).0 same))
    | inr other ↦ (at.0, rw (left, get-put) (ground (arith, other, at.1)), at.2)
  ]

  At-same : (t : Store) → t ≡ s → At P id t
  At-same t same = rw same at

  pub At-create : (snapshot : WorkflowSnapshot) → At P id (create snapshot s).1
  unfolding create create_under store_new save replay_start required
  At-create snapshot = (
    at.0,
    ground (
      arith,
      at.1,
      get-has id s.snapshots at.0 at.1,
      get-put snapshot.id id snapshot s.snapshots,
      eq_iff snapshot.id id,
    ),
    at.2,
  )

  found :
      (j : String) (current : WorkflowSnapshot)
      → Map.get j s.snapshots ≡ some current
      → j ≡ id
      → P current
  found j current there same =
      let e : at.0 ≡ current = ground (arith, there, at.1, ap (λ i. Map.get i s.snapshots) same) in
      subst P e at.2

  pub claim-At :
      (j : String) (revision : ℕ) (token : String) (now expires_at : ℕ)
      → ((current : WorkflowSnapshot)
          → j ≡ id
          → P current
          → is_leased current now ≡ false
          → P (record current {
            revision = current.revision + 1;
            lease = some (record { token = token; expires_at = expires_at });
            updated_at = max current.updated_at now;
          }))
      → At P id (claim j revision token now expires_at s).1
  claim-At j revision token now expires_at kept =
      elim (Result-cases (claim j revision token now expires_at s).0) [
        | inr (e, h) ↦ At-same _ (claim-throws j revision token now expires_at s h)
        | inl (r, h) ↦
            let (current, there, expected, free, args, made, left) =
              claim-saves j revision token now expires_at s r h in
            At-save _ j r left λ same. rw made (kept current same (found j current there same) free)
      ]

  pub renew-At :
      (j : String) (revision : ℕ) (token : String) (now expires_at : ℕ)
      → ((current : WorkflowSnapshot)
          → P current
          → is_lease_of current token now ≡ true
          → P (record current {
            lease = some (record {
              token = token;
              expires_at = max (leased_until current.lease) expires_at;
            });
          }))
      → At P id (renew_lease j revision token now expires_at s).1
  renew-At j revision token now expires_at kept =
      elim (Result-cases (renew_lease j revision token now expires_at s).0) [
        | inr (e, h) ↦ At-same _ (renew_lease-throws j revision token now expires_at s h)
        | inl (r, h) ↦
            let (current, there, held, expected, args, made, left) =
              renew_lease-saves j revision token now expires_at s r h in
            At-save _ j r left λ same. rw made (kept current (found j current there same) held)
      ]

  pub commit-At :
      (snapshot : WorkflowSnapshot) (revision : ℕ) (token : String) (now : ℕ) (release : Bool)
      → ((current : WorkflowSnapshot)
          → P current
          → is_lease_of current token now ≡ true
          → P (merged current snapshot release))
      → At P id (commit snapshot revision token now release s).1
  commit-At snapshot revision token now release kept =
      elim (Result-cases (commit snapshot revision token now release s).0) [
        | inr (e, h) ↦ At-same _ (commit-throws snapshot revision token now release s h)
        | inl (r, h) ↦
            let (current, there, sound, valid, unchanged, held, expected, made, left) =
              commit-saves snapshot revision token now release s r h in
            let own : r.id ≡ snapshot.id = rw made (unfold merged in refl) in
            At-save _ r.id r left
              λ same. rw made (kept current (found snapshot.id current there (sym own ∙ same)) held)
      ]

  pub cancel-At :
      (j : String) (revision now : ℕ)
      → ((current : WorkflowSnapshot)
          → P current
          → P (record current {
            cancellation_requested = true;
            revision = current.revision + 1;
            updated_at = max current.updated_at now;
          }))
      → At P id (request_cancellation j revision now s).1
  cancel-At j revision now kept = elim (Result-cases (request_cancellation j revision now s).0) [
    | inr (e, h) ↦ At-same _ (request_cancellation-throws j revision now s h)
    | inl (r, h) ↦
        let (current, there, expected, active, made, left) =
          request_cancellation-saves j revision now s r h in
        At-save _ j r left λ same. rw made (kept current (found j current there same))
  ]
