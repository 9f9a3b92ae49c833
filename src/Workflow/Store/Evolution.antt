-- ===== src/Workflow/Store/Evolution.antt =====
-- What no operation of the store undoes.
use nuxt_laravelize.Common.Map
use mathlib.Core.Path.{subst}
use nuxt_laravelize.Common.{
  ℕ, ◌≤◌, String, ◌≡◌, refl, inl, inr, Bool, true, Option, none, some, List, [], ◌∷◌, arith, str_eq,
  eq_iff, eq_refl, Bool-cases, ap,
}
use nuxt_laravelize.Workflow.Receipts.{same_step_identity, same_step_identities, identity_unchanged}
use nuxt_laravelize.Workflow.Json.{same_json_refl}
use nuxt_laravelize.Workflow.Types.{StepSnapshot, WorkflowSnapshot}
use nuxt_laravelize.Workflow.Store.{
  save, create, claim, renew_lease, commit, request_cancellation, Store, required, store_new,
  replay_start, create_under, merged,
}
use nuxt_laravelize.Workflow.Validation.Step.{same_optional}
use nuxt_laravelize.Common.Map.{Map, get-put, get-has}
use nuxt_laravelize.Common.Exec.{Result-cases}
use nuxt_laravelize.Workflow.Store.Effects.{
  claim-throws, claim-saves, renew_lease-throws, renew_lease-saves, commit-throws, commit-saves,
  request_cancellation-throws, request_cancellation-saves,
}

-- A later snapshot of the same workflow.
pub record Evolves (before after : WorkflowSnapshot) : Type 0 where
  pub identity : identity_unchanged before after ≡ true
  pub revision : before.revision ≤ after.revision
  pub updated : before.updated_at ≤ after.updated_at
  pub cancellation : before.cancellation_requested ≡ true → after.cancellation_requested ≡ true

same_optional_refl : (o : Option String) → same_optional o o ≡ true
same_optional_refl none = refl
same_optional_refl (some a) = eq_refl a

step_identities_refl : (steps : List StepSnapshot) → same_step_identities steps steps ≡ true
unfolding same_step_identities same_step_identity
step_identities_refl [] = refl
step_identities_refl (step ∷ steps) = ground (
  arith,
  eq_refl step.name,
  eq_refl step.idempotency_key,
  same_optional_refl step.compensation_idempotency_key,
  step_identities_refl steps,
)

pub identity_unchanged_refl : (s : WorkflowSnapshot) → identity_unchanged s s ≡ true
unfolding identity_unchanged
identity_unchanged_refl s = ground (
  arith,
  eq_refl s.id,
  eq_refl s.workflow_name,
  eq_refl s.workflow_version,
  eq_refl s.start_key,
  eq_refl s.canonical_input,
  same_json_refl s.input,
  step_identities_refl s.steps,
)

pub Evolves-refl : (s : WorkflowSnapshot) → Evolves s s
Evolves-refl s = record {
  identity = identity_unchanged_refl s;
  revision = omega arith;
  updated = omega arith;
  cancellation = λ h. h;
}

-- Every snapshot stands under its own id.
pub record IsFiled (s : Store) : Type 0 where
  pub filed :
      (id : String) (snapshot : WorkflowSnapshot)
      → Map.get id s.snapshots ≡ some snapshot
      → snapshot.id ≡ id

-- A snapshot that is there stays there, evolved.
abbrev pub Keeps : Store → Store → Type 0
Keeps s t =
    (id : String) (before : WorkflowSnapshot)
    → Map.get id s.snapshots ≡ some before
    → (after : WorkflowSnapshot) × (Map.get id t.snapshots ≡ some after) × Evolves before after

Keeps-refl : {s t : Store} → t ≡ s → Keeps s t
Keeps-refl e id before was = (before, rw e was, Evolves-refl before)

-- What is saved over a snapshot that is there.
module _ (s : Store) (id : String) (current next : WorkflowSnapshot)
    (there : Map.get id s.snapshots ≡ some current) (evolves : Evolves current next) where
  replaced :
      (j : String) (before : WorkflowSnapshot)
      → Map.get j s.snapshots ≡ some before
      → str_eq id j ≡ true
      → current ≡ before
  replaced j before was here =
      ground (arith, there, was, ap (λ i. Map.get i s.snapshots) ((eq_iff id j).0 here))

  save-Keeps : {t : Store} → t ≡ save id next s → Keeps s t
  unfolding save
  save-Keeps e j before was = elim (Bool-cases (str_eq id j)) [
    | inl here ↦ (
      next,
      rw (e, get-put) (ground (arith, here)),
      subst (λ b. Evolves b next) (replaced j before was here) evolves,
    )
    | inr elsewhere ↦
        (before, rw (e, get-put) (ground (arith, elsewhere, was)), Evolves-refl before)
  ]

pub save-IsFiled :
    (s t : Store) (id : String) (next : WorkflowSnapshot)
    → IsFiled s
    → next.id ≡ id
    → t.snapshots ≡ Map.put id next s.snapshots
    → IsFiled t
save-IsFiled s t id next filed own e = record {
  filed = λ j snapshot h. ground (
    arith,
    h,
    ap (λ m. Map.get j m) e,
    get-put id j next s.snapshots,
    eq_iff id j,
    own,
    filed.filed j snapshot,
  );
}

module _ (s : Store) (filed : IsFiled s) where
  pub claim-Keeps :
      (id : String) (revision : ℕ) (token : String) (now expires_at : ℕ)
      → Keeps s (claim id revision token now expires_at s).1
  claim-Keeps id revision token now expires_at =
      elim (Result-cases (claim id revision token now expires_at s).0) [
        | inl (r, h) ↦
            let (current, there, expected, free, args, made, left) =
              claim-saves id revision token now expires_at s r h in
            save-Keeps s id current r there
              (rw made (record {
                identity = unfold identity_unchanged in identity_unchanged_refl current;
                revision = omega arith;
                updated = omega arith;
                cancellation = λ c. c;
              }))
              left
        | inr (e, h) ↦ Keeps-refl (claim-throws id revision token now expires_at s h)
      ]

  pub renew_lease-Keeps :
      (id : String) (revision : ℕ) (token : String) (now expires_at : ℕ)
      → Keeps s (renew_lease id revision token now expires_at s).1
  renew_lease-Keeps id revision token now expires_at =
      elim (Result-cases (renew_lease id revision token now expires_at s).0) [
        | inl (r, h) ↦
            let (current, there, held, expected, args, made, left) =
              renew_lease-saves id revision token now expires_at s r h in
            save-Keeps s id current r there
              (rw made (record {
                identity = unfold identity_unchanged in identity_unchanged_refl current;
                revision = omega arith;
                updated = omega arith;
                cancellation = λ c. c;
              }))
              left
        | inr (e, h) ↦ Keeps-refl (renew_lease-throws id revision token now expires_at s h)
      ]

  pub commit-Keeps :
      (snapshot : WorkflowSnapshot) (revision : ℕ) (token : String) (now : ℕ) (release : Bool)
      → Keeps s (commit snapshot revision token now release s).1
  commit-Keeps snapshot revision token now release =
      elim (Result-cases (commit snapshot revision token now release s).0) [
        | inl (r, h) ↦
            let (current, there, sound, valid, unchanged, held, expected, made, left) =
              commit-saves snapshot revision token now release s r h in
            save-Keeps s r.id current r (rw made (unfold merged in there))
              (rw made (record {
                identity = unfold identity_unchanged merged in unchanged;
                revision = unfold merged in omega arith;
                updated = unfold merged in omega arith;
                cancellation = λ c. unfold merged in ground (arith, c);
              }))
              left
        | inr (e, h) ↦ Keeps-refl (commit-throws snapshot revision token now release s h)
      ]

  pub request_cancellation-Keeps :
      (id : String) (revision now : ℕ) → Keeps s (request_cancellation id revision now s).1
  request_cancellation-Keeps id revision now =
      elim (Result-cases (request_cancellation id revision now s).0) [
        | inl (r, h) ↦
            let (current, there, expected, active, made, left) =
              request_cancellation-saves id revision now s r h in
            save-Keeps s id current r there
              (rw made (record {
                identity = unfold identity_unchanged in identity_unchanged_refl current;
                revision = omega arith;
                updated = omega arith;
                cancellation = λ c. refl;
              }))
              left
        | inr (e, h) ↦ Keeps-refl (request_cancellation-throws id revision now s h)
      ]

-- A creation saves a snapshot under a new id, or saves nothing.
pub create-Keeps : (s : Store) (snapshot : WorkflowSnapshot) → Keeps s (create snapshot s).1
unfolding create create_under store_new save replay_start required
create-Keeps s snapshot id before was = (
  before,
  ground (
    arith,
    was,
    get-has id s.snapshots before was,
    get-put snapshot.id id snapshot s.snapshots,
    eq_iff snapshot.id id,
  ),
  Evolves-refl before,
)
