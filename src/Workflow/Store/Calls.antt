-- ===== src/Workflow/Store/Calls.antt =====
-- Any calls of the store, one after the other.
use nuxt_laravelize.Common.Map
use nuxt_laravelize.Common.{ℕ, String, ◌≡◌, ap, inl, inr, Bool, List, [], ◌∷◌, arith, eq_iff, refl}
use nuxt_laravelize.Workflow.Store.{
  empty, save, required, store_new, replay_start, create_under, create, claim, renew_lease, commit,
  request_cancellation, Store,
}
use nuxt_laravelize.Workflow.Identity.{Checked, WorkflowFailure}
use nuxt_laravelize.Workflow.Types.{WorkflowSnapshot}
use nuxt_laravelize.Workflow.Store.Effects.{
  claim-throws, claim-saves, renew_lease-throws, renew_lease-saves, commit-throws, commit-saves,
  request_cancellation-throws, request_cancellation-saves,
}
use nuxt_laravelize.Workflow.Store.Evolution.{
  Keeps, save-IsFiled, claim-Keeps, renew_lease-Keeps, commit-Keeps, request_cancellation-Keeps,
  create-Keeps, IsFiled,
}
use nuxt_laravelize.Common.Map.{Map, get-put}
use nuxt_laravelize.Common.Exec.{Result-cases, Result, ok, throw}

-- A call of the store.
pub data Call : Type 0 where
  creating : WorkflowSnapshot → Call
  claiming renewing :
      (id : String) (expected_revision : ℕ) (token : String) (now expires_at : ℕ) → Call
  committing :
      WorkflowSnapshot → (expected_revision : ℕ) (token : String) (now : ℕ) (release : Bool) → Call
  cancelling : (id : String) (expected_revision now : ℕ) → Call

module _ {A : Type 0} where
  abbrev forget_value : Result WorkflowFailure A → Checked
  forget_value (ok a) = ok tt
  forget_value (throw e) = throw e

  abbrev outcome : Result WorkflowFailure A × Store → Checked × Store
  outcome x = (forget_value x.0, x.1)

unfoldable pub perform : Call → Store → Checked × Store
perform (creating snapshot) s = outcome (create snapshot s)
perform (claiming id revision token now expires_at) s =
    outcome (claim id revision token now expires_at s)
perform (renewing id revision token now expires_at) s =
    outcome (renew_lease id revision token now expires_at s)
perform (committing snapshot revision token now release) s =
    outcome (commit snapshot revision token now release s)
perform (cancelling id revision now) s = outcome (request_cancellation id revision now s)

-- Whatever is called, a workflow that is stored stays stored with its identity, its revision and
-- its time do not go back, and a cancellation stays requested.
pub perform-Keeps : (c : Call) (s : Store) → IsFiled s → Keeps s (perform c s).1
unfolding perform
perform-Keeps (creating snapshot) s filed = create-Keeps s snapshot
perform-Keeps (claiming id revision token now expires_at) s filed =
    claim-Keeps s filed id revision token now expires_at
perform-Keeps (renewing id revision token now expires_at) s filed =
    renew_lease-Keeps s filed id revision token now expires_at
perform-Keeps (committing snapshot revision token now release) s filed =
    commit-Keeps s filed snapshot revision token now release
perform-Keeps (cancelling id revision now) s filed =
    request_cancellation-Keeps s filed id revision now

create-IsFiled :
    (s : Store) (snapshot : WorkflowSnapshot) → IsFiled s → IsFiled (create snapshot s).1
unfolding create create_under store_new save replay_start required
create-IsFiled s snapshot filed = record {
  filed = λ j x h.
      ground (
        arith,
        h,
        get-put snapshot.id j snapshot s.snapshots,
        eq_iff snapshot.id j,
        filed.filed j x,
      );
}

module _ (s t : Store) (filed : IsFiled s) where
  saved-IsFiled : (id : String) (r : WorkflowSnapshot) → r.id ≡ id → t ≡ save id r s → IsFiled t
  unfolding save
  saved-IsFiled id r own left =
      save-IsFiled s t id r filed own (ap (λ (u : Store). u.snapshots) left)

  kept-IsFiled : t ≡ s → IsFiled t
  kept-IsFiled same = rw same filed

pub perform-IsFiled : (c : Call) (s : Store) → IsFiled s → IsFiled (perform c s).1
unfolding perform
perform-IsFiled (creating snapshot) s filed = create-IsFiled s snapshot filed
perform-IsFiled (claiming id revision token now expires_at) s filed =
    elim (Result-cases (claim id revision token now expires_at s).0) [
      | inl (r, h) ↦
          let (current, there, expected, free, args, made, left) =
            claim-saves id revision token now expires_at s r h in
          saved-IsFiled s _ filed id r (ground (arith, made, filed.filed id current there)) left
      | inr (e, h) ↦ kept-IsFiled s _ filed (claim-throws id revision token now expires_at s h)
    ]
perform-IsFiled (renewing id revision token now expires_at) s filed =
    elim (Result-cases (renew_lease id revision token now expires_at s).0) [
      | inl (r, h) ↦
          let (current, there, held, expected, args, made, left) =
            renew_lease-saves id revision token now expires_at s r h in
          saved-IsFiled s _ filed id r (ground (arith, made, filed.filed id current there)) left
      | inr (e, h) ↦
          kept-IsFiled s _ filed (renew_lease-throws id revision token now expires_at s h)
    ]
perform-IsFiled (committing snapshot revision token now release) s filed =
    elim (Result-cases (commit snapshot revision token now release s).0) [
      | inl (r, h) ↦
          saved-IsFiled s _ filed r.id r refl
            (commit-saves snapshot revision token now release s r h).8
      | inr (e, h) ↦ kept-IsFiled s _ filed (commit-throws snapshot revision token now release s h)
    ]
perform-IsFiled (cancelling id revision now) s filed =
    elim (Result-cases (request_cancellation id revision now s).0) [
      | inl (r, h) ↦
          let (current, there, expected, active, made, left) =
            request_cancellation-saves id revision now s r h in
          saved-IsFiled s _ filed id r (ground (arith, made, filed.filed id current there)) left
      | inr (e, h) ↦ kept-IsFiled s _ filed (request_cancellation-throws id revision now s h)
    ]

-- The store after a list of calls, each from where the one before it left off.
unfoldable pub run_calls : List Call → Store → Store
run_calls [] s = s
run_calls (c ∷ cs) s = run_calls cs (perform c s).1

pub empty-IsFiled : IsFiled empty
empty-IsFiled = record { filed = λ id x h. absurd (unfold Map.get in cc h) }

-- If every snapshot of the store stands under its own id, then it does so after any list of calls.
pub run_calls-IsFiled : (cs : List Call) (s : Store) → IsFiled s → IsFiled (run_calls cs s)
unfolding run_calls
run_calls-IsFiled [] s filed = filed
run_calls-IsFiled (c ∷ cs) s filed =
    run_calls-IsFiled cs (perform c s).1 (perform-IsFiled c s filed)
