-- ===== src/Workflow/Manager/Committed.antt =====
-- packages/workflows/src/manager.ts: what a commit that is answered leaves in the store.
use nuxt_laravelize.Common.Map
use nuxt_laravelize.Common.{
  ℕ, String, ◌≡◌, Bool, true, false, none, some, arith, eq_refl, inl, inr, ◌&&◌, sym, if◌then◌else◌,
}
use nuxt_laravelize.Common.Map.{Map, get-put}
use nuxt_laravelize.Common.Exec.{Result, Result-cases, ok, throw, ◌>>=◌, bind-ok}
use nuxt_laravelize.Workflow.Store.{check_action, Action, Store, commit, merged, save}
use nuxt_laravelize.Workflow.Store.Effects.{commit-saves}
use nuxt_laravelize.Workflow.Identity.{check, revision_conflict, WorkflowFailure}
use nuxt_laravelize.Workflow.Types.{WorkflowSnapshot, WorkflowDefinition}
use nuxt_laravelize.Workflow.Validation.{assert_matches_definition}
use nuxt_laravelize.Workflow.Manager.{
  Again, commit_once, commit_cancelled, commit_candidate, read, cancellation_candidate, holds_token,
  candidate_at, is_conflict, is_final,
}
use mathlib.Core.Path.{subst}

-- What a call returns, if it returns, has a property together with the store that the call leaves.
abbrev pub Yields : {B : Type 0} → (B → Store → Type 0) → Result WorkflowFailure B × Store → Type 0
Yields {B} Q answer = (b : B) → answer.0 ≡ ok b → Q b answer.1

pub bind-Yields :
    {A B : Type 0} (P : A → Store → Type 0) (Q : B → Store → Type 0) (m : Action A)
    (k : A → Action B) (s : Store)
    → Yields P (m s)
    → ((a : A) (s' : Store) → P a s' → Yields Q (k a s'))
    → Yields Q ((m >>= k) s)
bind-Yields P Q m k s first rest r h =
    let (a, done, same) = bind-ok m k s r h in
    subst (Yields Q) (sym same) (rest a (m s).1 (first a done)) r h

pub if-Yields :
    {B : Type 0} (Q : B → Store → Type 0) (b : Bool) (x y : Result WorkflowFailure B × Store)
    → Yields Q x
    → Yields Q y
    → Yields Q (if b then x else y)
if-Yields Q true x y p q = p
if-Yields Q false x y p q = q

-- The snapshot is stored, without a lease, and matches the definition.
abbrev pub IsSettled : WorkflowDefinition → WorkflowSnapshot → Store → Type 0
IsSettled definition r s =
    (Map.get r.id s.snapshots ≡ some r)
    × (r.lease ≡ none)
    × (assert_matches_definition r definition ≡ ok tt)

abbrev pub IsCommitted :
    WorkflowDefinition → Result WorkflowFailure WorkflowSnapshot × Store → Type 0
IsCommitted definition = Yields (IsSettled definition)

module _ (definition : WorkflowDefinition) where
  pub throw-IsCommitted : (e : WorkflowFailure) (s : Store) → IsCommitted definition (throw e, s)
  throw-IsCommitted e s r h = absurd (ground (arith, h))

  pub if-IsCommitted :
      (b : Bool) (x y : Result WorkflowFailure WorkflowSnapshot × Store)
      → IsCommitted definition x
      → IsCommitted definition y
      → IsCommitted definition (if b then x else y)
  if-IsCommitted b x y p q = if-Yields (IsSettled definition) b x y p q

  pub bind-IsCommitted :
      {A : Type 0} (m : Action A) (k : A → Action WorkflowSnapshot) (s : Store)
      → ((a : A) (s' : Store) → IsCommitted definition (k a s'))
      → IsCommitted definition ((m >>= k) s)
  bind-IsCommitted m k s p =
      bind-Yields (λ a s'. Unit) (IsSettled definition) m k s (λ a done. tt) λ a s' u. p a s'

  pub commit_once-IsCommitted :
      (original : WorkflowSnapshot) (token : String) (next : WorkflowSnapshot) (now : ℕ) (s : Store)
      → IsCommitted definition (commit_once original definition token next true now s)
  unfolding commit_once merged save
  commit_once-IsCommitted original token next now s r h =
      elim (Result-cases (commit next original.revision token now true s).0) [
        | inr (e, broken) ↦ absurd (ground (arith, h, broken))
        | inl (x, done) ↦
            let (current, there, sound, valid, unchanged, held, expected, made, left) =
              commit-saves next original.revision token now true s x done in
            let same : x ≡ r = ground (arith, h, done) in
            let kept : (commit_once original definition token next true now s).1 ≡ save x.id x s =
              ground (arith, h, done, left) in
            (
              ground (arith, kept, same, eq_refl x.id, get-put x.id x.id x s.snapshots),
              ground (arith, made, same),
              ground (arith, h, done),
            )
      ]

  commit_cancelled-IsCommitted :
      (token : String) (candidate : WorkflowSnapshot) (again : Again) (s : Store)
      → IsCommitted definition (commit_cancelled definition token candidate again s)
  unfolding commit_cancelled
  commit_cancelled-IsCommitted token candidate again s =
      bind-IsCommitted (read candidate.id) _ (again.before_read s) λ authoritative s1.
        bind-IsCommitted (check_action (assert_matches_definition authoritative definition)) _ s1
          λ u s2.
            bind-IsCommitted
              (check_action (
                check
                  (authoritative.cancellation_requested && holds_token authoritative.lease token)
                  revision_conflict))
              _ s2
              λ u' s3.
                commit_once-IsCommitted authoritative token
                  (candidate_at (cancellation_candidate definition candidate authoritative)
                    again.at)
                  again.at (again.before_commit s3)

  pub commit_candidate-IsCommitted :
      (original : WorkflowSnapshot) (token : String) (next : WorkflowSnapshot) (now : ℕ)
      (again : Again) (s : Store)
      → IsCommitted definition (commit_candidate original definition token next true now again s)
  unfolding commit_candidate
  commit_candidate-IsCommitted original token next now again s =
      let candidate = candidate_at next now in
      let answer = commit_once original definition token candidate true now s in
      if-IsCommitted (is_conflict answer.0 && is_final candidate.state)
        (commit_cancelled definition token candidate again answer.1) answer
        (commit_cancelled-IsCommitted token candidate again answer.1)
        (commit_once-IsCommitted original token candidate now s)
