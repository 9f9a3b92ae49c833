-- ===== src/Workflow/Store/Commits.antt =====
-- The in-memory store gives the answers to a commit that the manager's receipt check asks of a store.
use nuxt_laravelize.Common.Map
use nuxt_laravelize.Common.{
  ℕ, ◌+◌, ◌≤◌, max, String, ◌≡◌, inl, inr, Bool, true, false, not, ◌&&◌, ◌||◌, Option, none, some,
  arith, eq_iff, if◌then◌else◌, max_safe_integer, refl,
}
use nuxt_laravelize.Workflow.Receipts.{
  kept_lease_valid, commit_fields_valid, same_content, identity_unchanged, accepts_commit,
}
use nuxt_laravelize.Workflow.Validation.{assert_workflow_snapshot}
use nuxt_laravelize.Workflow.Types.{WorkflowLease, WorkflowSnapshot}
use nuxt_laravelize.Workflow.Store.{is_final, is_lease_of, cancellation_race, merged, commit, Store}
use nuxt_laravelize.Workflow.Store.Managed.{
  managed_contract, boundary_managed, boundary_cancelled, valid_fields, same_content_refl,
}
use nuxt_laravelize.Workflow.Store.Contract.{IsAhead}
use nuxt_laravelize.Workflow.Validation.Step.{is_safe, is_timestamp}
use nuxt_laravelize.Common.Map.{Map}
use nuxt_laravelize.Common.Exec.{ok}
use nuxt_laravelize.Workflow.Store.Effects.{commit-saves}
use mathlib.Core.Path.{subst}

-- A commit that races with a cancellation does not end the workflow.
commit-unfinished :
    (snapshot : WorkflowSnapshot) (revision : ℕ) (token : String) (now : ℕ) (release : Bool)
    (s : Store) (r current : WorkflowSnapshot)
    → Map.get snapshot.id s.snapshots ≡ some current
    → (commit snapshot revision token now release s).0 ≡ ok r
    → (is_final snapshot.state && cancellation_race current revision) ≡ false
unfolding commit
commit-unfinished snapshot revision token now release s r current there h = ground (arith, there)

-- What is stored of a commit is valid again.
merged-valid :
    (current candidate : WorkflowSnapshot) (release : Bool)
    → assert_workflow_snapshot current ≡ ok tt
    → assert_workflow_snapshot candidate ≡ ok tt
    → current.revision + 1 ≤ max_safe_integer
    → (is_final candidate.state
        && not candidate.cancellation_requested
        && current.cancellation_requested)
      ≡ false
    → assert_workflow_snapshot (merged current candidate release) ≡ ok tt
unfolding merged is_safe is_timestamp
merged-valid current candidate release valid sound countable unfinished =
    let (boundary, born, stamped, safe, leased) = valid_fields current valid in
    let (boundary', born', stamped', safe', leased') = valid_fields candidate sound in
    let lease = if release then none else current.lease in
    let updated_at = max current.updated_at candidate.updated_at in
    ground (
      arith,
      boundary_managed candidate (current.revision + 1) lease updated_at,
      boundary_cancelled candidate (current.revision + 1) lease updated_at,
      managed_contract candidate (current.revision + 1) lease
          (candidate.cancellation_requested || current.cancellation_requested) updated_at sound,
    )

-- The lease that a commit finds is the one that its process was given, or a renewal of it.
abbrev pub IsRenewal : Option WorkflowLease → Option WorkflowLease → String → Type 0
IsRenewal given found token =
    (a : WorkflowLease) × (b : WorkflowLease) × (given ≡ some a)
    × (found ≡ some b)
    × (a.token ≡ token)
    × (b.token ≡ token)
    × (a.expires_at ≤ b.expires_at)

kept_lease-valid :
    (original current : WorkflowSnapshot) (token : String) (now : ℕ)
    → IsRenewal original.lease current.lease token
    → is_lease_of current token now ≡ true
    → kept_lease_valid original.lease current.lease token now ≡ true
unfolding kept_lease_valid is_lease_of
kept_lease-valid original current token now (a, b, given, found, mine, yours, later) held =
    rw (given, found)
      (ground
        (arith, held, found, mine, yours, later, eq_iff b.token token, eq_iff b.token a.token))

fields-valid :
    (original candidate current : WorkflowSnapshot) (token : String) (now : ℕ) (release : Bool)
    → IsAhead original current
    → candidate.revision ≡ original.revision
    → original.updated_at ≤ candidate.updated_at
    → (original.cancellation_requested ≡ true → candidate.cancellation_requested ≡ true)
    → (candidate.cancellation_requested ≡ true → current.cancellation_requested ≡ true)
    → (is_final candidate.state && cancellation_race current original.revision) ≡ false
    → kept_lease_valid original.lease current.lease token now ≡ true
    → commit_fields_valid original candidate (merged current candidate release) token now release
      ≡ true
unfolding commit_fields_valid merged
fields-valid original candidate current token now release (inl ahead) same later keeps knows final
      lease =
    ground (arith, ahead, same, later, keeps, knows, final, lease)
fields-valid original candidate current token now release (inr ahead) same later keeps knows final
      lease =
    ground (arith, ahead, same, later, keeps, knows, final, lease)

final-unmerged :
    (original candidate current : WorkflowSnapshot)
    → IsAhead original current
    → (original.cancellation_requested ≡ true → candidate.cancellation_requested ≡ true)
    → (is_final candidate.state && cancellation_race current original.revision) ≡ false
    → (is_final candidate.state
        && not candidate.cancellation_requested
        && current.cancellation_requested)
      ≡ false
final-unmerged original candidate current (inl ahead) keeps final =
    ground (arith, ahead, keeps, final)
final-unmerged original candidate current (inr ahead) keeps final =
    ground (arith, ahead, keeps, final)

-- A process commits a candidate onto what it had claimed, while at most one cancellation came
-- between. If the candidate keeps the identity and the revision of what was claimed, does not go
-- back in time, keeps a cancellation that was claimed, and has one only if it is stored, if the
-- stored lease is the claimed one or a renewal of it, and if the revision can be counted up, then
-- what the store answers, the manager's receipt check accepts.
pub commit_accepted :
    (s : Store) (original candidate current : WorkflowSnapshot) (token : String) (now : ℕ)
    (release : Bool) (r : WorkflowSnapshot)
    → Map.get candidate.id s.snapshots ≡ some current
    → IsAhead original current
    → current.revision + 1 ≤ max_safe_integer
    → IsRenewal original.lease current.lease token
    → candidate.revision ≡ original.revision
    → original.updated_at ≤ candidate.updated_at
    → identity_unchanged original candidate ≡ true
    → (original.cancellation_requested ≡ true → candidate.cancellation_requested ≡ true)
    → (candidate.cancellation_requested ≡ true → current.cancellation_requested ≡ true)
    → (commit candidate original.revision token now release s).0 ≡ ok r
    → accepts_commit original candidate r token now release ≡ true
unfolding accepts_commit
commit_accepted s original candidate current token now release r there ahead countable renewal same
      later identity keeps knows h =
    let (found, here, valid, sound, unchanged, held, known, made, left) =
      commit-saves candidate original.revision token now release s r h in
    let is_current : found ≡ current = ground (arith, there, here) in
    let final =
      commit-unfinished candidate original.revision token now release s r current there h in
    let answer : r ≡ merged current candidate release = rw made (rw is_current refl) in
    let stored =
      merged-valid current candidate release
        (subst (λ c. assert_workflow_snapshot c ≡ ok tt) is_current valid) sound countable
        (final-unmerged original candidate current ahead keeps final) in
    let fields =
      fields-valid original candidate current token now release ahead same later keeps knows final (
        kept_lease-valid original current token now renewal
          (subst (λ c. is_lease_of c token now ≡ true) is_current held)) in
    let still : identity_unchanged original (merged current candidate release) ≡ true =
      unfold identity_unchanged merged in identity in
    let content : same_content (merged current candidate release) candidate ≡ true =
      unfold same_content merged in unfold same_content in same_content_refl candidate in
    rw answer (ground (arith, stored, sound, identity, still, content, fields))
