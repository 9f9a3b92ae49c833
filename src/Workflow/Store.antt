-- ===== src/Workflow/Store.antt =====
-- packages/workflows/src/store.ts: `InMemoryWorkflowStore`. A method is an action on the record of
-- its two maps. Snapshots are values here, so `structuredClone` is the identity.
pub mod Recovery
pub mod Effects
pub mod Evolution
pub mod Calls
pub mod Leases
pub mod Fencing
pub mod Managed
pub mod Contract
pub mod Commits
pub mod History
use nuxt_laravelize.Common.Map
use nuxt_laravelize.Common.{
  ℕ, ◌+◌, max, String, Bool, true, false, not, ◌&&◌, ◌||◌, Option, none, some, [], str_eq, ltb,
  ◌==◌, if◌then◌else◌,
}
use nuxt_laravelize.Workflow.Identity.{
  Checked, check, assert_expected_revision, assert_lease_token, assert_store_timestamp,
  assert_lease_arguments, WorkflowFailure, start_key_conflict, revision_conflict, lease_conflict,
  workflow_not_found,
}
use nuxt_laravelize.Workflow.Receipts.{assert_identity_unchanged}
use nuxt_laravelize.Workflow.Json.{◌+++◌}
use nuxt_laravelize.Workflow.Validation.{assert_workflow_snapshot, normalize_persisted}
use nuxt_laravelize.Workflow.State.{is_workflow_terminal}
use nuxt_laravelize.Workflow.Types.{is_state, WorkflowState, WorkflowLease, WorkflowSnapshot}
use nuxt_laravelize.Common.Map.{Map}
use nuxt_laravelize.Common.Exec.{Exec, pure, raise, gets, ok, throw, ◌>>=◌, ◌>>◌, Result}

pub record Store : Type 0 where
  pub snapshots : Map WorkflowSnapshot
  pub start_keys : Map String

abbrev pub empty : Store
empty = record { snapshots = []; start_keys = [] }

abbrev pub Action : Type 0 → Type 0
Action A = Exec Store WorkflowFailure A

abbrev pub check_action : Checked → Action Unit
check_action c s = (c, s)

abbrev pub start_key_of : WorkflowSnapshot → String
start_key_of s = s.workflow_name +++ "\0" +++ s.workflow_version +++ "\0" +++ s.start_key

pub record Created : Type 0 where
  pub snapshot : WorkflowSnapshot
  pub created : Bool

-- `this.snapshots.set(id, next)`
unfoldable pub save : String → WorkflowSnapshot → Store → Store
save id next s = record s { snapshots = Map.put id next s.snapshots }

-- `required`
unfoldable pub required : String → Action WorkflowSnapshot
required id s = elim (Map.get id s.snapshots) [
  | none ↦ (throw workflow_not_found, s)
  | some snapshot ↦ (ok snapshot, s)
]

unfoldable pub store_new : WorkflowSnapshot → Action Created
unfolding save
store_new snapshot s = if Map.has snapshot.id s.snapshots then (throw start_key_conflict, s) else (
  ok (record { snapshot = snapshot; created = true }),
  save snapshot.id snapshot
      (record s { start_keys = Map.put (start_key_of snapshot) snapshot.id s.start_keys }),
)

-- A start key that is known returns the workflow that it started, if the input is the same.
unfoldable pub replay_start : WorkflowSnapshot → WorkflowSnapshot → Action Created
replay_start snapshot existing =
    if str_eq existing.canonical_input snapshot.canonical_input
    then pure (record { snapshot = existing; created = false })
    else raise start_key_conflict

unfoldable pub create_under : WorkflowSnapshot → Option String → Action Created
unfolding store_new replay_start required
create_under snapshot none = store_new snapshot
create_under snapshot (some id) = do existing ← required id; replay_start snapshot existing

unfoldable pub create : WorkflowSnapshot → Action Created
create snapshot = do
  check_action (assert_workflow_snapshot snapshot)
  existing ← gets (λ s. Map.get (start_key_of snapshot) s.start_keys)
  create_under snapshot existing

-- `get` of a snapshot that is there.
unfoldable pub normalized :
    Option WorkflowSnapshot → Result WorkflowFailure (Option WorkflowSnapshot)
normalized none = ok none
normalized (some snapshot) = elim (normalize_persisted snapshot) [
  | throw e ↦ throw e
  | ok normal ↦ ok (some normal)
]

unfoldable pub get : String → Action (Option WorkflowSnapshot)
get id s = (normalized (Map.get id s.snapshots), s)

abbrev pub leased_until : Option WorkflowLease → ℕ
leased_until none = 0
leased_until (some lease) = lease.expires_at

-- `current.lease && current.lease.expiresAt > now`
unfoldable pub is_leased : WorkflowSnapshot → ℕ → Bool
is_leased s now = elim s.lease [ none ↦ false | some lease ↦ ltb now lease.expires_at ]

-- `current.lease` is there, is the token's, and is not over.
unfoldable pub is_lease_of : WorkflowSnapshot → String → ℕ → Bool
is_lease_of s token now = elim s.lease [
  | none ↦ false
  | some lease ↦ str_eq lease.token token && ltb now lease.expires_at
]

-- Saves the next snapshot and returns it.
unfoldable pub saved : String → WorkflowSnapshot → Action WorkflowSnapshot
saved id next s = (ok next, save id next s)

unfoldable pub claim : String → (expected_revision : ℕ) → String → ℕ → ℕ → Action WorkflowSnapshot
unfolding required saved
claim id expected_revision token now expires_at = do
  check_action (assert_lease_arguments expected_revision token now expires_at)
  current ← required id
  check_action (check (current.revision == expected_revision) revision_conflict)
  check_action (check (not (is_leased current now)) lease_conflict)
  saved id (record current {
    revision = current.revision + 1;
    lease = some (record { token = token; expires_at = expires_at });
    updated_at = max current.updated_at now;
  })

-- The one race that a store lets through: a cancellation came between.
abbrev pub cancellation_race : WorkflowSnapshot → ℕ → Bool
cancellation_race current expected_revision =
    current.revision == expected_revision + 1 && current.cancellation_requested

unfoldable pub renew_lease :
    String → (expected_revision : ℕ) → String → ℕ → ℕ → Action WorkflowSnapshot
unfolding required saved
renew_lease id expected_revision token now expires_at = do
  check_action (assert_lease_arguments expected_revision token now expires_at)
  current ← required id
  check_action (check (is_lease_of current token now) lease_conflict)
  check_action (
      check (current.revision == expected_revision || cancellation_race current expected_revision)
        revision_conflict)
  saved id (record current {
    lease =
        some (record { token = token; expires_at = max (leased_until current.lease) expires_at });
  })

abbrev pub is_final : WorkflowState → Bool
is_final state = is_state state WorkflowState.completed || is_state state WorkflowState.failed

-- What a commit stores, beside the snapshot that is there.
unfoldable pub merged : WorkflowSnapshot → WorkflowSnapshot → (release : Bool) → WorkflowSnapshot
merged current snapshot release = record snapshot {
  cancellation_requested = snapshot.cancellation_requested || current.cancellation_requested;
  revision = current.revision + 1;
  updated_at = max current.updated_at snapshot.updated_at;
  lease = if release then none else current.lease;
}

unfoldable pub commit :
    WorkflowSnapshot
    → (expected_revision : ℕ) → String
    → ℕ
    → (release : Bool) → Action WorkflowSnapshot
unfolding required saved
commit snapshot expected_revision token now release = do
  check_action (assert_expected_revision expected_revision)
  check_action (assert_lease_token token)
  check_action (assert_store_timestamp now)
  current ← required snapshot.id
  check_action (assert_workflow_snapshot current)
  check_action (assert_identity_unchanged current snapshot)
  check_action (assert_workflow_snapshot snapshot)
  check_action (check (is_lease_of current token now) lease_conflict)
  check_action (
      check (not (is_final snapshot.state && cancellation_race current expected_revision))
        revision_conflict)
  check_action (
      check (current.revision == expected_revision || cancellation_race current expected_revision)
        revision_conflict)
  let next = merged current snapshot release in saved next.id next

unfoldable pub request_cancellation : String → (expected_revision : ℕ) → ℕ → Action WorkflowSnapshot
unfolding required saved
request_cancellation id expected_revision now = do
  check_action (assert_expected_revision expected_revision)
  check_action (assert_store_timestamp now)
  current ← required id
  check_action (check (current.revision == expected_revision) revision_conflict)
  check_action (check (not (is_workflow_terminal current)) revision_conflict)
  saved id (record current {
    cancellation_requested = true;
    revision = current.revision + 1;
    updated_at = max current.updated_at now;
  })
