-- ===== src/Reliability/Store.antt =====
-- packages/reliability/src/testing.ts: `InMemoryReliabilityStore`, with the types of index.ts. A
-- canonical ISO timestamp is its instant, and an envelope is one that `createEnvelope` has returned.
pub mod Prune
pub mod Terminal
pub mod Fencing
use Prim.Native.String
use nuxt_laravelize.Common.Map
use nuxt_laravelize.Common.{
  ℕ, zero, suc, ◌+◌, String, Bool, true, false, not, ◌&&◌, ◌||◌, Option, none, some, List, [], ◌∷◌,
  str_eq, ltb, leb, ◌==◌, if◌then◌else◌, length, any,
}
use nuxt_laravelize.Common.Text.{codes}
use nuxt_laravelize.Common.Map.{Map}
use nuxt_laravelize.Common.Exec.{Exec, ok, throw}

pub data ReliabilityError : Type 0 where
  message_conflict capacity_exceeded lease_lost discard_unproven : ReliabilityError

pub data MessageState : Type 0 where
  pending processing delivered dead : MessageState

pub data MessageNamespace : Type 0 where
  outbox inbox : MessageNamespace

-- `canonical` is the text of `canonicalizeEnvelope`.
pub record MessageEnvelope : Type 0 where
  pub id : String
  pub type : String
  pub occurred_at : ℕ
  pub canonical : String

pub record MessageLease : Type 0 where
  pub owner : String
  pub token : String
  pub until : ℕ

-- `leaseOwner`, `leaseToken` and `leaseUntil` are set and deleted together.
pub record Row : Type 0 where
  pub envelope : MessageEnvelope
  pub state : MessageState
  pub attempts : ℕ
  pub available_at : ℕ
  pub append_available_at : Option ℕ
  pub lease : Option MessageLease
  pub last_error : Option String
  pub terminal_at : Option ℕ

pub record ReliabilityStore : Type 0 where
  pub records : Map Row
  pub capacity : ℕ

abbrev pub Action : Type 0 → Type 0
Action A = Exec ReliabilityStore ReliabilityError A

abbrev pub row_key : MessageNamespace → String → String
row_key outbox id = String.◌++◌ "outbox:" id
row_key inbox id = String.◌++◌ "inbox:" id

is_prefix : List ℕ → List ℕ → Bool
is_prefix [] ys = true
is_prefix (x ∷ xs) [] = false
is_prefix (x ∷ xs) (y ∷ ys) = x == y && is_prefix xs ys

-- `key.startsWith(prefix)`
unfoldable pub starts_with : String → String → Bool
unfolding is_prefix codes
starts_with key prefix = is_prefix (codes prefix) (codes key)

unfoldable pub set_row : String → Row → ReliabilityStore → ReliabilityStore
set_row key row s = record s { records = Map.put key row s.records }

-- `this.records.size >= this.capacity`
unfoldable pub is_full : ReliabilityStore → Bool
is_full s = leb s.capacity (length s.records)

abbrev pub new_row : MessageEnvelope → ℕ → Option ℕ → Row
new_row envelope available_at append_available_at = record {
  envelope = envelope;
  state = pending;
  attempts = 0;
  available_at = available_at;
  append_available_at = append_available_at;
  lease = none;
  last_error = none;
  terminal_at = none;
}

abbrev pub available_or : Option ℕ → ℕ → ℕ
available_or none at = at
available_or (some t) at = t

abbrev same_instant : Option ℕ → ℕ → Bool
same_instant none t = false
same_instant (some u) t = u == t

unfoldable pub append : MessageEnvelope → (available_at : Option ℕ) → Action Unit
unfolding set_row is_full
append envelope available_at s =
    let at = available_or available_at envelope.occurred_at in
    elim (Map.get (row_key outbox envelope.id) s.records) [
      | some existing ↦
          if str_eq existing.envelope.canonical envelope.canonical
            && same_instant existing.append_available_at at
          then (ok tt, s)
          else (throw message_conflict, s)
      | none ↦
          if is_full s
          then (throw capacity_exceeded, s)
          else (ok tt, set_row (row_key outbox envelope.id) (new_row envelope at (some at)) s)
    ]

-- `take`
unfoldable pub take_row : (owner token : String) → (lease_until : ℕ) → Row → Row
take_row owner token lease_until row = record row {
  state = processing;
  attempts = row.attempts + 1;
  lease = some (record { owner = owner; token = token; until = lease_until });
}

abbrev lease_end : Option MessageLease → ℕ
lease_end none = 0
lease_end (some lease) = lease.until

-- Whether a row waits to be taken, or its lease is over.
unfoldable pub is_takeable : Row → ℕ → Bool
is_takeable row now = elim row.state [
  | pending ↦ leb row.available_at now
  | processing ↦ leb (lease_end row.lease) now
  | delivered ↦ false
  | dead ↦ false
]

-- The options of `claim` on the outbox.
pub record ClaimOptions : Type 0 where
  pub owner : String
  pub token : String
  pub limit : ℕ
  pub now : ℕ
  pub lease_until : ℕ
  pub types : List String
  pub exclude_ids : List String

abbrev is_empty : List String → Bool
is_empty [] = true
is_empty (x ∷ xs) = false

unfoldable pub is_claimable : ClaimOptions → String → Row → Bool
is_claimable o key row =
    starts_with key "outbox:"
    && (is_empty o.types || any (str_eq row.envelope.type) o.types)
    && not (any (str_eq row.envelope.id) o.exclude_ids)
    && is_takeable row o.now

abbrev pub claimed_row : ClaimOptions → Row → Row
claimed_row o row =
    take_row o.owner (String.◌++◌ o.token (String.◌++◌ ":" row.envelope.id)) o.lease_until row

-- The rows after the claim of the first `limit` that match.
unfoldable pub claim_rows : ClaimOptions → (limit : ℕ) → Map Row → Map Row
claim_rows o limit [] = []
claim_rows o zero ((key, row) ∷ rows) = (key, row) ∷ rows
claim_rows o (suc limit) ((key, row) ∷ rows) =
    let taken = claim_rows o limit rows in
    let passed = claim_rows o (suc limit) rows in
    if is_claimable o key row then (key, claimed_row o row) ∷ taken else (key, row) ∷ passed

-- The rows that such a claim returns.
unfoldable pub claimed_rows : ClaimOptions → (limit : ℕ) → Map Row → List Row
claimed_rows o limit [] = []
claimed_rows o zero (entry ∷ rows) = []
claimed_rows o (suc limit) ((key, row) ∷ rows) =
    let taken = claimed_rows o limit rows in
    let passed = claimed_rows o (suc limit) rows in
    if is_claimable o key row then claimed_row o row ∷ taken else passed

unfoldable pub claim_outbox : ClaimOptions → Action (List Row)
claim_outbox o s =
    (ok (claimed_rows o o.limit s.records), record s { records = claim_rows o o.limit s.records })

-- What `claim` on the inbox answers.
pub data InboxClaim : Type 0 where
  claimed : (attempts : ℕ) → (lease_token : String) → InboxClaim
  duplicate busy : InboxClaim

-- The lease of a message that is there, or was added.
abbrev inbox_take :
    MessageEnvelope → (owner token : String) → (lease_until : ℕ) → Row → Action InboxClaim
inbox_take envelope owner token lease_until row s =
    let lease_token = String.◌++◌ token (String.◌++◌ ":" envelope.id) in
    (
      ok (claimed (row.attempts + 1) lease_token),
      set_row (row_key inbox envelope.id) (take_row owner lease_token lease_until row) s,
    )

unfoldable pub inbox_known :
    MessageEnvelope → (owner token : String) → (now lease_until : ℕ) → Row → Action InboxClaim
unfolding is_takeable
inbox_known envelope owner token now lease_until row s = elim row.state [
  | delivered ↦ (ok duplicate, s)
  | dead ↦ (ok duplicate, s)
  | _ ↦
      if is_takeable row now
      then inbox_take envelope owner token lease_until row s
      else (ok busy, s)
]

unfoldable pub claim_inbox :
    MessageEnvelope → (owner token : String) → (now lease_until : ℕ) → Action InboxClaim
unfolding inbox_known is_full
claim_inbox envelope owner token now lease_until s =
    elim (Map.get (row_key inbox envelope.id) s.records) [
      | some row ↦ inbox_known envelope owner token now lease_until row s
      | none ↦
          if is_full s
          then (throw capacity_exceeded, s)
          else inbox_take envelope owner token lease_until (new_row envelope now none) s
    ]

-- The test of `update`.
unfoldable pub holds_lease : Row → String → ℕ → Bool
holds_lease row token now = elim row.state [
  | processing ↦ elim row.lease [
    | none ↦ false
    | some lease ↦ str_eq lease.token token && ltb now lease.until
  ]
  | _ ↦ false
]

unfoldable pub update : MessageNamespace → String → String → (now : ℕ) → (Row → Row) → Action Unit
unfolding set_row
update namespace id token now change s = elim (Map.get (row_key namespace id) s.records) [
  | none ↦ (throw lease_lost, s)
  | some row ↦
      if holds_lease row token now
      then (ok tt, set_row (row_key namespace id) (change row) s)
      else (throw lease_lost, s)
]

unfoldable pub deliver : MessageNamespace → String → String → (now : ℕ) → Action Unit
deliver namespace id token now =
    update namespace id token now
      λ row. record row { state = delivered; terminal_at = some now; lease = none }

abbrev renewed_lease : ℕ → Option MessageLease → Option MessageLease
renewed_lease lease_until none = none
renewed_lease lease_until (some lease) =
    some (record lease { until = if ltb lease.until lease_until then lease_until else lease.until })

unfoldable pub renew : MessageNamespace → String → String → (now lease_until : ℕ) → Action Unit
renew namespace id token now lease_until =
    update namespace id token now λ row. record row { lease = renewed_lease lease_until row.lease }

-- `error` is what `sanitizeErrorSummary` has made of it.
unfoldable pub retry :
    MessageNamespace → String → String → (now available_at : ℕ) → (error : String) → Action Unit
retry namespace id token now available_at error = update namespace id token now λ row. record row {
  state = pending;
  terminal_at = none;
  available_at = available_at;
  last_error = some error;
  lease = none;
}

unfoldable pub bury :
    MessageNamespace → String → String → (now : ℕ) → (error : String) → Action Unit
bury namespace id token now error = update namespace id token now λ row. record row {
  state = dead;
  terminal_at = some now;
  last_error = some error;
  lease = none;
}
