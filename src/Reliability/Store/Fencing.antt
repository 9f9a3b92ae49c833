-- ===== src/Reliability/Store/Fencing.antt =====
-- The leases of messages, and the duplicates of messages.
use nuxt_laravelize.Common.Map
use nuxt_laravelize.Common.{
  ℕ, String, ◌≡◌, inl, inr, false, Option, none, some, arith, eq_refl, Option-cases, ◌<◌, refl,
  Bool, true, eq_iff,
}
use nuxt_laravelize.Reliability.Store.{
  row_key, set_row, new_row, available_or, append, is_takeable, claim_outbox, inbox_known,
  claim_inbox, holds_lease, update, deliver, renew, retry, bury, MessageNamespace, MessageEnvelope,
  Row, ReliabilityStore, ClaimOptions, lease_lost, delivered, outbox, inbox, duplicate,
  MessageLease, processing,
}
use nuxt_laravelize.Reliability.Store.Terminal.{get-claim_rows}
use nuxt_laravelize.Common.Map.{Map, get-put}
use nuxt_laravelize.Common.Exec.{ok, throw}

-- A row is in process under a lease of a token that is not over.
abbrev pub IsHeld : Row → String → ℕ → Type 0
IsHeld row token now =
    (row.state ≡ processing)
    × (lease : MessageLease) × (row.lease ≡ some lease)
    × (lease.token ≡ token)
    × (now < lease.until)

not_true : (b : Bool) → ¬ (b ≡ true) → b ≡ false
not_true true h = absurd (h refl)
not_true false h = refl

holds_lease-IsHeld :
    (row : Row) (token : String) (now : ℕ) → holds_lease row token now ≡ true → IsHeld row token now
unfolding holds_lease
holds_lease-IsHeld row token now h = elim (Option-cases row.lease) [
  | inl none_there ↦ absurd (ground (arith, h, none_there))
  | inr (lease, there) ↦ (
    ground (arith, h),
    lease,
    there,
    (eq_iff lease.token token).0 (ground (arith, h, there)),
    ground (arith, h, there),
  )
]

module _ (s : ReliabilityStore) (namespace : MessageNamespace) (id : String) (row : Row)
    (stored : Map.get (row_key namespace id) s.records ≡ some row) where
  -- If the stored row of a message is not in process, or has no lease, or its lease has another
  -- token or is over, then delivering, renewing, retrying and giving up under the token throw that
  -- the lease is lost, and change nothing.
  pub lease_fences :
      (token : String) (now later : ℕ) (error : String)
      → ¬ IsHeld row token now
      → (deliver namespace id token now s ≡ (throw lease_lost, s))
        × (renew namespace id token now later s ≡ (throw lease_lost, s))
        × (retry namespace id token now later error s ≡ (throw lease_lost, s))
        × (bury namespace id token now error s ≡ (throw lease_lost, s))
  unfolding deliver renew retry bury update
  lease_fences token now later error lost =
      let stale : holds_lease row token now ≡ false =
        not_true (holds_lease row token now)
          (λ held. lost (holds_lease-IsHeld row token now held)) in
      (
        ground (arith, stored, stale),
        ground (arith, stored, stale),
        ground (arith, stored, stale),
        ground (arith, stored, stale),
      )

-- If a stored row is leased past the instant of a claim of the outbox, or is not due, then the
-- claim leaves it as it is.
pub claim_outbox-leased :
    (s : ReliabilityStore) (o : ClaimOptions) (key : String) (row : Row)
    → Map.get key s.records ≡ some row
    → is_takeable row o.now ≡ false
    → Map.get key (claim_outbox o s).1.records ≡ some row
unfolding claim_outbox
claim_outbox-leased s o key row stored leased =
    get-claim_rows o o.limit s.records key row stored leased

-- If settling a message of the inbox as delivered succeeds, then every claim of it afterwards
-- answers that it is a duplicate and changes nothing.
pub deliver-claim_inbox :
    (s : ReliabilityStore) (envelope : MessageEnvelope) (token : String) (now : ℕ)
    → (deliver inbox envelope.id token now s).0 ≡ ok tt
    → (owner token' : String) (now' lease_until : ℕ)
    → claim_inbox envelope owner token' now' lease_until (deliver inbox envelope.id token now s).1
      ≡ (ok duplicate, (deliver inbox envelope.id token now s).1)
unfolding deliver update set_row claim_inbox inbox_known
deliver-claim_inbox s envelope token now h owner token' now' lease_until =
    elim (Option-cases (Map.get (row_key inbox envelope.id) s.records)) [
      | inl gone ↦ absurd (ground (arith, h, gone))
      | inr (row, here) ↦ ground (
        arith,
        h,
        here,
        eq_refl (row_key inbox envelope.id),
        get-put (row_key inbox envelope.id) (row_key inbox envelope.id)
            (record row { state = delivered; terminal_at = some now; lease = none }) s.records,
      )
    ]

-- If an append returns, then the same append again returns too, and changes nothing.
pub append-append :
    (s : ReliabilityStore) (envelope : MessageEnvelope) (available_at : Option ℕ)
    → (append envelope available_at s).0 ≡ ok tt
    → append envelope available_at (append envelope available_at s).1
      ≡ (ok tt, (append envelope available_at s).1)
unfolding append set_row
append-append s envelope available_at h =
    let at = available_or available_at envelope.occurred_at in
    let key = row_key outbox envelope.id in
    elim (Option-cases (Map.get key s.records)) [
      | inr (row, here) ↦ ground (arith, h, here)
      | inl gone ↦ ground (
        arith,
        h,
        gone,
        eq_refl key,
        eq_refl envelope.canonical,
        get-put key key (new_row envelope at (some at)) s.records,
      )
    ]
