-- ===== src/Reliability/Consumer/Once.antt =====
-- packages/reliability/src/index.ts: `InboxConsumer` consumes a message to its end once.
use nuxt_laravelize.Common.Map
use nuxt_laravelize.Common.Map.{get-put, Map}
use nuxt_laravelize.Common.{
  ◌≡◌, refl, Option-cases, eq_refl, ℕ, String, inl, inr, Bool, true, false, none, some, arith,
  if◌then◌else◌, ◌+◌, not, ◌||◌, Option, leb, List,
}
use nuxt_laravelize.Reliability.Store.Fencing.{deliver-claim_inbox}
use nuxt_laravelize.Reliability.Consumer.{
  Answer, settled, fail_message, ConsumerFailure, Consumed, ConsumerOptions, Consumption, delivered,
  duplicate, busy, retry, dead, settle_message, ConsumeError, store_error, invalid_delay,
  retry_time, is_bounded, renewals, after_delivery, handle_message, after_claim, consume, send_back,
  to_consumer_failure, Thrown, other_error,
}
use nuxt_laravelize.Reliability.Store.{
  row_key, set_row, inbox_known, claim_inbox, update, bury, MessageState, MessageEnvelope,
  ReliabilityStore, InboxClaim, inbox, ReliabilityError, deliver, Row,
}
use nuxt_laravelize.Common.Exec.{ok, Result, throw}
use nuxt_laravelize.Reliability.Store.Terminal.{
  is_terminal, run_calls, run_calls-terminal, StoreCall,
}

-- The answers after which no handler runs for the message again.
unfoldable pub is_final : Consumed → Bool
is_final delivered = true
is_final duplicate = true
is_final busy = false
is_final retry = false
is_final dead = true

-- Every claim of the message answers that it is a duplicate and changes nothing.
abbrev pub IsConsumed : MessageEnvelope → ReliabilityStore → Type 0
IsConsumed envelope s =
    (owner token : String) (now lease_until : ℕ)
    → claim_inbox envelope owner token now lease_until s ≡ (ok InboxClaim.duplicate, s)

-- An answer that is final comes with a message that is consumed.
abbrev IsTold : MessageEnvelope → Answer → Type 0
IsTold envelope answer =
    (told : Consumed) → answer.0 ≡ ok told → is_final told ≡ true → IsConsumed envelope answer.1

bury-IsConsumed :
    (s : ReliabilityStore) (envelope : MessageEnvelope) (token : String) (now : ℕ) (error : String)
    → (bury inbox envelope.id token now error s).0 ≡ ok tt
    → IsConsumed envelope (bury inbox envelope.id token now error s).1
unfolding bury update set_row claim_inbox inbox_known
bury-IsConsumed s envelope token now error h owner token' now' lease_until =
    elim (Option-cases (Map.get (row_key inbox envelope.id) s.records)) [
      | inl gone ↦ absurd (ground (arith, h, gone))
      | inr (row, here) ↦ ground (
        arith,
        h,
        here,
        eq_refl (row_key inbox envelope.id),
        get-put (row_key inbox envelope.id) (row_key inbox envelope.id)
            (record row {
              state = MessageState.dead;
              terminal_at = some now;
              last_error = some error;
              lease = none;
            })
            s.records,
      )
    ]

claim_inbox-IsConsumed :
    (s : ReliabilityStore) (envelope : MessageEnvelope) (owner token : String) (now lease_until : ℕ)
    → (claim_inbox envelope owner token now lease_until s).0 ≡ ok InboxClaim.duplicate
    → IsConsumed envelope (claim_inbox envelope owner token now lease_until s).1
unfolding claim_inbox inbox_known
claim_inbox-IsConsumed s envelope owner token now lease_until h owner' token' now' lease_until' =
    elim (Option-cases (Map.get (row_key inbox envelope.id) s.records)) [
      | inl gone ↦ absurd (ground (arith, h, gone))
      | inr (row, here) ↦ ground (arith, h, here)
    ]

if-IsTold :
    (envelope : MessageEnvelope) (b : Bool) {x y : Answer}
    → IsTold envelope x
    → IsTold envelope y
    → IsTold envelope (if b then x else y)
if-IsTold envelope true p q = p
if-IsTold envelope false p q = q

-- An answer that is not final tells nothing.
open_IsTold :
    (envelope : MessageEnvelope) (answer : Consumed) (s : ReliabilityStore)
    → is_final answer ≡ false
    → IsTold envelope (ok answer, s)
open_IsTold envelope answer s p told h f = absurd (ground (arith, h, f, p))

throw_IsTold :
    (envelope : MessageEnvelope) (e : ConsumeError) (s : ReliabilityStore)
    → IsTold envelope (throw e, s)
throw_IsTold envelope e s told h f = absurd (ground (arith, h))

final_IsTold :
    (envelope : MessageEnvelope) (answer : Consumed) (s : ReliabilityStore)
    → IsConsumed envelope s
    → IsTold envelope (ok answer, s)
final_IsTold envelope answer s p told h f = p

settled-IsTold :
    (envelope : MessageEnvelope) (answer : Consumed)
    (r : Result {0, 0} ReliabilityError Unit × ReliabilityStore)
    → (r.0 ≡ ok tt → is_final answer ≡ true → IsConsumed envelope r.1)
    → IsTold envelope (settled answer r)
settled-IsTold envelope answer (ok u, s) p told h f = p refl (ground (arith, h, f))
settled-IsTold envelope answer (throw e, s) p told h f =
    throw_IsTold envelope (store_error e) s told h f

module _ (options : ConsumerOptions) (message : MessageEnvelope) (c : Consumption) where
  fail_message-IsTold :
      (attempts : ℕ) (token : String) (failure : ConsumerFailure) (s : ReliabilityStore)
      → IsTold message (fail_message options message c attempts token failure s)
  unfolding fail_message is_final
  fail_message-IsTold attempts token failure s =
      let delay = options.retry_delay_ms attempts in
      if-IsTold message c.aborted (open_IsTold message busy s refl) (
        if-IsTold message (not failure.retryable || leb options.max_attempts attempts)
          (settled-IsTold message dead (bury inbox message.id token c.failed_at failure.error s)
            λ done final. bury-IsConsumed s message token c.failed_at failure.error done)
          (if-IsTold message (not (is_bounded delay 86400000))
            (throw_IsTold message invalid_delay s)
            (settled-IsTold message retry
              (send_back inbox message.id token c.failed_at
                (retry_time failure.retry_at (c.retry_from + delay)) failure.error s)
              λ done final. absurd (ground (arith, final)))))

  after_delivery-IsTold :
      (attempts : ℕ) (token : String) (r : Result {0, 0} ReliabilityError Unit × ReliabilityStore)
      → (r.0 ≡ ok tt → IsConsumed message r.1)
      → IsTold message (after_delivery options message c attempts token r)
  unfolding after_delivery
  after_delivery-IsTold attempts token (ok u, s) p told h f = p refl
  after_delivery-IsTold attempts token (throw e, s) p told h f =
      fail_message-IsTold attempts token (to_consumer_failure (other_error (c.store_detail e)))
        (c.others_after s) told h f

  settle_message-IsTold :
      (failure : Option Thrown) (attempts : ℕ) (token : String) (s : ReliabilityStore)
      → IsTold message (settle_message options message c failure attempts token s)
  unfolding settle_message
  settle_message-IsTold (some failure) attempts token s =
      fail_message-IsTold attempts token (to_consumer_failure failure) s
  settle_message-IsTold none attempts token s =
      after_delivery-IsTold attempts token (deliver inbox message.id token c.delivered_at s)
        (deliver-claim_inbox s message token c.delivered_at)

  handle_message-IsTold :
      (attempts : ℕ) (token : String) (r : Bool × ReliabilityStore)
      → IsTold message (handle_message options message c attempts token r)
  unfolding handle_message is_final
  handle_message-IsTold attempts token (lost, s) =
      if-IsTold message lost (open_IsTold message busy (c.others s) refl)
        (settle_message-IsTold c.failure attempts token (c.others s))

  after_claim-IsTold :
      (r : Result {0, 0} ReliabilityError InboxClaim × ReliabilityStore)
      → (r.0 ≡ ok InboxClaim.duplicate → IsConsumed message r.1)
      → IsTold message (after_claim options message c r)
  unfolding after_claim is_final
  after_claim-IsTold (throw e, s) p = throw_IsTold message (store_error e) s
  after_claim-IsTold (ok (InboxClaim.claimed attempts token), s) p =
      handle_message-IsTold attempts token (renewals options message token c.ticks false s)
  after_claim-IsTold (ok InboxClaim.duplicate, s) p = final_IsTold message duplicate s (p refl)
  after_claim-IsTold (ok InboxClaim.busy, s) p = open_IsTold message busy s refl

-- A claim is a duplicate only of a message that has ended.
IsConsumed-terminal :
    (envelope : MessageEnvelope) (s : ReliabilityStore)
    → IsConsumed envelope s
    → (row : Row) × (Map.get (row_key inbox envelope.id) s.records ≡ some row)
      × (is_terminal row ≡ true)
unfolding claim_inbox inbox_known
IsConsumed-terminal envelope s consumed =
    let h = consumed "" "" 0 0 in
    elim (Option-cases (Map.get (row_key inbox envelope.id) s.records)) [
      | inl gone ↦ absurd (ground (arith, h, gone))
      | inr (row, here) ↦ (row, here, ground (arith, h, here))
    ]

terminal-IsConsumed :
    (envelope : MessageEnvelope) (s : ReliabilityStore) (row : Row)
    → Map.get (row_key inbox envelope.id) s.records ≡ some row
    → is_terminal row ≡ true
    → IsConsumed envelope s
unfolding claim_inbox inbox_known
terminal-IsConsumed envelope s row here ended owner token now lease_until =
    ground (arith, here, ended)

consume-IsTold :
    (options : ConsumerOptions) (message : MessageEnvelope) (c : Consumption) (s : ReliabilityStore)
    → IsTold message (consume options message c s)
unfolding consume is_final
consume-IsTold options message c s =
    if-IsTold message c.aborted_before (open_IsTold message busy s refl) (
      after_claim-IsTold options message c
        (claim_inbox message options.owner c.token c.claimed_at (c.claimed_at + options.lease_ms) s)
        (claim_inbox-IsConsumed s message options.owner c.token c.claimed_at
          (c.claimed_at + options.lease_ms)))

-- If the consumer answers that a message is delivered, dead or a duplicate, then after any list of
-- append, claim, deliver, renew, retry and give-up calls on the store it leaves, every claim of the
-- message answers that it is a duplicate and changes nothing, whatever other processes did to the
-- store between the steps of the call. The pruning is not among the calls.
pub consume-claim_inbox :
    (options : ConsumerOptions) (message : MessageEnvelope) (c : Consumption) (s : ReliabilityStore)
    (answer : Consumed)
    → (consume options message c s).0 ≡ ok answer
    → is_final answer ≡ true
    → (cs : List StoreCall) (owner token : String) (now lease_until : ℕ)
    → claim_inbox message owner token now lease_until (run_calls cs (consume options message c s).1)
      ≡ (ok InboxClaim.duplicate, run_calls cs (consume options message c s).1)
consume-claim_inbox options message c s answer told final cs =
    let left = (consume options message c s).1 in
    let (row, here, ended) =
      IsConsumed-terminal message left (consume-IsTold options message c s answer told final) in
    terminal-IsConsumed message (run_calls cs left) row
      (run_calls-terminal cs left (row_key inbox message.id) row here ended) ended
