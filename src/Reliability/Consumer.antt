-- ===== src/Reliability/Consumer.antt =====
-- packages/reliability/src/index.ts: `InboxConsumer.consume`, over the store in memory. What the
-- handler, the clock, the signal and other processes do in one call is its `Consumption`.
pub mod Once
use nuxt_laravelize.Common.{
  ℕ, ◌+◌, String, Bool, true, false, not, ◌&&◌, ◌||◌, Option, none, some, List, [], ◌∷◌, leb,
  if◌then◌else◌,
}
use nuxt_laravelize.Reliability.Store.{
  ReliabilityStore, ReliabilityError, MessageEnvelope, InboxClaim, inbox, retry as send_back, renew,
  bury, deliver, claim_inbox,
}
use nuxt_laravelize.Common.Exec.{Result, ok, throw}

-- `ConsumerFailure`, with `sanitizeErrorSummary` of its message.
pub record ConsumerFailure : Type 0 where
  pub error : String
  pub retryable : Bool
  pub retry_at : Option ℕ

-- What a handler, or the store, throws: `store_detail` in a `Consumption` has the text of the latter.
pub data Thrown : Type 0 where
  consumer_failure : ConsumerFailure → Thrown
  other_error : (error : String) → Thrown

unfoldable pub to_consumer_failure : Thrown → ConsumerFailure
to_consumer_failure (consumer_failure failure) = failure
to_consumer_failure (other_error error) = record {
  error = error;
  retryable = true;
  retry_at = none;
}

pub data Consumed : Type 0 where
  delivered duplicate busy retry dead : Consumed

-- `invalid_delay` is the TypeError of `boundedInteger`.
pub data ConsumeError : Type 0 where
  store_error : ReliabilityError → ConsumeError
  invalid_delay : ConsumeError

-- A delay that is no natural number is refused as 0 is, which stands for it.
pub record ConsumerOptions : Type 0 where
  pub owner : String
  pub lease_ms : ℕ
  pub max_attempts : ℕ
  pub retry_delay_ms : ℕ → ℕ

-- One tick of the interval: its reading of the clock, and what other processes have done to the
-- store since the tick before.
pub record Tick : Type 0 where
  pub now : ℕ
  pub others : ReliabilityStore → ReliabilityStore

-- One call. `failure` is what the handler throws, if it does. `others` and `others_after` are what other
-- processes do before the settling and after a settling that throws; the instants are the readings
-- of the clock in their order.
pub record Consumption : Type 0 where
  pub aborted_before : Bool
  pub token : String
  pub claimed_at : ℕ
  pub ticks : List Tick
  pub failure : Option Thrown
  pub others : ReliabilityStore → ReliabilityStore
  pub delivered_at : ℕ
  pub store_detail : ReliabilityError → String
  pub others_after : ReliabilityStore → ReliabilityStore
  pub aborted : Bool
  pub failed_at : ℕ
  pub retry_from : ℕ

abbrev pub Answer : Type 0
Answer = Result ConsumeError Consumed × ReliabilityStore

-- The answer once the store has settled the message, or the error of the store.
abbrev pub settled : Consumed → Result {0, 0} ReliabilityError Unit × ReliabilityStore → Answer
settled answer (ok u, s) = (ok answer, s)
settled answer (throw e, s) = (throw (store_error e), s)

abbrev pub retry_time : Option ℕ → ℕ → ℕ
retry_time none at = at
retry_time (some t) at = t

-- `boundedInteger`, as a test.
unfoldable pub is_bounded : ℕ → ℕ → Bool
is_bounded value maximum = leb 1 value && leb value maximum

module _ (options : ConsumerOptions) (message : MessageEnvelope) where
  -- `renew`, for all the ticks: whether the lease is lost, and the store.
  unfoldable pub renewals :
      (lease_token : String)
      → List Tick
      → (lost : Bool) → ReliabilityStore
      → Bool × ReliabilityStore
  renewals lease_token [] lost s = (lost, s)
  renewals lease_token (tick ∷ ticks) lost s =
      let (r, s') =
        renew inbox message.id lease_token tick.now (tick.now + options.lease_ms) (tick.others s) in
      elim r [
        | ok u ↦ renewals lease_token ticks lost s'
        | throw e ↦ renewals lease_token ticks true s'
      ]

  -- The `catch` of `consume`, where the lease is not lost.
  unfoldable pub fail_message :
      Consumption
      → (attempts : ℕ) → (lease_token : String) → ConsumerFailure
      → ReliabilityStore
      → Answer
  fail_message c attempts lease_token failure s =
      let delay = options.retry_delay_ms attempts in
      if c.aborted
      then (ok busy, s)
      else if not failure.retryable || leb options.max_attempts attempts
      then settled dead (bury inbox message.id lease_token c.failed_at failure.error s)
      else if not (is_bounded delay 86400000)
      then (throw invalid_delay, s)
      else settled retry (
          send_back inbox message.id lease_token c.failed_at
            (retry_time failure.retry_at (c.retry_from + delay)) failure.error s)

  -- The `try` of `consume` after the settling, where the lease is not lost.
  unfoldable pub after_delivery :
      Consumption
      → (attempts : ℕ) → (lease_token : String)
      → Result {0, 0} ReliabilityError Unit × ReliabilityStore
      → Answer
  after_delivery c attempts lease_token (ok u, s) = (ok delivered, s)
  after_delivery c attempts lease_token (throw e, s) =
      fail_message c attempts lease_token (to_consumer_failure (other_error (c.store_detail e)))
        (c.others_after s)

  -- The `try` of `consume` after the handler, where the lease is not lost.
  unfoldable pub settle_message :
      Consumption
      → (failure : Option Thrown) → (attempts : ℕ) → (lease_token : String) → ReliabilityStore
      → Answer
  settle_message c (some failure) attempts lease_token s =
      fail_message c attempts lease_token (to_consumer_failure failure) s
  settle_message c none attempts lease_token s =
      after_delivery c attempts lease_token (deliver inbox message.id lease_token c.delivered_at s)

  -- `consume` from its handler on: `lost` is whether a renewal failed.
  unfoldable pub handle_message :
      Consumption → (attempts : ℕ) → (lease_token : String) → Bool × ReliabilityStore → Answer
  handle_message c attempts lease_token (lost, s) =
      if lost
      then (ok busy, c.others s)
      else settle_message c c.failure attempts lease_token (c.others s)

  -- `consume` after its claim.
  unfoldable pub after_claim :
      Consumption → Result {0, 0} ReliabilityError InboxClaim × ReliabilityStore → Answer
  after_claim c (throw e, s) = (throw (store_error e), s)
  after_claim c (ok (InboxClaim.claimed attempts lease_token), s) =
      handle_message c attempts lease_token (renewals lease_token c.ticks false s)
  after_claim c (ok InboxClaim.duplicate, s) = (ok duplicate, s)
  after_claim c (ok InboxClaim.busy, s) = (ok busy, s)

  unfoldable pub consume : Consumption → ReliabilityStore → Answer
  consume c s =
      if c.aborted_before
      then (ok busy, s)
      else after_claim c (
          claim_inbox message options.owner c.token c.claimed_at (c.claimed_at + options.lease_ms)
            s)
