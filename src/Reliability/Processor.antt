-- ===== src/Reliability/Processor.antt =====
-- packages/reliability/src/index.ts: what `OutboxProcessor.runOnce` does with one claimed row, over
-- the store in memory. What the delivery, the clock, the signal and others do is its `RowRun`.
pub mod Settled
pub mod Loop
use nuxt_laravelize.Common.{
  ℕ, ◌+◌, ◌*◌, ◌^◌, min, String, zero, suc, Bool, true, false, not, ◌||◌, Option, none, some, List,
  [], ◌∷◌, ◌++◌, leb, if◌then◌else◌,
}
use nuxt_laravelize.Reliability.Store.{
  retry as send_back, deliver, renew, bury, ReliabilityError, MessageLease, Row, ReliabilityStore,
  outbox,
}
use nuxt_laravelize.Reliability.Consumer.{Tick, is_bounded, retry_time}
use nuxt_laravelize.Common.Exec.{Result, ok, throw}

-- `error` is what `sanitizeErrorSummary` has made of it.
pub data DeliveryResult : Type 0 where
  accepted : DeliveryResult
  refused : (retryable : Bool) → (error : String) → (retry_at : Option ℕ) → DeliveryResult

pub data OutboxStatus : Type 0 where
  delivered retried dead delivery_failed ack_failed : OutboxStatus
  delivered_ack_unknown lease_lost cancelled : OutboxStatus

pub record OutboxOutcome : Type 0 where
  pub id : String
  pub status : OutboxStatus
  pub error : Option String

pub record ProcessorSummary : Type 0 where
  pub claimed : ℕ
  pub delivered : ℕ
  pub retried : ℕ
  pub dead : ℕ
  pub outcomes : List OutboxOutcome

-- What an outcome adds to the summary.
unfoldable pub add_outcome : OutboxOutcome → ProcessorSummary → ProcessorSummary
add_outcome outcome summary =
    let noted = record summary { outcomes = summary.outcomes ++ (outcome ∷ []) } in
    elim outcome.status [
      | OutboxStatus.delivered ↦ record noted { delivered = summary.delivered + 1 }
      | OutboxStatus.dead ↦ record noted { dead = summary.dead + 1 }
      | OutboxStatus.retried ↦ record noted { retried = summary.retried + 1 }
      | OutboxStatus.delivery_failed ↦ record noted { retried = summary.retried + 1 }
      | _ ↦ noted
    ]

pub record ProcessorOptions : Type 0 where
  pub lease_ms : ℕ
  pub max_attempts : ℕ
  pub retry_delay_ms : Option (ℕ → ℕ)

-- The processing of one row. `delivery` is what `deliver` returns or the text of what it throws,
-- `store_detail` the text of an error of the store; the instants are the readings of the clock.
pub record RowRun : Type 0 where
  pub ticks : List Tick
  pub delivery : Result {0, 0} String DeliveryResult
  pub others : ReliabilityStore → ReliabilityStore
  pub settled_at : ℕ
  pub retry_from : ℕ
  pub aborted : Bool
  pub store_detail : ReliabilityError → String

-- The outcome of a row, or the error that makes `runOnce` reject.
abbrev pub Processed : Type 0
Processed = Result ReliabilityError OutboxOutcome × ReliabilityStore

-- The delay where the options have none.
unfoldable pub backoff : (attempts : ℕ) → ℕ
backoff zero = 500
backoff (suc n) = min 60000 (1000 * 2 ^ n)

unfoldable pub retry_delay : Option (ℕ → ℕ) → (attempts : ℕ) → ℕ
retry_delay none attempts = backoff attempts
retry_delay (some delay) attempts = delay attempts

-- A claimed row has a lease.
abbrev pub token_of : Option MessageLease → String
token_of none = ""
token_of (some lease) = lease.token

module _ (options : ProcessorOptions) (row : Row) where
  abbrev pub lease_token : String
  lease_token = token_of row.lease

  abbrev pub outcome_of : OutboxStatus → Option String → OutboxOutcome
  outcome_of status error = record { id = row.envelope.id; status = status; error = error }

  -- `renew`, for all the ticks: whether the lease is lost, and the store.
  unfoldable pub renewals : List Tick → (lost : Bool) → ReliabilityStore → Bool × ReliabilityStore
  renewals [] lost s = (lost, s)
  renewals (tick ∷ ticks) lost s =
      let (r, s') =
        renew outbox row.envelope.id lease_token tick.now (tick.now + options.lease_ms)
          (tick.others s) in
      elim r [ ok u ↦ renewals ticks lost s' | throw e ↦ renewals ticks true s' ]

  unfoldable pub is_last_attempt : Bool
  is_last_attempt = leb options.max_attempts row.attempts

  -- The `catch` behind a delivery that returned.
  unfoldable pub fail_settling : RowRun → (error : String) → ReliabilityStore → Processed
  fail_settling run error s =
      if run.aborted
      then (ok (outcome_of OutboxStatus.cancelled none), s)
      else (ok (outcome_of OutboxStatus.ack_failed (some error)), s)

  -- What follows a settling of the store inside the `try`.
  unfoldable pub settled_as :
      RowRun
      → OutboxStatus
      → (error : String) → Result {0, 0} ReliabilityError Unit × ReliabilityStore
      → Processed
  settled_as run status error (ok u, s) = (ok (outcome_of status (some error)), s)
  settled_as run status error (throw e, s) = fail_settling run (run.store_detail e) s

  unfoldable pub acknowledged :
      RowRun → Result {0, 0} ReliabilityError Unit × ReliabilityStore → Processed
  acknowledged run (ok u, s) = (ok (outcome_of OutboxStatus.delivered none), s)
  acknowledged run (throw e, s) =
      (ok (outcome_of OutboxStatus.delivered_ack_unknown (some (run.store_detail e))), s)

  -- A delivery that returned, where the lease is not lost.
  unfoldable pub settle_row : RowRun → DeliveryResult → ReliabilityStore → Processed
  settle_row run accepted s =
      acknowledged run (deliver outbox row.envelope.id lease_token run.settled_at s)
  settle_row run (refused retryable error retry_at) s =
      let delay = retry_delay options.retry_delay_ms row.attempts in
      if not retryable || is_last_attempt
      then settled_as run OutboxStatus.dead error
          (bury outbox row.envelope.id lease_token run.settled_at error s)
      else if not (is_bounded delay 86400000)
      then fail_settling run "retryDelayMs must be an integer between 1 and 86400000" s
      else settled_as run OutboxStatus.retried error (
          send_back outbox row.envelope.id lease_token run.settled_at
            (retry_time retry_at (run.retry_from + delay)) error s)

  -- What follows a settling of the store inside the `catch`.
  unfoldable pub failed_as :
      OutboxStatus
      → (error : String) → Result {0, 0} ReliabilityError Unit × ReliabilityStore
      → Processed
  failed_as status error (ok u, s) = (ok (outcome_of status (some error)), s)
  failed_as status error (throw e, s) = (throw e, s)

  -- The `catch` behind a delivery that threw, where the lease is not lost.
  unfoldable pub fail_row : RowRun → (error : String) → ReliabilityStore → Processed
  fail_row run error s =
      if run.aborted
      then (ok (outcome_of OutboxStatus.cancelled none), s)
      else if is_last_attempt
      then failed_as OutboxStatus.dead error
          (bury outbox row.envelope.id lease_token run.settled_at error s)
      else failed_as OutboxStatus.delivery_failed error (
          send_back outbox row.envelope.id lease_token run.settled_at (run.retry_from + 1000) error
            s)

  unfoldable pub finish_row :
      RowRun → Result {0, 0} String DeliveryResult → ReliabilityStore → Processed
  finish_row run (ok delivery) s = settle_row run delivery s
  finish_row run (throw error) s = fail_row run error s

  unfoldable pub after_renewals : RowRun → Bool × ReliabilityStore → Processed
  after_renewals run (lost, s) =
      if lost
      then (ok (outcome_of OutboxStatus.lease_lost none), run.others s)
      else finish_row run run.delivery (run.others s)

  unfoldable pub process_row : RowRun → ReliabilityStore → Processed
  process_row run s = after_renewals run (renewals run.ticks false s)
