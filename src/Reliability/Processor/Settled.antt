-- ===== src/Reliability/Processor/Settled.antt =====
-- packages/reliability/src/index.ts: what the outcomes of `OutboxProcessor` mean for the store.
use nuxt_laravelize.Common.Map
use nuxt_laravelize.Common.Map.{get-put, Map}
use nuxt_laravelize.Common.{
  ◌≡◌, refl, Option-cases, eq_refl, ℕ, String, inl, inr, List, ◌+◌, Bool, true, false, not, ◌||◌,
  none, some, arith, if◌then◌else◌,
}
use nuxt_laravelize.Reliability.Store.{
  row_key, update, set_row, deliver, bury, ReliabilityError, Row, ReliabilityStore, outbox,
}
use nuxt_laravelize.Reliability.Store.Terminal.{
  is_terminal, run_calls, run_calls-terminal, StoreCall,
}
use nuxt_laravelize.Reliability.Consumer.{retry_time, is_bounded}
use nuxt_laravelize.Reliability.Processor.{
  renewals, Processed, retry_delay, lease_token, outcome_of, is_last_attempt, fail_settling,
  settled_as, acknowledged, settle_row, failed_as, fail_row, finish_row, after_renewals,
  process_row, DeliveryResult, OutboxStatus, OutboxOutcome, ProcessorOptions, RowRun, accepted,
  refused, send_back,
}
use nuxt_laravelize.Common.Exec.{Result, ok, throw}

-- The outcomes after which the message is not delivered again.
unfoldable pub is_ending : OutboxStatus → Bool
is_ending status = elim status [
  | OutboxStatus.delivered ↦ true
  | OutboxStatus.dead ↦ true
  | _ ↦ false
]

-- The message of a row is stored as ended.
abbrev IsEnded : Row → ReliabilityStore → Type 0
IsEnded row s =
    (kept : Row) × (Map.get (row_key outbox row.envelope.id) s.records ≡ some kept)
    × (is_terminal kept ≡ true)

-- An ending outcome comes with a message that is stored as ended.
abbrev IsTold : Row → Processed → Type 0
IsTold row answer =
    (told : OutboxOutcome)
    → answer.0 ≡ ok told
    → is_ending told.status ≡ true
    → IsEnded row answer.1

update-IsEnded :
    (row : Row) (token : String) (now : ℕ) (change : Row → Row) (s : ReliabilityStore)
    → ((found : Row) → is_terminal (change found) ≡ true)
    → (update outbox row.envelope.id token now change s).0 ≡ ok tt
    → IsEnded row (update outbox row.envelope.id token now change s).1
unfolding update set_row
update-IsEnded row token now change s ends h =
    let key = row_key outbox row.envelope.id in
    elim (Option-cases (Map.get key s.records)) [
      | inl gone ↦ absurd (ground (arith, h, gone))
      | inr (found, here) ↦ (
        change found,
        ground (arith, h, here, eq_refl key, get-put key key (change found) s.records),
        ends found,
      )
    ]

if-IsTold :
    (row : Row) (b : Bool) (x y : Processed)
    → IsTold row x
    → IsTold row y
    → IsTold row (if b then x else y)
if-IsTold row true x y p q = p
if-IsTold row false x y p q = q

-- An outcome that is not ending tells nothing.
open_IsTold :
    (row : Row) (outcome : OutboxOutcome) (s : ReliabilityStore)
    → is_ending outcome.status ≡ false
    → IsTold row (ok outcome, s)
unfolding is_ending
open_IsTold row outcome s p told h f = absurd (ground (arith, h, f, p))

module _ (options : ProcessorOptions) (row : Row) (run : RowRun) where
  bury-IsEnded :
      (error : String) (s : ReliabilityStore)
      → (bury outbox row.envelope.id (lease_token options row) run.settled_at error s).0 ≡ ok tt
      → IsEnded row (bury outbox row.envelope.id (lease_token options row) run.settled_at error s).1
  unfolding bury
  bury-IsEnded error s =
      update-IsEnded row (lease_token options row) run.settled_at _ s λ found. refl

  deliver-IsEnded :
      (s : ReliabilityStore)
      → (deliver outbox row.envelope.id (lease_token options row) run.settled_at s).0 ≡ ok tt
      → IsEnded row (deliver outbox row.envelope.id (lease_token options row) run.settled_at s).1
  unfolding deliver
  deliver-IsEnded s = update-IsEnded row (lease_token options row) run.settled_at _ s λ found. refl

  fail_settling-IsTold :
      (error : String) (s : ReliabilityStore) → IsTold row (fail_settling options row run error s)
  unfolding fail_settling is_ending
  fail_settling-IsTold error s =
      if-IsTold row run.aborted _ _
        (open_IsTold row (outcome_of options row OutboxStatus.cancelled none) s refl)
        (open_IsTold row (outcome_of options row OutboxStatus.ack_failed (some error)) s refl)

  settled_as-IsTold :
      (status : OutboxStatus) (error : String)
      (r : Result {0, 0} ReliabilityError Unit × ReliabilityStore)
      → (r.0 ≡ ok tt → is_ending status ≡ true → IsEnded row r.1)
      → IsTold row (settled_as options row run status error r)
  unfolding settled_as is_ending
  settled_as-IsTold status error (ok u, s) p told h f = p refl (ground (arith, h, f))
  settled_as-IsTold status error (throw e, s) p told h f =
      fail_settling-IsTold (run.store_detail e) s told h f

  failed_as-IsTold :
      (status : OutboxStatus) (error : String)
      (r : Result {0, 0} ReliabilityError Unit × ReliabilityStore)
      → (r.0 ≡ ok tt → is_ending status ≡ true → IsEnded row r.1)
      → IsTold row (failed_as options row status error r)
  unfolding failed_as is_ending
  failed_as-IsTold status error (ok u, s) p told h f = p refl (ground (arith, h, f))
  failed_as-IsTold status error (throw e, s) p told h f = absurd (ground (arith, h))

  acknowledged-IsTold :
      (r : Result {0, 0} ReliabilityError Unit × ReliabilityStore)
      → (r.0 ≡ ok tt → IsEnded row r.1)
      → IsTold row (acknowledged options row run r)
  unfolding acknowledged is_ending
  acknowledged-IsTold (ok u, s) p told h f = p refl
  acknowledged-IsTold (throw e, s) p told h f =
      open_IsTold row
        (outcome_of options row OutboxStatus.delivered_ack_unknown (some (run.store_detail e))) s
        refl told h f

  settle_row-IsTold :
      (delivery : DeliveryResult) (s : ReliabilityStore)
      → IsTold row (settle_row options row run delivery s)
  unfolding settle_row is_ending
  settle_row-IsTold accepted s =
      acknowledged-IsTold
        (deliver outbox row.envelope.id (lease_token options row) run.settled_at s)
        (deliver-IsEnded s)
  settle_row-IsTold (refused retryable error retry_at) s =
      let delay = retry_delay options.retry_delay_ms row.attempts in
      if-IsTold row (not retryable || is_last_attempt options row) _ _
        (settled_as-IsTold OutboxStatus.dead error
          (bury outbox row.envelope.id (lease_token options row) run.settled_at error s)
          λ done ending. bury-IsEnded error s done)
        (if-IsTold row (not (is_bounded delay 86400000)) _ _
          (fail_settling-IsTold "retryDelayMs must be an integer between 1 and 86400000" s)
          (settled_as-IsTold OutboxStatus.retried error
            (send_back outbox row.envelope.id (lease_token options row) run.settled_at
              (retry_time retry_at (run.retry_from + delay)) error s)
            λ done ending. absurd (ground (arith, ending))))

  fail_row-IsTold :
      (error : String) (s : ReliabilityStore) → IsTold row (fail_row options row run error s)
  unfolding fail_row is_ending
  fail_row-IsTold error s =
      if-IsTold row run.aborted _ _
        (open_IsTold row (outcome_of options row OutboxStatus.cancelled none) s refl)
        (if-IsTold row (is_last_attempt options row) _ _
          (failed_as-IsTold OutboxStatus.dead error
            (bury outbox row.envelope.id (lease_token options row) run.settled_at error s)
            λ done ending. bury-IsEnded error s done)
          (failed_as-IsTold OutboxStatus.delivery_failed error
            (send_back outbox row.envelope.id (lease_token options row) run.settled_at
              (run.retry_from + 1000) error s)
            λ done ending. absurd (ground (arith, ending))))

  finish_row-IsTold :
      (delivery : Result {0, 0} String DeliveryResult) (s : ReliabilityStore)
      → IsTold row (finish_row options row run delivery s)
  unfolding finish_row
  finish_row-IsTold (ok delivery) s = settle_row-IsTold delivery s
  finish_row-IsTold (throw error) s = fail_row-IsTold error s

  after_renewals-IsTold :
      (r : Bool × ReliabilityStore) → IsTold row (after_renewals options row run r)
  unfolding after_renewals is_ending
  after_renewals-IsTold (lost, s) =
      if-IsTold row lost _ _
        (open_IsTold row (outcome_of options row OutboxStatus.lease_lost none) (run.others s) refl)
        (finish_row-IsTold run.delivery (run.others s))

-- If the processor reports a row as delivered or dead, then under any list of append, claim,
-- deliver, renew, retry and give-up calls on the store it leaves, the message of the row stays
-- stored with a row that is delivered or dead, whatever other processes did between the steps of
-- the processing.
pub process_row-terminal :
    (options : ProcessorOptions) (row : Row) (run : RowRun) (s : ReliabilityStore)
    (outcome : OutboxOutcome)
    → (process_row options row run s).0 ≡ ok outcome
    → is_ending outcome.status ≡ true
    → (cs : List StoreCall)
    → (kept : Row) × (Map.get
          (row_key outbox row.envelope.id)
          (run_calls cs (process_row options row run s).1).records
        ≡ some kept)
      × (is_terminal kept ≡ true)
unfolding process_row
process_row-terminal options row run s outcome h f cs =
    let (kept, here, ended) =
      after_renewals-IsTold options row run (renewals options row run.ticks false s) outcome h f in
    (
      kept,
      run_calls-terminal cs (process_row options row run s).1 (row_key outbox row.envelope.id) kept
          here ended,
      ended,
    )
