-- ===== src/Reliability/ProcessorTests.antt =====
-- packages/reliability/src/index.ts: `OutboxProcessor` on one row.
use nuxt_laravelize.Common.Map
use nuxt_laravelize.Common.{
  ◌≡◌, refl, true, false, none, some, [], ◌∷◌, String, ℕ, ◌+◌, ◌≤◌, arith, length,
}
use nuxt_laravelize.Reliability.Store.{
  row_key, new_row, retry as send_back, MessageEnvelope, Row, ReliabilityStore, ReliabilityError,
  update, deliver, bury, set_row, holds_lease, renew, processing, outbox, is_takeable, is_claimable,
  claim_rows, claimed_rows, claim_outbox, starts_with, take_row,
}
use nuxt_laravelize.Reliability.Store.Terminal.{is_terminal, run_calls, retrying}
use nuxt_laravelize.Reliability.Processor.Settled.{is_ending, process_row-terminal}
use nuxt_laravelize.Reliability.Processor.{
  process_row, renewals, is_last_attempt, acknowledged, settle_row, failed_as, fail_row, finish_row,
  after_renewals, OutboxStatus, OutboxOutcome, ProcessorOptions, RowRun, accepted, add_outcome,
  ProcessorSummary,
}
use nuxt_laravelize.Reliability.Consumer.{is_bounded}
use nuxt_laravelize.Common.Map.{Map}
use nuxt_laravelize.Common.Exec.{ok, throw}
use nuxt_laravelize.Reliability.Processor.Loop.{
  no_summary, process_rows, claim_options, run_rounds, run_once, LoopOptions, RoundRun, insert_row,
  in_order,
}
use nuxt_laravelize.Reliability.Processor.Loop.Fuel.{run_once-run_rounds}
use nuxt_laravelize.Reliability.Processor.Loop.Bounds.{run_once-claimed}

abbrev message : MessageEnvelope
message = record { id = "m"; type = "paid"; occurred_at = 5; canonical = "{}" }

abbrev options : ProcessorOptions
options = record { lease_ms = 100; max_attempts = 2; retry_delay_ms = none }

abbrev taken : Row
taken = record (new_row message 5 (some 5)) {
  state = processing;
  attempts = 1;
  lease = some (record { owner = "me"; token = "t:m"; until = 100 });
}

abbrev leased : ReliabilityStore
leased = record { records = ("outbox:m", taken) ∷ []; capacity = 10 }

abbrev alone : ReliabilityStore → ReliabilityStore
alone s = s

abbrev store_detail : ReliabilityError → String
store_detail e = "lost"

-- A delivery that is accepted after one renewal.
abbrev smooth : RowRun
smooth = record {
  ticks = record { now = 80; others = alone } ∷ [];
  delivery = ok accepted;
  others = alone;
  settled_at = 120;
  retry_from = 121;
  aborted = false;
  store_detail = store_detail;
}

-- A delivery that throws, so that the row waits for a second.
abbrev failing : RowRun
failing = record smooth { delivery = throw "down" }

abbrev delivered_outcome : OutboxOutcome
delivered_outcome = record { id = "m"; status = OutboxStatus.delivered; error = none }

abbrev failed_outcome : OutboxOutcome
failed_outcome = record { id = "m"; status = OutboxStatus.delivery_failed; error = some "down" }

smooth_answer : (process_row options taken smooth leased).0 ≡ ok delivered_outcome
unfolding process_row after_renewals finish_row settle_row fail_row failed_as is_last_attempt
    acknowledged renewals update holds_lease renew deliver bury send_back Map.get Map.put set_row
    is_bounded
smooth_answer = refl

failing_answer : (process_row options taken failing leased).0 ≡ ok failed_outcome
unfolding process_row after_renewals finish_row settle_row fail_row failed_as is_last_attempt
    acknowledged renewals update holds_lease renew deliver bury send_back Map.get Map.put set_row
    is_bounded
failing_answer = refl

-- The store as the outcome of a delivery leaves it.
abbrev after : ReliabilityStore
after = (process_row options taken smooth leased).1

process_row-terminal_example :
    (kept : Row) × (Map.get
        (row_key outbox "m")
        (run_calls (retrying outbox "m" "t:m" 130 140 "down" ∷ []) after).records
      ≡ some kept)
    × (is_terminal kept ≡ true)
unfolding is_ending
process_row-terminal_example =
    process_row-terminal options taken smooth leased delivered_outcome smooth_answer refl
      (retrying outbox "m" "t:m" 130 140 "down" ∷ [])

-- A run that claims at most two rows and finds one.
abbrev loop_options : LoopOptions
loop_options = record { owner = "me"; limit = 2; concurrency = 3; types = []; row = options }

abbrev waiting : ReliabilityStore
waiting = record { records = ("outbox:m", new_row message 5 (some 5)) ∷ []; capacity = 10 }

abbrev rounds : ℕ → RoundRun
rounds n = record { aborted = false; now = 10; others = alone; rows = λ id. smooth; ends = λ id. 0 }

abbrev summary : ProcessorSummary
summary = record {
  claimed = 1;
  delivered = 1;
  retried = 0;
  dead = 0;
  outcomes = delivered_outcome ∷ [];
}

one_delivered : (run_once loop_options "t" rounds waiting).0 ≡ ok summary
unfolding run_once run_rounds in_order insert_row process_rows add_outcome claim_outbox
    claim_options claimed_rows claim_rows is_claimable is_takeable process_row after_renewals
    finish_row settle_row fail_row failed_as is_last_attempt acknowledged renewals update
    holds_lease renew deliver bury send_back Map.get Map.put set_row is_bounded starts_with take_row
one_delivered = refl

run_once-claimed_example :
    (summary.claimed ≤ 2)
    × (length summary.outcomes ≡ summary.claimed)
    × (summary.delivered + summary.retried + summary.dead ≤ summary.claimed)
run_once-claimed_example = run_once-claimed loop_options "t" rounds waiting summary one_delivered

run_once-run_rounds_example :
    run_rounds loop_options "t" rounds 9 [] no_summary waiting
    ≡ run_once loop_options "t" rounds waiting
run_once-run_rounds_example = run_once-run_rounds loop_options "t" rounds waiting 9 (omega arith)
