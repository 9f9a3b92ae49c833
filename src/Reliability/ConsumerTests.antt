-- ===== src/Reliability/ConsumerTests.antt =====
-- packages/reliability/src/index.ts: `InboxConsumer` on one message.
use nuxt_laravelize.Common.Map
use nuxt_laravelize.Common.{◌≡◌, refl, false, none, some, [], ◌∷◌, String}
use nuxt_laravelize.Reliability.Store.{
  MessageEnvelope, ReliabilityStore, ReliabilityError, InboxClaim, claim_inbox, update, deliver,
  bury, set_row, is_full, take_row, inbox_known, holds_lease, renew,
}
use nuxt_laravelize.Reliability.Consumer.Once.{is_final, consume-claim_inbox}
use nuxt_laravelize.Reliability.Consumer.{
  is_bounded, renewals, fail_message, after_delivery, settle_message, handle_message, after_claim,
  consume, ConsumerOptions, Consumption, delivered, busy, dead, to_consumer_failure,
  consumer_failure,
}
use nuxt_laravelize.Common.Map.{Map}
use nuxt_laravelize.Common.Exec.{ok}
use nuxt_laravelize.Reliability.Store.Terminal.{run_calls, StoreCall, appending, claiming_inbox}

abbrev message : MessageEnvelope
message = record { id = "m"; type = "paid"; occurred_at = 5; canonical = "{}" }

abbrev options : ConsumerOptions
options = record { owner = "me"; lease_ms = 100; max_attempts = 2; retry_delay_ms = λ attempts. 10 }

abbrev nothing : ReliabilityStore
nothing = record { records = []; capacity = 10 }

abbrev alone : ReliabilityStore → ReliabilityStore
alone s = s

abbrev store_detail : ReliabilityError → String
store_detail e = "lost"

-- A handler that resolves after one renewal.
abbrev smooth : Consumption
smooth = record {
  aborted_before = false;
  token = "t";
  claimed_at = 50;
  ticks = record { now = 80; others = alone } ∷ [];
  failure = none;
  others = alone;
  delivered_at = 90;
  store_detail = store_detail;
  others_after = alone;
  aborted = false;
  failed_at = 95;
  retry_from = 96;
}

-- A handler that rejects for good.
abbrev failing : Consumption
failing = record smooth {
  failure = some (consumer_failure (record { error = "no"; retryable = false; retry_at = none }));
}

-- A handler whose last renewal comes after the end of the lease.
abbrev late : Consumption
late = record smooth { ticks = record { now = 150; others = alone } ∷ [] }

smooth_answer : (consume options message smooth nothing).0 ≡ ok delivered
unfolding consume to_consumer_failure after_claim handle_message settle_message after_delivery
    fail_message renewals claim_inbox inbox_known is_full update holds_lease renew deliver bury
    Map.get Map.put set_row take_row is_bounded
smooth_answer = refl

failing_answer : (consume options message failing nothing).0 ≡ ok dead
unfolding consume to_consumer_failure after_claim handle_message settle_message after_delivery
    fail_message renewals claim_inbox inbox_known is_full update holds_lease renew deliver bury
    Map.get Map.put set_row take_row is_bounded
failing_answer = refl

late_answer : (consume options message late nothing).0 ≡ ok busy
unfolding consume to_consumer_failure after_claim handle_message settle_message after_delivery
    fail_message renewals claim_inbox inbox_known is_full update holds_lease renew deliver bury
    Map.get Map.put set_row take_row is_bounded
late_answer = refl

abbrev append_m : StoreCall
append_m = appending message none

abbrev claim_m : StoreCall
claim_m = claiming_inbox message "you" "v" 100 150

consume-claim_inbox_example :
    claim_inbox message "you" "u" 200 300
      (run_calls (append_m ∷ claim_m ∷ []) (consume options message failing nothing).1)
    ≡ (
      ok InboxClaim.duplicate,
      run_calls (append_m ∷ claim_m ∷ []) (consume options message failing nothing).1,
    )
unfolding is_final
consume-claim_inbox_example =
    consume-claim_inbox options message failing nothing dead failing_answer refl
      (append_m ∷ claim_m ∷ []) "you" "u" 200 300
