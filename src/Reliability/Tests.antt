-- ===== src/Reliability/Tests.antt =====
-- packages/reliability: one message on small inputs.
use nuxt_laravelize.Common.Map
use nuxt_laravelize.Common.{◌≡◌, refl, false, none, some, [], ◌∷◌, arith, eq_iff}
use nuxt_laravelize.Reliability.Store.{
  row_key, new_row, is_takeable, claim_outbox, deliver, renew, retry, bury, MessageEnvelope, Row,
  ReliabilityStore, ClaimOptions, lease_lost, processing, delivered, outbox, inbox,
}
use nuxt_laravelize.Reliability.Store.Fencing.{IsHeld, lease_fences, claim_outbox-leased}
use nuxt_laravelize.Reliability.Store.Terminal.{
  run_calls, run_calls-terminal, claiming_inbox, retrying,
}
use nuxt_laravelize.Common.Map.{Map}
use nuxt_laravelize.Common.Exec.{throw}

abbrev message : MessageEnvelope
message = record { id = "m"; type = "paid"; occurred_at = 5; canonical = "{}" }

abbrev taken : Row
taken = record (new_row message 5 (some 5)) {
  state = processing;
  attempts = 1;
  lease = some (record { owner = "me"; token = "t:m"; until = 100 });
}

abbrev leased : ReliabilityStore
leased = record { records = ("outbox:m", taken) ∷ ("inbox:m", taken) ∷ []; capacity = 10 }

outbox_stored : Map.get (row_key outbox "m") leased.records ≡ some taken
unfolding Map.get
outbox_stored = refl

foreign : ¬ IsHeld taken "u:m" 50
foreign (running, lease, there, own, early) =
    absurd (ground (arith, there, own, eq_iff "t:m" "u:m"))

lease_fences_example :
    (deliver outbox "m" "u:m" 50 leased ≡ (throw lease_lost, leased))
    × (renew outbox "m" "u:m" 50 200 leased ≡ (throw lease_lost, leased))
    × (retry outbox "m" "u:m" 50 200 "down" leased ≡ (throw lease_lost, leased))
    × (bury outbox "m" "u:m" 50 "down" leased ≡ (throw lease_lost, leased))
lease_fences_example =
    lease_fences leased outbox "m" taken outbox_stored "u:m" 50 200 "down" foreign

abbrev all_types : ClaimOptions
all_types = record {
  owner = "you";
  token = "u";
  limit = 10;
  now = 50;
  lease_until = 150;
  types = [];
  exclude_ids = [];
}

still_leased : is_takeable taken 50 ≡ false
unfolding is_takeable
still_leased = refl

claim_outbox-leased_example :
    Map.get "outbox:m" (claim_outbox all_types leased).1.records ≡ some taken
claim_outbox-leased_example =
    claim_outbox-leased leased all_types "outbox:m" taken outbox_stored still_leased

abbrev done : Row
done = record taken { state = delivered; lease = none; terminal_at = some 50 }

abbrev finished : ReliabilityStore
finished = record { records = ("inbox:m", done) ∷ []; capacity = 10 }

done_stored : Map.get "inbox:m" finished.records ≡ some done
unfolding Map.get
done_stored = refl

run_calls-terminal_example :
    Map.get "inbox:m"
      (run_calls
        (claiming_inbox message "you" "u" 60 160 ∷ retrying inbox "m" "t:m" 70 80 "down" ∷ [])
        finished).records
    ≡ some done
run_calls-terminal_example =
    run_calls-terminal
      (claiming_inbox message "you" "u" 60 160 ∷ retrying inbox "m" "t:m" 70 80 "down" ∷ [])
      finished "inbox:m" done done_stored refl
