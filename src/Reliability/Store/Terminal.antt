-- ===== src/Reliability/Store/Terminal.antt =====
-- What no call but the pruning does to a message that has ended.
use Prim.Native.String
use nuxt_laravelize.Common.Map
use nuxt_laravelize.Common.{
  ℕ, zero, suc, String, ◌≡◌, inl, inr, Bool, true, false, Option, none, some, List, [], ◌∷◌, arith,
  eq_iff, Option-cases,
}
use nuxt_laravelize.Reliability.Store.{
  row_key, set_row, new_row, available_or, append, take_row, is_takeable, is_claimable, claim_rows,
  claim_outbox, inbox_known, claim_inbox, holds_lease, update, deliver, renew, retry, bury,
  MessageNamespace, MessageEnvelope, Row, ReliabilityStore, ClaimOptions, delivered, dead, outbox,
  inbox,
}
use nuxt_laravelize.Common.Map.{Map, get-put}

abbrev pub is_terminal : Row → Bool
is_terminal row = elim row.state [ delivered ↦ true | dead ↦ true | _ ↦ false ]

pub data StoreCall : Type 0 where
  appending : MessageEnvelope → (available_at : Option ℕ) → StoreCall
  claiming_outbox : ClaimOptions → StoreCall
  claiming_inbox : MessageEnvelope → (owner token : String) → (now lease_until : ℕ) → StoreCall
  delivering : MessageNamespace → (id token : String) → (now : ℕ) → StoreCall
  renewing : MessageNamespace → (id token : String) → (now lease_until : ℕ) → StoreCall
  retrying :
      MessageNamespace → (id token : String) → (now available_at : ℕ) → (error : String) → StoreCall
  burying : MessageNamespace → (id token : String) → (now : ℕ) → (error : String) → StoreCall

unfoldable pub perform : StoreCall → ReliabilityStore → ReliabilityStore
perform (appending envelope available_at) s = (append envelope available_at s).1
perform (claiming_outbox o) s = (claim_outbox o s).1
perform (claiming_inbox envelope owner token now lease_until) s =
    (claim_inbox envelope owner token now lease_until s).1
perform (delivering namespace id token now) s = (deliver namespace id token now s).1
perform (renewing namespace id token now lease_until) s =
    (renew namespace id token now lease_until s).1
perform (retrying namespace id token now available_at error) s =
    (retry namespace id token now available_at error s).1
perform (burying namespace id token now error) s = (bury namespace id token now error s).1

unfoldable pub run_calls : List StoreCall → ReliabilityStore → ReliabilityStore
unfolding perform
run_calls [] s = s
run_calls (c ∷ cs) s = run_calls cs (perform c s)

pub get-claim_rows :
    (o : ClaimOptions) (limit : ℕ) (rows : Map Row) (key : String) (row : Row)
    → Map.get key rows ≡ some row
    → is_takeable row o.now ≡ false
    → Map.get key (claim_rows o limit rows) ≡ some row
unfolding claim_rows Map.get is_claimable
get-claim_rows o limit [] key row h rests = absurd (cc h)
get-claim_rows o zero ((k, x) ∷ rows) key row h rests = h
get-claim_rows o (suc limit) ((k, x) ∷ rows) key row h rests = ground (
  arith,
  h,
  rests,
  get-claim_rows o limit rows key row,
  get-claim_rows o (suc limit) rows key row,
)

module _ (s : ReliabilityStore) (key : String) (row : Row)
    (stored : Map.get key s.records ≡ some row) (ended : is_terminal row ≡ true) where
  not_takeable : (now : ℕ) → is_takeable row now ≡ false
  unfolding is_takeable
  not_takeable now = ground (arith, ended)

  not_held : (token : String) (now : ℕ) → holds_lease row token now ≡ false
  unfolding holds_lease
  not_held token now = ground (arith, ended)

  update-terminal :
      (namespace : MessageNamespace) (id token : String) (now : ℕ) (change : Row → Row)
      → Map.get key (update namespace id token now change s).1.records ≡ some row
  unfolding update set_row
  update-terminal namespace id token now change =
      elim (Option-cases (Map.get (row_key namespace id) s.records)) [
        | inl gone ↦ ground (arith, gone, stored)
        | inr (found, here) ↦ ground (
          arith,
          here,
          stored,
          not_held token now,
          eq_iff (row_key namespace id) key,
          get-put (row_key namespace id) key (change found) s.records,
        )
      ]

  append-terminal :
      (envelope : MessageEnvelope) (available_at : Option ℕ)
      → Map.get key (append envelope available_at s).1.records ≡ some row
  unfolding append set_row
  append-terminal envelope available_at =
      let at = available_or available_at envelope.occurred_at in
      ground (
        arith,
        stored,
        eq_iff (row_key outbox envelope.id) key,
        get-put (row_key outbox envelope.id) key (new_row envelope at (some at)) s.records,
      )

  claim_inbox-terminal :
      (envelope : MessageEnvelope) (owner token : String) (now lease_until : ℕ)
      → Map.get key (claim_inbox envelope owner token now lease_until s).1.records ≡ some row
  unfolding claim_inbox inbox_known set_row
  claim_inbox-terminal envelope owner token now lease_until =
      let lease_token = String.◌++◌ token (String.◌++◌ ":" envelope.id) in
      elim (Option-cases (Map.get (row_key inbox envelope.id) s.records)) [
        | inl gone ↦ ground (
          arith,
          gone,
          stored,
          eq_iff (row_key inbox envelope.id) key,
          get-put (row_key inbox envelope.id) key
              (take_row owner lease_token lease_until (new_row envelope now none)) s.records,
        )
        | inr (found, here) ↦ ground (
          arith,
          here,
          stored,
          not_takeable now,
          eq_iff (row_key inbox envelope.id) key,
          get-put (row_key inbox envelope.id) key (take_row owner lease_token lease_until found)
              s.records,
        )
      ]

  perform-terminal : (c : StoreCall) → Map.get key (perform c s).records ≡ some row
  unfolding perform deliver renew retry bury claim_outbox
  perform-terminal (appending envelope available_at) = append-terminal envelope available_at
  perform-terminal (claiming_outbox o) =
      get-claim_rows o o.limit s.records key row stored (not_takeable o.now)
  perform-terminal (claiming_inbox envelope owner token now lease_until) =
      claim_inbox-terminal envelope owner token now lease_until
  perform-terminal (delivering namespace id token now) = update-terminal namespace id token now _
  perform-terminal (renewing namespace id token now lease_until) =
      update-terminal namespace id token now _
  perform-terminal (retrying namespace id token now available_at error) =
      update-terminal namespace id token now _
  perform-terminal (burying namespace id token now error) = update-terminal namespace id token now _

-- If a message was delivered or given up, then its row stays exactly as it is after any list of
-- append, claim, deliver, renew, retry and give-up calls.
pub run_calls-terminal :
    (cs : List StoreCall) (s : ReliabilityStore) (key : String) (row : Row)
    → Map.get key s.records ≡ some row
    → is_terminal row ≡ true
    → Map.get key (run_calls cs s).records ≡ some row
unfolding run_calls
run_calls-terminal [] s key row stored ended = stored
run_calls-terminal (c ∷ cs) s key row stored ended =
    run_calls-terminal cs (perform c s) key row (perform-terminal s key row stored ended c) ended
