-- ===== src/Reliability/Processor/Loop.antt =====
-- packages/reliability/src/index.ts: the loop of `OutboxProcessor.runOnce`, which claims rows until
-- the limit is reached, nothing is left, or the signal is aborted. The rows of one claim run at the
-- same time.
pub mod Bounds
pub mod Fuel
use nuxt_laravelize.Reliability.Processor.{
  ProcessorSummary, ProcessorOptions, RowRun, add_outcome, process_row, delivered, dead, retried,
  Processed, OutboxOutcome,
}
use nuxt_laravelize.Common.{
  ℕ, zero, suc, ◌+◌, ◌-◌, min, String, Bool, not, ◌||◌, List, [], ◌∷◌, ◌++◌, map, ltb, ◌==◌,
  if◌then◌else◌, length,
}
use nuxt_laravelize.Reliability.Store.{
  claim_rows, claimed_rows, ReliabilityError, ReliabilityStore, ClaimOptions, Row, claim_outbox,
}
use nuxt_laravelize.Common.Exec.{Result, ok, throw}

-- The options that the loop reads.
pub record LoopOptions : Type 0 where
  pub owner : String
  pub limit : ℕ
  pub concurrency : ℕ
  pub types : List String
  pub row : ProcessorOptions

-- A round of the loop: whether the signal is aborted before it, the reading of the clock, what others
-- have done to the store before the claim, the processing of a row by its id, and when it ends.
pub record RoundRun : Type 0 where
  pub aborted : Bool
  pub now : ℕ
  pub others : ReliabilityStore → ReliabilityStore
  pub rows : (id : String) → RowRun
  pub ends : (id : String) → ℕ

unfoldable pub insert_row : (ends : (id : String) → ℕ) → Row → List Row → List Row
insert_row ends row [] = row ∷ []
insert_row ends row (x ∷ rows) =
    let rest = insert_row ends row rows in
    if ltb (ends x.envelope.id) (ends row.envelope.id) then x ∷ rest else row ∷ x ∷ rows

-- The rows in the order in which they end.
unfoldable pub in_order : (ends : (id : String) → ℕ) → List Row → List Row
unfolding insert_row
in_order ends [] = []
in_order ends (row ∷ rows) = insert_row ends row (in_order ends rows)

abbrev pub no_summary : ProcessorSummary
no_summary = record { claimed = 0; delivered = 0; retried = 0; dead = 0; outcomes = [] }

abbrev pub Summed : Type 0
Summed = Result {0, 0} ReliabilityError ProcessorSummary × ReliabilityStore

module _ (options : LoopOptions) (token : String) where
  abbrev pub then_row : (OutboxOutcome → ReliabilityStore → Summed) → Processed → Summed
  then_row rest (ok outcome, s) = rest outcome s
  then_row rest (throw e, s) = (throw e, s)

  -- The rows of one claim, in the order in which they end. The steps that they make before are among
  -- what others do to the store during the run of a row. A row that throws ends the call; the rows
  -- that still run go on behind it.
  unfoldable pub process_rows :
      (runs : (id : String) → RowRun) → List Row → ProcessorSummary → ReliabilityStore → Summed
  process_rows runs [] summary s = (ok summary, s)
  process_rows runs (row ∷ rows) summary s =
      then_row (λ outcome s'. process_rows runs rows (add_outcome outcome summary) s')
        (process_row options.row row (runs row.envelope.id) s)

  abbrev pub ids_of : List Row → List String
  ids_of = map (λ (row : Row). row.envelope.id)

  abbrev pub round_capacity : ProcessorSummary → ℕ
  round_capacity summary = min options.concurrency (options.limit - summary.claimed)

  unfoldable pub claim_options :
      (now : ℕ) → (processed : List String) → ProcessorSummary → ClaimOptions
  claim_options now processed summary = record {
    owner = options.owner;
    token = token;
    limit = round_capacity summary;
    now = now;
    lease_until = now + options.row.lease_ms;
    types = options.types;
    exclude_ids = processed;
  }

  abbrev pub then_claim :
      (List Row → ReliabilityStore → Summed)
      → Result {0, 0} ReliabilityError (List Row) × ReliabilityStore
      → Summed
  then_claim rest (throw e, s) = (throw e, s)
  then_claim rest (ok rows, s) = rest rows s

  -- The rest of the loop behind the rows of a round: `few` is whether there were too few of them.
  abbrev pub then_round :
      (ProcessorSummary → ReliabilityStore → Summed) → (few : Bool) → Summed → Summed
  then_round rest few (throw e, s) = (throw e, s)
  then_round rest few (ok summary, s) = if few then (ok summary, s) else rest summary s

  -- The loop, with the rounds by what is claimed before them. A round that claims nothing is the
  -- last one, so `limit` bounds the rounds.
  unfoldable pub run_rounds :
      (rounds : (claimed : ℕ) → RoundRun)
      → (fuel : ℕ) → (processed : List String) → ProcessorSummary
      → ReliabilityStore
      → Summed
  run_rounds rounds zero processed summary s = (ok summary, s)
  run_rounds rounds (suc fuel) processed summary s =
      let round = rounds summary.claimed in
      let o = claim_options round.now processed summary in
      let next =
        then_claim
          (λ claimed left.
            let noted = record summary { claimed = summary.claimed + length claimed } in
            if length claimed == 0
            then (ok summary, left)
            else then_round (run_rounds rounds fuel (processed ++ ids_of claimed))
                (ltb (length claimed) o.limit)
                (process_rows round.rows (in_order round.ends claimed) noted left))
          (claim_outbox o (round.others s)) in
      if not (ltb summary.claimed options.limit) || round.aborted then (ok summary, s) else next

  unfoldable pub run_once : (rounds : (claimed : ℕ) → RoundRun) → ReliabilityStore → Summed
  run_once rounds s = run_rounds rounds (options.limit + 1) [] no_summary s
