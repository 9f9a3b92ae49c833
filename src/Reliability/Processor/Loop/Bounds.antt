-- ===== src/Reliability/Processor/Loop/Bounds.antt =====
-- packages/reliability/src/index.ts: what the summary of `OutboxProcessor.runOnce` counts.
use nuxt_laravelize.Common.{
  ℕ, zero, suc, ◌+◌, ◌≤◌, ◌≡◌, [], ◌∷◌, arith, length, length-append, String, refl, ◌∙◌, List, Bool,
  true, false, not, ◌||◌, ◌++◌, ltb, ◌==◌, if◌then◌else◌,
}
use nuxt_laravelize.Reliability.Processor.{
  add_outcome, OutboxStatus, OutboxOutcome, ProcessorSummary, process_row, RowRun, Processed,
}
use nuxt_laravelize.Reliability.Store.{
  claimed_rows, Row, ClaimOptions, claim_outbox, ReliabilityStore, claim_rows,
}
use nuxt_laravelize.Reliability.Processor.Loop.{
  Summed, process_rows, claim_options, run_rounds, LoopOptions, RoundRun, no_summary, then_row,
  ids_of, then_round, run_once, insert_row, in_order,
}
use nuxt_laravelize.Common.Map.{Map}
use nuxt_laravelize.Common.Exec.{ok, throw}
use mathlib.Core.Path.{subst}

abbrev pub IfOk : (ProcessorSummary → Type 0) → Summed → Type 0
IfOk P (ok summary, s) = P summary
IfOk P (throw e, s) = Unit

pub IfOk-weaken :
    (P Q : ProcessorSummary → Type 0)
    → ((x : ProcessorSummary) → P x → Q x)
    → (r : Summed) → IfOk P r
    → IfOk Q r
IfOk-weaken P Q weaker (ok summary, s) h = weaker summary h
IfOk-weaken P Q weaker (throw e, s) h = tt

abbrev settled : ProcessorSummary → ℕ
settled summary = summary.delivered + summary.retried + summary.dead

-- What `n` more outcomes do to a summary.
abbrev pub IsLater : ℕ → (summary later : ProcessorSummary) → Type 0
IsLater n summary later =
    (later.claimed ≡ summary.claimed)
    × (length later.outcomes ≡ length summary.outcomes + n)
    × (settled later ≤ settled summary + n)

add_outcome-IsLater :
    (outcome : OutboxOutcome) (summary : ProcessorSummary) (status : OutboxStatus)
    → outcome.status ≡ status
    → IsLater 1 summary (add_outcome outcome summary)
unfolding add_outcome
add_outcome-IsLater outcome summary OutboxStatus.delivered h =
    ground (arith, h, length-append summary.outcomes (outcome ∷ []))
add_outcome-IsLater outcome summary OutboxStatus.retried h =
    ground (arith, h, length-append summary.outcomes (outcome ∷ []))
add_outcome-IsLater outcome summary OutboxStatus.dead h =
    ground (arith, h, length-append summary.outcomes (outcome ∷ []))
add_outcome-IsLater outcome summary OutboxStatus.delivery_failed h =
    ground (arith, h, length-append summary.outcomes (outcome ∷ []))
add_outcome-IsLater outcome summary OutboxStatus.ack_failed h =
    ground (arith, h, length-append summary.outcomes (outcome ∷ []))
add_outcome-IsLater outcome summary OutboxStatus.delivered_ack_unknown h =
    ground (arith, h, length-append summary.outcomes (outcome ∷ []))
add_outcome-IsLater outcome summary OutboxStatus.lease_lost h =
    ground (arith, h, length-append summary.outcomes (outcome ∷ []))
add_outcome-IsLater outcome summary OutboxStatus.cancelled h =
    ground (arith, h, length-append summary.outcomes (outcome ∷ []))

pub claimed_rows-length :
    (o : ClaimOptions) (limit : ℕ) (rows : Map Row) → length (claimed_rows o limit rows) ≤ limit
unfolding claimed_rows
claimed_rows-length o limit [] = omega arith
claimed_rows-length o zero (entry ∷ rows) = omega arith
claimed_rows-length o (suc limit) ((key, row) ∷ rows) =
    ground (arith, claimed_rows-length o limit rows, claimed_rows-length o (suc limit) rows)

insert_row-length :
    (ends : (id : String) → ℕ) (row : Row) (rows : List Row)
    → length (insert_row ends row rows) ≡ length rows + 1
unfolding insert_row
insert_row-length ends row [] = refl
insert_row-length ends row (x ∷ rows) = ground (arith, insert_row-length ends row rows)

pub in_order-length :
    (ends : (id : String) → ℕ) (rows : List Row) → length (in_order ends rows) ≡ length rows
unfolding in_order
in_order-length ends [] = refl
in_order-length ends (row ∷ rows) =
    ground (arith, in_order-length ends rows, insert_row-length ends row (in_order ends rows))

module _ (options : LoopOptions) (token : String) (P : ProcessorSummary → Type 0) where
  then_row-IfOk :
      (rest : OutboxOutcome → ReliabilityStore → Summed) (r : Processed)
      → ((outcome : OutboxOutcome) (s : ReliabilityStore) → IfOk P (rest outcome s))
      → IfOk P (then_row options token rest r)
  then_row-IfOk rest (ok outcome, s) h = h outcome s
  then_row-IfOk rest (throw e, s) h = tt

  then_round-IfOk :
      (rest : ProcessorSummary → ReliabilityStore → Summed) (few : Bool) (r : Summed)
      → ((x : ProcessorSummary) (s : ReliabilityStore) → P x → IfOk P (rest x s))
      → IfOk P r
      → IfOk P (then_round options token rest few r)
  then_round-IfOk rest true (ok x, s) h now = now
  then_round-IfOk rest false (ok x, s) h now = h x s now
  then_round-IfOk rest few (throw e, s) h now = tt

  if-IfOk : (b : Bool) (r r' : Summed) → IfOk P r → IfOk P r' → IfOk P (if b then r else r')
  if-IfOk true r r' h h' = h
  if-IfOk false r r' h h' = h'

module _ (options : LoopOptions) (token : String) where
  pub process_rows-IsLater :
      (runs : (id : String) → RowRun) (rows : List Row) (summary : ProcessorSummary)
      (s : ReliabilityStore)
      → IfOk (IsLater (length rows) summary) (process_rows options token runs rows summary s)
  unfolding process_rows
  process_rows-IsLater runs [] summary s = (refl, omega arith, omega arith)
  process_rows-IsLater runs (row ∷ rows) summary s =
      then_row-IfOk options token (IsLater (suc (length rows)) summary) _
        (process_row options.row row (runs row.envelope.id) s)
        λ outcome s'.
          let noted = add_outcome outcome summary in
          let one = add_outcome-IsLater outcome summary outcome.status refl in
          IfOk-weaken (IsLater (length rows) noted) (IsLater (suc (length rows)) summary)
            (λ x h. (h.0 ∙ one.0, omega (arith, h.1, one.1), omega (arith, h.2, one.2)))
            (process_rows options token runs rows noted s')
            (process_rows-IsLater runs rows noted s')

  -- What holds of a summary in the loop.
  abbrev IsCounted : ProcessorSummary → Type 0
  IsCounted summary =
      (summary.claimed ≤ options.limit)
      × (length summary.outcomes ≡ summary.claimed)
      × (settled summary ≤ summary.claimed)

  run_rounds-IsCounted :
      (rounds : (claimed : ℕ) → RoundRun) (fuel : ℕ) (processed : List String)
      (summary : ProcessorSummary) (s : ReliabilityStore)
      → IsCounted summary
      → IfOk IsCounted (run_rounds options token rounds fuel processed summary s)
  unfolding run_rounds claim_outbox claim_options
  run_rounds-IsCounted rounds zero processed summary s counted = counted
  run_rounds-IsCounted rounds (suc fuel) processed summary s counted =
      let round = rounds summary.claimed in
      let o = claim_options options token round.now processed summary in
      let rows = claimed_rows o o.limit (round.others s).records in
      let left = record (round.others s) {
        records = claim_rows o o.limit (round.others s).records;
      } in
      let noted = record summary { claimed = summary.claimed + length rows } in
      let ended = in_order round.ends rows in
      let same = in_order-length round.ends rows in
      let fits = claimed_rows-length o o.limit (round.others s).records in
      if-IfOk options token IsCounted (not (ltb summary.claimed options.limit) || round.aborted) _ _
        counted
        (if-IfOk options token IsCounted (length rows == 0) _ _ counted (
          then_round-IfOk options token IsCounted _ (ltb (length rows) o.limit) _
            (λ x s' h.
              run_rounds-IsCounted rounds fuel (processed ++ ids_of options token rows) x s' h)
            (IfOk-weaken (IsLater (length ended) noted) IsCounted
              (λ x h. (
                omega (arith, h.0, fits, counted.0),
                omega (arith, h.0, h.1, counted.1, same),
                omega (arith, h.0, h.2, counted.2, same),
              ))
              (process_rows options token round.rows ended noted left)
              (process_rows-IsLater round.rows ended noted left))))

  returned :
      (P : ProcessorSummary → Type 0) (r : Summed) (x : ProcessorSummary)
      → r.0 ≡ ok x
      → IfOk P r
      → P x
  returned P (ok y, s) x h now = let same : y ≡ x = ground (arith, h) in subst P same now
  returned P (throw e, s) x h now = absurd (ground (arith, h))

  -- If a run of the outbox processor returns a summary, then it has claimed at most its limit, it
  -- has as many outcomes as claimed rows, and it counts at most that many as delivered, retried or
  -- dead.
  pub run_once-claimed :
      (rounds : (claimed : ℕ) → RoundRun) (s : ReliabilityStore) (summary : ProcessorSummary)
      → (run_once options token rounds s).0 ≡ ok summary
      → (summary.claimed ≤ options.limit)
        × (length summary.outcomes ≡ summary.claimed)
        × (summary.delivered + summary.retried + summary.dead ≤ summary.claimed)
  unfolding run_once
  run_once-claimed rounds s summary h =
      returned IsCounted (run_once options token rounds s) summary h (
        run_rounds-IsCounted rounds (options.limit + 1) [] no_summary s
          (omega arith, refl, omega arith))
