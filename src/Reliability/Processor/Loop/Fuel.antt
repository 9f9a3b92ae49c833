-- ===== src/Reliability/Processor/Loop/Fuel.antt =====
-- packages/reliability/src/index.ts: the loop of `OutboxProcessor.runOnce` ends.
use nuxt_laravelize.Common.{
  ℕ, zero, suc, ◌+◌, ◌<◌, String, ◌≡◌, refl, ◌∙◌, Bool, true, false, not, ◌||◌, List, [], ◌++◌,
  arith, ltb, ◌==◌, if◌then◌else◌, length, ◌-◌, ap,
}
use nuxt_laravelize.Reliability.Processor.{ProcessorSummary}
use nuxt_laravelize.Reliability.Store.{claim_rows, claimed_rows, claim_outbox, ReliabilityStore}
use nuxt_laravelize.Reliability.Processor.Loop.{
  no_summary, Summed, process_rows, ids_of, claim_options, then_round, run_rounds, run_once,
  LoopOptions, RoundRun, in_order,
}
use nuxt_laravelize.Reliability.Processor.Loop.Bounds.{
  IfOk, IfOk-weaken, IsLater, process_rows-IsLater,
}
use nuxt_laravelize.Common.Exec.{ok, throw}

module _ (options : LoopOptions) (token : String) where
  then_round-same :
      (Q : ProcessorSummary → Type 0) (rest rest' : ProcessorSummary → ReliabilityStore → Summed)
      (few : Bool) (r : Summed)
      → ((x : ProcessorSummary) (s : ReliabilityStore) → Q x → rest x s ≡ rest' x s)
      → IfOk Q r
      → then_round options token rest few r ≡ then_round options token rest' few r
  then_round-same Q rest rest' true (ok x, s) same h = refl
  then_round-same Q rest rest' false (ok x, s) same h = same x s h
  then_round-same Q rest rest' few (throw e, s) same h = refl

  if-same :
      (b : Bool) (r r' r'' : Summed)
      → (b ≡ false → r' ≡ r'')
      → (if b then r else r') ≡ (if b then r else r'')
  if-same true r r' r'' same = refl
  if-same false r r' r'' same = same refl

  one_more :
      (rounds : (claimed : ℕ) → RoundRun) (fuel : ℕ) (processed : List String)
      (summary : ProcessorSummary) (s : ReliabilityStore)
      → options.limit < summary.claimed + fuel
      → run_rounds options token rounds (suc fuel) processed summary s
        ≡ run_rounds options token rounds fuel processed summary s
  unfolding run_rounds claim_outbox claim_options
  one_more rounds zero processed summary s enough = ground (arith, enough)
  one_more rounds (suc fuel) processed summary s enough =
      let round = rounds summary.claimed in
      let o = claim_options options token round.now processed summary in
      let rows = claimed_rows o o.limit (round.others s).records in
      let left = record (round.others s) {
        records = claim_rows o o.limit (round.others s).records;
      } in
      let noted = record summary { claimed = summary.claimed + length rows } in
      let with_rows = processed ++ ids_of options token rows in
      if-same (not (ltb summary.claimed options.limit) || round.aborted) _ _ _ λ goes_on.
        if-same (length rows == 0) _ _ _ λ some_rows.
          then_round-same (λ x. x.claimed ≡ noted.claimed) _ _ (ltb (length rows) o.limit)
            (process_rows options token round.rows (in_order round.ends rows) noted left)
            (λ x s' same.
              one_more rounds fuel with_rows x s' (ground (arith, same, enough, some_rows)))
            (IfOk-weaken (IsLater (length (in_order round.ends rows)) noted)
              (λ x. x.claimed ≡ noted.claimed) (λ x h. h.0)
              (process_rows options token round.rows (in_order round.ends rows) noted left)
              (process_rows-IsLater options token round.rows (in_order round.ends rows) noted left))

  more_fuel :
      (rounds : (claimed : ℕ) → RoundRun) (s : ReliabilityStore) (more fuel : ℕ)
      → fuel ≡ options.limit + 1 + more
      → run_rounds options token rounds fuel [] no_summary s ≡ run_once options token rounds s
  unfolding run_once
  more_fuel rounds s zero fuel e =
      ap (λ (n : ℕ). run_rounds options token rounds n [] no_summary s) (omega (arith, e))
  more_fuel rounds s (suc more) zero e = absurd (omega (arith, e))
  more_fuel rounds s (suc more) (suc fuel) e =
      one_more rounds fuel [] no_summary s (omega (arith, e))
      ∙ more_fuel rounds s more fuel (omega (arith, e))

  -- With any fuel above the limit the loop of the outbox processor gives what the run gives: it
  -- never needs more rounds than the limit and one.
  pub run_once-run_rounds :
      (rounds : (claimed : ℕ) → RoundRun) (s : ReliabilityStore) (fuel : ℕ)
      → options.limit < fuel
      → run_rounds options token rounds fuel [] no_summary s ≡ run_once options token rounds s
  run_once-run_rounds rounds s fuel enough =
      more_fuel rounds s (fuel - (options.limit + 1)) fuel (omega (arith, enough))
