-- ===== src/Workflow/Manager/Heartbeat.antt =====
-- packages/workflows/src/manager.ts: `withHeartbeat`, which renews the lease while a handler runs.
use nuxt_laravelize.Common.{
  ℕ, ◌+◌, String, Bool, true, false, not, ◌&&◌, ◌||◌, Option, none, some, List, [], ◌∷◌, leb,
  if◌then◌else◌,
}
use nuxt_laravelize.Workflow.Identity.{WorkflowFailure}
use nuxt_laravelize.Workflow.Receipts.{accepts_renewal}
use nuxt_laravelize.Workflow.Json.{Json}
use nuxt_laravelize.Workflow.Types.{WorkflowError, WorkflowLease, WorkflowSnapshot}
use nuxt_laravelize.Workflow.Store.{renew_lease, Store}
use nuxt_laravelize.Common.Exec.{Result, ok, throw}

-- One tick of the interval: the clock readings before and after the renewal, and what other
-- processes have done to the store since the tick before.
pub record Beat : Type 0 where
  pub now : ℕ
  pub checked_at : ℕ
  pub others : Store → Store

-- A value that a handler resolves to may be no JSON, which is an error when it is stored.
pub data HandlerOutcome : Type 0 where
  resolved : Result WorkflowError Json → HandlerOutcome
  rejected : WorkflowError → HandlerOutcome

-- The run of one handler. `others` is what other processes do after the last tick.
pub record HandlerRun : Type 0 where
  pub aborted_before : Bool
  pub beats : List Beat
  pub outcome : HandlerOutcome
  pub others : Store → Store
  pub aborted_after : Bool

-- What `withHeartbeat` returns or throws; `stopped` is its result `{ cancelled: true }`.
pub data Ran : Type 0 where
  lease_lost aborted stopped : Ran
  failed : WorkflowError → Ran
  returned : Result WorkflowError Json → (cancellation_observed : Bool) → Ran

-- The variables that the ticks share.
pub record Watch : Type 0 where
  pub observed : WorkflowSnapshot
  pub lost : Bool
  pub cancellation_observed : Bool

abbrev lease_of : Option WorkflowLease → ℕ
lease_of none = 0
lease_of (some lease) = lease.expires_at

module _ (started : WorkflowSnapshot) (token : String) (lease_duration : ℕ)
    (abort_on_cancellation : Bool) where
  -- A renewal that the store has answered.
  unfoldable pub after_renewal : Beat → Watch → Result WorkflowFailure WorkflowSnapshot → Watch
  after_renewal beat w (throw e) = record w { lost = true }
  after_renewal beat w (ok answer) =
      if not (
        accepts_renewal w.observed answer started.revision token beat.now
          (beat.now + lease_duration))
      then record w { lost = true }
      else record w {
        observed = answer;
        lost = leb (lease_of answer.lease) beat.checked_at;
        cancellation_observed =
            w.cancellation_observed
            || not (leb (lease_of answer.lease) beat.checked_at)
              && abort_on_cancellation
              && answer.cancellation_requested;
      }

  -- `renew`
  unfoldable pub renew : Beat → Watch → Store → Watch × Store
  renew beat w s =
      if w.lost
      then (w, beat.others s)
      else let (r, s') =
          renew_lease started.id started.revision token beat.now (beat.now + lease_duration)
            (beat.others s) in
        (after_renewal beat w r, s')

  unfoldable pub renewals : List Beat → Watch → Store → Watch × Store
  renewals [] w s = (w, s)
  renewals (beat ∷ beats) w s = let (w', s') = renew beat w s in renewals beats w' s'

  -- The end of `withHeartbeat`, when the handler is done.
  unfoldable pub verdict : HandlerRun → Watch → Ran
  verdict run w =
      if w.lost then lease_lost else if run.aborted_after then aborted else elim run.outcome [
        | resolved value ↦ returned value w.cancellation_observed
        | rejected error ↦ if w.cancellation_observed then stopped else failed error
      ]

  unfoldable pub with_heartbeat : HandlerRun → Store → Ran × Store
  with_heartbeat run s =
      if run.aborted_before
      then (aborted, s)
      else let (w, s') =
          renewals run.beats
            (record { observed = started; lost = false; cancellation_observed = false }) s in
        (verdict run w, run.others s')
