-- ===== src/Migrations/Runner/Consistent/Runs.antt =====
-- packages/migrations/src/index.ts: whatever calls are made of the runner, an applied migration has
-- its dependencies applied.

use nuxt_laravelize.Common.Sort.{count}
use nuxt_laravelize.Common.Exec.{ok, throw, Result, Result-cases}
use nuxt_laravelize.Migrations.Order.Items.{find, count-ids, IsDistinct}
use nuxt_laravelize.Migrations.Order.Laws.{HasItems, IsSorted}
use nuxt_laravelize.Migrations.Order.Release.{ids}
use nuxt_laravelize.Migrations.Load.{load, checked_records}
use nuxt_laravelize.Migrations.Load.Laws.{load_lem}
use nuxt_laravelize.Migrations.Backend.{
  list_records, Transaction, commit_or_undo, with_locked_transaction, Action, Backend,
}
use nuxt_laravelize.Migrations.Runner.Untouched.{perform-IsSame, pretends}
use nuxt_laravelize.Migrations.Runner.Consistent.Calls.{
  checked-same, Keeps, up-Keeps, down-Keeps, fresh-Keeps,
}
use nuxt_laravelize.Migrations.Runner.Consistent.Chosen.{IsClosed-reset, IsClosed-rollback}
use nuxt_laravelize.Migrations.{MigrationRecord, LoadedMigration, invalid_limit, MigrationError}
use nuxt_laravelize.Common.{
  ◌≡◌, refl, sym, ap, ◌∙◌, inl, inr, Bool, true, false, List, [], ◌∷◌, arith, if◌then◌else◌, String,
  none, some, str_eq, eq_iff, Bool-cases, Option-cases, All,
}
use nuxt_laravelize.Migrations.Runner.{
  perform, checked_run, run_loaded, locked, migrate_up, rollback_run, rollback, reset_run, reset,
  fresh_run, fresh, RunnerOptions, RunnerCall, ups, rollbacks, resets, freshes, RunResult, up_run,
  last_records, one_or, is_count, check_ownership,
}
use nuxt_laravelize.Common.Map.{Map}
use nuxt_laravelize.Migrations.Runner.Consistent.{IsConsistent, IsKeyed}
use nuxt_laravelize.Migrations.Order.Sorted.{keyed}

unfoldable pub run_runner : RunnerOptions → List RunnerCall → Backend → Backend
run_runner options [] b = b
run_runner options (c ∷ cs) b = run_runner options cs (perform options c b).1

pub commit_lem :
    (b : Backend) (p : Result MigrationError RunResult × Transaction) (result : RunResult)
    → (commit_or_undo b p).0 ≡ ok result
    → (p.0 ≡ ok result) × ((commit_or_undo b p).1.current ≡ p.1)
unfolding commit_or_undo
commit_lem b (ok a, t) result h = (h, refl)
commit_lem b (throw e, t) result h = absurd (ground (arith, h))

module _ (options : RunnerOptions) (items loaded : List LoadedMigration)
    (distinct : IsDistinct items) (has_items : HasItems items loaded) (sorted : IsSorted [] loaded)
    (found : load options.dialect options.locale_lt options.sources ≡ ok loaded) where
  abbrev Kept : Map MigrationRecord → Type 0
  Kept m = Keeps options items loaded distinct has_items sorted m

  abbrev Run : Type 0
  Run = List LoadedMigration → List MigrationRecord → Action RunResult

  -- A run that returns keeps what is kept.
  abbrev IsKeeping : Run → Type 0
  IsKeeping run =
      (t : Transaction) (result : RunResult)
      → Kept t.records
      → (run loaded (list_records options.locale_lt t.records) t).0 ≡ ok result
      → Kept (run loaded (list_records options.locale_lt t.records) t).1.records

  checked_run-Kept :
      (run : Run) (t : Transaction) (result : RunResult)
      → IsKeeping run
      → Kept t.records
      → (checked_run options run loaded t).0 ≡ ok result
      → Kept (checked_run options run loaded t).1.records
  unfolding checked_run
  checked_run-Kept run t result keeping kept h =
      let listed = list_records options.locale_lt t.records in
      elim (Result-cases (checked_records options.is_date loaded listed)) [
        | inr (e, failed) ↦ absurd (ground (arith, h, failed))
        | inl (records, passed) ↦
            let passed' : checked_records options.is_date loaded listed ≡ ok listed =
              passed ∙ ap ok (sym (checked-same options.is_date loaded listed records passed)) in
            rw passed' (keeping t result kept (rw passed' at h))
      ]

  guarded-Kept :
      (valid : Bool) (run : Run) (b : Backend) (result : RunResult)
      → IsKeeping run
      → Kept b.current.records
      → (if valid then locked options run b else (throw invalid_limit, b)).0 ≡ ok result
      → Kept (if valid then locked options run b else (throw invalid_limit, b)).1.current.records
  unfolding locked run_loaded with_locked_transaction
  guarded-Kept false run b result keeping kept h = kept
  guarded-Kept true run b result keeping kept h =
      let e : locked options run b ≡ commit_or_undo b (checked_run options run loaded b.current) =
        ap (λ l. run_loaded options run l b) found in
      let done =
        commit_lem b (checked_run options run loaded b.current) result
          (sym (ap (λ (p : Result {0, 0} MigrationError RunResult × Backend). p.0) e) ∙ h) in
      let state : (locked options run b).1.current.records
          ≡ (checked_run options run loaded b.current).1.records =
        ap (λ (p : Result {0, 0} MigrationError RunResult × Backend). p.1.current.records) e
        ∙ ap (λ (u : Transaction). u.records) done.1 in
      rw state (checked_run-Kept run b.current result keeping kept done.0)

  returned-Kept :
      (c : RunnerCall) (b : Backend) (result : RunResult)
      → pretends c ≡ false
      → Kept b.current.records
      → (perform options c b).0 ≡ ok result
      → Kept (perform options c b).1.current.records
  unfolding perform migrate_up rollback reset fresh rollback_run reset_run fresh_run
  returned-Kept (ups false limit) b result real kept h =
      guarded-Kept (is_count options limit) (up_run options false limit) b result
        (λ t r k returned.
          up-Keeps options items loaded distinct has_items sorted t k limit r returned)
        kept h
  returned-Kept (rollbacks false batches) b result real kept h =
      guarded-Kept (is_count options batches) (rollback_run options false (one_or options batches))
        b result
        (λ t r k returned.
          let records = list_records options.locale_lt t.records in
          down-Keeps options items loaded distinct has_items sorted t k
            (last_records options (one_or options batches) records) r
            (IsClosed-rollback options t.records k.1 items loaded distinct has_items.1
              (one_or options batches))
            returned)
        kept h
  returned-Kept (resets false) b result real kept h =
      guarded-Kept true (reset_run options false) b result
        (λ t r k returned.
          down-Keeps options items loaded distinct has_items sorted t k
            (list_records options.locale_lt t.records) r
            (IsClosed-reset options t.records k.1 items loaded distinct has_items.1) returned)
        kept h
  returned-Kept (freshes false) b result real kept h =
      guarded-Kept true (fresh_run options false) b result
        (λ t r k returned.
          fresh-Keeps options items loaded distinct has_items sorted
            (check_ownership options options.ownership) t r returned)
        kept h
  returned-Kept c b result real kept h = absurd (ground (arith, real))

  perform-Kept :
      (c : RunnerCall) (b : Backend)
      → Kept b.current.records
      → Kept (perform options c b).1.current.records
  perform-Kept c b kept =
      let unchanged : ((perform options c b).1.current.records ≡ b.current.records)
          → Kept (perform options c b).1.current.records =
        λ same. rw same kept in
      elim (Bool-cases (pretends c)) [
        | inl pretended ↦ unchanged (perform-IsSame options c b (inl pretended)).0
        | inr real ↦ elim (Result-cases (perform options c b).0) [
          | inl (result, h) ↦ returned-Kept c b result real kept h
          | inr failed ↦ unchanged (perform-IsSame options c b (inr failed)).0
        ]
      ]

  run_runner-Kept :
      (cs : List RunnerCall) (b : Backend)
      → Kept b.current.records
      → Kept (run_runner options cs b).current.records
  unfolding run_runner
  run_runner-Kept [] b kept = kept
  run_runner-Kept (c ∷ cs) b kept =
      run_runner-Kept cs (perform options c b).1 (perform-Kept c b kept)

  some_missing : (k : String) (xs : List LoadedMigration) → find k xs ≡ none → count k (ids xs) ≡ 0
  unfolding find count
  some_missing k [] h = refl
  some_missing k (x ∷ xs) h = ground (arith, h, some_missing k xs)

  found_item :
      (k : String) (x : LoadedMigration) (xs : List LoadedMigration)
      → All (λ (y : LoadedMigration). find y.id items ≡ some y) xs
      → find k xs ≡ some x
      → find k items ≡ some x
  unfolding find
  found_item k x [] h there = absurd (ground (arith, there))
  found_item k x (y ∷ ys) (h, hs) there = elim (Bool-cases (str_eq y.id k)) [
    | inl same ↦
        let e : y.id ≡ k = (eq_iff y.id k).0 same in
        let own : y ≡ x = ground (arith, there, same) in
        sym (ap (λ j. find j items) e) ∙ h ∙ ap some own
    | inr other ↦ found_item k x ys hs (ground (arith, there, other))
  ]

  find-same : (k : String) → find k loaded ≡ find k items
  find-same k = elim (Option-cases (find k loaded)) [
    | inr (x, here) ↦ here ∙ sym (found_item k x loaded has_items.0 here)
    | inl gone ↦ elim (Option-cases (find k items)) [
      | inl gone' ↦ gone ∙ sym gone'
      | inr (x, here) ↦ absurd (
          ground
            (arith, here, some_missing k loaded gone, has_items.1 k, count-ids k items distinct))
    ]
  ]

  runs_lem :
      (cs : List RunnerCall) (b : Backend)
      → IsConsistent loaded b.current.records
      → IsKeyed b.current.records
      → IsConsistent loaded (run_runner options cs b).current.records
  runs_lem cs b consistent keyed =
      let kept =
        run_runner-Kept cs b
          ((λ id r item at there. consistent id r item at (find-same id ∙ there)), keyed) in
      λ id r item at there. kept.0 id r item at (sym (find-same id) ∙ there)

-- If the migrations can be loaded, every record stands under its own id, and every applied
-- migration has its dependencies applied in no later batch, then this holds after any list of up,
-- rollback, reset and fresh calls, also where some pretend or throw.
pub run_runner-IsConsistent :
    (options : RunnerOptions) (loaded : List LoadedMigration) (cs : List RunnerCall) (b : Backend)
    → load options.dialect options.locale_lt options.sources ≡ ok loaded
    → IsConsistent loaded b.current.records
    → IsKeyed b.current.records
    → IsConsistent loaded (run_runner options cs b).current.records
run_runner-IsConsistent options loaded cs b found consistent keyed =
    let (items, distinct, has_items, sorted) =
      load_lem options.dialect options.locale_lt options.sources loaded found in
    runs_lem options items loaded distinct has_items sorted found cs b consistent keyed
