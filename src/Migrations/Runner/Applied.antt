-- ===== src/Migrations/Runner/Applied.antt =====
-- packages/migrations/src/index.ts: what `up` records.
use nuxt_laravelize.Common.Map
use nuxt_laravelize.Migrations.Runner.{
  RunnerOptions, RunResult, execute, execute_item, new_record, is_recorded, next_batch,
  pending_items, checked_run, run_loaded, locked, up_run, migrate_up,
}
use nuxt_laravelize.Migrations.{up, MigrationRecord, LoadedMigration, MigrationError}
use nuxt_laravelize.Common.{
  ℕ, String, ◌≡◌, refl, sym, ap, ◌∙◌, inl, inr, false, not, Option, none, some, List, [], ◌∷◌,
  arith, str_eq, eq_iff, if◌then◌else◌, Bool-cases, any, select, true, Option-cases,
}
use nuxt_laravelize.Common.Map.{Map, get-put}
use nuxt_laravelize.Common.Exec.{bind-ok, ok, Result, Result-cases}
use nuxt_laravelize.Migrations.Runner.Consistent.Up.{execute_item_up}
use nuxt_laravelize.Migrations.Order.Items.{find}
use nuxt_laravelize.Migrations.Backend.{
  Transaction, list_records, commit_or_undo, with_locked_transaction, record_before, Backend,
  Action,
}
use nuxt_laravelize.Common.Sort.{any-sort}
use nuxt_laravelize.Migrations.Load.{load, checked_records}
use nuxt_laravelize.Migrations.Runner.Consistent.{IsKeyed}
use nuxt_laravelize.Migrations.Runner.Consistent.Runs.{commit_lem}
use nuxt_laravelize.Migrations.Runner.Consistent.Calls.{checked-same}
use nuxt_laravelize.Migrations.Runner.Consistent.Chosen.{holds_for, any-records, records_in}
use nuxt_laravelize.Migrations.Order.Sorted.{keyed}
use nuxt_laravelize.Migrations.Order.Laws.{found}

module _ (options : RunnerOptions) (batch : ℕ) where
  -- The record of an id: one that was there stays, and a migration that has none gets one.
  abbrev pub after_up : Option LoadedMigration → Option MigrationRecord → Option MigrationRecord
  after_up item (some r) = some r
  after_up none none = none
  after_up (some item) none = some (new_record options item batch)

  next_same :
      (x : LoadedMigration) (k : String) (t : Transaction)
      → (execute_item options up (some batch) false x t).0 ≡ ok tt
      → Map.get k (execute_item options up (some batch) false x t).1.records
        ≡ (if str_eq x.id k then some (new_record options x batch) else Map.get k t.records)
  unfolding new_record
  next_same x k t done =
      let (new, written) = execute_item_up options [] [] batch x t done in
      ground (arith, ap (Map.get k) written, get-put x.id k (new_record options x batch) t.records)

  -- What is recorded is not among the migrations that are executed.
  execute_up-find :
      (xs : List LoadedMigration) (t : Transaction) (result : RunResult) (k : String)
      (r : MigrationRecord)
      → (execute options xs up (some batch) false t).0 ≡ ok result
      → Map.get k t.records ≡ some r
      → find k xs ≡ none
  unfolding execute find
  execute_up-find [] t result k r h there = refl
  execute_up-find (x ∷ xs) t result k r h there =
      let next = (execute_item options up (some batch) false x t).1 in
      let (u, done, whole) = bind-ok (execute_item options up (some batch) false x) _ t result h in
      let (rest, returned, whole') =
        bind-ok (execute options xs up (some batch) false) _ next result (
          sym (ap (λ (p : Result {0, 0} MigrationError RunResult × Transaction). p.0) whole) ∙ h) in
      let (new, written) = execute_item_up options [] [] batch x t done in
      elim (Bool-cases (str_eq x.id k)) [
        | inl same ↦
            absurd (ground (arith, same, new, there, eq_iff x.id k, ap (λ j. Map.get j t.records)))
        | inr other ↦
            let kept : Map.get k next.records ≡ some r =
              ground (arith, next_same x k t done, other, there) in
            ground (arith, other, execute_up-find xs next rest k r returned kept)
      ]

  execute_up-get :
      (xs : List LoadedMigration) (t : Transaction) (result : RunResult) (k : String)
      → (execute options xs up (some batch) false t).0 ≡ ok result
      → Map.get k (execute options xs up (some batch) false t).1.records
        ≡ after_up (find k xs) (Map.get k t.records)
  unfolding execute find
  execute_up-get [] t result k h = ground arith
  execute_up-get (x ∷ xs) t result k h =
      let next = (execute_item options up (some batch) false x t).1 in
      let (u, done, whole) = bind-ok (execute_item options up (some batch) false x) _ t result h in
      let (rest, returned, whole') =
        bind-ok (execute options xs up (some batch) false) _ next result (
          sym (ap (λ (p : Result {0, 0} MigrationError RunResult × Transaction). p.0) whole) ∙ h) in
      let (new, written) = execute_item_up options [] [] batch x t done in
      let later = execute_up-get xs next rest k returned in
      ap (λ (p : Result {0, 0} MigrationError RunResult × Transaction). Map.get k p.1.records)
        (whole ∙ whole')
      ∙ later
      ∙ elim (Bool-cases (str_eq x.id k)) [
        | inl same ↦
            let e : x.id ≡ k = (eq_iff x.id k).0 same in
            ground (arith, same, next_same x k t done, ap (λ j. Map.get j t.records) e, new)
        | inr other ↦ ground (arith, other, next_same x k t done)
      ]

find-pending :
    (options : RunnerOptions) (records : List MigrationRecord) (k : String)
    (xs : List LoadedMigration)
    → find k (select (λ (x : LoadedMigration). not (is_recorded options records x)) xs)
      ≡ (if any (λ (r : MigrationRecord). str_eq r.id k) records then none else find k xs)
unfolding find
find-pending options records k [] = ground arith
find-pending options records k (x ∷ xs) = elim (Bool-cases (str_eq x.id k)) [
  | inl same ↦
      let e : x.id ≡ k = (eq_iff x.id k).0 same in
      ground (
        arith,
        same,
        find-pending options records k xs,
        ap (λ j. any (λ (r : MigrationRecord). str_eq r.id j) records) e,
      )
  | inr other ↦ ground (arith, other, find-pending options records k xs)
]

module _ (options : RunnerOptions) (loaded : List LoadedMigration) where
  abbrev pub read_from : Transaction → List MigrationRecord
  read_from t = list_records options.locale_lt t.records

  up_run-get :
      (t : Transaction) (result : RunResult) (k : String)
      → IsKeyed t.records
      → (up_run options false none loaded (read_from t) t).0 ≡ ok result
      → Map.get k (up_run options false none loaded (read_from t) t).1.records
        ≡ after_up options (next_batch options (read_from t)) (find k loaded) (Map.get k t.records)
  unfolding up_run pending_items list_records
  up_run-get t result k keyed h =
      let records = read_from t in
      let pending = select (λ (x : LoadedMigration). not (is_recorded options records x)) loaded in
      let test : any (λ (r : MigrationRecord). str_eq r.id k) records
          ≡ holds_for (λ r. true) (Map.get k t.records) =
        any-sort (λ (r : MigrationRecord). str_eq r.id k) (record_before options.locale_lt)
          (records_in t.records)
        ∙ any-records (λ r. true) k t.records keyed in
      execute_up-get options (next_batch options records) pending t result k h
      ∙ elim (Option-cases (Map.get k t.records)) [
        | inl gone ↦ ground (arith, gone, test, find-pending options records k loaded)
        | inr (r, here) ↦ ground (arith, here)
      ]

  abbrev Run : Type 0
  Run = List LoadedMigration → List MigrationRecord → Action RunResult

  checked_lem :
      (run : Run) (t : Transaction) (result : RunResult)
      → (checked_run options run loaded t).0 ≡ ok result
      → checked_run options run loaded t ≡ run loaded (read_from t) t
  unfolding checked_run
  checked_lem run t result h =
      elim (Result-cases (checked_records options.is_date loaded (read_from t))) [
        | inr (e, failed) ↦ absurd (ground (arith, h, failed))
        | inl (records, passed) ↦
            let passed' : checked_records options.is_date loaded (read_from t) ≡ ok (read_from t) =
              passed
              ∙ ap ok (sym (checked-same options.is_date loaded (read_from t) records passed)) in
            rw passed' refl
      ]

  -- A call that returns is its run on what the backend has.
  pub locked_lem :
      (run : Run) (b : Backend) (result : RunResult)
      → load options.dialect options.locale_lt options.sources ≡ ok loaded
      → (locked options run b).0 ≡ ok result
      → ((run loaded (read_from b.current) b.current).0 ≡ ok result)
        × ((locked options run b).1.current ≡ (run loaded (read_from b.current) b.current).1)
  unfolding locked run_loaded with_locked_transaction
  locked_lem run b result found h =
      let e : locked options run b ≡ commit_or_undo b (checked_run options run loaded b.current) =
        ap (λ l. run_loaded options run l b) found in
      let done =
        commit_lem b (checked_run options run loaded b.current) result
          (sym (ap (λ (p : Result {0, 0} MigrationError RunResult × Backend). p.0) e) ∙ h) in
      let same = checked_lem run b.current result done.0 in
      (
        sym (ap (λ (p : Result {0, 0} MigrationError RunResult × Transaction). p.0) same) ∙ done.0,
        ap (λ (p : Result {0, 0} MigrationError RunResult × Backend). p.1.current) e
            ∙ done.1
            ∙ ap (λ (p : Result {0, 0} MigrationError RunResult × Transaction). p.1) same,
      )

  -- If the migrations can be loaded, every record stands under its own id, and a call of up without
  -- a limit that does not pretend returns, then every record that was there is still there, every
  -- other loaded migration is recorded in the next batch, and there is no other record.
  pub migrate_up-records :
      (b : Backend) (result : RunResult)
      → load options.dialect options.locale_lt options.sources ≡ ok loaded
      → IsKeyed b.current.records
      → (migrate_up options false none b).0 ≡ ok result
      → (id : String)
      → Map.get id (migrate_up options false none b).1.current.records
        ≡ after_up options
            (next_batch options (list_records options.locale_lt b.current.records))
            (find id loaded)
            (Map.get id b.current.records)
  unfolding migrate_up
  migrate_up-records b result found keyed h id =
      let (returned, state) = locked_lem (up_run options false none) b result found h in
      ap (λ (t : Transaction). Map.get id t.records) state
      ∙ up_run-get b.current result id keyed returned
