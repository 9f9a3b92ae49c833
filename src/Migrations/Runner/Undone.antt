-- ===== src/Migrations/Runner/Undone.antt =====
-- packages/migrations/src/index.ts: `rollback` takes back what `up` has recorded.
use nuxt_laravelize.Common.Map
use nuxt_laravelize.Migrations.{LoadedMigration, MigrationRecord, up, MigrationError}
use nuxt_laravelize.Common.{
  ℕ, ◌≤◌, ◌<◌, String, ◌≡◌, ap, ◌∙◌, inl, inr, Bool, some, List, [], ◌∷◌, arith, ◌==◌, refl, sym,
  false, none, Option-cases, if◌then◌else◌,
}
use nuxt_laravelize.Common.Sort.{any-sort, count}
use nuxt_laravelize.Common.Map.{Map}
use nuxt_laravelize.Migrations.Order.Items.{find}
use nuxt_laravelize.Migrations.Runner.{
  next_batch, last_batches, RunnerOptions, execute, new_record, execute_item, items_of,
  last_records, RunResult, pending_items, up_run, migrate_up, in_batches, rollback_run, rollback,
}
use nuxt_laravelize.Migrations.Order.Release.{ids}
use nuxt_laravelize.Migrations.Runner.Consistent.Chosen.{
  records_in, any-batch, count-items_of, holds_for,
}
use nuxt_laravelize.Common.Exec.{bind-ok, ok, Result}
use nuxt_laravelize.Migrations.Backend.{list_records, Transaction, record_before, Backend}
use nuxt_laravelize.Migrations.Runner.Consistent.{IsKeyed, put-IsKeyed}
use nuxt_laravelize.Migrations.Runner.Applied.{after_up, locked_lem, migrate_up-records}
use nuxt_laravelize.Migrations.Runner.Consistent.Up.{execute_item_up}
use nuxt_laravelize.Migrations.Runner.Consistent.Down.{
  remove_each, get-remove_each, down_run-records,
}
use nuxt_laravelize.Migrations.Load.{load}
use nuxt_laravelize.Migrations.Order.Laws.{found}
use nuxt_laravelize.Migrations.Runner.LastBatch.{
  last_batches-one, All-records, next_batch-above, count-find, record-sort-All,
}

module _ (options : RunnerOptions) (loaded : List LoadedMigration) where
  execute_up-IsKeyed :
      (batch : ℕ) (xs : List LoadedMigration) (t : Transaction) (result : RunResult)
      → IsKeyed t.records
      → (execute options xs up (some batch) false t).0 ≡ ok result
      → IsKeyed (execute options xs up (some batch) false t).1.records
  unfolding execute new_record
  execute_up-IsKeyed batch [] t result keyed h = keyed
  execute_up-IsKeyed batch (x ∷ xs) t result keyed h =
      let next = (execute_item options up (some batch) false x t).1 in
      let (u, done, whole) = bind-ok (execute_item options up (some batch) false x) _ t result h in
      let (rest, returned, whole') =
        bind-ok (execute options xs up (some batch) false) _ next result (
          sym (ap (λ (p : Result {0, 0} MigrationError RunResult × Transaction). p.0) whole) ∙ h) in
      let (new, written) = execute_item_up options [] [] batch x t done in
      let keyed' : IsKeyed next.records =
        rw written (put-IsKeyed (new_record options x batch) t.records keyed) in
      let state =
        ap (λ (p : Result {0, 0} MigrationError RunResult × Transaction). p.1.records)
          (whole ∙ whole') in
      rw state (execute_up-IsKeyed batch xs next rest keyed' returned)

  abbrev batch_after : Map MigrationRecord → ℕ
  batch_after m = next_batch options (list_records options.locale_lt m)

  older :
      (m : Map MigrationRecord) (k : String) (r : MigrationRecord)
      → Map.get k m ≡ some r
      → r.batch < batch_after m
  unfolding list_records
  older m k r here = next_batch-above options r.batch (list_records options.locale_lt m) (
      any-sort (λ (s : MigrationRecord). s.batch == r.batch) (record_before options.locale_lt)
        (records_in m)
      ∙ any-batch r.batch k m r here refl)

  -- The records `m'` behind `up`, from the records `m`.
  module _ (m m' : Map MigrationRecord) (keyed : IsKeyed m')
      (applied : (k : String)
        → Map.get k m' ≡ after_up options (batch_after m) (find k loaded) (Map.get k m))
      (id : String) (item : LoadedMigration) (there : find id loaded ≡ some item)
      (pending : Map.get id m ≡ none) where
    low : (k : String) (r : MigrationRecord) → Map.get k m' ≡ some r → r.batch ≤ batch_after m
    unfolding new_record
    low k r here = elim (Option-cases (Map.get k m)) [
      | inr (s, old) ↦ ground (arith, here, applied k, old, older m k s old)
      | inl gone ↦ elim (Option-cases (find k loaded)) [
        | inl unknown ↦ absurd (ground (arith, here, applied k, gone, unknown))
        | inr (x, known) ↦ ground (arith, here, applied k, gone, known)
      ]
    ]

    last_is_new : last_batches options 1 (list_records options.locale_lt m') ≡ batch_after m ∷ []
    unfolding list_records new_record
    last_is_new =
        let new : Map.get id m' ≡ some (new_record options item (batch_after m)) =
          ground (arith, applied id, there, pending) in
        last_batches-one options (batch_after m) (list_records options.locale_lt m')
          (record-sort-All (λ r. r.batch ≤ batch_after m) (record_before options.locale_lt)
            (records_in m') (All-records (batch_after m) m' keyed.1 low))
          (any-sort (λ (s : MigrationRecord). s.batch == batch_after m)
              (record_before options.locale_lt) (records_in m')
            ∙ any-batch (batch_after m) id m' (new_record options item (batch_after m)) new refl)

    taken_back :
        (k : String)
        → Map.get k (
            remove_each
              (items_of options (last_records options 1 (list_records options.locale_lt m')) loaded)
              m')
          ≡ Map.get k m
    unfolding new_record
    taken_back k =
        let listed = list_records options.locale_lt m' in
        let chosen : (List ℕ → MigrationRecord → Bool) = in_batches options in
        let xs = items_of options (last_records options 1 listed) loaded in
        let how_often : count k (ids xs) ≡ (
            if holds_for (chosen (batch_after m ∷ [])) (Map.get k m')
            then count k (ids loaded)
            else 0) =
          count-items_of options m' keyed (chosen (last_batches options 1 listed)) k loaded
          ∙ ap (λ bs. if holds_for (chosen bs) (Map.get k m') then count k (ids loaded) else 0)
              last_is_new in
        get-remove_each k xs m' ∙ elim (Option-cases (Map.get k m)) [
          | inr (s, old) ↦ ground (arith, how_often, applied k, old, older m k s old)
          | inl gone ↦ elim (Option-cases (find k loaded)) [
            | inl unknown ↦ ground (arith, applied k, gone, unknown)
            | inr (x, known) ↦
                ground (arith, how_often, applied k, gone, known, count-find k loaded x known)
          ]
        ]

  -- If the migrations can be loaded, every record stands under its own id, some loaded migration is
  -- not recorded, and a call of up without a limit and a call of rollback with its default count,
  -- neither of which pretends, both return, then under every id the rollback leaves the record that
  -- was there before both, or none.
  pub rollback-migrate_up :
      (b : Backend) (result undone : RunResult) (pending : String) (item : LoadedMigration)
      → load options.dialect options.locale_lt options.sources ≡ ok loaded
      → IsKeyed b.current.records
      → find pending loaded ≡ some item
      → Map.get pending b.current.records ≡ none
      → (migrate_up options false none b).0 ≡ ok result
      → (rollback options false none (migrate_up options false none b).1).0 ≡ ok undone
      → (id : String)
      → Map.get id
          (rollback options false none (migrate_up options false none b).1).1.current.records
        ≡ Map.get id b.current.records
  unfolding migrate_up rollback up_run rollback_run
  rollback-migrate_up b result undone pending item found keyed there gone h h' id =
      let b' = (migrate_up options false none b).1 in
      let (returned, state) =
        locked_lem options loaded (up_run options false none) b result found h in
      let (returned', state') =
        locked_lem options loaded (rollback_run options false 1) b' undone found h' in
      let records = list_records options.locale_lt b.current.records in
      let keyed' : IsKeyed b'.current.records = rw state (
        execute_up-IsKeyed (batch_after b.current.records)
          (pending_items options none loaded records) b.current result keyed returned) in
      let taken =
        down_run-records options
          (last_records options 1 (list_records options.locale_lt b'.current.records)) loaded
          b'.current undone returned' in
      ap (λ (t : Transaction). Map.get id t.records) state'
      ∙ ap (Map.get id) taken
      ∙ taken_back b.current.records b'.current.records keyed'
          (migrate_up-records options loaded b result found keyed h) pending item there gone id
