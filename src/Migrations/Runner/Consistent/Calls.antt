-- ===== src/Migrations/Runner/Consistent/Calls.antt =====
-- packages/migrations/src/index.ts: any list of calls of the runner keeps the records consistent.
use nuxt_laravelize.Common.Map
use nuxt_laravelize.Common.Sort.{count, any-sort}
use nuxt_laravelize.Common.Exec.{ok, throw, Result-cases, Result}
use nuxt_laravelize.Migrations.Order.Items.{IsDistinct}
use nuxt_laravelize.Migrations.Order.Laws.{HasItems, IsSorted}
use nuxt_laravelize.Migrations.Backend.{
  list_records, Transaction, clear_records, drop_owned, record_before, OwnedObject,
}
use nuxt_laravelize.Migrations.Runner.Consistent.Up.{
  execute_up-Holds, sorted-Follows, Follows-take, IsAvailable, Follows,
}
use nuxt_laravelize.Migrations.Runner.Consistent.Down.{
  down_run-records, remove_each-IsKeyed, remove_each-IsConsistent, IsClosed,
}
use nuxt_laravelize.Migrations.Runner.Consistent.Chosen.{
  any-records, any-batch, records_in, holds_for,
}
use nuxt_laravelize.Common.{
  ℕ, ◌≤◌, String, ◌≡◌, refl, ◌∙◌, inl, inr, Bool, true, false, not, Option, none, some, List, [],
  ◌∷◌, arith, str_eq, ◌==◌, Option-cases, any, select, ◌++◌, select_all,
}
use nuxt_laravelize.Common.Map.{Map}
use nuxt_laravelize.Migrations.Load.{check_each, check_dependencies, checked_records}
use nuxt_laravelize.Migrations.Order.{map_by_id}
use nuxt_laravelize.Migrations.Runner.{
  is_recorded, next_batch, pending_items, up_run, items_of, down_run, RunnerOptions, RunResult,
  execute, fresh_owned,
}
use nuxt_laravelize.Migrations.Runner.Consistent.{
  IsApplied, IsConsistent, IsKeyed, Holds-same, empty_Holds,
}
use nuxt_laravelize.Migrations.{MigrationRecord, LoadedMigration, MigrationError, up}

-- `checkedRecords` returns the records that it read.
pub checked-same :
    (is_date : String → Bool) (loaded : List LoadedMigration)
    (records checked : List MigrationRecord)
    → checked_records is_date loaded records ≡ ok checked
    → records ≡ checked
unfolding checked_records
checked-same is_date loaded records checked h =
    elim (Result-cases (check_each (map_by_id (λ item. item) loaded []) is_date [] records)) [
      | inr (e, failed) ↦ absurd (ground (arith, h, failed))
      | inl (u, passed) ↦
          elim (Result-cases
            (check_dependencies (map_by_id (λ item. item) loaded []) records records)) [
              | inr (e, failed) ↦ absurd (ground (arith, h, passed, failed))
              | inl (u', passed') ↦ ground (arith, h, passed, passed')
            ]
    ]

next_batch-bound :
    (options : RunnerOptions) (b : ℕ) (rs : List MigrationRecord)
    → any (λ (r : MigrationRecord). r.batch == b) rs ≡ true
    → b ≤ next_batch options rs
unfolding next_batch
next_batch-bound options b [] h = absurd (ground (arith, h))
next_batch-bound options b (r ∷ rs) h = ground (arith, h, next_batch-bound options b rs)

module _ (options : RunnerOptions) (items loaded : List LoadedMigration)
    (distinct : IsDistinct items) (has_items : HasItems items loaded)
    (sorted : IsSorted [] loaded) where
  -- What is kept from one call to the next.
  abbrev pub Keeps : Map MigrationRecord → Type 0
  Keeps m = IsConsistent items m × IsKeyed m

  module _ (t : Transaction) (keeps : Keeps t.records) where
    abbrev pub read : List MigrationRecord
    read = list_records options.locale_lt t.records

    bound :
        (id : String) (r : MigrationRecord)
        → Map.get id t.records ≡ some r
        → r.batch ≤ next_batch options read
    unfolding list_records
    bound id r here = next_batch-bound options r.batch read (
        any-sort (λ (s : MigrationRecord). s.batch == r.batch) (record_before options.locale_lt)
          (records_in t.records)
        ∙ any-batch r.batch id t.records r here refl)

    recorded :
        (d : String) → IsAvailable read [] d → IsApplied t.records (next_batch options read) d
    unfolding list_records count
    recorded d (inl stands) = absurd (omega arith)
    recorded d (inr there) =
        let test : any (λ (r : MigrationRecord). str_eq r.id d) read
            ≡ holds_for (λ r. true) (Map.get d t.records) =
          any-sort (λ (r : MigrationRecord). str_eq r.id d) (record_before options.locale_lt)
            (records_in t.records)
          ∙ any-records (λ r. true) d t.records keeps.1 in
        elim (Option-cases (Map.get d t.records)) [
          | inl gone ↦ absurd (ground (arith, gone, test, there))
          | inr (r, here) ↦ (r, here, bound d r here)
        ]

    Follows-pending :
        (limit : Option ℕ) → Follows items read [] (pending_items options limit loaded read)
    unfolding pending_items count
    Follows-pending none =
        sorted-Follows items read options loaded [] [] sorted has_items.0
          (λ d h. absurd (omega arith))
    Follows-pending (some n) =
        Follows-take items read n []
          (select (λ (x : LoadedMigration). not (is_recorded options read x)) loaded)
          (sorted-Follows items read options loaded [] [] sorted has_items.0
            (λ d h. absurd (omega arith)))

    pub up-Keeps :
        (limit : Option ℕ) (result : RunResult)
        → (up_run options false limit loaded read t).0 ≡ ok result
        → Keeps (up_run options false limit loaded read t).1.records
    unfolding up_run
    up-Keeps limit result h =
        let done =
          execute_up-Holds options items read (next_batch options read)
            (pending_items options limit loaded read) [] t result (keeps.0, keeps.1, bound)
            (Follows-pending limit) recorded h in
        (done.0, done.1)

    pub down-Keeps :
        (chosen : List MigrationRecord) (result : RunResult)
        → IsClosed options items (items_of options chosen loaded) t.records
        → (down_run options false chosen loaded t).0 ≡ ok result
        → Keeps (down_run options false chosen loaded t).1.records
    down-Keeps chosen result closed h =
        let e = down_run-records options chosen loaded t result h in
        rw e (
          remove_each-IsConsistent options items (items_of options chosen loaded) t.records keeps.0
              closed,
          remove_each-IsKeyed (items_of options chosen loaded) t.records keeps.1,
        )

  fresh_all-Keeps :
      (t : Transaction) (result : RunResult)
      → t.records ≡ []
      → (execute options loaded up (some 1) false t).0 ≡ ok result
      → Keeps (execute options loaded up (some 1) false t).1.records
  unfolding count
  fresh_all-Keeps t result none_left h =
      let follows : Follows items [] [] (select (λ x. true) loaded) =
        sorted-Follows items [] options loaded [] [] sorted has_items.0
          (λ d h. absurd (omega arith)) in
      let done =
        execute_up-Holds options items [] 1 loaded [] t result
          (Holds-same options items 1 t.records [] none_left (empty_Holds options items 1))
          (let e : select (λ x. true) loaded ≡ loaded = select_all loaded in rw e at follows)
          (λ d a. absurd (nothing_available d a)) h in
      (done.0, done.1)
    where
      nothing_available : (d : String) → IsAvailable [] [] d → ⊥
      nothing_available d (inl stands) = absurd (omega arith)
      nothing_available d (inr there) = absurd (ground (arith, there))

  pub fresh-Keeps :
      (objects : Result {0, 0} MigrationError (List OwnedObject)) (t : Transaction)
      (result : RunResult)
      → (fresh_owned options false loaded objects t).0 ≡ ok result
      → Keeps (fresh_owned options false loaded objects t).1.records
  unfolding fresh_owned drop_owned clear_records
  fresh-Keeps (throw e) t result h = absurd (ground (arith, h))
  fresh-Keeps (ok objects) t result h =
      fresh_all-Keeps (record t { dropped = t.dropped ++ objects; records = [] }) result refl h
