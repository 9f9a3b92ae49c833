-- ===== src/Migrations/Runner/Consistent/Down.antt =====
-- packages/migrations/src/index.ts: what `rollback` and `reset` remove is needed by nothing that stays.
use nuxt_laravelize.Common.Map
use nuxt_laravelize.Common.Map.{get-remove, Map}
use nuxt_laravelize.Common.Sort.{count}
use nuxt_laravelize.Common.Exec.{bind-ok, ok, Result}
use nuxt_laravelize.Migrations.Order.Items.{find}
use nuxt_laravelize.Migrations.Order.Release.{ids}
use nuxt_laravelize.Migrations.Backend.{remove_record, Transaction}
use nuxt_laravelize.Migrations.Runner.Consistent.Up.{run_direction-records}
use nuxt_laravelize.Migrations.{MigrationRecord, LoadedMigration, down, MigrationError}
use nuxt_laravelize.Common.{
  String, ◌≡◌, refl, sym, ap, ◌∙◌, false, none, some, List, [], ◌∷◌, arith, ◌==◌, if◌then◌else◌,
  All-weaken,
}
use nuxt_laravelize.Migrations.Runner.{
  execute, note_item, execute_item, irreversible_ids, assert_reversible, items_of, down_run,
  RunnerOptions, RunResult, run_direction, refuse,
}
use nuxt_laravelize.Migrations.Order.{dependencies}
use nuxt_laravelize.Migrations.Runner.Consistent.{IsApplied, IsConsistent, IsKeyed, remove-IsKeyed}

unfoldable pub remove_each : List LoadedMigration → Map MigrationRecord → Map MigrationRecord
remove_each [] m = m
remove_each (x ∷ xs) m = remove_each xs (Map.remove x.id m)

pub get-remove_each :
    (k : String) (xs : List LoadedMigration) (m : Map MigrationRecord)
    → Map.get k (remove_each xs m) ≡ (if count k (ids xs) == 0 then Map.get k m else none)
unfolding remove_each count
get-remove_each k [] m = ground arith
get-remove_each k (x ∷ xs) m =
    ground (arith, get-remove_each k xs (Map.remove x.id m), get-remove x.id k m)

pub remove_each-IsKeyed :
    (xs : List LoadedMigration) (m : Map MigrationRecord) → IsKeyed m → IsKeyed (remove_each xs m)
unfolding remove_each
remove_each-IsKeyed [] m h = h
remove_each-IsKeyed (x ∷ xs) m h =
    remove_each-IsKeyed xs (Map.remove x.id m) (remove-IsKeyed x.id m h)

module _ (options : RunnerOptions) where
  execute_item_down :
      (x : LoadedMigration) (t : Transaction)
      → (execute_item options down none false x t).0 ≡ ok tt
      → (execute_item options down none false x t).1.records ≡ Map.remove x.id t.records
  unfolding execute_item note_item remove_record
  execute_item_down x t h =
      let first = bind-ok (run_direction false x.migration.down) (λ u. remove_record x.id) t tt h in
      ap (λ (p : Result {0, 0} MigrationError Unit × Transaction). p.1.records) first.2
      ∙ ap (Map.remove x.id) (run_direction-records false x.migration.down t)

  execute_down-records :
      (xs : List LoadedMigration) (t : Transaction) (result : RunResult)
      → (execute options xs down none false t).0 ≡ ok result
      → (execute options xs down none false t).1.records ≡ remove_each xs t.records
  unfolding execute remove_each
  execute_down-records [] t result h = refl
  execute_down-records (x ∷ xs) t result h =
      let next = (execute_item options down none false x t).1 in
      let (u, done, whole) = bind-ok (execute_item options down none false x) _ t result h in
      let (rest, returned, whole') =
        bind-ok (execute options xs down none false) _ next result (
          sym (ap (λ (p : Result {0, 0} MigrationError RunResult × Transaction). p.0) whole) ∙ h) in
      ap (λ (p : Result {0, 0} MigrationError RunResult × Transaction). p.1.records)
        (whole ∙ whole')
      ∙ execute_down-records xs next rest returned
      ∙ ap (remove_each xs) (execute_item_down x t done)

  refused-state : (names : List String) (t : Transaction) → (refuse options names t).1 ≡ t
  refused-state [] t = refl
  refused-state (id ∷ names) t = refl

  pub down_run-records :
      (chosen : List MigrationRecord) (loaded : List LoadedMigration) (t : Transaction)
      (result : RunResult)
      → (down_run options false chosen loaded t).0 ≡ ok result
      → (down_run options false chosen loaded t).1.records
        ≡ remove_each (items_of options chosen loaded) t.records
  unfolding down_run assert_reversible
  down_run-records chosen loaded t result h =
      let xs = items_of options chosen loaded in
      let (u, done, whole) = bind-ok (assert_reversible options xs) _ t result h in
      let kept = refused-state (irreversible_ids options xs) t in
      ap (λ (p : Result {0, 0} MigrationError RunResult × Transaction). p.1.records) whole
      ∙ execute_down-records xs (assert_reversible options xs t).1 result
          (sym (ap (λ (p : Result {0, 0} MigrationError RunResult × Transaction). p.0) whole) ∙ h)
      ∙ ap (λ (s : Transaction). remove_each xs s.records) kept

  -- What stays is needed by what stays.
  abbrev pub IsClosed : List LoadedMigration → List LoadedMigration → Map MigrationRecord → Type 0
  IsClosed items xs m =
      (id : String) (r : MigrationRecord) (item : LoadedMigration)
      → Map.get id m ≡ some r
      → count id (ids xs) ≡ 0
      → find id items ≡ some item
      → (d : String) → IsApplied m r.batch d
      → count d (ids xs) ≡ 0

  pub remove_each-IsConsistent :
      (items xs : List LoadedMigration) (m : Map MigrationRecord)
      → IsConsistent items m
      → IsClosed items xs m
      → IsConsistent items (remove_each xs m)
  remove_each-IsConsistent items xs m consistent closed id r item at there =
      let (stays, here) : (count id (ids xs) ≡ 0) × (Map.get id m ≡ some r) =
        ground (arith, at, get-remove_each id xs m) in
      All-weaken (IsApplied m r.batch) (IsApplied (remove_each xs m) r.batch)
        (λ d (s, found, low). (
          s,
          ground (
            arith,
            found,
            get-remove_each d xs m,
            closed id r item here stays there d (s, found, low),
          ),
          low,
        ))
        (dependencies item) (consistent id r item here there)
