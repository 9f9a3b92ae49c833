-- ===== src/Migrations/Load/Laws.antt =====
-- packages/migrations/src/index.ts: `load` returns migrations with distinct ids, sorted.
use nuxt_laravelize.Common.Exec.{ok, Result-cases}
use nuxt_laravelize.Migrations.Order.Items.{find, IsDistinct}
use nuxt_laravelize.Migrations.Order.Laws.{HasItems, IsSorted, topological_sort-IsSorted}
use nuxt_laravelize.Migrations.Identifier.{migration_id, define_migration}
use nuxt_laravelize.Migrations.{Dialect, Migration, MigrationSource, LoadedMigration}
use nuxt_laravelize.Common.{
  String, ◌≡◌, refl, inl, inr, Bool, false, none, List, [], ◌∷◌, ◌++◌, arith, str_eq, eq_iff, any,
}
use nuxt_laravelize.Migrations.Load.{load_one, load_each, load_sources, load}
use nuxt_laravelize.Migrations.Runner.Consistent.Calls.{read}

find-any :
    (k : String) (xs : List LoadedMigration)
    → any (λ (x : LoadedMigration). str_eq x.id k) xs ≡ false
    → find k xs ≡ none
unfolding find
find-any k [] h = refl
find-any k (x ∷ xs) h = ground (arith, h, find-any k xs)

find-append :
    (k : String) (xs : List LoadedMigration) (y : LoadedMigration)
    → find k xs ≡ none
    → str_eq y.id k ≡ false
    → find k (xs ++ (y ∷ [])) ≡ none
unfolding find
find-append k [] y h other = ground (arith, other)
find-append k (x ∷ xs) y h other = ground (arith, h, find-append k xs y)

append-IsDistinct :
    (xs : List LoadedMigration) (y : LoadedMigration)
    → IsDistinct xs
    → any (λ (x : LoadedMigration). str_eq x.id y.id) xs ≡ false
    → IsDistinct (xs ++ (y ∷ []))
unfolding find
append-IsDistinct [] y d h = (refl, tt)
append-IsDistinct (x ∷ xs) y (new, d) h = (
  find-append x.id xs y new (ground (arith, h, eq_iff x.id y.id, eq_iff y.id x.id)),
  append-IsDistinct xs y d (ground (arith, h)),
)

module _ (dialect : Dialect) where
  load_one-IsDistinct :
      (namespace : String) (all all' : List LoadedMigration) (raw : Migration)
      → IsDistinct all
      → load_one dialect namespace all raw ≡ ok all'
      → IsDistinct all'
  unfolding load_one
  load_one-IsDistinct namespace all all' raw d h = elim (Result-cases (define_migration raw)) [
    | inr (e, failed) ↦ absurd (ground (arith, h, failed))
    | inl (migration, defined) ↦ elim (Result-cases (migration_id namespace migration.name)) [
      | inr (e, failed) ↦ absurd (ground (arith, h, defined, failed))
      | inl (id, named) ↦
          let item : LoadedMigration = record {
            id = id;
            namespace = namespace;
            migration = migration;
          } in
          let (new, e) : (any (λ (x : LoadedMigration). str_eq x.id id) all ≡ false)
              × (all ++ (item ∷ []) ≡ all') =
            ground (arith, h, defined, named) in
          rw (← e) (append-IsDistinct all item d new)
    ]
  ]

  load_each-IsDistinct :
      (namespace : String) (raws : List Migration) (all all' : List LoadedMigration)
      → IsDistinct all
      → load_each dialect namespace all raws ≡ ok all'
      → IsDistinct all'
  unfolding load_each
  load_each-IsDistinct namespace [] all all' d h =
      let e : all ≡ all' = ground (arith, h) in rw (← e) d
  load_each-IsDistinct namespace (raw ∷ raws) all all' d h =
      elim (Result-cases (load_one dialect namespace all raw)) [
        | inr (e, failed) ↦ absurd (ground (arith, h, failed))
        | inl (between, loaded) ↦
            load_each-IsDistinct namespace raws between all'
              (load_one-IsDistinct namespace all between raw d loaded) (ground (arith, h, loaded))
      ]

  load_sources-IsDistinct :
      (sources : List MigrationSource) (all all' : List LoadedMigration)
      → IsDistinct all
      → load_sources dialect all sources ≡ ok all'
      → IsDistinct all'
  unfolding load_sources
  load_sources-IsDistinct [] all all' d h = let e : all ≡ all' = ground (arith, h) in rw (← e) d
  load_sources-IsDistinct (source ∷ sources) all all' d h =
      elim (Result-cases (load_each dialect source.namespace all source.migrations)) [
        | inr (e, failed) ↦ absurd (ground (arith, h, failed))
        | inl (between, loaded) ↦
            load_sources-IsDistinct sources between all'
              (load_each-IsDistinct source.namespace source.migrations all between d loaded)
              (ground (arith, h, loaded))
      ]

-- What is loaded are the items of the sources, which have distinct ids, each behind the ones that
-- it depends on.
pub load_lem :
    (dialect : Dialect) (locale_lt : String → String → Bool) (sources : List MigrationSource)
    (loaded : List LoadedMigration)
    → load dialect locale_lt sources ≡ ok loaded
    → (items : List LoadedMigration) × IsDistinct items × HasItems items loaded × IsSorted [] loaded
unfolding load
load_lem dialect locale_lt sources loaded h =
    elim (Result-cases (load_sources dialect [] sources)) [
      | inr (e, failed) ↦ absurd (ground (arith, h, failed))
      | inl (items, read) ↦
          let distinct = load_sources-IsDistinct dialect sources [] items tt read in
          let sorted =
            topological_sort-IsSorted locale_lt items distinct loaded (ground (arith, h, read)) in
          (items, distinct, sorted.0, sorted.1)
    ]
