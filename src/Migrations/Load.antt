-- ===== src/Migrations/Load.antt =====
-- packages/migrations/src/index.ts: `load`, which reads and sorts the migrations of the sources, and
-- `checkedRecords`, which holds the applied records against them.
pub mod Laws
use nuxt_laravelize.Common.Map
use nuxt_laravelize.Common.Text.{codes}
use nuxt_laravelize.Common.Exec.{Result, ok, throw, and_then}
use nuxt_laravelize.Migrations.Order.{topological_sort, dependencies, map_by_id}
use nuxt_laravelize.Migrations.Identifier.{migration_id, define_migration, is_part}
use nuxt_laravelize.Migrations.{
  Dialect, MigrationError, Migration, MigrationSource, MigrationRecord, postgresql, sqlite,
  invalid_part, duplicate_migration, unsupported_dialect, duplicate_record, unknown_record,
  inconsistent_record, invalid_record, missing_dependency, preceding_dependency, checksum_mismatch,
  LoadedMigration, Checked,
}
use nuxt_laravelize.Common.{
  ℕ, String, Bool, true, false, not, ◌&&◌, ◌||◌, Option, none, some, List, [], ◌∷◌, ◌++◌, str_eq,
  ltb, leb, if◌then◌else◌, max_safe_integer, any,
}
use nuxt_laravelize.Common.Map.{Map}

unfoldable pub dialect_eq : Dialect → Dialect → Bool
dialect_eq postgresql postgresql = true
dialect_eq sqlite sqlite = true
dialect_eq _ _ = false

unfoldable pub supports : Option (List Dialect) → Dialect → Bool
unfolding dialect_eq
supports none dialect = true
supports (some dialects) dialect = any (dialect_eq dialect) dialects

module _ (dialect : Dialect) where
  -- One migration, when it is defined and has its id; `all` are the ones before it.
  unfoldable pub load_one :
      (namespace : String)
      → (all : List LoadedMigration) → Migration
      → Result MigrationError (List LoadedMigration)
  unfolding supports
  load_one namespace all raw = and_then (define_migration raw) λ migration.
      and_then (migration_id namespace migration.name) λ id.
        if any (λ (x : LoadedMigration). str_eq x.id id) all
        then throw duplicate_migration
        else if not (supports migration.dialects dialect)
        then throw unsupported_dialect
        else ok (all ++ (record { id = id; namespace = namespace; migration = migration } ∷ []))

  unfoldable pub load_each :
      (namespace : String)
      → (all : List LoadedMigration) → List Migration
      → Result MigrationError (List LoadedMigration)
  load_each namespace all [] = ok all
  load_each namespace all (raw ∷ raws) =
      and_then (load_one namespace all raw) λ all'. load_each namespace all' raws

  unfoldable pub load_sources :
      (all : List LoadedMigration)
      → List MigrationSource
      → Result MigrationError (List LoadedMigration)
  load_sources all [] = ok all
  load_sources all (source ∷ sources) =
      if not (is_part (codes source.namespace))
      then throw invalid_part
      else and_then (load_each source.namespace all source.migrations)
          λ all'. load_sources all' sources

  unfoldable pub load :
      (locale_lt : String → String → Bool)
      → List MigrationSource
      → Result MigrationError (List LoadedMigration)
  load locale_lt sources = and_then (load_sources [] sources) (topological_sort locale_lt)

abbrev pub first_record : String → List MigrationRecord → Option MigrationRecord
first_record id [] = none
first_record id (r ∷ rs) = if str_eq r.id id then some r else first_record id rs

-- The checks on one record and its item. `is_date` is `isCanonicalDate`.
unfoldable pub check_item : (is_date : String → Bool) → MigrationRecord → LoadedMigration → Checked
check_item is_date r item =
    if not (str_eq r.namespace item.namespace) || not (str_eq r.name item.migration.name)
    then throw inconsistent_record
    else and_then (migration_id r.namespace r.name) λ id.
      if not (str_eq r.id id)
      then throw inconsistent_record
      else if not (str_eq r.checksum item.migration.checksum)
      then throw (checksum_mismatch r.id)
      else if not (leb 1 r.batch && leb r.batch max_safe_integer) || not (is_date r.applied_at)
      then throw invalid_record
      else ok tt

abbrev item_or_unknown : Option LoadedMigration → Result {0, 0} MigrationError LoadedMigration
item_or_unknown none = throw unknown_record
item_or_unknown (some item) = ok item

-- A dependency is recorded in no later batch.
abbrev check_batch : Option MigrationRecord → (batch : ℕ) → Checked
check_batch none batch = throw missing_dependency
check_batch (some r) batch = if ltb batch r.batch then throw preceding_dependency else ok tt

abbrev pub needed : Option LoadedMigration → List String
needed none = []
needed (some item) = dependencies item

module _ (known : Map LoadedMigration) where
  -- The first loop of `checkedRecords`; `seen` are the ids before.
  unfoldable pub check_each :
      (is_date : String → Bool) → (seen : List String) → List MigrationRecord → Checked
  check_each is_date seen [] = ok tt
  check_each is_date seen (r ∷ rs) =
      let rest = check_each is_date (r.id ∷ seen) rs in
      if any (str_eq r.id) seen
      then throw duplicate_record
      else and_then (item_or_unknown (Map.get r.id known))
          λ item. and_then (check_item is_date r item) λ u. rest

  unfoldable pub check_needs :
      (records : List MigrationRecord) → (batch : ℕ) → (dependencies : List String) → Checked
  check_needs records batch [] = ok tt
  check_needs records batch (d ∷ ds) =
      let rest = check_needs records batch ds in
      and_then (check_batch (first_record d records) batch) λ u. rest

  -- The second loop.
  unfoldable pub check_dependencies : (records rest : List MigrationRecord) → Checked
  check_dependencies records [] = ok tt
  check_dependencies records (r ∷ rs) =
      let others = check_dependencies records rs in
      and_then (check_needs records r.batch (needed (Map.get r.id known))) λ u. others

unfoldable pub checked_records :
    (is_date : String → Bool)
    → List LoadedMigration
    → List MigrationRecord
    → Result MigrationError (List MigrationRecord)
checked_records is_date loaded records =
    let known = map_by_id (λ item. item) loaded [] in
    and_then (check_each known is_date [] records)
      λ u. and_then (check_dependencies known records records) λ u'. ok records
