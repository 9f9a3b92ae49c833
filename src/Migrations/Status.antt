-- ===== src/Migrations/Status.antt =====
-- packages/migrations/src/index.ts: the constructor of `MigrationRunner`, and `plan`, which lists the
-- state of every migration.
use nuxt_laravelize.Common.Map
use nuxt_laravelize.Migrations.{
  LoadedMigration, MigrationRecord, MigrationError, Checked, Dialect, dialect_mismatch,
}
use nuxt_laravelize.Common.{ℕ, String, not, Option, none, some, List, [], ◌∷◌, map, if◌then◌else◌}
use nuxt_laravelize.Common.Exec.{and_then, Result, ok, throw}
use nuxt_laravelize.Common.Map.{Map}
use nuxt_laravelize.Migrations.Backend.{list_records, Backend}
use nuxt_laravelize.Migrations.Load.{dialect_eq, load, checked_records}
use nuxt_laravelize.Migrations.Identifier.{assert_part}
use nuxt_laravelize.Migrations.Runner.{RunnerOptions}
use nuxt_laravelize.Migrations.Order.Laws.{found}

pub data MigrationState : Type 0 where
  pending applied : MigrationState

pub record MigrationStatus : Type 0 where
  pub id : String
  pub namespace : String
  pub name : String
  pub checksum : String
  pub state : MigrationState
  pub batch : Option ℕ
  pub applied_at : Option String

abbrev name_or : Option String → String
name_or none = "migrations"
name_or (some name) = name

-- The checks of the constructor. The lock's name has a default.
unfoldable pub check_runner :
    (backend_dialect : Dialect) → (lock_name : Option String) → RunnerOptions → Checked
check_runner backend_dialect lock_name options =
    if not (dialect_eq backend_dialect options.dialect)
    then throw dialect_mismatch
    else assert_part (name_or lock_name)

abbrev state_of : Option MigrationRecord → MigrationState
state_of none = pending
state_of (some r) = applied

abbrev batch_of : Option MigrationRecord → Option ℕ
batch_of none = none
batch_of (some r) = some r.batch

abbrev date_of : Option MigrationRecord → Option String
date_of none = none
date_of (some r) = some r.applied_at

unfoldable pub status_of : LoadedMigration → Option MigrationRecord → MigrationStatus
status_of item found = record {
  id = item.id;
  namespace = item.namespace;
  name = item.migration.name;
  checksum = item.migration.checksum;
  state = state_of found;
  batch = batch_of found;
  applied_at = date_of found;
}

unfoldable pub records_by_id : List MigrationRecord → Map MigrationRecord → Map MigrationRecord
records_by_id [] m = m
records_by_id (r ∷ rs) m = records_by_id rs (Map.put r.id r m)

unfoldable pub to_status : List LoadedMigration → List MigrationRecord → List MigrationStatus
to_status loaded records =
    let by_id = records_by_id records [] in
    map (λ (item : LoadedMigration). status_of item (Map.get item.id by_id)) loaded

unfoldable pub plan : RunnerOptions → Backend → Result MigrationError (List MigrationStatus)
plan options b = and_then (load options.dialect options.locale_lt options.sources) λ loaded.
    and_then
      (checked_records options.is_date loaded (list_records options.locale_lt b.current.records))
      λ records. ok (to_status loaded records)
