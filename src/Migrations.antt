-- ===== src/Migrations.antt =====
-- packages/migrations/src/index.ts: the types of migrations, their records, and the errors.
pub mod Order
pub mod Identifier
pub mod Load
pub mod Backend
pub mod Runner
pub mod Status
pub mod Sql
pub mod Tests
use nuxt_laravelize.Common.Exec.{Result}
use nuxt_laravelize.Common.{ℕ, String, List, Option}

pub data Dialect : Type 0 where
  postgresql sqlite : Dialect

pub data Direction : Type 0 where
  up down : Direction

-- A parameter is an opaque value, of which the text stands for it.
pub record Statement : Type 0 where
  pub sql : String
  pub parameters : Option (List String)

-- `MigrationConfigurationError` by its message, and the errors that stand beside it. A handler that
-- throws throws an error of its own.
pub data MigrationError : Type 0 where
  invalid_part invalid_checksum invalid_dependency invalid_dialects : MigrationError
  duplicate_migration unsupported_dialect unknown_dependency dependency_cycle : MigrationError
  duplicate_record unknown_record inconsistent_record invalid_record : MigrationError
  missing_dependency preceding_dependency : MigrationError
  invalid_limit dialect_mismatch empty_sql invalid_ownership duplicate_object : MigrationError
  checksum_mismatch : (id : String) → MigrationError
  irreversible : (ids : List String) → MigrationError
  already_recorded history_write_failed : MigrationError
  handler_error : (error : String) → MigrationError

-- A check that returns nothing.
abbrev pub Checked : Type 0
Checked = Result {0, 0} MigrationError Unit

-- What a handler does with its context: the statements that it executes, one after the other, and
-- what it throws behind them, if it does. An error of `execute` ends it.
pub record Handler : Type 0 where
  pub statements : List Statement
  pub failure : Option String

pub record Migration : Type 0 where
  pub name : String
  pub checksum : String
  pub depends_on : Option (List String)
  pub dialects : Option (List Dialect)
  pub up : Handler
  pub down : Option Handler

pub record MigrationSource : Type 0 where
  pub namespace : String
  pub migrations : List Migration

-- `appliedAt` is a text; whether it is a canonical date is asked of the platform.
pub record MigrationRecord : Type 0 where
  pub id : String
  pub namespace : String
  pub name : String
  pub checksum : String
  pub batch : ℕ
  pub applied_at : String

pub record LoadedMigration : Type 0 where
  pub id : String
  pub namespace : String
  pub migration : Migration
