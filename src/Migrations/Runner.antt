-- ===== src/Migrations/Runner.antt =====
-- packages/migrations/src/index.ts: `MigrationRunner` over the backend in memory. A reading of the
-- clock is a text for the migration that is recorded.
use Prim.Native.String
pub mod Untouched
pub mod Applied
pub mod LastBatch
pub mod Undone
pub mod Consistent
use nuxt_laravelize.Common.Sort.{sort}
use nuxt_laravelize.Common.Text.{codes, is_blank}
use nuxt_laravelize.Common.Exec.{Result, ok, throw, ◌>>=◌, ◌>>◌, pure, raise, and_then}
use nuxt_laravelize.Migrations.Backend.{
  Action, Backend, OwnedObject, ObjectKind, list_records, execute_sql, write_record, remove_record,
  clear_records, drop_owned, with_locked_transaction, table, schema,
}
use nuxt_laravelize.Migrations.Identifier.{is_part}
use nuxt_laravelize.Migrations.Load.{load, checked_records}
use nuxt_laravelize.Migrations.{
  Checked, Dialect, Direction, Statement, MigrationError, Handler, Migration, MigrationSource, up,
  down, invalid_part, invalid_limit, empty_sql, invalid_ownership, duplicate_object, irreversible,
  handler_error, LoadedMigration, MigrationRecord,
}
use nuxt_laravelize.Common.{
  ℕ, ◌+◌, max, String, Bool, true, false, not, ◌&&◌, ◌||◌, Option, none, some, List, [], ◌∷◌, ◌++◌,
  map, str_eq, ltb, leb, ◌==◌, if◌then◌else◌, max_safe_integer, length, take, any, select,
}
use mathlib.Core.List.{reverse}

pub record FreshOwnership : Type 0 where
  pub owner : String
  pub objects : List OwnedObject

-- `is_date` is `isCanonicalDate`, and `locale_lt` whether `localeCompare` is negative.
pub record RunnerOptions : Type 0 where
  pub dialect : Dialect
  pub sources : List MigrationSource
  pub ownership : Option FreshOwnership
  pub clock : (id : String) → String
  pub locale_lt : String → String → Bool
  pub is_date : String → Bool

pub record Executed : Type 0 where
  pub id : String
  pub direction : Direction
  pub batch : Option ℕ

pub record RunResult : Type 0 where
  pub executed : List Executed
  pub statements : List Statement

-- `context.execute`
unfoldable pub execute_statement : (pretend : Bool) → Statement → Action Unit
execute_statement pretend statement =
    if is_blank statement.sql
    then raise empty_sql
    else if pretend
    then pure tt
    else execute_sql statement.sql

unfoldable pub run_statements : (pretend : Bool) → List Statement → Action Unit
run_statements pretend [] = pure tt
run_statements pretend (s ∷ ss) =
    let rest = run_statements pretend ss in do execute_statement pretend s; rest

abbrev finish_handler : Option String → Action Unit
finish_handler none = pure tt
finish_handler (some error) = raise (handler_error error)

unfoldable pub run_handler : (pretend : Bool) → Handler → Action Unit
run_handler pretend h = do run_statements pretend h.statements; finish_handler h.failure

abbrev pub handler_of : Direction → Migration → Option Handler
handler_of up m = some m.up
handler_of down m = m.down

-- `migration.down!` of a migration that has none is no function.
abbrev run_direction : (pretend : Bool) → Option Handler → Action Unit
run_direction pretend none = raise (handler_error "down is not a function")
run_direction pretend (some h) = run_handler pretend h

abbrev statements_of : Option Handler → List Statement
statements_of none = []
statements_of (some h) = h.statements

abbrev batch_or : Option ℕ → ℕ
batch_or none = 0
batch_or (some batch) = batch

module _ (options : RunnerOptions) where
  unfoldable pub new_record : LoadedMigration → (batch : ℕ) → MigrationRecord
  new_record item batch = record {
    id = item.id;
    namespace = item.namespace;
    name = item.migration.name;
    checksum = item.migration.checksum;
    batch = batch;
    applied_at = options.clock item.id;
  }

  unfoldable pub note_item : Direction → (batch : Option ℕ) → LoadedMigration → Action Unit
  note_item up batch item = write_record (new_record item (batch_or batch))
  note_item down batch item = remove_record item.id

  -- One round of `execute`.
  unfoldable pub execute_item :
      Direction → (batch : Option ℕ) → (pretend : Bool) → LoadedMigration → Action Unit
  execute_item direction batch pretend item = do
    run_direction pretend (handler_of direction item.migration)
    if pretend then pure tt else note_item direction batch item

  unfoldable pub execute :
      List LoadedMigration → Direction → (batch : Option ℕ) → (pretend : Bool) → Action RunResult
  execute [] direction batch pretend = pure (record { executed = []; statements = [] })
  execute (item ∷ items) direction batch pretend =
      let rest = execute items direction batch pretend in
      do
        execute_item direction batch pretend item
        result ← rest
        pure (record {
          executed =
              record { id = item.id; direction = direction; batch = batch } ∷ result.executed;
          statements = statements_of (handler_of direction item.migration) ++ result.statements;
        })

  -- `assertReversible`
  abbrev id_unless : Option Handler → String → List String → List String
  id_unless none id ids = id ∷ ids
  id_unless (some h) id ids = ids

  unfoldable pub irreversible_ids : List LoadedMigration → List String
  irreversible_ids [] = []
  irreversible_ids (item ∷ items) = id_unless item.migration.down item.id (irreversible_ids items)

  abbrev refuse : List String → Action Unit
  refuse [] = pure tt
  refuse (id ∷ ids) = raise (irreversible (id ∷ ids))

  unfoldable pub assert_reversible : List LoadedMigration → Action Unit
  assert_reversible items = refuse (irreversible_ids items)

  abbrev pub is_recorded : List MigrationRecord → LoadedMigration → Bool
  is_recorded records item = any (λ (r : MigrationRecord). str_eq r.id item.id) records

  abbrev take_limit : Option ℕ → List LoadedMigration → List LoadedMigration
  take_limit none items = items
  take_limit (some n) items = take n items

  unfoldable pub next_batch : List MigrationRecord → ℕ
  next_batch [] = 1
  next_batch (r ∷ rs) = max (r.batch + 1) (next_batch rs)

  unfoldable pub pending_items :
      (limit : Option ℕ) → List LoadedMigration → List MigrationRecord → List LoadedMigration
  pending_items limit loaded records =
      take_limit limit (select (λ (item : LoadedMigration). not (is_recorded records item)) loaded)

  abbrev Run : Type 0
  Run = List LoadedMigration → List MigrationRecord → Action RunResult

  abbrev run_checked :
      Run → List LoadedMigration → Result MigrationError (List MigrationRecord) → Action RunResult
  run_checked run loaded (throw e) t = (throw e, t)
  run_checked run loaded (ok records) t = run loaded records t

  unfoldable pub checked_run : Run → List LoadedMigration → Action RunResult
  checked_run run loaded t =
      run_checked run loaded
        (checked_records options.is_date loaded (list_records options.locale_lt t.records)) t

  -- `locked`, when the migrations are loaded.
  unfoldable pub run_loaded :
      Run
      → Result MigrationError (List LoadedMigration)
      → Backend
      → Result MigrationError RunResult × Backend
  run_loaded run (throw e) b = (throw e, b)
  run_loaded run (ok loaded) b = with_locked_transaction (checked_run run loaded) b

  unfoldable pub locked : Run → Backend → Result MigrationError RunResult × Backend
  locked run b = run_loaded run (load options.dialect options.locale_lt options.sources) b

  -- A count of 0, or one that is not safe, is refused.
  abbrev is_count : Option ℕ → Bool
  is_count none = true
  is_count (some n) = leb 1 n && leb n max_safe_integer

  unfoldable pub up_run :
      (pretend : Bool)
      → (limit : Option ℕ) → List LoadedMigration
      → List MigrationRecord
      → Action RunResult
  up_run pretend limit loaded records =
      execute (pending_items limit loaded records) up (some (next_batch records)) pretend

  unfoldable pub migrate_up :
      (pretend : Bool) → (limit : Option ℕ) → Backend → Result MigrationError RunResult × Backend
  migrate_up pretend limit b =
      if is_count limit then locked (up_run pretend limit) b else (throw invalid_limit, b)

  -- The distinct batches, the last first.
  unfoldable pub batches_of : List MigrationRecord → List ℕ
  batches_of [] = []
  batches_of (r ∷ rs) =
      let rest = batches_of rs in if any (λ n. r.batch == n) rest then rest else r.batch ∷ rest

  unfoldable pub last_batches : (count : ℕ) → List MigrationRecord → List ℕ
  last_batches count records = take count (sort (λ a b. ltb b a) (batches_of records))

  abbrev pub in_batches : List ℕ → MigrationRecord → Bool
  in_batches batches r = any (λ n. r.batch == n) batches

  unfoldable pub items_of : List MigrationRecord → List LoadedMigration → List LoadedMigration
  items_of records loaded = reverse (select (is_recorded records) loaded)

  unfoldable pub down_run :
      (pretend : Bool) → (chosen : List MigrationRecord) → List LoadedMigration → Action RunResult
  down_run pretend chosen loaded = do
    assert_reversible (items_of chosen loaded)
    execute (items_of chosen loaded) down none pretend

  abbrev pub last_records : (count : ℕ) → List MigrationRecord → List MigrationRecord
  last_records count records = select (in_batches (last_batches count records)) records

  abbrev pub one_or : Option ℕ → ℕ
  one_or none = 1
  one_or (some n) = n

  unfoldable pub rollback_run : (pretend : Bool) → (count : ℕ) → Run
  rollback_run pretend count loaded records = down_run pretend (last_records count records) loaded

  unfoldable pub rollback :
      (pretend : Bool) → (batches : Option ℕ) → Backend → Result MigrationError RunResult × Backend
  rollback pretend batches b =
      if is_count batches
      then locked (rollback_run pretend (one_or batches)) b
      else (throw invalid_limit, b)

  unfoldable pub reset_run : (pretend : Bool) → Run
  reset_run pretend loaded records = down_run pretend records loaded

  unfoldable pub reset : (pretend : Bool) → Backend → Result MigrationError RunResult × Backend
  reset pretend b = locked (reset_run pretend) b

  kind_eq : ObjectKind → ObjectKind → Bool
  kind_eq table table = true
  kind_eq schema schema = true
  kind_eq _ _ = false

  -- `validateOwnership`
  unfoldable pub validate_ownership : (seen : List OwnedObject) → List OwnedObject → Checked
  unfolding kind_eq
  validate_ownership seen [] = ok tt
  validate_ownership seen (o ∷ os) =
      let rest = validate_ownership (o ∷ seen) os in
      if not (is_part (codes o.name))
      then throw invalid_part
      else if any (λ (p : OwnedObject). kind_eq p.kind o.kind && str_eq p.name o.name) seen
      then throw duplicate_object
      else rest

  abbrev check_ownership : Option FreshOwnership → Result {0, 0} MigrationError (List OwnedObject)
  check_ownership none = throw invalid_ownership
  check_ownership (some ownership) =
      if not (is_part (codes ownership.owner)) || length ownership.objects == 0
      then throw invalid_ownership
      else and_then (validate_ownership [] ownership.objects) λ u. ok ownership.objects

  abbrev kind_text : ObjectKind → String
  kind_text table = "table"
  kind_text schema = "schema"

  abbrev fresh_statement : OwnedObject → Statement
  fresh_statement o = record {
    sql = String.◌++◌ "fresh " (String.◌++◌ (kind_text o.kind) (String.◌++◌ " " o.name));
    parameters = none;
  }

  unfoldable pub fresh_owned :
      (pretend : Bool)
      → List LoadedMigration
      → Result {0, 0} MigrationError (List OwnedObject)
      → Action RunResult
  fresh_owned pretend loaded (throw e) = raise e
  fresh_owned true loaded (ok objects) = do
    result ← execute loaded up (some 1) true
    pure (record result { statements = map fresh_statement objects ++ result.statements })
  fresh_owned false loaded (ok objects) = do
    drop_owned objects
    clear_records
    execute loaded up (some 1) false

  unfoldable pub fresh_run : (pretend : Bool) → Run
  fresh_run pretend loaded records = fresh_owned pretend loaded (check_ownership options.ownership)

  unfoldable pub fresh : (pretend : Bool) → Backend → Result MigrationError RunResult × Backend
  fresh pretend b = locked (fresh_run pretend) b

-- A call of the runner.
pub data RunnerCall : Type 0 where
  ups : (pretend : Bool) → (limit : Option ℕ) → RunnerCall
  rollbacks : (pretend : Bool) → (batches : Option ℕ) → RunnerCall
  resets freshes : (pretend : Bool) → RunnerCall

unfoldable pub perform :
    RunnerOptions → RunnerCall → Backend → Result MigrationError RunResult × Backend
perform options (ups pretend limit) b = migrate_up options pretend limit b
perform options (rollbacks pretend batches) b = rollback options pretend batches b
perform options (resets pretend) b = reset options pretend b
perform options (freshes pretend) b = fresh options pretend b
