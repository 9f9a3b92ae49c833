-- ===== src/Migrations/Backend.antt =====
-- packages/migrations/src/testing.ts: `InMemoryMigrationBackend` and its transactions, one at a time.
use nuxt_laravelize.Common.Map
use nuxt_laravelize.Common.Sort.{sort}
use nuxt_laravelize.Common.Exec.{Exec, Result, ok, throw}
use nuxt_laravelize.Migrations.{
  MigrationError, already_recorded, history_write_failed, MigrationRecord,
}
use nuxt_laravelize.Common.{
  ℕ, ◌+◌, Bool, false, not, ◌&&◌, ◌||◌, List, [], ◌∷◌, ◌++◌, map, ltb, ◌==◌, if◌then◌else◌, String,
}
use nuxt_laravelize.Common.Map.{Map}

pub data ObjectKind : Type 0 where
  table schema : ObjectKind

pub record OwnedObject : Type 0 where
  pub kind : ObjectKind
  pub name : String

-- What a transaction works on; `fail_next_record` is the backend's own.
pub record Transaction : Type 0 where
  pub records : Map MigrationRecord
  pub statements : List String
  pub dropped : List OwnedObject
  pub fail_next_record : Bool

pub record Backend : Type 0 where
  pub current : Transaction
  pub transaction_count : ℕ

abbrev pub Action : Type 0 → Type 0
Action A = Exec Transaction MigrationError A

module _ (locale_lt : String → String → Bool) where
  -- The comparison of `sorted`.
  unfoldable pub record_before : MigrationRecord → MigrationRecord → Bool
  record_before a b =
      ltb a.batch b.batch
      || a.batch == b.batch
        && (locale_lt a.applied_at b.applied_at
            || not (locale_lt b.applied_at a.applied_at) && locale_lt a.id b.id)

  unfoldable pub list_records : Map MigrationRecord → List MigrationRecord
  list_records records = sort record_before (map (λ (e : String × MigrationRecord). e.1) records)

unfoldable pub execute_sql : (sql : String) → Action Unit
execute_sql sql t = (ok tt, record t { statements = t.statements ++ (sql ∷ []) })

unfoldable pub write_record : MigrationRecord → Action Unit
write_record r t =
    if t.fail_next_record
    then (throw history_write_failed, record t { fail_next_record = false })
    else if Map.has r.id t.records
    then (throw already_recorded, t)
    else (ok tt, record t { records = Map.put r.id r t.records })

unfoldable pub remove_record : (id : String) → Action Unit
remove_record id t = (ok tt, record t { records = Map.remove id t.records })

unfoldable pub clear_records : Action Unit
clear_records t = (ok tt, record t { records = [] })

unfoldable pub drop_owned : List OwnedObject → Action Unit
drop_owned objects t = (ok tt, record t { dropped = t.dropped ++ objects })

-- The end of a transaction: what it wrote stays if it returned.
unfoldable pub commit_or_undo {ℓ} :
    {A : Type ℓ}
    → Backend
    → Result MigrationError A × Transaction
    → Result MigrationError A × Backend
commit_or_undo b (ok a, t) =
    (ok a, record b { current = t; transaction_count = b.transaction_count + 1 })
commit_or_undo b (throw e, t) = (
  throw e,
  record b {
    current = record b.current { fail_next_record = t.fail_next_record };
    transaction_count = b.transaction_count + 1;
  },
)

unfoldable pub with_locked_transaction :
    {A : Type 0} → Action A → Backend → Result MigrationError A × Backend
with_locked_transaction callback b = commit_or_undo b (callback b.current)
