-- ===== src/Migrations/Runner/Untouched.antt =====
-- packages/migrations/src/index.ts: a run that pretends, or that throws, leaves the database as it is.
use nuxt_laravelize.Migrations.Backend.{
  commit_or_undo, with_locked_transaction, Transaction, Action, OwnedObject, Backend,
}
use nuxt_laravelize.Migrations.{
  Direction, Statement, Handler, LoadedMigration, MigrationError, MigrationRecord, up, down,
  invalid_limit,
}
use nuxt_laravelize.Common.{
  ℕ, String, ◌≡◌, refl, inl, inr, Bool, true, Option, none, some, List, [], ◌∷◌, arith, ◌∙◌, ap,
  ◌⊎◌, false, if◌then◌else◌,
}
use nuxt_laravelize.Migrations.Runner.{
  run_handler, execute, execute_statement, run_statements, execute_item, RunnerOptions, RunnerCall,
  ups, rollbacks, resets, freshes, handler_of, irreversible_ids, assert_reversible, checked_run,
  run_loaded, locked, items_of, down_run, fresh_owned, RunResult, finish_handler, refuse,
  run_direction, perform, up_run, migrate_up, one_or, rollback_run, rollback, reset_run, reset,
  fresh_run, fresh, is_count, run_checked,
}
use nuxt_laravelize.Common.Exec.{Result-cases, pure, ◌>>=◌, Result, ok, throw}
use nuxt_laravelize.Migrations.Load.{load}

abbrev pub pretends : RunnerCall → Bool
pretends (ups pretend limit) = pretend
pretends (rollbacks pretend batches) = pretend
pretends (resets pretend) = pretend
pretends (freshes pretend) = pretend

-- What others read of the database: the records, the statements and the dropped objects.
abbrev pub IsSame : Transaction → Transaction → Type 0
IsSame t u = (t.records ≡ u.records) × (t.statements ≡ u.statements) × (t.dropped ≡ u.dropped)

-- What a run does when it returns; one that pretends returns its state unchanged.
abbrev IsQuiet : {A : Type 0} → Action A → Type 0
IsQuiet action = (t : Transaction) → (action t).1 ≡ t

bind-IsQuiet :
    {A B : Type 0} (m : Action A) (k : A → Action B)
    → IsQuiet m
    → ((a : A) → IsQuiet (k a))
    → IsQuiet (m >>= k)
bind-IsQuiet m k quiet rest t = elim (Result-cases (m t).0) [
  | inl (a, done) ↦ rw done (rest a (m t).1 ∙ quiet t)
  | inr (e, failed) ↦ rw failed (quiet t)
]

execute_statement-IsQuiet : (s : Statement) → IsQuiet (execute_statement true s)
unfolding execute_statement
execute_statement-IsQuiet s t = ground arith

run_statements-IsQuiet : (ss : List Statement) → IsQuiet (run_statements true ss)
unfolding run_statements
run_statements-IsQuiet [] t = refl
run_statements-IsQuiet (s ∷ ss) t =
    (bind-IsQuiet (execute_statement true s) (λ u. run_statements true ss)
        (execute_statement-IsQuiet s) λ u. run_statements-IsQuiet ss)
      t

finish-IsQuiet : (e : Option String) → IsQuiet (finish_handler e)
finish-IsQuiet none t = refl
finish-IsQuiet (some e) t = refl

run_direction-IsQuiet : (h : Option Handler) → IsQuiet (run_direction true h)
unfolding run_handler
run_direction-IsQuiet none t = refl
run_direction-IsQuiet (some h) t =
    (bind-IsQuiet (run_statements true h.statements) (λ u. finish_handler h.failure)
        (run_statements-IsQuiet h.statements) λ u. finish-IsQuiet h.failure)
      t

module _ (options : RunnerOptions) where
  execute_item-IsQuiet :
      (direction : Direction) (batch : Option ℕ) (item : LoadedMigration)
      → IsQuiet (execute_item options direction batch true item)
  unfolding execute_item
  execute_item-IsQuiet direction batch item =
      bind-IsQuiet (run_direction true (handler_of direction item.migration)) (λ u. pure tt)
        (run_direction-IsQuiet (handler_of direction item.migration)) λ u t. refl

  execute-IsQuiet :
      (items : List LoadedMigration) (direction : Direction) (batch : Option ℕ)
      → IsQuiet (execute options items direction batch true)
  unfolding execute
  execute-IsQuiet [] direction batch t = refl
  execute-IsQuiet (x ∷ xs) direction batch t =
      (bind-IsQuiet (execute_item options direction batch true x) _
          (execute_item-IsQuiet direction batch x)
          λ u.
            bind-IsQuiet (execute options xs direction batch true) _
              (execute-IsQuiet xs direction batch) λ result t. refl)
        t

  refuse-IsQuiet : (ids : List String) → IsQuiet (refuse options ids)
  refuse-IsQuiet [] t = refl
  refuse-IsQuiet (id ∷ ids) t = refl

  down_run-IsQuiet :
      (chosen : List MigrationRecord) (loaded : List LoadedMigration)
      → IsQuiet (down_run options true chosen loaded)
  unfolding down_run assert_reversible
  down_run-IsQuiet chosen loaded =
      bind-IsQuiet (assert_reversible options (items_of options chosen loaded)) _
        (refuse-IsQuiet (irreversible_ids options (items_of options chosen loaded)))
        λ u. execute-IsQuiet (items_of options chosen loaded) down none

  fresh_owned-IsQuiet :
      (loaded : List LoadedMigration) (owned : Result {0, 0} MigrationError (List OwnedObject))
      → IsQuiet (fresh_owned options true loaded owned)
  unfolding fresh_owned
  fresh_owned-IsQuiet loaded (throw e) t = refl
  fresh_owned-IsQuiet loaded (ok objects) t =
      (bind-IsQuiet (execute options loaded up (some 1) true) _ (execute-IsQuiet loaded up (some 1))
          λ result t. refl)
        t

  -- The database behind a run.
  abbrev Leaves : Backend → Result MigrationError RunResult × Backend → Type 0
  Leaves b answer = IsSame answer.1.current b.current

  abbrev Run : Type 0
  Run = List LoadedMigration → List MigrationRecord → Action RunResult

  -- Whether a run never changes its state, or whether the answer is an error.
  abbrev Excuses : Run → Result MigrationError RunResult → Type 0
  Excuses run answer =
      ((loaded : List LoadedMigration) (records : List MigrationRecord)
        → IsQuiet (run loaded records))
      ⊎ ((e : MigrationError) × (answer ≡ throw e))

  run_checked-IsQuiet :
      (run : Run) (loaded : List LoadedMigration)
      (checked : Result MigrationError (List MigrationRecord))
      → ((loaded : List LoadedMigration) (records : List MigrationRecord)
          → IsQuiet (run loaded records))
      → IsQuiet (run_checked options run loaded checked)
  run_checked-IsQuiet run loaded (throw e) quiet t = refl
  run_checked-IsQuiet run loaded (ok records) quiet t = quiet loaded records t

  commit-Leaves :
      (b : Backend) (r : Result MigrationError RunResult) (t : Transaction)
      → (t ≡ b.current) ⊎ ((e : MigrationError) × ((commit_or_undo b (r, t)).0 ≡ throw e))
      → Leaves b (commit_or_undo b (r, t))
  unfolding commit_or_undo
  commit-Leaves b (throw e) t excuse = (refl, refl, refl)
  commit-Leaves b (ok result) t (inl same) = (
    ap (λ (u : Transaction). u.records) same,
    ap (λ (u : Transaction). u.statements) same,
    ap (λ (u : Transaction). u.dropped) same,
  )
  commit-Leaves b (ok result) t (inr (e, failed)) = absurd (ground (arith, failed))

  run_loaded-Leaves :
      (run : Run) (loaded : Result MigrationError (List LoadedMigration)) (b : Backend)
      → Excuses run (run_loaded options run loaded b).0
      → Leaves b (run_loaded options run loaded b)
  unfolding run_loaded with_locked_transaction checked_run
  run_loaded-Leaves run (throw e) b excuse = (refl, refl, refl)
  run_loaded-Leaves run (ok loaded) b (inl quiet) =
      commit-Leaves b _ _ (inl (run_checked-IsQuiet run loaded _ quiet b.current))
  run_loaded-Leaves run (ok loaded) b (inr failed) = commit-Leaves b _ _ (inr failed)

  guarded-Leaves :
      (valid : Bool) (run : Run) (b : Backend)
      → Excuses run (if valid then locked options run b else (throw invalid_limit, b)).0
      → Leaves b (if valid then locked options run b else (throw invalid_limit, b))
  unfolding locked
  guarded-Leaves true run b excuse =
      run_loaded-Leaves run (load options.dialect options.locale_lt options.sources) b excuse
  guarded-Leaves false run b excuse = (refl, refl, refl)

-- If a call of up, rollback, reset or fresh pretends, or throws, then the records, the statements
-- and the dropped objects of the backend stay as they are.
pub perform-IsSame :
    (options : RunnerOptions) (c : RunnerCall) (b : Backend)
    → (pretends c ≡ true) ⊎ ((e : MigrationError) × ((perform options c b).0 ≡ throw e))
    → IsSame (perform options c b).1.current b.current
unfolding perform migrate_up rollback reset fresh up_run rollback_run reset_run fresh_run
perform-IsSame options (ups true limit) b excuse =
    guarded-Leaves options (is_count options limit) (up_run options true limit) b
      (inl λ loaded records t. execute-IsQuiet options _ up _ t)
perform-IsSame options (rollbacks true batches) b excuse =
    guarded-Leaves options (is_count options batches)
      (rollback_run options true (one_or options batches)) b
      (inl λ loaded records t. down_run-IsQuiet options _ loaded t)
perform-IsSame options (resets true) b excuse =
    guarded-Leaves options true (reset_run options true) b
      (inl λ loaded records t. down_run-IsQuiet options records loaded t)
perform-IsSame options (freshes true) b excuse =
    guarded-Leaves options true (fresh_run options true) b
      (inl λ loaded records t. fresh_owned-IsQuiet options loaded _ t)
perform-IsSame options (ups false limit) b (inr failed) =
    guarded-Leaves options (is_count options limit) (up_run options false limit) b (inr failed)
perform-IsSame options (rollbacks false batches) b (inr failed) =
    guarded-Leaves options (is_count options batches)
      (rollback_run options false (one_or options batches)) b (inr failed)
perform-IsSame options (resets false) b (inr failed) =
    guarded-Leaves options true (reset_run options false) b (inr failed)
perform-IsSame options (freshes false) b (inr failed) =
    guarded-Leaves options true (fresh_run options false) b (inr failed)
perform-IsSame options c b (inl quiet) = absurd (ground (arith, quiet))
