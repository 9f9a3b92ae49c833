-- ===== src/Migrations/Tests.antt =====
-- packages/migrations/src/index.ts: two migrations, the second of which needs the first.
use nuxt_laravelize.Common.Map
use nuxt_laravelize.Common.Int.{◌+ℤ◌}
use nuxt_laravelize.Common.Sort.{sort, insert}
use nuxt_laravelize.Common.Text.{text_lt, codes, is_space, is_blank}
use nuxt_laravelize.Common.Exec.{ok}
use nuxt_laravelize.Migrations.Order.Items.{find, IsDistinct}
use nuxt_laravelize.Migrations.Order.Laws.{HasItems, IsSorted, topological_sort-IsSorted}
use nuxt_laravelize.Migrations.Order.Total.{topological_sort_returns}
use nuxt_laravelize.Migrations.Load.{
  load, load_one, load_each, load_sources, dialect_eq, supports, check_item, check_each,
  check_needs, check_dependencies, checked_records,
}
use nuxt_laravelize.Migrations.Identifier.{
  migration_id, define_migration, is_part, is_part_char, is_checksum, is_migration_id, split_colon,
}
use nuxt_laravelize.Migrations.Backend.{
  Backend, list_records, with_locked_transaction, execute_sql, write_record, commit_or_undo,
  record_before, remove_record,
}
use nuxt_laravelize.Migrations.Runner.Untouched.{perform-IsSame, IsSame}
use nuxt_laravelize.Migrations.Runner.Consistent.{IsConsistent}
use nuxt_laravelize.Migrations.Runner.Consistent.Runs.{run_runner, run_runner-IsConsistent}
use nuxt_laravelize.Migrations.{Handler, Migration, LoadedMigration, sqlite, up, down}
use nuxt_laravelize.Common.{
  ℕ, String, ◌≡◌, refl, ◌≢◌, inl, true, false, none, some, List, [], ◌∷◌, arith, str_eq,
  if◌then◌else◌, map, all,
}
use nuxt_laravelize.Migrations.Runner.{
  perform, RunnerOptions, ups, rollbacks, new_record, next_batch, run_loaded, locked, migrate_up,
  RunResult, run_handler, execute, execute_statement, run_statements, note_item, execute_item,
  pending_items, checked_run, up_run, irreversible_ids, assert_reversible, batches_of, last_batches,
  items_of, down_run, rollback_run, rollback,
}
use nuxt_laravelize.Migrations.Order.{
  release, map_by_id, change_count, add_edge, add_edges, add_all, sort_ready, ready_at_first,
  sort_graph, topological_sort,
}
use nuxt_laravelize.Common.Map.{Map}
use nuxt_laravelize.Migrations.Sql.{
  starts_word, is_word_char, upper, same_word, is_keyword, split_sql_statements,
}
use nuxt_laravelize.Migrations.Sql.Tokens.{
  is_token, is_statement, statement_text, script_text, Quote, Token, name, word, quote, line,
}
use nuxt_laravelize.Migrations.Sql.Roundtrip.{split_sql_statements-script_text}
use nuxt_laravelize.Migrations.Runner.Applied.{migrate_up-records}
use nuxt_laravelize.Migrations.Runner.Undone.{rollback-migrate_up}

abbrev up_of : String → Handler
up_of sql = record { statements = record { sql = sql; parameters = none } ∷ []; failure = none }

abbrev users : Migration
users = record {
  name = "users";
  checksum = "c1";
  depends_on = none;
  dialects = none;
  up = up_of "create users";
  down = some (up_of "drop users");
}

abbrev posts : Migration
posts = record {
  name = "posts";
  checksum = "c2";
  depends_on = some ("app:users" ∷ []);
  dialects = some (sqlite ∷ []);
  up = up_of "create posts";
  down = some (up_of "drop posts");
}

abbrev users_item : LoadedMigration
users_item = record { id = "app:users"; namespace = "app"; migration = users }

abbrev posts_item : LoadedMigration
posts_item = record { id = "app:posts"; namespace = "app"; migration = posts }

abbrev items : List LoadedMigration
items = posts_item ∷ users_item ∷ []

abbrev in_order : List LoadedMigration
in_order = users_item ∷ posts_item ∷ []

two-IsDistinct : IsDistinct items
unfolding find
two-IsDistinct = (refl, (refl, tt))

two_sorted : topological_sort text_lt items ≡ ok in_order
unfolding topological_sort sort_graph ready_at_first sort_ready release add_all add_edges add_edge
    change_count map_by_id sort insert ◌+ℤ◌ text_lt Map.get Map.put Map.has
two_sorted = refl

topological_sort-IsSorted_example : HasItems items in_order × IsSorted [] in_order
topological_sort-IsSorted_example =
    topological_sort-IsSorted text_lt items two-IsDistinct in_order two_sorted

abbrev rank : String → ℕ
rank id = if str_eq id "app:users" then 0 else 1

users_there : find "app:users" items ≢ none
unfolding find
users_there h = absurd (ground (arith, h))

topological_sort_returns_example :
    (result : List LoadedMigration) × (topological_sort text_lt items ≡ ok result)
topological_sort_returns_example =
    topological_sort_returns text_lt items two-IsDistinct rank
      (((users_there, omega arith), tt), (tt, tt))

abbrev options : RunnerOptions
options = record {
  dialect = sqlite;
  sources = record { namespace = "app"; migrations = posts ∷ users ∷ [] } ∷ [];
  ownership = none;
  clock = λ id. "2026-01-01T00:00:00.000Z";
  locale_lt = text_lt;
  is_date = λ text. true;
}

abbrev nothing : Backend
nothing = record {
  current = record { records = []; statements = []; dropped = []; fail_next_record = false };
  transaction_count = 0;
}

perform-IsSame_example : IsSame (perform options (ups true none) nothing).1.current nothing.current
perform-IsSame_example = perform-IsSame options (ups true none) nothing (inl refl)

two_loaded : load sqlite text_lt options.sources ≡ ok in_order
unfolding load load_one load_each load_sources migration_id define_migration is_part is_part_char
    is_checksum is_migration_id split_colon codes topological_sort sort_graph ready_at_first
    sort_ready release add_all add_edges add_edge change_count map_by_id sort insert ◌+ℤ◌ text_lt
    Map.get Map.put Map.has
two_loaded = refl

nothing-IsConsistent : IsConsistent in_order nothing.current.records
unfolding Map.get
nothing-IsConsistent id r item at there = absurd (ground (arith, at))

run_runner-IsConsistent_example :
    IsConsistent in_order
      (run_runner options (ups false none ∷ rollbacks false none ∷ []) nothing).current.records
run_runner-IsConsistent_example =
    run_runner-IsConsistent options in_order (ups false none ∷ rollbacks false none ∷ []) nothing
      two_loaded nothing-IsConsistent (tt, tt)

-- Two statements, one with a semicolon and quotes in a text.
abbrev sql_script : List (List Token)
sql_script =
    (word b'D' (codes "ROP") ∷ quote name (codes "a;b") ∷ [])
    ∷ (word b's' (codes "elect") ∷ quote Quote.text (codes "it's; --") ∷ line (codes "x;") ∷ [])
    ∷ []

sql_valid : all (is_statement (λ c. false)) sql_script ≡ true
unfolding is_statement is_token is_keyword same_word codes upper starts_word is_word_char
sql_valid = refl

split_sql_statements-script_text_example :
    split_sql_statements (λ c. false) (script_text sql_script) ≡ ok (map statement_text sql_script)
split_sql_statements-script_text_example =
    split_sql_statements-script_text (λ c. false) sql_script sql_valid

abbrev both_up : RunResult
both_up = record {
  executed =
      record { id = "app:users"; direction = up; batch = some 1 }
      ∷ record { id = "app:posts"; direction = up; batch = some 1 }
      ∷ [];
  statements =
      record { sql = "create users"; parameters = none }
      ∷ record { sql = "create posts"; parameters = none }
      ∷ [];
}

up_returns : (migrate_up options false none nothing).0 ≡ ok both_up
unfolding migrate_up locked run_loaded with_locked_transaction commit_or_undo checked_run up_run
    pending_items execute execute_item execute_statement run_handler run_statements note_item
    new_record next_batch write_record execute_sql list_records record_before checked_records
    check_each check_item check_needs check_dependencies is_blank is_space load load_one load_each
    load_sources migration_id define_migration is_part is_part_char is_checksum is_migration_id
    split_colon codes topological_sort sort_graph ready_at_first sort_ready release add_all
    add_edges add_edge change_count map_by_id sort insert ◌+ℤ◌ text_lt dialect_eq supports Map.get
    Map.put Map.has Map.remove
up_returns = refl

migrate_up-records_example :
    Map.get "app:posts" (migrate_up options false none nothing).1.current.records
    ≡ some (new_record options posts_item 1)
unfolding find Map.get list_records sort next_batch
migrate_up-records_example =
    migrate_up-records options in_order nothing both_up two_loaded (tt, tt) up_returns "app:posts"

abbrev both_down : RunResult
both_down = record {
  executed =
      record { id = "app:posts"; direction = down; batch = none }
      ∷ record { id = "app:users"; direction = down; batch = none }
      ∷ [];
  statements =
      record { sql = "drop posts"; parameters = none }
      ∷ record { sql = "drop users"; parameters = none }
      ∷ [];
}

down_returns :
    (rollback options false none (migrate_up options false none nothing).1).0 ≡ ok both_down
unfolding migrate_up rollback rollback_run down_run assert_reversible irreversible_ids items_of
    last_batches batches_of remove_record locked run_loaded with_locked_transaction commit_or_undo
    checked_run up_run pending_items execute execute_item execute_statement run_handler
    run_statements note_item new_record next_batch write_record execute_sql list_records
    record_before checked_records check_each check_item check_needs check_dependencies is_blank
    is_space load load_one load_each load_sources migration_id define_migration is_part is_part_char
    is_checksum is_migration_id split_colon codes topological_sort sort_graph ready_at_first
    sort_ready release add_all add_edges add_edge change_count map_by_id sort insert ◌+ℤ◌ text_lt
    dialect_eq supports Map.get Map.put Map.has Map.remove
down_returns = refl

posts_found : find "app:posts" in_order ≡ some posts_item
unfolding find
posts_found = refl

rollback-migrate_up_example :
    Map.get "app:users"
      (rollback options false none (migrate_up options false none nothing).1).1.current.records
    ≡ none
unfolding Map.get
rollback-migrate_up_example =
    rollback-migrate_up options in_order nothing both_up both_down "app:posts" posts_item two_loaded
      (tt, tt) posts_found refl up_returns down_returns "app:users"
