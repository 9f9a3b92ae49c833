-- ===== src/Migrations/Runner/Consistent/Up.antt =====
-- packages/migrations/src/index.ts: what `up` and `fresh` apply has its dependencies applied.
use nuxt_laravelize.Common.Map
use nuxt_laravelize.Common.Map.{get-put, get-has, Map}
use nuxt_laravelize.Common.Sort.{count}
use nuxt_laravelize.Common.Exec.{bind-ok, ok, ◌>>=◌, Result-cases, Result}
use nuxt_laravelize.Migrations.Order.Items.{find, needs}
use nuxt_laravelize.Migrations.Order.Laws.{IsSorted}
use nuxt_laravelize.Migrations.Backend.{execute_sql, write_record, Transaction}
use nuxt_laravelize.Migrations.{
  Statement, Handler, LoadedMigration, MigrationRecord, up, MigrationError,
}
use nuxt_laravelize.Common.{
  ℕ, zero, suc, ◌<◌, String, ◌≡◌, refl, sym, ap, ◌∙◌, ◌⊎◌, inl, inr, Bool, true, not, Option, none,
  some, List, [], ◌∷◌, ◌++◌, arith, str_eq, eq_iff, Bool-cases, take, any, select, All, All-weaken,
  false, Option-cases,
}
use nuxt_laravelize.Migrations.Runner.{
  run_handler, execute_statement, run_statements, is_recorded, RunnerOptions, run_direction,
  execute, new_record, note_item, execute_item, RunResult, finish_handler,
}
use nuxt_laravelize.Migrations.Order.{dependencies}
use nuxt_laravelize.Migrations.Runner.Consistent.{
  Holds, IsApplied, put-IsApplied, put-Holds, Holds-same,
}

-- A dependency stands before, or is recorded.
abbrev pub IsAvailable : List MigrationRecord → (before : List String) → String → Type 0
IsAvailable records before d =
    (0 < count d before) ⊎ (any (λ (r : MigrationRecord). str_eq r.id d) records ≡ true)

module _ (items : List LoadedMigration) (records : List MigrationRecord) where
  -- The migrations of a list have their dependencies before them, or recorded.
  abbrev pub Follows : (before : List String) → List LoadedMigration → Type 0
  Follows before [] = Unit
  Follows before (x ∷ xs) =
      (find x.id items ≡ some x)
      × All (IsAvailable records before) (dependencies x)
      × Follows (x.id ∷ before) xs

  pub Follows-take :
      (n : ℕ) (before : List String) (xs : List LoadedMigration)
      → Follows before xs
      → Follows before (take n xs)
  Follows-take zero before xs h = tt
  Follows-take (suc n) before [] h = tt
  Follows-take (suc n) before (x ∷ xs) (there, needs, rest) =
      (there, needs, Follows-take n (x.id ∷ before) xs rest)

  abbrev is_new : RunnerOptions → LoadedMigration → Bool
  is_new options item = not (is_recorded options records item)

  pub sorted-Follows :
      (options : RunnerOptions) (xs : List LoadedMigration) (seen before : List String)
      → IsSorted seen xs
      → All (λ (x : LoadedMigration). find x.id items ≡ some x) xs
      → ((d : String) → 0 < count d seen → IsAvailable records before d)
      → Follows before (select (is_new options) xs)
  unfolding count
  sorted-Follows options [] seen before sorted there seen_available = tt
  sorted-Follows options (x ∷ xs) seen before (needs, sorted) (here, there) seen_available =
      elim (Bool-cases (is_recorded options records x)) [
        | inl old ↦ rw old (
            sorted-Follows options xs (x.id ∷ seen) before sorted there λ d h.
              elim (Bool-cases (str_eq x.id d)) [
                | inl same ↦
                    let e : x.id ≡ d = (eq_iff x.id d).0 same in
                    inr
                      (sym (ap (λ k. any (λ (r : MigrationRecord). str_eq r.id k) records) e) ∙ old)
                | inr other ↦ seen_available d (ground (arith, h, other))
              ])
        | inr new ↦ rw new (
          here,
          All-weaken (λ d. 0 < count d seen) (IsAvailable records before) seen_available
              (dependencies x) needs,
          sorted-Follows options xs (x.id ∷ seen) (x.id ∷ before) sorted there λ d h.
              elim (Bool-cases (str_eq x.id d)) [
                | inl same ↦ inl (ground (arith, same))
                | inr other ↦ elim (seen_available d (ground (arith, h, other))) [
                  | inl earlier ↦ inl (omega arith)
                  | inr recorded ↦ inr recorded
                ]
              ],
        )
      ]

-- The statements of a handler leave the records as they are.
run_statements-records :
    (pretend : Bool) (ss : List Statement) (t : Transaction)
    → (run_statements pretend ss t).1.records ≡ t.records
unfolding run_statements execute_statement execute_sql
run_statements-records pretend [] t = refl
run_statements-records pretend (s ∷ ss) t = ground (
  arith,
  run_statements-records pretend ss t,
  run_statements-records pretend ss (record t { statements = t.statements ++ (s.sql ∷ []) }),
)

run_handler-records :
    (pretend : Bool) (ss : List Statement) (failure : Option String) (t : Transaction)
    → ((run_statements pretend ss >>= λ u. finish_handler failure) t).1.records ≡ t.records
run_handler-records pretend ss failure t = elim (Result-cases (run_statements pretend ss t).0) [
  | inl (u, done) ↦ elim (Option-cases failure) [
    | inl quiet ↦ ground (arith, done, quiet, run_statements-records pretend ss t)
    | inr (e, thrown) ↦ ground (arith, done, thrown, run_statements-records pretend ss t)
  ]
  | inr (e, failed) ↦ ground (arith, failed, run_statements-records pretend ss t)
]

pub run_direction-records :
    (pretend : Bool) (h : Option Handler) (t : Transaction)
    → (run_direction pretend h t).1.records ≡ t.records
unfolding run_handler
run_direction-records pretend none t = refl
run_direction-records pretend (some h) t = run_handler-records pretend h.statements h.failure t

not_there : (k : String) (m : Map MigrationRecord) → Map.has k m ≡ false → Map.get k m ≡ none
not_there k m h = elim (Option-cases (Map.get k m)) [
  | inl gone ↦ gone
  | inr (r, here) ↦ absurd (ground (arith, h, get-has k m r here))
]

write_record_lem :
    (r : MigrationRecord) (t : Transaction)
    → (write_record r t).0 ≡ ok tt
    → (Map.get r.id t.records ≡ none) × ((write_record r t).1.records ≡ Map.put r.id r t.records)
unfolding write_record
write_record_lem r t h = (not_there r.id t.records (ground (arith, h)), ground (arith, h))

module _ (options : RunnerOptions) (items : List LoadedMigration) (records : List MigrationRecord)
    (batch : ℕ) where
  pub execute_item_up :
      (x : LoadedMigration) (t : Transaction)
      → (execute_item options up (some batch) false x t).0 ≡ ok tt
      → (Map.get x.id t.records ≡ none)
        × ((execute_item options up (some batch) false x t).1.records
            ≡ Map.put x.id (new_record options x batch) t.records)
  unfolding execute_item note_item new_record
  execute_item_up x t h =
      let first =
        bind-ok (run_direction false (some x.migration.up))
          (λ u. write_record (new_record options x batch)) t tt h in
      let kept = run_direction-records false (some x.migration.up) t in
      let after = (run_direction false (some x.migration.up) t).1 in
      let written =
        write_record_lem (new_record options x batch) after
          (sym (ap (λ (p : Result {0, 0} MigrationError Unit × Transaction). p.0) first.2) ∙ h) in
      (
        ap (Map.get x.id) (sym kept) ∙ written.0,
        ap (λ (p : Result {0, 0} MigrationError Unit × Transaction). p.1.records) first.2
            ∙ written.1
            ∙ ap (Map.put x.id (new_record options x batch)) kept,
      )

  available_after :
      (x : LoadedMigration) (before : List String) (m : Map MigrationRecord)
      → Map.get x.id m ≡ none
      → ((d : String) → IsAvailable records before d → IsApplied m batch d)
      → (d : String) → IsAvailable records (x.id ∷ before) d
      → IsApplied (Map.put x.id (new_record options x batch) m) batch d
  unfolding new_record count
  available_after x before m new available d (inr recorded) =
      put-IsApplied x.id d (new_record options x batch) batch m new (available d (inr recorded))
  available_after x before m new available d (inl stands) = elim (Bool-cases (str_eq x.id d)) [
    | inl same ↦ (
      new_record options x batch,
      ground (arith, same, get-put x.id d (new_record options x batch) m),
      omega arith,
    )
    | inr other ↦
        put-IsApplied x.id d (new_record options x batch) batch m new
          (available d (inl (ground (arith, stands, other))))
  ]

  -- Every migration of the list that is executed has its dependencies recorded when its turn comes.
  pub execute_up-Holds :
      (xs : List LoadedMigration) (before : List String) (t : Transaction) (result : RunResult)
      → Holds options items batch t.records
      → Follows items records before xs
      → ((d : String) → IsAvailable records before d → IsApplied t.records batch d)
      → (execute options xs up (some batch) false t).0 ≡ ok result
      → Holds options items batch (execute options xs up (some batch) false t).1.records
  unfolding execute
  execute_up-Holds [] before t result holds follows available h = holds
  execute_up-Holds (x ∷ xs) before t result holds (there, needs, follows) available h =
      let next = (execute_item options up (some batch) false x t).1 in
      let (u, done, whole) = bind-ok (execute_item options up (some batch) false x) _ t result h in
      let (rest, returned, whole') =
        bind-ok (execute options xs up (some batch) false) _ next result (
          sym (ap (λ (p : Result {0, 0} MigrationError RunResult × Transaction). p.0) whole) ∙ h) in
      let (new, written) = execute_item_up x t done in
      let m = t.records in
      Holds-same options items batch _ _
        (ap (λ (p : Result {0, 0} MigrationError RunResult × Transaction). p.1.records)
          (whole ∙ whole'))
        (execute_up-Holds xs (x.id ∷ before) next rest
          (Holds-same options items batch next.records (Map.put x.id (new_record options x batch) m)
            written
            (put-Holds options items batch m x holds there new (
              All-weaken (IsAvailable records before) (IsApplied m batch) available (dependencies x)
                needs)))
          follows
          (λ d a.
            let found = available_after x before m new available d a in
            (found.0, ap (Map.get d) written ∙ found.1, found.2))
          returned)
