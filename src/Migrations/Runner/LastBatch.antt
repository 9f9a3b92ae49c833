-- ===== src/Migrations/Runner/LastBatch.antt =====
-- packages/migrations/src/index.ts: the last batch of the records is the one that `rollback` chooses.
use nuxt_laravelize.Common.Map
use nuxt_laravelize.Migrations.{LoadedMigration, MigrationRecord}
use nuxt_laravelize.Common.{
  ℕ, ◌≤◌, ◌<◌, String, ◌≡◌, ap, ◌∙◌, inl, inr, Bool, true, some, List, [], ◌∷◌, arith, eq_iff,
  eq_refl, ◌==◌, Bool-cases, take, any, All,
}
use nuxt_laravelize.Common.Sort.{insert, sort, any-sort, count}
use nuxt_laravelize.Common.Map.{Map}
use nuxt_laravelize.Migrations.Order.Items.{find}
use nuxt_laravelize.Common.Map.Distinct.{IsDistinct}
use nuxt_laravelize.Migrations.Runner.{next_batch, batches_of, last_batches, RunnerOptions}
use nuxt_laravelize.Migrations.Runner.Consistent.Batches.{
  has_number, falls, IsDescending, insert-All, sort-IsDescending, All-has, has-batches_of,
}
use nuxt_laravelize.Migrations.Order.Release.{ids}
use nuxt_laravelize.Migrations.Runner.Consistent.Chosen.{records_in}

module _ (options : RunnerOptions) (last : ℕ) where
  All-batches :
      (records : List MigrationRecord)
      → All (λ (r : MigrationRecord). r.batch ≤ last) records
      → All (λ n. n ≤ last) (batches_of options records)
  unfolding batches_of
  All-batches [] h = tt
  All-batches (r ∷ rs) (h, hs) = ground (arith, h, All-batches rs hs)

  sort-All : (ns : List ℕ) → All (λ n. n ≤ last) ns → All (λ n. n ≤ last) (sort falls ns)
  unfolding sort
  sort-All [] h = tt
  sort-All (n ∷ ns) (h, hs) = insert-All last n (sort falls ns) h (sort-All ns hs)

  first_is_last :
      (ns : List ℕ)
      → IsDescending ns
      → All (λ n. n ≤ last) ns
      → has_number last ns ≡ true
      → take 1 ns ≡ last ∷ []
  first_is_last [] descending low there = absurd (ground (arith, there))
  first_is_last (n ∷ ns) (falling, rest) (low, lower) there =
      let same : n ≡ last = elim (Bool-cases (last == n)) [
        | inl e ↦ ground (arith, e)
        | inr other ↦ omega (arith, low, All-has n last ns falling (ground (arith, there, other)))
      ] in
      ap (λ m. m ∷ []) same

  pub last_batches-one :
      (records : List MigrationRecord)
      → All (λ (r : MigrationRecord). r.batch ≤ last) records
      → any (λ (r : MigrationRecord). r.batch == last) records ≡ true
      → last_batches options 1 records ≡ last ∷ []
  unfolding last_batches
  last_batches-one records low there =
      first_is_last (sort falls (batches_of options records))
        (sort-IsDescending (batches_of options records))
        (sort-All (batches_of options records) (All-batches records low))
        (any-sort (λ n. last == n) falls (batches_of options records)
          ∙ has-batches_of options last records
          ∙ there)

-- Where every record has a batch up to a bound, those that are listed do.
pub All-records :
    (bound : ℕ) (m : Map MigrationRecord)
    → IsDistinct m
    → ((k : String) (r : MigrationRecord) → Map.get k m ≡ some r → r.batch ≤ bound)
    → All (λ (r : MigrationRecord). r.batch ≤ bound) (records_in m)
unfolding Map.get
All-records bound [] distinct low = tt
All-records bound ((j, s) ∷ m) (new, distinct) low = (
  low j s (ground (arith, eq_refl j)),
  All-records bound m distinct
      λ k r here. low k r (ground (arith, here, new, eq_iff j k, ap (λ i. Map.get i m))),
)

module _ (P : MigrationRecord → Type 0) (before : MigrationRecord → MigrationRecord → Bool) where
  record-insert-All :
      (r : MigrationRecord) (rs : List MigrationRecord)
      → P r
      → All P rs
      → All P (insert before r rs)
  unfolding insert
  record-insert-All r [] h hs = (h, tt)
  record-insert-All r (s ∷ ss) h (hs, hss) = elim (Bool-cases (before s r)) [
    | inl less ↦ rw less (hs, record-insert-All r ss h hss)
    | inr more ↦ rw more (h, (hs, hss))
  ]

  pub record-sort-All : (rs : List MigrationRecord) → All P rs → All P (sort before rs)
  unfolding sort
  record-sort-All [] h = tt
  record-sort-All (r ∷ rs) (h, hs) = record-insert-All r (sort before rs) h (record-sort-All rs hs)

pub next_batch-above :
    (options : RunnerOptions) (b : ℕ) (rs : List MigrationRecord)
    → any (λ (r : MigrationRecord). r.batch == b) rs ≡ true
    → b < next_batch options rs
unfolding next_batch
next_batch-above options b [] h = absurd (ground (arith, h))
next_batch-above options b (r ∷ rs) h = ground (arith, h, next_batch-above options b rs)

pub count-find :
    (k : String) (xs : List LoadedMigration) (x : LoadedMigration)
    → find k xs ≡ some x
    → 0 < count k (ids xs)
unfolding find count
count-find k [] x h = absurd (ground (arith, h))
count-find k (y ∷ ys) x h = ground (arith, h, count-find k ys x)
