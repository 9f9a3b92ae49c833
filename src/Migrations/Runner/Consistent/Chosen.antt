-- ===== src/Migrations/Runner/Consistent/Chosen.antt =====
-- packages/migrations/src/index.ts: the migrations that `rollback` and `reset` choose.
use mathlib.Core.List.{reverse, reverse-append, map-append}
use nuxt_laravelize.Common.Map
use nuxt_laravelize.Common.Sort.{count, count-append, any-sort}
use nuxt_laravelize.Migrations.Order.Items.{count-ids, IsDistinct}
use nuxt_laravelize.Migrations.Order.Release.{ids}
use nuxt_laravelize.Migrations.Backend.{list_records, record_before}
use nuxt_laravelize.Migrations.Runner.Consistent.Down.{IsClosed}
use nuxt_laravelize.Migrations.Runner.Consistent.Batches.{last_batches_closed}
use nuxt_laravelize.Common.{
  ℕ, ◌≤◌, ◌≡◌, refl, ap, ◌∙◌, inl, inr, Bool, true, false, ◌&&◌, Option, none, some, List, [], ◌∷◌,
  map, arith, str_eq, eq_iff, ◌==◌, if◌then◌else◌, Bool-cases, any, select, sym, String, select_all,
}
use nuxt_laravelize.Common.Map.{Map}
use nuxt_laravelize.Migrations.Runner.{
  items_of, RunnerOptions, last_batches, in_batches, last_records,
}
use nuxt_laravelize.Migrations.Runner.Consistent.{IsKeyed}
use nuxt_laravelize.Migrations.Order.Laws.{found}
use nuxt_laravelize.Migrations.{MigrationRecord, LoadedMigration}

any-select :
    (p q : MigrationRecord → Bool) (rs : List MigrationRecord)
    → any q (select p rs) ≡ any (λ (r : MigrationRecord). p r && q r) rs
any-select p q [] = refl
any-select p q (r ∷ rs) = ground (arith, any-select p q rs)

-- Whether a test holds for the record that is there.
abbrev pub holds_for : (MigrationRecord → Bool) → Option MigrationRecord → Bool
holds_for p none = false
holds_for p (some r) = p r

abbrev pub records_in : Map MigrationRecord → List MigrationRecord
records_in m = map (λ (e : String × MigrationRecord). e.1) m

pub any-records :
    (p : MigrationRecord → Bool) (k : String) (m : Map MigrationRecord)
    → IsKeyed m
    → any (λ (r : MigrationRecord). p r && str_eq r.id k) (records_in m) ≡ holds_for p (Map.get k m)
unfolding Map.get
any-records p k [] keyed = refl
any-records p k ((j, s) ∷ m) ((own, keys), (new, distinct)) =
    ground
      (arith, any-records p k m (keys, distinct), eq_iff j k, own, new, ap (λ i. str_eq i k) own)

pub any-batch :
    (b : ℕ) (k : String) (m : Map MigrationRecord) (r : MigrationRecord)
    → Map.get k m ≡ some r
    → r.batch ≡ b
    → any (λ (s : MigrationRecord). s.batch == b) (records_in m) ≡ true
unfolding Map.get
any-batch b k [] r here same = absurd (ground (arith, here))
any-batch b k ((j, s) ∷ m) r here same = ground (arith, here, same, any-batch b k m r)

count-reverse :
    (k : String) (xs : List LoadedMigration) → count k (ids (reverse xs)) ≡ count k (ids xs)
unfolding count
count-reverse k [] = refl
count-reverse k (x ∷ xs) = omega (
  arith,
  ap (λ ys. count k (ids ys)) (reverse-append (x ∷ []) xs),
  ap (count k) (map-append (λ (y : LoadedMigration). y.id) (reverse xs) (x ∷ [])),
  count-append k (ids (reverse xs)) (x.id ∷ []),
  count-reverse k xs,
)

count-select :
    (q : String → Bool) (k : String) (xs : List LoadedMigration)
    → count k (ids (select (λ (x : LoadedMigration). q x.id) xs))
      ≡ (if q k then count k (ids xs) else 0)
unfolding count
count-select q k [] = ground arith
count-select q k (x ∷ xs) = elim (Bool-cases (str_eq x.id k)) [
  | inl same ↦ ground (arith, same, ap q ((eq_iff x.id k).0 same), count-select q k xs)
  | inr other ↦ ground (arith, other, count-select q k xs)
]

module _ (options : RunnerOptions) (m : Map MigrationRecord) (keyed : IsKeyed m) where
  abbrev pub listed : List MigrationRecord
  listed = list_records options.locale_lt m

  -- How often an item is chosen.
  pub count-items_of :
      (p : MigrationRecord → Bool) (k : String) (loaded : List LoadedMigration)
      → count k (ids (items_of options (select p listed) loaded))
        ≡ (if holds_for p (Map.get k m) then count k (ids loaded) else 0)
  unfolding items_of list_records
  count-items_of p k loaded =
      let chosen : (j : String) → Bool =
        λ j. any (λ (r : MigrationRecord). str_eq r.id j) (select p listed) in
      let test : chosen k ≡ holds_for p (Map.get k m) =
        any-select p (λ (r : MigrationRecord). str_eq r.id k) listed
        ∙ any-sort (λ (r : MigrationRecord). p r && str_eq r.id k) (record_before options.locale_lt)
            (records_in m)
        ∙ any-records p k m keyed in
      count-reverse k (select (λ (x : LoadedMigration). chosen x.id) loaded)
      ∙ count-select chosen k loaded
      ∙ ap (λ b. if b then count k (ids loaded) else 0) test

  module _ (items loaded : List LoadedMigration) (distinct : IsDistinct items)
      (same_items : (k : String) → count k (ids loaded) ≡ count k (ids items)) where
    -- Where the test is closed under later batches, nothing that stays needs what is removed.
    pub IsClosed-choice :
        (p : MigrationRecord → Bool)
        → ((r s : MigrationRecord) (k j : String)
            → Map.get k m ≡ some r
            → Map.get j m ≡ some s
            → s.batch ≤ r.batch
            → p s ≡ true
            → p r ≡ true)
        → IsClosed options items (items_of options (select p listed) loaded) m
    IsClosed-choice p upward id r item here stays there d (s, found, low) =
        elim (Bool-cases (p s)) [
          | inr keeps ↦ ground (arith, count-items_of p d loaded, found, keeps)
          | inl removes ↦ absurd (
              ground (
                arith,
                stays,
                count-items_of p id loaded,
                here,
                upward r s id d here found low removes,
                same_items id,
                count-ids id items distinct,
                there,
              ))
        ]

    -- `reset` takes all the records.
    pub IsClosed-reset : IsClosed options items (items_of options listed loaded) m
    IsClosed-reset =
        let all_closed : IsClosed options items
            (items_of options (select (λ r. true) listed) loaded) m =
          IsClosed-choice (λ r. true) λ r s k j here found low h. refl in
        let e : select (λ r. true) listed ≡ listed = select_all listed in
        λ id r item here stays there d applied.
          ap (λ rs. count d (ids (items_of options rs loaded))) (sym e)
          ∙ all_closed id r item here
              (ap (λ rs. count id (ids (items_of options rs loaded))) e ∙ stays) there d applied

    -- `rollback` takes those of the last batches.
    pub IsClosed-rollback :
        (batches : ℕ)
        → IsClosed options items (items_of options (last_records options batches listed) loaded) m
    unfolding list_records
    IsClosed-rollback batches =
        IsClosed-choice (in_batches options (last_batches options batches listed))
          λ r s k j here found low chosen.
            last_batches_closed options batches s.batch r.batch listed chosen
              (any-sort (λ (q : MigrationRecord). q.batch == r.batch)
                  (record_before options.locale_lt) (records_in m)
                ∙ any-batch r.batch k m r here refl)
              low
