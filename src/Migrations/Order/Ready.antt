-- ===== src/Migrations/Order/Ready.antt =====
-- packages/migrations/src/index.ts: what waits in `ready` of `topologicalSort` is one of the items.
use nuxt_laravelize.Common.Map
use nuxt_laravelize.Common.Int.{ℤ, negsuc}
use nuxt_laravelize.Common.Sort.{sort, insert}
use nuxt_laravelize.Common.{
  String, ◌≡◌, inl, inr, Bool, some, List, [], ◌∷◌, ◌++◌, arith, Bool-cases, Option-cases, All, ap,
  ◌∙◌,
}
use nuxt_laravelize.Migrations.Order.{release, change_count, is_zero, id_before, enqueue}
use nuxt_laravelize.Common.Map.{Map}
use nuxt_laravelize.Migrations.{LoadedMigration}

module _ (locale_lt : String → String → Bool) (by_id : Map LoadedMigration)
    (keyed : (k : String) (item : LoadedMigration)
      → Map.get k by_id ≡ some item
      → item.id ≡ k) where
  -- Every queued item is one of the items.
  abbrev pub AreItems : List LoadedMigration → Type 0
  AreItems ready = All (λ (x : LoadedMigration). Map.get x.id by_id ≡ some x) ready

  insert-AreItems :
      (before : LoadedMigration → LoadedMigration → Bool) (x : LoadedMigration)
      (xs : List LoadedMigration)
      → Map.get x.id by_id ≡ some x
      → AreItems xs
      → AreItems (insert before x xs)
  unfolding insert
  insert-AreItems before x [] h hs = (h, tt)
  insert-AreItems before x (y ∷ ys) h (hy, hys) = ground (arith, insert-AreItems before x ys h hys)

  pub sort-AreItems :
      (before : LoadedMigration → LoadedMigration → Bool) (xs : List LoadedMigration)
      → AreItems xs
      → AreItems (sort before xs)
  unfolding sort
  sort-AreItems before [] hs = tt
  sort-AreItems before (x ∷ xs) (h, hs) =
      insert-AreItems before x (sort before xs) h (sort-AreItems before xs hs)

  append-AreItems :
      (xs : List LoadedMigration) (x : LoadedMigration)
      → AreItems xs
      → Map.get x.id by_id ≡ some x
      → AreItems (xs ++ (x ∷ []))
  append-AreItems [] x hs h = (h, tt)
  append-AreItems (y ∷ ys) x (hy, hys) h = (hy, append-AreItems ys x hys h)

  enqueue-AreItems :
      (k : String) (ready : List LoadedMigration)
      → AreItems ready
      → AreItems (enqueue locale_lt (Map.get k by_id) ready)
  enqueue-AreItems k ready hs = elim (Option-cases (Map.get k by_id)) [
    | inl gone ↦ rw gone hs
    | inr (item, here) ↦
        let named : item.id ≡ k = keyed k item here in
        let own : Map.get item.id by_id ≡ some item = ap (λ j. Map.get j by_id) named ∙ here in
        rw here (
          sort-AreItems (id_before locale_lt) (ready ++ (item ∷ []))
            (append-AreItems ready item hs own))
  ]

  pub release-AreItems :
      (xs : List String) (incoming : Map ℤ) (ready : List LoadedMigration)
      → AreItems ready
      → AreItems (release locale_lt by_id xs (incoming, ready)).1
  unfolding release
  release-AreItems [] incoming ready hs = hs
  release-AreItems (x ∷ xs) incoming ready hs =
      release-AreItems xs _ _
        (elim (Bool-cases (is_zero (Map.get x (change_count x (negsuc 0) incoming)))) [
          | inl done ↦ rw done (enqueue-AreItems x ready hs)
          | inr more ↦ rw more hs
        ])
