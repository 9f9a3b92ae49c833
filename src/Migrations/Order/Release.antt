-- ===== src/Migrations/Order/Release.antt =====
-- packages/migrations/src/index.ts: the inner loop of `topologicalSort`, which keeps the counts of
-- what an item still waits for, and queues an item when its count reaches zero.
use mathlib.Core.List.{map-append}
use nuxt_laravelize.Common.Map
use nuxt_laravelize.Common.Map.{get-put, Map}
use nuxt_laravelize.Common.Int.{ℤ, pos, negsuc, ◌+ℤ◌}
use nuxt_laravelize.Common.Sort.{count, count-append, count-sort}
use nuxt_laravelize.Common.{
  ℕ, ◌+◌, String, ◌≡◌, ap, Bool, Option, none, some, List, [], ◌∷◌, ◌++◌, map, arith, str_eq, ◌==◌,
  if◌then◌else◌, eq_iff, eq_refl, inl, inr, Option-cases,
}
use nuxt_laravelize.Migrations.Order.{change_count, id_before, enqueue, is_zero, add_count, release}
use nuxt_laravelize.Migrations.{LoadedMigration}

abbrev pub ids : List LoadedMigration → List String
ids = map (λ (x : LoadedMigration). x.id)

-- What the count of an item is, where there is the item.
abbrev pub IsCounted : Option LoadedMigration → Option ℤ → ℕ → Type 0
IsCounted none counted n = Unit
IsCounted (some item) counted n = counted ≡ some (pos n)

-- How often an item that waits for `n` others stands among the sorted and the queued ones.
abbrev pub queued : Option LoadedMigration → ℕ → ℕ
queued none n = 0
queued (some item) n = if n == 0 then 1 else 0

module _ (locale_lt : String → String → Bool) (by_id : Map LoadedMigration) where
  -- `waits` is what an item still waits for when `sorted` are sorted.
  abbrev pub Fits :
      (waits : String → ℕ) → (sorted : List String) → Map ℤ × List LoadedMigration → Type 0
  Fits waits sorted state =
      (k : String)
      → IsCounted (Map.get k by_id) (Map.get k state.0) (waits k)
        × (count k sorted + count k (ids state.1) ≡ queued (Map.get k by_id) (waits k))

  count-enqueue :
      (k : String) (item : LoadedMigration) (ready : List LoadedMigration)
      → count k (ids (enqueue locale_lt (some item) ready))
        ≡ count k (ids ready) + (if str_eq item.id k then 1 else 0)
  unfolding count
  count-enqueue k item ready = omega (
    arith,
    count-sort (λ (x : LoadedMigration). x.id) (id_before locale_lt) k (ready ++ (item ∷ [])),
    ap (count k) (map-append (λ (x : LoadedMigration). x.id) ready (item ∷ [])),
    count-append k (ids ready) (item.id ∷ []),
  )

  module _
      (keyed : (k : String) (item : LoadedMigration)
        → Map.get k by_id ≡ some item
        → item.id ≡ k) where
    release_one :
        (waits : String → ℕ) (sorted : List String) (id : String) (item : LoadedMigration)
        (incoming : Map ℤ) (ready : List LoadedMigration)
        → Map.get id by_id ≡ some item
        → Fits (λ k. (if str_eq id k then 1 else 0) + waits k) sorted (incoming, ready)
        → Fits waits sorted (
          change_count id (negsuc 0) incoming,
          if is_zero (Map.get id (change_count id (negsuc 0) incoming))
              then enqueue locale_lt (Map.get id by_id) ready
              else ready,
        )
    unfolding change_count ◌+ℤ◌
    release_one waits sorted id item incoming ready here fits k = ground (
      arith,
      here,
      keyed id item here,
      fits k,
      fits id,
      eq_iff id k,
      eq_refl id,
      get-put id k (add_count (negsuc 0) (Map.get id incoming)) incoming,
      get-put id id (add_count (negsuc 0) (Map.get id incoming)) incoming,
      count-enqueue k item ready,
    )

    Fits-congr :
        (waits waits' : String → ℕ) (sorted : List String) (state : Map ℤ × List LoadedMigration)
        → ((k : String) → waits k ≡ waits' k)
        → Fits waits sorted state
        → Fits waits' sorted state
    Fits-congr waits waits' sorted state same fits k = rw (← same k) (fits k)

    -- A pass over what waits for an item lowers what each of these waits for by how often it is named.
    pub release-Fits :
        (waits : String → ℕ) (sorted xs : List String) (incoming : Map ℤ)
        (ready : List LoadedMigration)
        → ((k : String) → Map.get k by_id ≡ none → count k xs ≡ 0)
        → Fits (λ k. count k xs + waits k) sorted (incoming, ready)
        → Fits waits sorted (release locale_lt by_id xs (incoming, ready))
    unfolding release count
    release-Fits waits sorted [] incoming ready known fits =
        Fits-congr (λ k. 0 + waits k) waits sorted (incoming, ready) (λ k. omega arith) fits
    release-Fits waits sorted (x ∷ xs) incoming ready known fits =
        elim (Option-cases (Map.get x by_id)) [
          | inl gone ↦ absurd (ground (arith, known x gone, eq_refl x))
          | inr (item, here) ↦
              release-Fits waits sorted xs _ _ (λ k gone. omega (arith, known k gone))
                (release_one (λ k. count k xs + waits k) sorted x item incoming ready here
                  (Fits-congr _ (λ k. (if str_eq x k then 1 else 0) + (count k xs + waits k)) sorted
                    (incoming, ready) (λ k. omega arith) fits))
        ]
