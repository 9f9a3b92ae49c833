-- ===== src/Migrations/Order/Loop.antt =====
-- packages/migrations/src/index.ts: the outer loop of `topologicalSort`.
use nuxt_laravelize.Common.Map
use nuxt_laravelize.Common.Int.{ℤ}
use nuxt_laravelize.Common.Sort.{count, sort, count-sort_texts, length-le_of_count}
use nuxt_laravelize.Common.Text.{text_lt}
use nuxt_laravelize.Migrations.Order.Release.{Fits, queued, release-Fits}
use nuxt_laravelize.Migrations.Order.Items.{needs}
use nuxt_laravelize.Common.{
  ℕ, zero, ◌+◌, String, ◌≡◌, Bool, some, List, [], ◌∷◌, arith, eq_iff, ◌==◌, if◌then◌else◌, eq_refl,
  suc, length,
}
use nuxt_laravelize.Migrations.Order.{release, dependencies, ids_of, sort_ready}
use nuxt_laravelize.Common.Map.{Map}
use nuxt_laravelize.Migrations.{LoadedMigration}
use nuxt_laravelize.Migrations.Order.Ready.{AreItems, release-AreItems}

-- How many of the dependencies are not yet sorted.
unfoldable pub pending : (sorted dependencies : List String) → ℕ
pending sorted [] = 0
pending sorted (d ∷ ds) = (if count d sorted == 0 then 1 else 0) + pending sorted ds

-- Every item stands behind all that it depends on.
abbrev pub IsOrdered : (before : List String) → List LoadedMigration → Type 0
IsOrdered before [] = Unit
IsOrdered before (x ∷ xs) = (pending before (dependencies x) ≡ 0) × IsOrdered (x.id ∷ before) xs

-- The ids behind the sorting of a list.
abbrev pub sorted_after : List String → List LoadedMigration → List String
sorted_after before [] = before
sorted_after before (x ∷ xs) = sorted_after (x.id ∷ before) xs

pending-cons :
    (id : String) (sorted ds : List String)
    → count id sorted ≡ 0
    → pending sorted ds ≡ count id ds + pending (id ∷ sorted) ds
unfolding pending count
pending-cons id sorted [] new = omega arith
pending-cons id sorted (d ∷ ds) new =
    ground (arith, eq_iff id d, eq_iff d id, pending-cons id sorted ds new)

module _ (locale_lt : String → String → Bool) (by_id : Map LoadedMigration)
    (keyed : (k : String) (item : LoadedMigration) → Map.get k by_id ≡ some item → item.id ≡ k)
    (keys : List String) (counted : (k : String) → count k keys ≡ queued (Map.get k by_id) 0)
    (outgoing : Map (List String))
    (named : (k d : String) (item : LoadedMigration)
      → Map.get d by_id ≡ some item
      → count k (ids_of (Map.get d outgoing)) ≡ count d (needs (Map.get k by_id))) where
  abbrev pub waits : List String → String → ℕ
  waits sorted k = pending sorted (needs (Map.get k by_id))

  -- A state of the loop.
  abbrev pub Holds : (sorted : List String) → Map ℤ × List LoadedMigration → Type 0
  Holds sorted state =
      Fits locale_lt by_id (waits sorted) sorted state × AreItems locale_lt by_id keyed state.1

  module _ (sorted : List String) (incoming : Map ℤ) (item : LoadedMigration)
      (ready : List LoadedMigration) (holds : Holds sorted (incoming, item ∷ ready)) where
    -- The item at the head is new, and waits for nothing.
    head_ready : (count item.id sorted ≡ 0) × (pending sorted (dependencies item) ≡ 0)
    unfolding count
    head_ready = ground (arith, holds.0 item.id, holds.1.0, eq_refl item.id)

    round_Holds : Holds (item.id ∷ sorted) (
        release locale_lt by_id
          (sort text_lt (ids_of (Map.get item.id outgoing)))
          (incoming, ready))
    unfolding count
    round_Holds = (
      release-Fits locale_lt by_id keyed (waits (item.id ∷ sorted)) (item.id ∷ sorted)
          (sort text_lt (ids_of (Map.get item.id outgoing))) incoming ready
          (λ k gone. ground (
            arith,
            gone,
            count-sort_texts text_lt k (ids_of (Map.get item.id outgoing)),
            named k item.id item holds.1.0,
          ))
          (λ k.
            let lowered : waits sorted k
                ≡ count k (sort text_lt (ids_of (Map.get item.id outgoing)))
                  + waits (item.id ∷ sorted) k =
              omega (
                arith,
                pending-cons item.id sorted (needs (Map.get k by_id)) head_ready.0,
                count-sort_texts text_lt k (ids_of (Map.get item.id outgoing)),
                named k item.id item holds.1.0,
              ) in
            rw (← lowered) ((holds.0 k).0, omega (arith, (holds.0 k).1))),
      release-AreItems locale_lt by_id keyed _ incoming ready holds.1.1,
    )

    -- There is a round left for it.
    some_left : length keys ≡ length sorted → ⊥
    unfolding count
    some_left full = absurd (
        omega (
          arith,
          length-le_of_count (item.id ∷ sorted) keys
              λ k. ground (arith, holds.0 k, counted k, eq_iff item.id k, head_ready.0),
        ))

  -- What is sorted when the loop is done: the items that wait for nothing, each once.
  abbrev pub IsClosed : List String → Type 0
  IsClosed sorted = (k : String) → count k sorted ≡ queued (Map.get k by_id) (waits sorted k)

  pub sort_ready_lem :
      (fuel : ℕ) (sorted : List String) (incoming : Map ℤ) (ready : List LoadedMigration)
      → length keys ≡ length sorted + fuel
      → Holds sorted (incoming, ready)
      → AreItems locale_lt by_id keyed (sort_ready locale_lt by_id outgoing fuel (incoming, ready))
        × IsOrdered sorted (sort_ready locale_lt by_id outgoing fuel (incoming, ready))
        × IsClosed
            (sorted_after sorted (sort_ready locale_lt by_id outgoing fuel (incoming, ready)))
  unfolding sort_ready count
  sort_ready_lem zero sorted incoming [] enough holds = (tt, tt, λ k. ground (arith, (holds.0 k).1))
  sort_ready_lem zero sorted incoming (item ∷ ready) enough holds =
      absurd (some_left sorted incoming item ready holds (omega arith))
  sort_ready_lem (suc fuel) sorted incoming [] enough holds =
      (tt, tt, λ k. ground (arith, (holds.0 k).1))
  sort_ready_lem (suc fuel) sorted incoming (item ∷ ready) enough holds =
      let rest =
        sort_ready_lem fuel (item.id ∷ sorted) _ _ (omega arith)
          (round_Holds sorted incoming item ready holds) in
      ((holds.1.0, rest.0), ((head_ready sorted incoming item ready holds).1, rest.1), rest.2)
