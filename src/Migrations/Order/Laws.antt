-- ===== src/Migrations/Order/Laws.antt =====
-- packages/migrations/src/index.ts: `topologicalSort` sorts, and returns where it can.
use nuxt_laravelize.Common.Map
use nuxt_laravelize.Common.Map.{get-has, Map}
use nuxt_laravelize.Common.Sort.{count, count-eq_of_length}
use nuxt_laravelize.Migrations.Order.Release.{ids}
use nuxt_laravelize.Migrations.Order.Items.{find, IsDistinct}
use nuxt_laravelize.Migrations.Order.Loop.{pending, IsOrdered}
use nuxt_laravelize.Migrations.Order.Sorted.{
  by_id_of, first_graph, count-sorted_after, length-ids, get-by_id, sorted_of, sorted_lem,
  sort_graph_lem, counted,
}
use nuxt_laravelize.Common.{
  ◌≤◌, ◌<◌, String, ◌≡◌, sym, ◌∙◌, inl, inr, Bool, some, List, [], ◌∷◌, arith, length, All,
  All-weaken,
}
use nuxt_laravelize.Common.Exec.{Result-cases, ok}
use nuxt_laravelize.Migrations.Order.{dependencies, add_all, topological_sort, Graph}
use nuxt_laravelize.Migrations.{LoadedMigration}

-- All dependencies of an item stand before it.
abbrev pub IsSorted : (before : List String) → List LoadedMigration → Type 0
IsSorted before [] = Unit
IsSorted before (x ∷ xs) =
    All (λ d. 0 < count d before) (dependencies x) × IsSorted (x.id ∷ before) xs

-- A list has the items of another, each as often.
abbrev pub HasItems : List LoadedMigration → List LoadedMigration → Type 0
HasItems items sorted =
    All (λ (x : LoadedMigration). find x.id items ≡ some x) sorted
    × ((k : String) → count k (ids sorted) ≡ count k (ids items))

pending-All : (before ds : List String) → pending before ds ≡ 0 → All (λ d. 0 < count d before) ds
unfolding pending
pending-All before [] h = tt
pending-All before (d ∷ ds) h = (ground (arith, h), pending-All before ds (ground (arith, h)))

IsOrdered-IsSorted :
    (before : List String) (xs : List LoadedMigration) → IsOrdered before xs → IsSorted before xs
IsOrdered-IsSorted before [] h = tt
IsOrdered-IsSorted before (x ∷ xs) (h, hs) =
    (pending-All before (dependencies x) h, IsOrdered-IsSorted (x.id ∷ before) xs hs)

module _ (locale_lt : String → String → Bool) (items : List LoadedMigration)
    (distinct : IsDistinct items) where
  module _ (g : Graph) (built : add_all (by_id_of items) items (first_graph items) ≡ ok g) where
    abbrev pub found : List LoadedMigration
    found = sorted_of locale_lt items distinct g built

    pub count_at_most : (k : String) → count k (ids found) ≤ count k (ids items)
    unfolding count
    count_at_most k = ground (
      arith,
      (sorted_lem locale_lt items distinct g built).2 k,
      counted locale_lt items distinct k,
      count-sorted_after k [] found,
    )

    found-HasItems : length found ≡ length items → HasItems items found
    found-HasItems same = (
      All-weaken (λ (x : LoadedMigration). Map.get x.id (by_id_of items) ≡ some x)
          (λ (x : LoadedMigration). find x.id items ≡ some x)
          (λ x h. sym (get-by_id locale_lt items distinct x.id) ∙ h) found
          (sorted_lem locale_lt items distinct g built).0,
      count-eq_of_length (ids found) (ids items) count_at_most
          (omega (arith, length-ids found, length-ids items)),
    )

  -- If the migrations have distinct ids and the topological sort returns, then the result has
  -- exactly these migrations, each once, and every dependency of a migration stands before it.
  pub topological_sort-IsSorted :
      (sorted : List LoadedMigration)
      → topological_sort locale_lt items ≡ ok sorted
      → HasItems items sorted × IsSorted [] sorted
  unfolding topological_sort
  topological_sort-IsSorted sorted h =
      elim (Result-cases (add_all (by_id_of items) items (first_graph items))) [
        | inr (e, failed) ↦ absurd (ground (arith, h, failed))
        | inl (g, built) ↦
            let returned : (sorted_of locale_lt items distinct g built ≡ sorted)
                × (length (sorted_of locale_lt items distinct g built) ≡ length items) =
              ground (arith, h, built, sort_graph_lem locale_lt items distinct g built) in
            rw (← returned.0) (
              found-HasItems g built returned.1,
              IsOrdered-IsSorted [] (found g built) (sorted_lem locale_lt items distinct g built).1,
            )
      ]
