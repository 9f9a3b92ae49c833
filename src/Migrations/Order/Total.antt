-- ===== src/Migrations/Order/Total.antt =====
-- packages/migrations/src/index.ts: `topologicalSort` returns where the dependencies have no cycle.
use nuxt_laravelize.Common.Map
use nuxt_laravelize.Common.Map.{get-has, Map}
use nuxt_laravelize.Common.Sort.{count, length-le_of_count}
use nuxt_laravelize.Migrations.Order.Release.{ids}
use nuxt_laravelize.Migrations.Order.Items.{find, find-id, IsDistinct}
use nuxt_laravelize.Migrations.Order.Loop.{pending, sorted_after}
use nuxt_laravelize.Migrations.Order.Laws.{found, count_at_most}
use nuxt_laravelize.Migrations.Order.Sorted.{
  by_id_of, first_graph, count-sorted_after, length-ids, get-by_id, sorted_lem, sort_graph_lem,
  counted,
}
use nuxt_laravelize.Common.{
  inl, inr, ℕ, zero, suc, ◌<◌, String, ◌≡◌, refl, ap, ◌≢◌, inr, Bool, true, none, some, List, [],
  ◌∷◌, arith, str_eq, Bool-cases, Option-cases, All, ◌∙◌, length, All-weaken,
}
use nuxt_laravelize.Common.Exec.{ok}
use nuxt_laravelize.Migrations.Order.{
  dependencies, add_edge, add_edges, add_all, Graph, topological_sort,
}
use nuxt_laravelize.Migrations.{LoadedMigration}

All-pending : (before ds : List String) → All (λ d. 0 < count d before) ds → pending before ds ≡ 0
unfolding pending
All-pending before [] h = refl
All-pending before (d ∷ ds) (h, hs) = ground (arith, h, All-pending before ds hs)

-- All dependencies of an item are there, and of a lower rank.
abbrev pub IsRanked : (String → ℕ) → List LoadedMigration → LoadedMigration → Type 0
IsRanked rank items x = All (λ d. (find d items ≢ none) × (rank d < rank x.id)) (dependencies x)

module _ (by_id : Map LoadedMigration) where
  add_edges_returns :
      (ds : List String) (id : String) (g : Graph)
      → All (λ d. Map.has d by_id ≡ true) ds
      → (g' : Graph) × (add_edges by_id ds id g ≡ ok g')
  unfolding add_edges
  add_edges_returns [] id g h = (g, refl)
  add_edges_returns (d ∷ ds) id g (h, hs) =
      let rest = add_edges_returns ds id (add_edge d id g) hs in (rest.0, ground (arith, h, rest.1))

  add_all_returns :
      (items : List LoadedMigration) (g : Graph)
      → All (λ (x : LoadedMigration). All (λ d. Map.has d by_id ≡ true) (dependencies x)) items
      → (g' : Graph) × (add_all by_id items g ≡ ok g')
  unfolding add_all
  add_all_returns [] g h = (g, refl)
  add_all_returns (x ∷ xs) g (h, hs) =
      let first = add_edges_returns (dependencies x) x.id g h in
      let rest = add_all_returns xs first.0 hs in (rest.0, ground (arith, first.1, rest.1))

module _ (locale_lt : String → String → Bool) (items : List LoadedMigration)
    (distinct : IsDistinct items) (rank : String → ℕ)
    (ranked : All (IsRanked rank items) items) where
  All-IsRanked :
      (k : String) (x : LoadedMigration) (xs : List LoadedMigration)
      → All (IsRanked rank items) xs
      → find k xs ≡ some x
      → IsRanked rank items x
  unfolding find
  All-IsRanked k x [] h there = absurd (ground (arith, there))
  All-IsRanked k x (y ∷ ys) (h, hs) there = elim (Bool-cases (str_eq y.id k)) [
    | inl same ↦ let e : y ≡ x = ground (arith, there, same) in rw (← e) h
    | inr other ↦ All-IsRanked k x ys hs (ground (arith, there, other))
  ]

  module _ (g : Graph) (built : add_all (by_id_of items) items (first_graph items) ≡ ok g) where
    abbrev sorted : List String
    sorted = sorted_after [] (found locale_lt items distinct g built)

    dependencies_below :
        (n : ℕ) (x : LoadedMigration) (ds : List String)
        → ((k : String) (y : LoadedMigration)
            → rank k < n
            → find k items ≡ some y
            → count k sorted ≡ 1)
        → rank x.id < suc n
        → All (λ d. (find d items ≢ none) × (rank d < rank x.id)) ds
        → All (λ d. 0 < count d sorted) ds
    dependencies_below n x [] below low h = tt
    dependencies_below n x (d ∷ ds) below low ((there, lower), hs) = (
      elim (Option-cases (find d items)) [
        | inl gone ↦ absurd (there gone)
        | inr (y, here) ↦ omega (arith, below d y (omega arith) here)
      ],
      dependencies_below n x ds below low hs,
    )

    sorted_below :
        (n : ℕ) (k : String) (x : LoadedMigration)
        → rank k < n
        → find k items ≡ some x
        → count k sorted ≡ 1
    sorted_below zero k x low there = absurd (omega arith)
    sorted_below (suc n) k x low there =
        let none_left : pending sorted (dependencies x) ≡ 0 = All-pending sorted (dependencies x) (
          dependencies_below n x (dependencies x) (sorted_below n)
            (omega (arith, ap rank (find-id k items x there)))
            (All-IsRanked k x items ranked there)) in
        ground (
          arith,
          there,
          none_left,
          get-by_id locale_lt items distinct k,
          (sorted_lem locale_lt items distinct g built).2 k,
        )

    all_sorted : length (found locale_lt items distinct g built) ≡ length items
    unfolding count
    all_sorted = omega (
      arith,
      length-ids (found locale_lt items distinct g built),
      length-ids items,
      length-le_of_count (ids (found locale_lt items distinct g built)) (ids items)
          (count_at_most locale_lt items distinct g built),
      length-le_of_count (ids items) (ids (found locale_lt items distinct g built)) λ k.
          elim (Option-cases (find k items)) [
            | inl gone ↦ ground (
              arith,
              gone,
              counted locale_lt items distinct k,
              get-by_id locale_lt items distinct k,
            )
            | inr (x, here) ↦ ground (
              arith,
              here,
              counted locale_lt items distinct k,
              get-by_id locale_lt items distinct k,
              sorted_below (suc (rank k)) k x (omega arith) here,
              count-sorted_after k [] (found locale_lt items distinct g built),
            )
          ],
    )

  known :
      (ds : List String) (x : LoadedMigration)
      → All (λ d. (find d items ≢ none) × (rank d < rank x.id)) ds
      → All (λ d. Map.has d (by_id_of items) ≡ true) ds
  known [] x h = tt
  known (d ∷ ds) x ((there, below), hs) = (
    elim (Option-cases (find d items)) [
      | inl gone ↦ absurd (there gone)
      | inr (y, here) ↦ get-has d (by_id_of items) y (get-by_id locale_lt items distinct d ∙ here)
    ],
    known ds x hs,
  )

  -- If the migrations have distinct ids, every dependency is one of them, and some rank of the ids
  -- is lower for a dependency than for what depends on it, so that there is no cycle, then the
  -- topological sort returns.
  pub topological_sort_returns :
      (result : List LoadedMigration) × (topological_sort locale_lt items ≡ ok result)
  unfolding topological_sort
  topological_sort_returns =
      let (g, built) = add_all_returns (by_id_of items) items (first_graph items) (
        All-weaken (IsRanked rank items)
          (λ (x : LoadedMigration). All (λ d. Map.has d (by_id_of items) ≡ true) (dependencies x))
          (λ x h. known (dependencies x) x h) items ranked) in
      (
        found locale_lt items distinct g built,
        ground (arith, built, sort_graph_lem locale_lt items distinct g built, all_sorted g built),
      )
