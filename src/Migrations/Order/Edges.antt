-- ===== src/Migrations/Order/Edges.antt =====
-- packages/migrations/src/index.ts: the graph that `topologicalSort` builds.
use nuxt_laravelize.Common.Map
use nuxt_laravelize.Common.Map.{get-put, Map}
use nuxt_laravelize.Common.Int.{pos, ◌+ℤ◌}
use nuxt_laravelize.Common.Sort.{count, count-append}
use nuxt_laravelize.Migrations.{LoadedMigration}
use nuxt_laravelize.Common.{
  ℕ, ◌+◌, String, ◌≡◌, some, List, [], ◌∷◌, ◌++◌, arith, str_eq, eq_iff, if◌then◌else◌, length,
  refl, ap, inl, inr, Bool-cases, length-append,
}
use nuxt_laravelize.Migrations.Order.{
  dependencies, add_count, change_count, ids_of, add_edge, Graph, add_edges, add_all,
}
use nuxt_laravelize.Common.Exec.{Result-cases, ok}

-- The dependencies of the items with an id.
unfoldable pub wants : String → List LoadedMigration → List String
wants k [] = []
wants k (x ∷ xs) = let rest = wants k xs in if str_eq x.id k then dependencies x ++ rest else rest

-- The edges of `added` stand in the graph beside those that were there.
abbrev pub Extends : (String → List String) → Graph → Graph → Type 0
Extends added g g' =
    ((k : String) (n : ℕ)
      → Map.get k g.incoming ≡ some (pos n)
      → Map.get k g'.incoming ≡ some (pos (n + length (added k))))
    × ((k d : String)
        → count k (ids_of (Map.get d g'.outgoing))
          ≡ count k (ids_of (Map.get d g.outgoing)) + count d (added k))

Extends-trans :
    (a b c : String → List String) (g g' g'' : Graph)
    → Extends a g g'
    → Extends b g' g''
    → ((k : String) → c k ≡ a k ++ b k)
    → Extends c g g''
Extends-trans a b c g g' g'' p q same = (
  λ k n h.
      let e : n + length (a k) + length (b k) ≡ n + length (c k) =
        omega (arith, ap length (same k), length-append (a k) (b k)) in
      rw (← e) (q.0 k (n + length (a k)) (p.0 k n h)),
  λ k d. omega (arith, p.1 k d, q.1 k d, ap (count d) (same k), count-append d (a k) (b k)),
)

add_edge-Extends :
    (d id : String) (g : Graph)
    → Extends (λ k. if str_eq id k then d ∷ [] else []) g (add_edge d id g)
unfolding add_edge change_count ◌+ℤ◌ count
add_edge-Extends d id g = (
  λ k n h.
      ground (
        arith,
        h,
        get-put id k (add_count (pos 1) (Map.get id g.incoming)) g.incoming,
        eq_iff id k,
      ),
  λ k e. ground (
    arith,
    get-put d e (ids_of (Map.get d g.outgoing) ++ (id ∷ [])) g.outgoing,
    eq_iff d e,
    count-append k (ids_of (Map.get d g.outgoing)) (id ∷ []),
  ),
)

Extends-refl : (c : String → List String) (g : Graph) → ((k : String) → c k ≡ []) → Extends c g g
unfolding count
Extends-refl c g none_added = (
  λ k n h. let e : n ≡ n + length (c k) = omega (arith, ap length (none_added k)) in rw (← e) h,
  λ k d. omega (arith, ap (count d) (none_added k)),
)

module _ (by_id : Map LoadedMigration) where
  add_edges-Extends :
      (ds : List String) (id : String) (g g' : Graph)
      → add_edges by_id ds id g ≡ ok g'
      → Extends (λ k. if str_eq id k then ds else []) g g'
  unfolding add_edges
  add_edges-Extends [] id g g' h =
      let e : g ≡ g' = ground (arith, h) in
      rw (← e) (Extends-refl (λ k. if str_eq id k then [] else []) g λ k. ground arith)
  add_edges-Extends (d ∷ ds) id g g' h = elim (Bool-cases (Map.has d by_id)) [
    | inr gone ↦ absurd (ground (arith, h, gone))
    | inl here ↦
        Extends-trans (λ k. if str_eq id k then d ∷ [] else [])
          (λ k. if str_eq id k then ds else []) (λ k. if str_eq id k then d ∷ ds else []) g
          (add_edge d id g) g' (add_edge-Extends d id g)
          (add_edges-Extends ds id (add_edge d id g) g' (ground (arith, h, here))) λ k. ground arith
  ]

  pub add_all-Extends :
      (items : List LoadedMigration) (g g' : Graph)
      → add_all by_id items g ≡ ok g'
      → Extends (λ k. wants k items) g g'
  unfolding add_all wants
  add_all-Extends [] g g' h =
      let e : g ≡ g' = ground (arith, h) in rw (← e) (Extends-refl (λ k. []) g λ k. refl)
  add_all-Extends (x ∷ xs) g g' h = elim (Result-cases (add_edges by_id (dependencies x) x.id g)) [
    | inr (e, failed) ↦ absurd (ground (arith, h, failed))
    | inl (between, added) ↦
        let edges : Extends (λ k. if str_eq x.id k then dependencies x else []) g between =
          add_edges-Extends (dependencies x) x.id g between added in
        let others : Extends (λ k. wants k xs) between g' =
          add_all-Extends xs between g' (ground (arith, h, added)) in
        Extends-trans (λ k. if str_eq x.id k then dependencies x else []) (λ k. wants k xs)
          (λ k. wants k (x ∷ xs)) g between g' edges others λ k. ground arith
  ]
