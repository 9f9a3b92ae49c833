-- ===== src/Migrations/Order/Sorted.antt =====
-- packages/migrations/src/index.ts: what `topologicalSort` returns.
use nuxt_laravelize.Common.Map
use nuxt_laravelize.Common.Map.{get-empty, Map}
use nuxt_laravelize.Common.Int.{ℤ, pos}
use nuxt_laravelize.Common.Sort.{count, sort, count-sort}
use nuxt_laravelize.Migrations.Order.Release.{ids, queued}
use nuxt_laravelize.Migrations.Order.Edges.{wants, Extends, add_all-Extends}
use nuxt_laravelize.Migrations.Order.Items.{
  find, find-id, needs, IsDistinct, get-map_by_id, wants-find, count-ids, count-select, one_if,
  All-found,
}
use nuxt_laravelize.Migrations.Order.Ready.{sort-AreItems, AreItems}
use nuxt_laravelize.Migrations.Order.Loop.{
  pending, Holds, sorted_after, IsOrdered, IsClosed, sort_ready_lem,
}
use nuxt_laravelize.Migrations.{LoadedMigration, dependency_cycle}
use nuxt_laravelize.Common.{
  suc, ◌+◌, String, ◌≡◌, refl, ap, Bool, some, List, [], ◌∷◌, arith, length, ◌∙◌, inl, inr,
  Option-cases, select, select-All, All-weaken, ◌==◌, if◌then◌else◌,
}
use nuxt_laravelize.Common.Exec.{ok, throw}
use nuxt_laravelize.Migrations.Order.{
  dependencies, map_by_id, ids_of, add_all, ready_at_first, Graph, is_zero, id_before, sort_ready,
  sort_graph,
}

-- The maps at the start.
abbrev pub by_id_of : List LoadedMigration → Map LoadedMigration
by_id_of items = map_by_id (λ item. item) items []

abbrev pub first_graph : List LoadedMigration → Graph
first_graph items = record {
  incoming = map_by_id (λ item. pos 0) items [];
  outgoing = map_by_id (λ item. []) items [];
}

pub count-sorted_after :
    (k : String) (before : List String) (xs : List LoadedMigration)
    → count k (sorted_after before xs) ≡ count k before + count k (ids xs)
unfolding count
count-sorted_after k before [] = omega arith
count-sorted_after k before (x ∷ xs) = omega (arith, count-sorted_after k (x.id ∷ before) xs)

pub length-ids : (xs : List LoadedMigration) → length (ids xs) ≡ length xs
length-ids [] = refl
length-ids (x ∷ xs) = ap suc (length-ids xs)

pending-nil : (ds : List String) → pending [] ds ≡ length ds
unfolding pending count
pending-nil [] = refl
pending-nil (d ∷ ds) = omega (arith, pending-nil ds)

module _ (locale_lt : String → String → Bool) (items : List LoadedMigration)
    (distinct : IsDistinct items) where
  pub get-by_id : (k : String) → Map.get k (by_id_of items) ≡ find k items
  get-by_id k =
      ground
        (arith, get-map_by_id (λ item. item) k items [] distinct, get-empty {V = LoadedMigration} k)

  pub keyed :
      (k : String) (item : LoadedMigration) → Map.get k (by_id_of items) ≡ some item → item.id ≡ k
  keyed k item h = find-id k items item (ground (arith, h, get-by_id k))

  pub counted : (k : String) → count k (ids items) ≡ queued (Map.get k (by_id_of items)) 0
  counted k = rw (get-by_id k) (count-ids k items distinct)

  module _ (g : Graph) (built : add_all (by_id_of items) items (first_graph items) ≡ ok g) where
    extended : Extends (λ k. wants k items) (first_graph items) g
    extended = add_all-Extends (by_id_of items) items (first_graph items) g built

    pub named :
        (k d : String) (item : LoadedMigration)
        → Map.get d (by_id_of items) ≡ some item
        → count k (ids_of (Map.get d g.outgoing)) ≡ count d (needs (Map.get k (by_id_of items)))
    unfolding count
    named k d item h = ground (
      arith,
      extended.1 k d,
      get-map_by_id {V = List String} (λ item. []) d items [] distinct,
      get-empty {V = List String} d,
      wants-find k items distinct,
      get-by_id k,
      get-by_id d,
    )

    incoming_at :
        (k : String) (item : LoadedMigration)
        → find k items ≡ some item
        → Map.get k g.incoming ≡ some (pos (length (dependencies item)))
    incoming_at k item h =
        let first : Map.get k (first_graph items).incoming ≡ some (pos 0) =
          ground (arith, h, get-map_by_id {V = ℤ} (λ item. pos 0) k items [] distinct) in
        let e : 0 + length (wants k items) ≡ length (dependencies item) =
          omega (arith, ap length (wants-find k items distinct ∙ ap needs h)) in
        rw (← e) (extended.0 k 0 first)

    abbrev is_ready : LoadedMigration → Bool
    is_ready item = is_zero (Map.get item.id g.incoming)

    starts :
        Holds locale_lt
          (by_id_of items)
          keyed
          (ids items)
          counted
          g.outgoing
          named
          []
          (g.incoming, ready_at_first locale_lt g.incoming items)
    unfolding ready_at_first count
    starts = (
      λ k.
          let ready_once : count k (ids (sort (id_before locale_lt) (select is_ready items)))
              ≡ one_if is_ready (find k items) =
            count-sort (λ (x : LoadedMigration). x.id) (id_before locale_lt) k
              (select is_ready items)
            ∙ count-select is_ready k items distinct in
          elim (Option-cases (find k items)) [
            | inl gone ↦ ground (arith, gone, get-by_id k, ready_once)
            | inr (item, here) ↦ ground (
              arith,
              here,
              get-by_id k,
              ready_once,
              incoming_at k item here,
              ap (λ j. Map.get j g.incoming) (find-id k items item here),
              pending-nil (dependencies item),
            )
          ],
      sort-AreItems locale_lt (by_id_of items) keyed (id_before locale_lt) (select is_ready items) (
          select-All (λ (x : LoadedMigration). Map.get x.id (by_id_of items) ≡ some x) is_ready
            items
            (All-weaken (λ (x : LoadedMigration). find x.id items ≡ some x)
              (λ (x : LoadedMigration). Map.get x.id (by_id_of items) ≡ some x)
              (λ x h. get-by_id x.id ∙ h) items (All-found items distinct))),
    )

    -- What the loop sorts.
    pub sorted_of : List LoadedMigration
    sorted_of =
        sort_ready locale_lt (by_id_of items) g.outgoing (length items)
          (g.incoming, ready_at_first locale_lt g.incoming items)

    pub sorted_lem :
        AreItems locale_lt (by_id_of items) keyed sorted_of
        × IsOrdered [] sorted_of
        × IsClosed locale_lt
            (by_id_of items)
            keyed
            (ids items)
            counted
            g.outgoing
            named
            (sorted_after [] sorted_of)
    unfolding sorted_of
    sorted_lem =
        sort_ready_lem locale_lt (by_id_of items) keyed (ids items) counted g.outgoing named
          (length items) [] g.incoming (ready_at_first locale_lt g.incoming items)
          (omega (arith, length-ids items)) starts

    pub sort_graph_lem :
        sort_graph locale_lt items g
        ≡ (if length sorted_of == length items then ok sorted_of else throw dependency_cycle)
    unfolding sort_graph sorted_of
    sort_graph_lem = refl
