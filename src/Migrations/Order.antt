-- ===== src/Migrations/Order.antt =====
-- packages/migrations/src/index.ts: `topologicalSort`. `locale_lt` is whether `localeCompare` of two
-- ids is negative.
pub mod Release
pub mod Edges
pub mod Items
pub mod Ready
pub mod Loop
pub mod Sorted
pub mod Laws
pub mod Total
use nuxt_laravelize.Common.Map
use nuxt_laravelize.Common.Int.{ℤ, pos, negsuc, ◌+ℤ◌}
use nuxt_laravelize.Common.Sort.{sort}
use nuxt_laravelize.Common.Text.{text_lt}
use nuxt_laravelize.Common.Exec.{Result, ok, throw}
use nuxt_laravelize.Migrations.{
  MigrationError, unknown_dependency, dependency_cycle, LoadedMigration,
}
use nuxt_laravelize.Common.{
  ℕ, zero, suc, String, Bool, false, Option, none, some, List, [], ◌∷◌, ◌++◌, ◌==◌, if◌then◌else◌,
  length, select,
}
use nuxt_laravelize.Common.Map.{Map}

pub record Graph : Type 0 where
  pub incoming : Map ℤ
  pub outgoing : Map (List String)

abbrev list_or_none : Option (List String) → List String
list_or_none none = []
list_or_none (some ids) = ids

-- `item.migration.dependsOn ?? []`
abbrev pub dependencies : LoadedMigration → List String
dependencies item = list_or_none item.migration.depends_on

-- `new Map(items.map(…))`
unfoldable pub map_by_id {ℓ} :
    {V : Type ℓ} → (LoadedMigration → V) → List LoadedMigration → Map V → Map V
map_by_id f [] m = m
map_by_id f (item ∷ items) m = map_by_id f items (Map.put item.id (f item) m)

-- `incoming.set(id, incoming.get(id)! + change)`, where the key is there.
abbrev pub add_count : ℤ → Option ℤ → ℤ
add_count change none = change
add_count change (some n) = n +ℤ change

unfoldable pub change_count : String → ℤ → Map ℤ → Map ℤ
change_count id change m = Map.put id (add_count change (Map.get id m)) m

abbrev pub ids_of : Option (List String) → List String
ids_of none = []
ids_of (some ids) = ids

unfoldable pub add_edge : (dependency id : String) → Graph → Graph
unfolding change_count
add_edge dependency id g = record {
  incoming = change_count id (pos 1) g.incoming;
  outgoing = Map.put dependency (ids_of (Map.get dependency g.outgoing) ++ (id ∷ [])) g.outgoing;
}

module _ (by_id : Map LoadedMigration) where
  unfoldable pub add_edges :
      (dependencies : List String) → (id : String) → Graph → Result MigrationError Graph
  add_edges [] id g = ok g
  add_edges (dependency ∷ ds) id g =
      let rest = add_edges ds id (add_edge dependency id g) in
      if Map.has dependency by_id then rest else throw unknown_dependency

  abbrev then_add :
      Result MigrationError Graph
      → (Graph → Result MigrationError Graph)
      → Result MigrationError Graph
  then_add (throw e) k = throw e
  then_add (ok g) k = k g

  unfoldable pub add_all : List LoadedMigration → Graph → Result MigrationError Graph
  add_all [] g = ok g
  add_all (item ∷ items) g =
      then_add (add_edges (dependencies item) item.id g) λ g'. add_all items g'

abbrev pub is_zero : Option ℤ → Bool
is_zero (some (pos n)) = n == 0
is_zero _ = false

module _ (locale_lt : String → String → Bool) where
  abbrev pub id_before : LoadedMigration → LoadedMigration → Bool
  id_before a b = locale_lt a.id b.id

  -- `ready.push(byId.get(id)!)` and the sorting behind it.
  abbrev pub enqueue : Option LoadedMigration → List LoadedMigration → List LoadedMigration
  enqueue none ready = ready
  enqueue (some item) ready = sort id_before (ready ++ (item ∷ []))

  module _ (by_id : Map LoadedMigration) where
    -- The inner loop: what waits for the item that was sorted last.
    unfoldable pub release :
        (ids : List String) → Map ℤ × List LoadedMigration → Map ℤ × List LoadedMigration
    release [] state = state
    release (id ∷ ids) (incoming, ready) =
        let lowered = change_count id (negsuc 0) incoming in
        release ids (
          lowered,
          if is_zero (Map.get id lowered) then enqueue (Map.get id by_id) ready else ready,
        )

    -- The `while` loop; `fuel` bounds its rounds.
    unfoldable pub sort_ready :
        (outgoing : Map (List String))
        → (fuel : ℕ) → Map ℤ × List LoadedMigration
        → List LoadedMigration
    sort_ready outgoing zero state = []
    sort_ready outgoing (suc fuel) (incoming, []) = []
    sort_ready outgoing (suc fuel) (incoming, item ∷ ready) =
        item
        ∷ sort_ready outgoing fuel
            (release (sort text_lt (ids_of (Map.get item.id outgoing))) (incoming, ready))

  unfoldable pub ready_at_first : Map ℤ → List LoadedMigration → List LoadedMigration
  ready_at_first incoming items =
      sort id_before (select (λ (item : LoadedMigration). is_zero (Map.get item.id incoming)) items)

  -- The rest of `topologicalSort`, with the graph. Every round sorts another item, so there are at
  -- most as many rounds as items.
  unfoldable pub sort_graph :
      List LoadedMigration → Graph → Result MigrationError (List LoadedMigration)
  sort_graph items g =
      let sorted =
        sort_ready (map_by_id (λ item. item) items []) g.outgoing (length items)
          (g.incoming, ready_at_first g.incoming items) in
      if length sorted == length items then ok sorted else throw dependency_cycle

  abbrev then_sort :
      List LoadedMigration
      → Result MigrationError Graph
      → Result MigrationError (List LoadedMigration)
  then_sort items (throw e) = throw e
  then_sort items (ok g) = sort_graph items g

  unfoldable pub topological_sort :
      List LoadedMigration → Result MigrationError (List LoadedMigration)
  topological_sort items = then_sort items (
      add_all (map_by_id (λ item. item) items []) items (record {
        incoming = map_by_id (λ item. pos 0) items [];
        outgoing = map_by_id (λ item. []) items [];
      }))
