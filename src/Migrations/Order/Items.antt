-- ===== src/Migrations/Order/Items.antt =====
-- packages/migrations/src/index.ts: the maps that `topologicalSort` makes of items with distinct ids.
use nuxt_laravelize.Common.Map
use nuxt_laravelize.Common.Map.{get-put, Map}
use nuxt_laravelize.Common.Sort.{count}
use nuxt_laravelize.Migrations.Order.Edges.{wants}
use nuxt_laravelize.Migrations.Order.Release.{ids, queued}
use nuxt_laravelize.Migrations.{LoadedMigration}
use nuxt_laravelize.Common.{
  String, ◌≡◌, refl, ap, inl, inr, Bool, Option, none, some, List, [], ◌∷◌, arith, str_eq, eq_iff,
  if◌then◌else◌, Bool-cases, select, ℕ, eq_refl, All, All-weaken,
}
use nuxt_laravelize.Migrations.Order.{dependencies, map_by_id}
use mathlib.Core.List.{append-nil}

unfoldable pub find : String → List LoadedMigration → Option LoadedMigration
find k [] = none
find k (x ∷ xs) = if str_eq x.id k then some x else find k xs

abbrev pub IsDistinct : List LoadedMigration → Type 0
IsDistinct [] = Unit
IsDistinct (x ∷ xs) = (find x.id xs ≡ none) × IsDistinct xs

-- What an item that is there depends on.
abbrev pub needs : Option LoadedMigration → List String
needs none = []
needs (some item) = dependencies item

abbrev or_value {ℓ} :
    {V : Type ℓ} → (LoadedMigration → V) → Option LoadedMigration → Option V → Option V
or_value f none o = o
or_value f (some x) o = some (f x)

pub get-map_by_id {ℓ} :
    {V : Type ℓ} (f : LoadedMigration → V) (k : String) (items : List LoadedMigration) (m : Map V)
    → IsDistinct items
    → Map.get k (map_by_id f items m) ≡ or_value f (find k items) (Map.get k m)
unfolding map_by_id find
get-map_by_id f k [] m d = refl
get-map_by_id f k (x ∷ xs) m (new, d) =
    ground
      (arith, get-map_by_id f k xs (Map.put x.id (f x) m) d, get-put x.id k (f x) m, eq_iff x.id k)

pub find-id :
    (k : String) (items : List LoadedMigration) (x : LoadedMigration)
    → find k items ≡ some x
    → x.id ≡ k
unfolding find
find-id k [] x h = absurd (ground (arith, h))
find-id k (y ∷ ys) x h = ground (arith, eq_iff y.id k, find-id k ys x)

pub wants-find :
    (k : String) (items : List LoadedMigration)
    → IsDistinct items
    → wants k items ≡ needs (find k items)
unfolding wants find
wants-find k [] d = refl
wants-find k (x ∷ xs) (new, d) = elim (Bool-cases (str_eq x.id k)) [
  | inl same ↦
      let e : x.id ≡ k = (eq_iff x.id k).0 same in
      let rest : wants k xs ≡ [] = ground (arith, wants-find k xs d, ap (λ j. find j xs) e) in
      ground (arith, same, rest, append-nil (dependencies x))
  | inr other ↦ ground (arith, other, wants-find k xs d)
]

abbrev pub one_if : (LoadedMigration → Bool) → Option LoadedMigration → ℕ
one_if p none = 0
one_if p (some x) = if p x then 1 else 0

pub count-select :
    (p : LoadedMigration → Bool) (k : String) (items : List LoadedMigration)
    → IsDistinct items
    → count k (ids (select p items)) ≡ one_if p (find k items)
unfolding count find
count-select p k [] d = refl
count-select p k (x ∷ xs) (new, d) = ground (arith, eq_iff x.id k, count-select p k xs d, new)

pub count-ids :
    (k : String) (items : List LoadedMigration)
    → IsDistinct items
    → count k (ids items) ≡ queued (find k items) 0
unfolding count find
count-ids k [] d = refl
count-ids k (x ∷ xs) (new, d) = ground (arith, eq_iff x.id k, count-ids k xs d, new)

-- Every item is found under its id.
pub All-found :
    (items : List LoadedMigration)
    → IsDistinct items
    → All (λ (x : LoadedMigration). find x.id items ≡ some x) items
unfolding find
All-found [] d = tt
All-found (y ∷ ys) (new, d) = (
  ground (arith, eq_refl y.id),
  All-weaken (λ (x : LoadedMigration). find x.id ys ≡ some x)
      (λ (x : LoadedMigration). find x.id (y ∷ ys) ≡ some x)
      (λ x h. elim (Bool-cases (str_eq y.id x.id)) [
        | inl same ↦
            let e : y.id ≡ x.id = (eq_iff y.id x.id).0 same in
            absurd (ground (arith, h, new, ap (λ k. find k ys) e))
        | inr other ↦ ground (arith, other, h)
      ])
      ys (All-found ys d),
)
