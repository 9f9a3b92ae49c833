-- ===== src/Migrations/Runner/Consistent.antt =====
-- packages/migrations/src/index.ts: an applied migration has its dependencies applied, in no later
-- batch, whatever calls are made of the runner.
pub mod Up
pub mod Batches
pub mod Down
pub mod Chosen
pub mod Calls
pub mod Runs
use nuxt_laravelize.Common.Map
use nuxt_laravelize.Common.Map.Distinct.{IsDistinct, put-IsDistinct, remove-IsDistinct}
use nuxt_laravelize.Common.Map.{get-put, get-remove, get-has, Map}
use nuxt_laravelize.Migrations.Order.Items.{find}
use nuxt_laravelize.Migrations.{LoadedMigration, MigrationRecord}
use nuxt_laravelize.Common.{
  ℕ, ◌≤◌, ◌≡◌, refl, none, some, List, [], ◌∷◌, arith, eq_iff, All, String, ap, inl, inr, str_eq,
  Bool-cases, All-weaken, All-same,
}
use nuxt_laravelize.Migrations.Order.{dependencies}
use nuxt_laravelize.Migrations.Runner.{new_record, RunnerOptions}

-- A migration is recorded, in a batch up to a bound.
abbrev pub IsApplied : Map MigrationRecord → (bound : ℕ) → String → Type 0
IsApplied m bound id = (r : MigrationRecord) × (Map.get id m ≡ some r) × (r.batch ≤ bound)

abbrev pub IsConsistent : List LoadedMigration → Map MigrationRecord → Type 0
IsConsistent loaded m =
    (id : String) (r : MigrationRecord) (item : LoadedMigration)
    → Map.get id m ≡ some r
    → find id loaded ≡ some item
    → All (IsApplied m r.batch) (dependencies item)

abbrev pub HasKeys : Map MigrationRecord → Type 0
HasKeys m = All (λ (e : String × MigrationRecord). e.1.id ≡ e.0) m

-- Every record stands under its own id, and once.
abbrev pub IsKeyed : Map MigrationRecord → Type 0
IsKeyed m = HasKeys m × IsDistinct m

put-HasKeys :
    (r : MigrationRecord) (m : Map MigrationRecord) → HasKeys m → HasKeys (Map.put r.id r m)
unfolding Map.put
put-HasKeys r [] h = (refl, tt)
put-HasKeys r ((k, s) ∷ m) (h, hs) = ground (arith, eq_iff k r.id, put-HasKeys r m hs, h)

pub put-IsKeyed :
    (r : MigrationRecord) (m : Map MigrationRecord) → IsKeyed m → IsKeyed (Map.put r.id r m)
put-IsKeyed r m (keys, distinct) = (put-HasKeys r m keys, put-IsDistinct r.id r m distinct)

remove-HasKeys : (id : String) (m : Map MigrationRecord) → HasKeys m → HasKeys (Map.remove id m)
unfolding Map.remove
remove-HasKeys id [] h = tt
remove-HasKeys id ((k, s) ∷ m) (h, hs) = ground (arith, remove-HasKeys id m hs)

pub remove-IsKeyed : (id : String) (m : Map MigrationRecord) → IsKeyed m → IsKeyed (Map.remove id m)
remove-IsKeyed id m (keys, distinct) = (remove-HasKeys id m keys, remove-IsDistinct id m distinct)

pub put-IsApplied :
    (id d : String) (r : MigrationRecord) (n : ℕ) (m : Map MigrationRecord)
    → Map.get id m ≡ none
    → IsApplied m n d
    → IsApplied (Map.put id r m) n d
put-IsApplied id d r n m new (s, at, low) =
    (s, ground (arith, at, get-put id d r m, eq_iff id d, ap (λ k. Map.get k m), new), low)

module _ (options : RunnerOptions) (items : List LoadedMigration) (batch : ℕ) where
  -- What holds while migrations are applied in a batch.
  abbrev pub Holds : Map MigrationRecord → Type 0
  Holds m =
      IsConsistent items m
      × IsKeyed m
      × ((id : String) (r : MigrationRecord) → Map.get id m ≡ some r → r.batch ≤ batch)

  put-IsConsistent :
      (m : Map MigrationRecord) (item : LoadedMigration)
      → IsConsistent items m
      → find item.id items ≡ some item
      → Map.get item.id m ≡ none
      → All (IsApplied m batch) (dependencies item)
      → IsConsistent items (Map.put item.id (new_record options item batch) m)
  unfolding new_record
  put-IsConsistent m item consistent there new applied id r item' at there' =
      elim (Bool-cases (str_eq item.id id)) [
        | inl same ↦
            let e : item.id ≡ id = (eq_iff item.id id).0 same in
            let own : item' ≡ item = ground (arith, there, there', ap (λ k. find k items) e) in
            let now : r.batch ≡ batch =
              ground (arith, at, same, get-put item.id id (new_record options item batch) m) in
            All-same (IsApplied (Map.put item.id (new_record options item batch) m) r.batch)
              (dependencies item') (dependencies item) (ap dependencies own)
              (All-weaken (IsApplied m batch)
                (IsApplied (Map.put item.id (new_record options item batch) m) r.batch)
                (λ d (s, here, low).
                  let kept =
                    put-IsApplied item.id d (new_record options item batch) batch m new
                      (s, here, low) in
                  (kept.0, kept.1, omega (arith, kept.2, now)))
                (dependencies item) applied)
        | inr other ↦
            All-weaken (IsApplied m r.batch)
              (IsApplied (Map.put item.id (new_record options item batch) m) r.batch)
              (λ d. put-IsApplied item.id d (new_record options item batch) r.batch m new)
              (dependencies item')
              (consistent id r item'
                (ground (arith, at, other, get-put item.id id (new_record options item batch) m))
                there')
      ]

  pub put-Holds :
      (m : Map MigrationRecord) (item : LoadedMigration)
      → Holds m
      → find item.id items ≡ some item
      → Map.get item.id m ≡ none
      → All (IsApplied m batch) (dependencies item)
      → Holds (Map.put item.id (new_record options item batch) m)
  unfolding new_record
  put-Holds m item (consistent, keyed, bounded) there new applied = (
    put-IsConsistent m item consistent there new applied,
    put-IsKeyed (new_record options item batch) m keyed,
    λ id r at.
        ground (arith, at, bounded id r, get-put item.id id (new_record options item batch) m),
  )

  pub Holds-same : (m m' : Map MigrationRecord) → m ≡ m' → Holds m' → Holds m
  Holds-same m m' e h = rw e h

  pub empty_Holds : Holds []
  unfolding Map.get
  empty_Holds = (
    λ id r item at there. absurd (ground (arith, at)),
    (tt, tt),
    λ id r at. absurd (ground (arith, at)),
  )
