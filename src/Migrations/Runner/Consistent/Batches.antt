-- ===== src/Migrations/Runner/Consistent/Batches.antt =====
-- packages/migrations/src/index.ts: the batches that `rollback` chooses are the last ones.
use nuxt_laravelize.Common.Sort.{sort, insert, any-sort}
use nuxt_laravelize.Common.{
  ℕ, zero, suc, ◌≤◌, ◌≡◌, refl, ◌∙◌, inl, inr, Bool, true, List, [], ◌∷◌, arith, ltb, ◌==◌,
  Bool-cases, take, any, All,
}
use nuxt_laravelize.Migrations.Runner.{batches_of, last_batches, RunnerOptions}
use nuxt_laravelize.Migrations.{MigrationRecord}

-- A number stands in a list.
abbrev pub has_number : ℕ → List ℕ → Bool
has_number b ns = any (λ n. b == n) ns

abbrev pub falls : ℕ → ℕ → Bool
falls a b = ltb b a

abbrev pub IsDescending : List ℕ → Type 0
IsDescending [] = Unit
IsDescending (n ∷ ns) = All (λ m. m ≤ n) ns × IsDescending ns

pub insert-All :
    (k n : ℕ) (ns : List ℕ) → n ≤ k → All (λ m. m ≤ k) ns → All (λ m. m ≤ k) (insert falls n ns)
unfolding insert
insert-All k n [] h hs = (h, tt)
insert-All k n (m ∷ ms) h (hm, hms) = ground (arith, insert-All k n ms h hms)

All-below : (k n : ℕ) (ns : List ℕ) → k ≤ n → All (λ m. m ≤ k) ns → All (λ m. m ≤ n) ns
All-below k n [] h hs = tt
All-below k n (m ∷ ms) h (hm, hms) = (omega arith, All-below k n ms h hms)

insert-IsDescending : (n : ℕ) (ns : List ℕ) → IsDescending ns → IsDescending (insert falls n ns)
unfolding insert
insert-IsDescending n [] h = (tt, tt)
insert-IsDescending n (m ∷ ms) (low, rest) = elim (Bool-cases (falls m n)) [
  | inl less ↦ rw less (insert-All m n ms (ground (arith, less)) low, insert-IsDescending n ms rest)
  | inr more ↦
      rw more (((ground (arith, more), All-below m n ms (ground (arith, more)) low)), (low, rest))
]

pub sort-IsDescending : (ns : List ℕ) → IsDescending (sort falls ns)
unfolding sort
sort-IsDescending [] = tt
sort-IsDescending (n ∷ ns) = insert-IsDescending n (sort falls ns) (sort-IsDescending ns)

pub All-has : (k b : ℕ) (ns : List ℕ) → All (λ m. m ≤ k) ns → has_number b ns ≡ true → b ≤ k
All-has k b [] h there = absurd (ground (arith, there))
All-has k b (n ∷ ns) (h, hs) there = ground (arith, there, All-has k b ns hs)

take_closed :
    (count b c : ℕ) (ns : List ℕ)
    → IsDescending ns
    → has_number b (take count ns) ≡ true
    → has_number c ns ≡ true
    → b ≤ c
    → has_number c (take count ns) ≡ true
take_closed zero b c ns h taken there low = absurd (ground (arith, taken))
take_closed (suc count) b c [] h taken there low = absurd (ground (arith, there))
take_closed (suc count) b c (n ∷ ns) (h, hs) taken there low =
    ground (arith, taken, there, All-has n c ns h, take_closed count b c ns hs)

pub has-batches_of :
    (options : RunnerOptions) (b : ℕ) (records : List MigrationRecord)
    → has_number b (batches_of options records)
      ≡ any (λ (r : MigrationRecord). r.batch == b) records
unfolding batches_of
has-batches_of options b [] = refl
has-batches_of options b (r ∷ rs) =
    ground (arith, has-batches_of options b rs, has-batches_of options r.batch rs)

-- A later batch than one that is chosen is chosen too.
pub last_batches_closed :
    (options : RunnerOptions) (count b c : ℕ) (records : List MigrationRecord)
    → has_number b (last_batches options count records) ≡ true
    → any (λ (r : MigrationRecord). r.batch == c) records ≡ true
    → b ≤ c
    → has_number c (last_batches options count records) ≡ true
unfolding last_batches
last_batches_closed options count b c records chosen there low =
    take_closed count b c (sort falls (batches_of options records))
      (sort-IsDescending (batches_of options records)) chosen
      (any-sort (λ n. c == n) falls (batches_of options records)
        ∙ has-batches_of options c records
        ∙ there)
      low
