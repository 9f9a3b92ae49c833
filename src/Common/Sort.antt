-- ===== src/Common/Sort.antt =====
-- `Array.prototype.sort`, which is stable: `before` is whether the comparison is negative.
use Prim.Native.Nat.{ℕ, ◌+◌}
use Prim.Native.String.{String}
use mathlib.Core.Path.{◌≡◌, refl}
use mathlib.Core.Bool.{Bool}
use mathlib.Core.List.{List, [], ◌∷◌, ◌++◌, map}
use native.Mathlib.Omega.{arith}
use text.Mathlib.Text.{◌==◌ as str_eq}
use nuxt_laravelize.Common.Tests.{if◌then◌else◌}
use nuxt_laravelize.Common.Lists.{any}
use nuxt_laravelize.Common.{suc, ◌≤◌, ◌<◌, eq_iff, eq_refl, length}

module _ {ℓ} {A : Type ℓ} where
  unfoldable pub insert : (before : A → A → Bool) → A → List A → List A
  insert before x [] = x ∷ []
  insert before x (y ∷ ys) =
      let rest = insert before x ys in if before y x then y ∷ rest else x ∷ y ∷ ys

  unfoldable pub sort : (before : A → A → Bool) → List A → List A
  sort before [] = []
  sort before (x ∷ xs) = insert before x (sort before xs)

module _ {ℓ} {A : Type ℓ} (p : A → Bool) (before : A → A → Bool) where
  any-insert : (x : A) (xs : List A) → any p (insert before x xs) ≡ any p (x ∷ xs)
  unfolding insert
  any-insert x [] = refl
  any-insert x (y ∷ ys) = ground (arith, any-insert x ys)

  pub any-sort : (xs : List A) → any p (sort before xs) ≡ any p xs
  unfolding sort
  any-sort [] = refl
  any-sort (x ∷ xs) = ground (arith, any-insert x (sort before xs), any-sort xs)

-- How often a text stands in a list.
unfoldable pub count : String → List String → ℕ
count k [] = 0
count k (x ∷ xs) = (if str_eq x k then 1 else 0) + count k xs

pub count-append : (k : String) (xs ys : List String) → count k (xs ++ ys) ≡ count k xs + count k ys
unfolding count
count-append k [] ys = omega arith
count-append k (x ∷ xs) ys = omega (arith, count-append k xs ys)

module _ {ℓ} {A : Type ℓ} (key : A → String) (before : A → A → Bool) (k : String) where
  pub count-insert :
      (x : A) (xs : List A) → count k (map key (insert before x xs)) ≡ count k (key x ∷ map key xs)
  unfolding insert count
  count-insert x [] = refl
  count-insert x (y ∷ ys) = ground (arith, count-insert x ys)

  pub count-sort : (xs : List A) → count k (map key (sort before xs)) ≡ count k (map key xs)
  unfolding sort count
  count-sort [] = refl
  count-sort (x ∷ xs) = omega (arith, count-insert x (sort before xs), count-sort xs)

pub count-sort_texts :
    (before : String → String → Bool) (k : String) (xs : List String)
    → count k (sort before xs) ≡ count k xs
unfolding sort count insert
count-sort_texts before k [] = refl
count-sort_texts before k (x ∷ xs) =
    omega (arith, count-insert_text x (sort before xs), count-sort_texts before k xs)
  where
    count-insert_text :
        (x : String) (xs : List String) → count k (insert before x xs) ≡ count k (x ∷ xs)
    count-insert_text x [] = refl
    count-insert_text x (y ∷ ys) = ground (arith, count-insert_text x ys)

-- A list without the first occurrence of a text.
erase : String → List String → List String
erase k [] = []
erase k (x ∷ xs) = let rest = erase k xs in if str_eq x k then xs else x ∷ rest

count-erase :
    (k j : String) (xs : List String)
    → 0 < count k xs
    → count j xs ≡ (if str_eq k j then 1 else 0) + count j (erase k xs)
unfolding count erase
count-erase k j [] h = absurd (omega arith)
count-erase k j (x ∷ xs) h = ground (arith, eq_iff x k, eq_iff x j, eq_iff k j, count-erase k j xs)

length-erase :
    (k : String) (xs : List String) → 0 < count k xs → length xs ≡ suc (length (erase k xs))
unfolding count erase
length-erase k [] h = absurd (omega arith)
length-erase k (x ∷ xs) h = ground (arith, length-erase k xs)

-- A list that holds every text at most as often as another is at most as long.
pub length-le_of_count :
    (xs ys : List String) → ((k : String) → count k xs ≤ count k ys) → length xs ≤ length ys
unfolding count
length-le_of_count [] ys h = omega arith
length-le_of_count (x ∷ xs) ys h =
    let there : 0 < count x ys = ground (arith, h x, eq_refl x) in
    omega (
      arith,
      length-erase x ys there,
      length-le_of_count xs (erase x ys) λ k. ground (arith, h k, count-erase x k ys there),
    )

-- If it is as long, it holds every text as often.
pub count-eq_of_length :
    (xs ys : List String)
    → ((k : String) → count k xs ≤ count k ys)
    → length xs ≡ length ys
    → (k : String) → count k xs ≡ count k ys
unfolding count
count-eq_of_length [] [] h same k = refl
count-eq_of_length [] (y ∷ ys) h same k = absurd (omega arith)
count-eq_of_length (x ∷ xs) ys h same k =
    let there : 0 < count x ys = ground (arith, h x, eq_refl x) in
    ground (
      arith,
      count-erase x k ys there,
      count-eq_of_length xs (erase x ys) (λ j. ground (arith, h j, count-erase x j ys there))
          (omega (arith, length-erase x ys there)) k,
    )
