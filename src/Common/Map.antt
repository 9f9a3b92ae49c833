-- ===== src/Common/Map.antt =====
-- JavaScript's `Map` with string keys, in insertion order: writing a key that is there keeps its
-- place, and a new key goes to the end.
pub mod Distinct
use mathlib.Core.Path.{◌≡◌, refl}
use Prim.Native.String.{String}
use mathlib.Core.Bool.{Bool, true, false}
use mathlib.Core.Option.{Option, none, some}
use mathlib.Core.List.{List, [], ◌∷◌}
use native.Mathlib.Omega.{arith}
use text.Mathlib.Text.{◌==◌ as str_eq}
use text.Mathlib.TextEquality.{eq_iff}
use nuxt_laravelize.Common.Tests.{if◌then◌else◌}

abbrev pub Map {ℓ} : Type ℓ → Type ℓ
Map V = List (String × V)

-- The test on two keys.
abbrev pub key_eq : String → String → Bool
key_eq j k = str_eq j k

module _ {ℓ} {V : Type ℓ} where
  unfoldable pub get : String → Map V → Option V
  get k [] = none
  get k ((j, v) ∷ m) = if str_eq j k then some v else get k m

  unfoldable pub put : String → V → Map V → Map V
  put k v [] = (k, v) ∷ []
  put k v ((j, w) ∷ m) = if str_eq j k then (j, v) ∷ m else (j, w) ∷ put k v m

  -- `delete`; the keys of a map are distinct, so the first match is the only one.
  unfoldable pub remove : String → Map V → Map V
  remove k [] = []
  remove k ((j, v) ∷ m) = let rest = remove k m in if str_eq j k then rest else (j, v) ∷ rest

  -- The deletions of a loop over the entries: what fails the test stays.
  unfoldable pub sweep : (V → Bool) → Map V → Map V
  sweep p [] = []
  sweep p ((j, v) ∷ m) = let rest = sweep p m in if p v then rest else (j, v) ∷ rest

  unfoldable pub has : String → Map V → Bool
  has k [] = false
  has k ((j, v) ∷ m) = if str_eq j k then true else has k m

module _ {ℓ} {V : Type ℓ} where
  pub get-put :
      (k j : String) (v : V) (m : Map V)
      → get j (put k v m) ≡ (if str_eq k j then some v else get j m)
  unfolding get put
  get-put k j v [] = refl
  get-put k j v ((i, w) ∷ m) = ground (arith, eq_iff k j, eq_iff i k, eq_iff i j, get-put k j v m)

  pub get-remove :
      (k j : String) (m : Map V) → get j (remove k m) ≡ (if str_eq k j then none else get j m)
  unfolding get remove
  get-remove k j [] = ground arith
  get-remove k j ((i, w) ∷ m) = ground (arith, eq_iff k j, eq_iff i k, eq_iff i j, get-remove k j m)

pub get-empty {ℓ} : {V : Type ℓ} (k : String) → get {V = V} k [] ≡ none
unfolding get
get-empty k = refl

pub ruleset map_laws = (get-empty, get-put, get-remove)

pub get-has {ℓ} : {V : Type ℓ} (k : String) (m : Map V) (v : V) → get k m ≡ some v → has k m ≡ true
unfolding get has
get-has k [] v h = cc
get-has k ((j, w) ∷ m) v h = ground (arith, get-has k m v)
