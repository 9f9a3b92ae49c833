-- ===== src/Common/Map/Distinct.antt =====
-- Maps whose keys are distinct: every map that the operations build is one.
use nuxt_laravelize.Common.Map.{Map, get, put, remove, sweep, get-put, get-remove}
use mathlib.Core.Path.{◌≡◌, refl}
use Prim.Native.String.{String}
use mathlib.Core.Bool.{Bool}
use mathlib.Core.Option.{Option, none, some}
use mathlib.Core.List.{[], ◌∷◌}
use native.Mathlib.Omega.{arith}
use text.Mathlib.TextEquality.{eq_iff}
use nuxt_laravelize.Common.Tests.{if◌then◌else◌}

module _ {ℓ} {V : Type ℓ} where
  abbrev pub IsDistinct : Map V → Type ℓ
  IsDistinct [] = Unit
  IsDistinct ((k, v) ∷ m) = (get k m ≡ none) × IsDistinct m

  abbrev pub keep : (V → Bool) → Option V → Option V
  keep p none = none
  keep p (some v) = if p v then none else some v

  pub get-sweep :
      (p : V → Bool) (k : String) (m : Map V) → IsDistinct m → get k (sweep p m) ≡ keep p (get k m)
  unfolding get sweep
  get-sweep p k [] d = refl
  get-sweep p k ((j, v) ∷ m) (new, d) =
      ground (arith, eq_iff j k, get-sweep p k m d, get-sweep p j m d)

  pub put-IsDistinct : (k : String) (v : V) (m : Map V) → IsDistinct m → IsDistinct (put k v m)
  unfolding put get
  put-IsDistinct k v [] d = ground arith
  put-IsDistinct k v ((j, w) ∷ m) (new, d) =
      ground (arith, eq_iff j k, eq_iff k j, get-put k j v m, put-IsDistinct k v m d)

  pub remove-IsDistinct : (k : String) (m : Map V) → IsDistinct m → IsDistinct (remove k m)
  unfolding remove
  remove-IsDistinct k [] d = tt
  remove-IsDistinct k ((j, w) ∷ m) (new, d) =
      ground (arith, eq_iff j k, get-remove k j m, remove-IsDistinct k m d)

  pub sweep-IsDistinct : (p : V → Bool) (m : Map V) → IsDistinct m → IsDistinct (sweep p m)
  unfolding sweep
  sweep-IsDistinct p [] d = tt
  sweep-IsDistinct p ((j, w) ∷ m) (new, d) =
      ground (arith, get-sweep p j m d, sweep-IsDistinct p m d)
