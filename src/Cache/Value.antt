-- ===== src/Cache/Value.antt =====
-- packages/cache/src/runtime/Cache.ts and InMemoryCache.ts: what a cache holds, and the tests on it.
use nuxt_laravelize.Common.{
  ℕ, ◌+◌, ◌-◌, ◌*◌, String, Bool, true, false, Option, none, some, ◌&&◌, leb, ◌==◌, str_eq,
  max_safe_integer,
}
use nuxt_laravelize.Common.Exec.{Result, ok, throw}
use nuxt_laravelize.Cache.Number.{ℤ, pos, negsuc, Number, finite, nan, infinity, minus_infinity}

pub data CacheError : Type 0 where
  empty_key undefined_value invalid_ttl invalid_amount not_numeric counter_not_finite : CacheError
  invalid_window unsafe_expiration : CacheError

-- A JavaScript value. `window` and `object` are objects: the number is the object's identity.
pub data CacheValue : Type 0 where
  undefined null : CacheValue
  boolean : Bool → CacheValue
  number : Number → CacheValue
  string : String → CacheValue
  window : (reference attempts reset_at : ℕ) → CacheValue
  object : (reference : ℕ) → CacheValue

-- A number of seconds whose milliseconds are not finite (2^1024 and more are infinite), or an invalid
-- `Date`, is `invalid`. An instant before the
-- epoch is the epoch: no clock reading is before it, so both are over.
pub data CacheTtl : Type 0 where
  seconds : ℕ → CacheTtl
  minus_seconds : ℕ → CacheTtl
  date : ℕ → CacheTtl
  invalid : CacheTtl

pub record CacheEntry : Type 0 where
  pub value : CacheValue
  pub expires_at : Option ℕ

abbrev pub same_bool : Bool → Bool → Bool
same_bool true b = b
same_bool false true = false
same_bool false false = true

abbrev pub same_ℤ : ℤ → ℤ → Bool
same_ℤ (pos a) (pos b) = a == b
same_ℤ (negsuc a) (negsuc b) = a == b
same_ℤ _ _ = false

abbrev pub same_number : Number → Number → Bool
same_number (finite a) (finite b) = same_ℤ a b
same_number nan nan = true
same_number infinity infinity = true
same_number minus_infinity minus_infinity = true
same_number _ _ = false

-- `Object.is`
unfoldable pub object_is : CacheValue → CacheValue → Bool
object_is undefined undefined = true
object_is null null = true
object_is (boolean a) (boolean b) = same_bool a b
object_is (number a) (number b) = same_number a b
object_is (string a) (string b) = str_eq a b
object_is (window r _ _) (window q _ _) = r == q
object_is (object r) (object q) = r == q
object_is _ _ = false

-- The test `expiresAt !== null && expiresAt <= now`.
unfoldable pub is_over : Option ℕ → ℕ → Bool
is_over none now = false
is_over (some t) now = leb t now

-- `undefined` is a time to live that was left out.
unfoldable pub resolve_expiration : Option CacheTtl → ℕ → Result CacheError (Option ℕ)
resolve_expiration none now = ok none
resolve_expiration (some (seconds s)) now = ok (some (now + s * 1000))
resolve_expiration (some (minus_seconds s)) now = ok (some (now - s * 1000))
resolve_expiration (some (date t)) now = ok (some t)
resolve_expiration (some invalid) now = throw invalid_ttl

unfoldable pub is_fixed_window_entry : CacheValue → Bool
is_fixed_window_entry (window _ attempts reset_at) =
    leb attempts max_safe_integer && leb reset_at max_safe_integer
is_fixed_window_entry _ = false
