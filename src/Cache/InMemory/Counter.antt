-- ===== src/Cache/InMemory/Counter.antt =====
-- packages/cache/src/runtime/InMemoryCache.ts: `increment` and `decrement`.
pub mod Sums
use nuxt_laravelize.Common.{ℕ, String, Option, none, some, if◌then◌else◌}
use nuxt_laravelize.Common.Exec.{Result, ok, throw, pure, modify, ◌>>=◌, ◌>>◌}
use nuxt_laravelize.Cache.Number.{Number, ℤ, pos, finite, plus, minus}
use nuxt_laravelize.Cache.Value.{
  CacheError, invalid_amount, not_numeric, counter_not_finite, number, CacheTtl, CacheEntry,
  is_over, resolve_expiration,
}
use nuxt_laravelize.Cache.InMemory.{Action, lift, entry, touch, set_entry, maybe_sweep}

-- The test on the amount.
unfoldable pub finite_amount : Number → Result CacheError ℤ
finite_amount (finite z) = ok z
finite_amount _ = throw invalid_amount

-- The number that the counter starts from.
unfoldable pub current_count : Option CacheEntry → Result CacheError ℤ
current_count none = ok (pos 0)
current_count (some e) = elim e.value [ number (finite z) ↦ ok z | _ ↦ throw not_numeric ]

unfoldable pub finite_count : Number → Result CacheError Number
finite_count (finite z) = ok (finite z)
finite_count _ = throw counter_not_finite

-- `entry?.expiresAt ?? resolveExpiration(ttl, now)`
unfoldable pub count_expiration :
    Option CacheEntry → Option CacheTtl → ℕ → Result CacheError (Option ℕ)
count_expiration none ttl now = resolve_expiration ttl now
count_expiration (some e) ttl now = elim e.expires_at [
  | none ↦ resolve_expiration ttl now
  | some t ↦ ok (some t)
]

unfoldable pub increment : String → Number → Option CacheTtl → ℕ → Action Number
unfolding finite_amount current_count finite_count count_expiration is_over
increment key amount ttl now = do
  step ← lift (finite_amount amount)
  modify (maybe_sweep now)
  e ← entry key now
  current ← lift (current_count e)
  value ← lift (finite_count (plus current step))
  expires_at ← lift (count_expiration e ttl now)
  modify (touch key)
  if is_over expires_at now then pure value else do
    modify (set_entry key (record { value = number value; expires_at = expires_at }))
    pure value

unfoldable pub decrement : String → Number → Option CacheTtl → ℕ → Action Number
decrement key amount ttl now = increment key (minus amount) ttl now
