-- ===== src/Cache/InMemory/Remember.antt =====
-- packages/cache/src/runtime/InMemoryCache.ts: `remember` and `rememberForever`. A call is in two
-- parts, before and after the `await` of the factory's promise; other calls run between the two.
pub mod Laws
use nuxt_laravelize.Common.{ℕ, ◌+◌, String, Bool, false, Option, none, some, ◌==◌, if◌then◌else◌}
use nuxt_laravelize.Common.Map
use nuxt_laravelize.Common.Exec.{pure, gets, modify, ◌>>=◌, ◌>>◌}
use nuxt_laravelize.Cache.Value.{CacheValue, CacheEntry, CacheTtl}
use nuxt_laravelize.Cache.InMemory.{Cache, Action, entry, put, touch, assert_value}

-- What a call does before it waits: it returns the cached value, waits for the promise of another
-- call, or runs its factory under a promise of its own.
pub data Remembering : Type 0 where
  cached : CacheValue → Remembering
  joined started : (promise : ℕ) → Remembering

-- `this.#pending.set(key, pending)` of a new promise
unfoldable pub start_pending : String → Cache → Cache
start_pending key s = record s {
  pending = Map.put key s.next_reference s.pending;
  next_reference = s.next_reference + 1;
}

unfoldable pub join_pending : String → Option ℕ → Action Remembering
join_pending key (some promise) = pure (joined promise)
join_pending key none = do
  promise ← gets (λ s. s.next_reference)
  modify (start_pending key)
  pure (started promise)

unfoldable pub remember_entry : String → Option CacheEntry → Action Remembering
unfolding join_pending
remember_entry key (some e) = pure (cached e.value)
remember_entry key none = do existing ← gets (λ s. Map.get key s.pending); join_pending key existing

unfoldable pub remember : String → ℕ → Action Remembering
remember key now = do e ← entry key now; remember_entry key e

-- `this.#pending.get(key) === pending`
unfoldable pub is_pending : String → ℕ → Cache → Bool
is_pending key promise s = elim (Map.get key s.pending) [ none ↦ false | some p ↦ p == promise ]

-- The `finally` block.
unfoldable pub unregister : String → ℕ → Cache → Cache
unregister key promise s = if is_pending key promise s then touch key s else s

module _ {A : Type 0} where
  abbrev pub finally : Action A → (Cache → Cache) → Action A
  finally m cleanup s = let (r, s') = m s in (r, cleanup s')

-- The `try` block, when the factory has returned.
unfoldable pub store_remembered : String → Option CacheTtl → ℕ → CacheValue → ℕ → Action CacheValue
unfolding assert_value
store_remembered key ttl promise value now = do
  assert_value value
  current ← gets (is_pending key promise)
  if current then (do put key value ttl now; pure value) else pure value

-- The part after the `await`, when the factory has returned `value`.
unfoldable pub settle : String → Option CacheTtl → ℕ → CacheValue → ℕ → Action CacheValue
settle key ttl promise value now =
    finally (store_remembered key ttl promise value now) (unregister key promise)

-- The part after the `await`, when the factory has thrown.
unfoldable pub settle_rejected : String → ℕ → Cache → Cache
settle_rejected key promise s = unregister key promise s
