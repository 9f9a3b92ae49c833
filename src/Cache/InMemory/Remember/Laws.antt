-- ===== src/Cache/InMemory/Remember/Laws.antt =====
-- Calls of `remember` that overlap with each other and with writes.
use nuxt_laravelize.Common.{ℕ, String, ◌≡◌, ◌≢◌, true, false, Option, arith, eq_refl, none}
use nuxt_laravelize.Cache.Value.{CacheValue, CacheTtl, undefined, resolve_expiration}
use nuxt_laravelize.Cache.InMemory.{
  assert_value, put, Cache, assert_key, touch, drop_entry, set_entry, maybe_sweep, entry,
}
use nuxt_laravelize.Cache.InMemory.Remember.{
  is_pending, unregister, store_remembered, settle, remember_entry, remember, joined,
}
use nuxt_laravelize.Common.Text.{is_blank}
use nuxt_laravelize.Common.Exec.{ok}
use nuxt_laravelize.Common.Map.{get-remove}
use nuxt_laravelize.Cache.InMemory.View.{look}

module _ (key : String) (now : ℕ) (s : Cache) (promise : ℕ) (named : is_blank key ≡ false) where
  -- If a key that is not blank reads as absent and a factory is registered for it, then another
  -- call of `remember` waits for that factory.
  pub remember_joins :
      look s key now ≡ none
      → is_pending key promise s ≡ true
      → (remember key now s).0 ≡ ok (joined promise)
  unfolding remember remember_entry is_pending entry look
  remember_joins absent running = ground (arith)

module _ (key : String) (ttl : Option CacheTtl) (promise : ℕ) (value : CacheValue) (now : ℕ)
    (s : Cache) where
  -- A factory that is no longer registered and returns a defined value returns it, and the cache
  -- stays as it is.
  pub settle_stale :
      value ≢ undefined
      → is_pending key promise s ≡ false
      → settle key ttl promise value now s ≡ (ok value, s)
  unfolding settle store_remembered assert_value unregister
  settle_stale defined stale = ground arith

module _ (key : String) (value : CacheValue) (ttl : Option CacheTtl) (now : ℕ) (s : Cache)
    (expires_at : Option ℕ) (named : is_blank key ≡ false) (defined : value ≢ undefined)
    (lasts : resolve_expiration ttl now ≡ ok expires_at) where
  pub put-result : (put key value ttl now s).0 ≡ ok tt
  unfolding put assert_key assert_value
  put-result = ground (arith, lasts)

  -- `put` unregisters every factory of its key.
  pub is_pending-put : (promise : ℕ) → is_pending key promise (put key value ttl now s).1 ≡ false
  unfolding put assert_key assert_value is_pending touch drop_entry set_entry
  is_pending-put promise =
      ground (arith, lasts, eq_refl key, get-remove key key (maybe_sweep now s).pending)

-- After a `put` of a defined value with a valid time to live under a key that is not blank, every
-- factory of the key that ends with a defined value returns that value, and the cache stays as the
-- `put` left it.
pub settle-put :
    (key : String) (value : CacheValue) (ttl : Option CacheTtl) (now : ℕ) (s : Cache)
    (expires_at : Option ℕ)
    → is_blank key ≡ false
    → value ≢ undefined
    → resolve_expiration ttl now ≡ ok expires_at
    → (promise : ℕ) (made : CacheValue) (its_ttl : Option CacheTtl) (later : ℕ) → made ≢ undefined
    → settle key its_ttl promise made later (put key value ttl now s).1
      ≡ (ok made, (put key value ttl now s).1)
settle-put key value ttl now s expires_at named defined lasts promise made its_ttl later real =
    settle_stale key its_ttl promise made later (put key value ttl now s).1 real
      (is_pending-put key value ttl now s expires_at named defined lasts promise)
