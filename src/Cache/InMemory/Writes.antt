-- ===== src/Cache/InMemory/Writes.antt =====
-- What the writes of the in-memory cache do to what a reader can see.
use nuxt_laravelize.Common.{
  ℕ, ◌≤◌, String, ◌≡◌, ◌≢◌, false, Option, some, arith, if◌then◌else◌, Bool, not, ◌&&◌, none,
}
use nuxt_laravelize.Common.Text.{is_blank}
use nuxt_laravelize.Common.Map
use nuxt_laravelize.Common.Map.Distinct.{IsDistinct, keep}
use nuxt_laravelize.Common.Exec.{ok}
use nuxt_laravelize.Cache.Value.{
  CacheValue, CacheTtl, undefined, is_over, resolve_expiration, object_is, CacheEntry,
}
use nuxt_laravelize.Cache.InMemory.{
  Cache, touch, maybe_sweep, assert_key, assert_value, put, entry, expire_if, add, forget_if, holds,
  expire_held, expire_at, is_there,
}
use nuxt_laravelize.Cache.InMemory.View.{
  look, is_over_at, look-set_entry, look-drop_entry, look-touch, look-maybe_sweep, entry-result,
  look-entry,
}

module _ (key : String) (value : CacheValue) (ttl : Option CacheTtl) (now : ℕ) (s : Cache)
    (expires_at : Option ℕ) (named : is_blank key ≡ false) (defined : value ≢ undefined)
    (lasts : resolve_expiration ttl now ≡ ok expires_at) (distinct : IsDistinct s.entries) where
  -- After `put` of a defined value with a valid time to live under a key that is not blank, in a
  -- cache without double keys, the key reads as the value until it expires, and every other key
  -- reads as before, at every instant from the call on.
  pub look-put :
      (k : String) (t : ℕ)
      → now ≤ t
      → look (put key value ttl now s).1 k t ≡ (
          if Map.key_eq key k
          then keep (is_over_at t) (some (record { value = value; expires_at = expires_at }))
          else look s k t)
  unfolding put assert_key assert_value is_over
  look-put k t h = ground (
    arith,
    lasts,
    look-maybe_sweep now s k t distinct h,
    look-set_entry key k (record { value = value; expires_at = expires_at })
        (touch key (maybe_sweep now s)) t,
    look-drop_entry key k (touch key (maybe_sweep now s)) t,
    look-touch key k (maybe_sweep now s) t,
  )

  abbrev pub added : CacheEntry
  added = record { value = value; expires_at = expires_at }

  -- `add` writes when no live entry has the key, and the new one is not over at once.
  abbrev pub adds : Bool
  adds = not (is_there (look s key now)) && not (is_over expires_at now)

  seen_after_sweep : (entry key now (maybe_sweep now s)).0 ≡ ok (look s key now)
  seen_after_sweep = rw (
    entry-result key now (maybe_sweep now s) named,
    look-maybe_sweep now s key now distinct (omega arith),
  )

  -- `add` of a defined value with a valid time to live under a key that is not blank, in a cache
  -- without double keys, answers whether no live entry had the key and the new one is not over at
  -- once.
  pub add-result : (add key value ttl now s).0 ≡ ok adds
  unfolding add
  add-result = ground (arith, lasts, seen_after_sweep)

  -- After `add` of a defined value with a valid time to live under a key that is not blank, in a
  -- cache without double keys, the key reads as the value until it expires if no live entry had the
  -- key and the new one is not over at once, and all else reads as before.
  pub look-add :
      (k : String) (t : ℕ)
      → now ≤ t
      → look (add key value ttl now s).1 k t
        ≡ (if adds && Map.key_eq key k then keep (is_over_at t) (some added) else look s k t)
  unfolding add
  look-add k t h = ground (
    arith,
    lasts,
    seen_after_sweep,
    look-entry key now (maybe_sweep now s) k t h,
    look-maybe_sweep now s k t distinct h,
    look-touch key k (entry key now (maybe_sweep now s)).1 t,
    look-set_entry key k added (touch key (entry key now (maybe_sweep now s)).1) t,
  )

module _ (key : String) (expected : CacheValue) (now : ℕ) (s : Cache)
    (named : is_blank key ≡ false) where
  -- After `forgetIf` on a key that is not blank, the key reads as absent if its live entry held the
  -- expected value, and all else reads as before.
  pub look-forget_if :
      (k : String) (t : ℕ)
      → now ≤ t
      → look (forget_if key expected now s).1 k t
        ≡ (if holds (look s key now) expected && Map.key_eq key k then none else look s k t)
  unfolding forget_if
  look-forget_if k t h = ground (
    arith,
    entry-result key now s named,
    look-entry key now s k t h,
    look-touch key k (entry key now s).1 t,
    look-drop_entry key k (touch key (entry key now s).1) t,
  )

  -- If a key that is not blank has a live entry, then after `expireIf` with a valid time to live
  -- the key reads as the same value with the new expiration if the entry held the expected value,
  -- and all else reads as before.
  pub look-expire_if :
      (ttl : CacheTtl) (e : CacheEntry) (expires_at : ℕ) (later : ℕ)
      → look s key now ≡ some e
      → now ≤ later
      → resolve_expiration (some ttl) later ≡ ok (some expires_at)
      → (k : String) (t : ℕ) → later ≤ t
      → look (expire_if key expected ttl now later s).1 k t ≡ (
          if object_is e.value expected && Map.key_eq key k
          then keep (is_over_at t) (some (record e { expires_at = some expires_at }))
          else look s k t)
  unfolding expire_if expire_held expire_at holds is_over
  look-expire_if ttl e expires_at later found order lasts k t h = ground (
    arith,
    found,
    lasts,
    entry-result key now s named,
    look-entry key now s k t (omega arith),
    look-touch key k (entry key now s).1 t,
    look-drop_entry key k (touch key (entry key now s).1) t,
    look-set_entry key k (record e { expires_at = some expires_at }) (touch key (entry key now s).1)
        t,
  )

  pub look-expire_if_other :
      (ttl : CacheTtl) (later : ℕ)
      → holds (look s key now) expected ≡ false
      → now ≤ later
      → (k : String) (t : ℕ) → later ≤ t
      → look (expire_if key expected ttl now later s).1 k t ≡ look s k t
  unfolding expire_if expire_held holds
  look-expire_if_other ttl later foreign order k t h =
      ground (arith, foreign, entry-result key now s named, look-entry key now s k t (omega arith))
