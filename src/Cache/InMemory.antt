-- ===== src/Cache/InMemory.antt =====
-- packages/cache/src/runtime/InMemoryCache.ts. The counters, the fixed windows and `remember` are in
-- the children. A method is an action on the record of its fields:
-- it returns its result, or what it throws, with the record that it leaves. `now` is the reading of
-- the clock; a method that reads it twice takes both readings.
pub mod View
pub mod Valid
pub mod Writes
pub mod Counter
pub mod Window
pub mod Remember
use nuxt_laravelize.Common.{
  ℕ, ◌+◌, ◌-◌, ◌<◌, max, String, Bool, true, false, not, Option, none, some, [], ltb, leb, ◌==◌,
  if◌then◌else◌, max_safe_integer,
}
use nuxt_laravelize.Common.Text.{is_blank}
use nuxt_laravelize.Common.Map
use nuxt_laravelize.Common.Map.{Map}
use nuxt_laravelize.Common.Exec.{Result, ok, throw, Exec, pure, raise, gets, modify, ◌>>=◌, ◌>>◌}
use nuxt_laravelize.Cache.Number.{
  Number, ℤ, pos, finite, nan, infinity, minus_infinity, plus, minus, positive_safe,
}
use nuxt_laravelize.Cache.Value.{
  CacheError, empty_key, undefined_value, invalid_amount, not_numeric, counter_not_finite,
  invalid_window, unsafe_expiration, CacheValue, undefined, number, window, CacheTtl, CacheEntry,
  object_is, is_over, resolve_expiration, is_fixed_window_entry,
}

-- `next_reference` numbers the objects and promises that the methods create.
pub record Cache : Type 0 where
  pub entries : Map CacheEntry
  pub pending : Map ℕ
  pub writes_until_sweep : ℕ
  pub next_reference : ℕ

abbrev pub empty : Cache
empty = record { entries = []; pending = []; writes_until_sweep = 64; next_reference = 0 }

abbrev pub Action : Type 0 → Type 0
Action A = Exec Cache CacheError A

unfoldable pub assert_key : String → Action Unit
assert_key key = if is_blank key then raise empty_key else pure tt

unfoldable pub assert_value : CacheValue → Action Unit
assert_value undefined = raise undefined_value
assert_value _ = pure tt

unfoldable pub assert_window : Number → Action ℕ
assert_window w = if ltb 0 (positive_safe w) then pure (positive_safe w) else raise invalid_window

module _ {A : Type 0} where
  abbrev pub lift : Result CacheError A → Action A
  lift r s = (r, s)

-- `#touch`
unfoldable pub touch : String → Cache → Cache
touch key s = record s { pending = Map.remove key s.pending }

-- `this.#entries.delete(key)`
unfoldable pub drop_entry : String → Cache → Cache
drop_entry key s = record s { entries = Map.remove key s.entries }

-- `this.#entries.set(key, entry)`
unfoldable pub set_entry : String → CacheEntry → Cache → Cache
set_entry key e s = record s { entries = Map.put key e s.entries }

-- `#maybeSweep`
unfoldable pub maybe_sweep : ℕ → Cache → Cache
unfolding is_over
maybe_sweep now s =
    if ltb 1 s.writes_until_sweep
    then record s { writes_until_sweep = s.writes_until_sweep - 1 }
    else record s {
      writes_until_sweep = 64;
      entries = Map.sweep (λ e. is_over e.expires_at now) s.entries;
    }

-- The body of `#entry` after its `get`: an entry that is over is deleted on sight.
unfoldable pub live : String → ℕ → Option CacheEntry → Action (Option CacheEntry)
unfolding is_over drop_entry
live key now none = pure none
live key now (some e) =
    if is_over e.expires_at now then (do modify (drop_entry key); pure none) else pure (some e)

-- `#entry`
unfoldable pub entry : String → ℕ → Action (Option CacheEntry)
unfolding assert_key live
entry key now = do assert_key key; found ← gets (λ s. Map.get key s.entries); live key now found

abbrev pub value_or : Option CacheEntry → CacheValue → CacheValue
value_or none default = default
value_or (some e) default = e.value

abbrev pub is_there : Option CacheEntry → Bool
is_there none = false
is_there (some e) = true

unfoldable pub get : String → CacheValue → ℕ → Action CacheValue
get key default now = do e ← entry key now; pure (value_or e default)

unfoldable pub has : String → ℕ → Action Bool
has key now = do e ← entry key now; pure (is_there e)

-- The end of `put`, `increment`: an expiration that is over stores nothing.
unfoldable pub put : String → CacheValue → Option CacheTtl → ℕ → Action Unit
unfolding assert_key assert_value is_over
put key value ttl now = do
  assert_key key
  assert_value value
  modify (maybe_sweep now)
  expires_at ← lift (resolve_expiration ttl now)
  modify (touch key)
  if is_over expires_at now
      then modify (drop_entry key)
      else modify (set_entry key (record { value = value; expires_at = expires_at }))

unfoldable pub forever : String → CacheValue → ℕ → Action Unit
forever key value now = put key value none now

-- What `add` does when the key holds no live entry.
unfoldable pub add_absent : String → CacheValue → Option CacheTtl → ℕ → Action Bool
unfolding is_over
add_absent key value ttl now = do
  expires_at ← lift (resolve_expiration ttl now)
  if is_over expires_at now then pure false else do
    modify (touch key)
    modify (set_entry key (record { value = value; expires_at = expires_at }))
    pure true

unfoldable pub add : String → CacheValue → Option CacheTtl → ℕ → Action Bool
unfolding assert_key assert_value add_absent
add key value ttl now = do
  assert_key key
  assert_value value
  modify (maybe_sweep now)
  e ← entry key now
  if is_there e then pure false else add_absent key value ttl now

unfoldable pub forget : String → Action Bool
unfolding assert_key
forget key = do
  assert_key key
  modify (touch key)
  there ← gets (λ s. Map.has key s.entries)
  modify (drop_entry key)
  pure there

-- The guard of `forgetIf` and `expireIf`.
unfoldable pub holds : Option CacheEntry → CacheValue → Bool
holds none expected = false
holds (some e) expected = object_is e.value expected

unfoldable pub forget_if : String → CacheValue → ℕ → Action Bool
unfolding holds
forget_if key expected now = do
  e ← entry key now
  if not (holds e expected) then pure false else do
    modify (touch key)
    there ← gets (λ s. Map.has key s.entries)
    modify (drop_entry key)
    pure there

-- The rest of `expireIf` behind its guard: `none` as the expiration cannot come from a `CacheTtl`.
unfoldable pub expire_at : String → CacheEntry → Option ℕ → ℕ → Action Bool
expire_at key e none now = do modify (drop_entry key); pure false
expire_at key e (some t) now =
    if leb t now
    then (do modify (drop_entry key); pure true)
    else (do modify (set_entry key (record e { expires_at = some t })); pure true)

unfoldable pub expire_held : String → CacheValue → CacheTtl → ℕ → Option CacheEntry → Action Bool
unfolding holds
expire_held key expected ttl now none = pure false
expire_held key expected ttl now (some e) = if not (holds (some e) expected) then pure false else do
  expires_at ← lift (resolve_expiration (some ttl) now)
  modify (touch key)
  expire_at key e expires_at now

-- The guard reads the clock first, as `seen`.
unfoldable pub expire_if : String → CacheValue → CacheTtl → (seen now : ℕ) → Action Bool
expire_if key expected ttl seen now = do e ← entry key seen; expire_held key expected ttl now e

unfoldable pub flush : Cache → Cache
flush s = record s { entries = []; pending = []; writes_until_sweep = 64 }

unfoldable pub pull : String → CacheValue → ℕ → Action CacheValue
pull key default now = do
  e ← entry key now
  modify (touch key)
  modify (drop_entry key)
  pure (value_or e default)
