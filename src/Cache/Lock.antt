-- ===== src/Cache/Lock.antt =====
-- packages/cache/src/runtime/CacheLock.ts over the in-memory cache. The constructor's checks are the
-- fields of `IsLock`; `block` is its loop over the rounds that the caller waits.
pub mod Exclusion
use Prim.Native.String
use nuxt_laravelize.Common.{
  ℕ, ◌<◌, String, ◌≡◌, Bool, true, false, Option, none, some, List, [], ◌∷◌, ltb, leb,
  if◌then◌else◌,
}
use nuxt_laravelize.Cache.Value.{object_is, CacheError, invalid_ttl, undefined, seconds, string}
use nuxt_laravelize.Cache.InMemory.{Action, Cache, get, add, forget, forget_if, expire_if}
use nuxt_laravelize.Common.Text.{is_blank}
use nuxt_laravelize.Common.Exec.{pure, raise, Result, ok, throw, ◌>>=◌}

pub record CacheLock : Type 0 where
  pub name : String
  pub ttl_seconds : ℕ
  pub owner : String

-- What the constructor checks. A time to live is a whole number of seconds.
pub record IsLock (lock : CacheLock) : Type 0 where
  pub named : is_blank lock.name ≡ false
  pub lasting : 0 < lock.ttl_seconds
  pub owned : is_blank lock.owner ≡ false

abbrev pub lock_key : String → String
lock_key name = String.◌++◌ "laravelize:lock:" name

unfoldable pub acquire : CacheLock → ℕ → Action Bool
acquire lock now =
    add (lock_key lock.name) (string lock.owner) (some (seconds lock.ttl_seconds)) now

unfoldable pub release : CacheLock → ℕ → Action Bool
release lock now = forget_if (lock_key lock.name) (string lock.owner) now

-- The test on the new time to live, and the two clock readings of `expireIf`.
unfoldable pub renew : CacheLock → (ttl_seconds : ℕ) → (seen now : ℕ) → Action Bool
renew lock ttl_seconds seen now =
    if ltb 0 ttl_seconds
    then expire_if (lock_key lock.name) (string lock.owner) (seconds ttl_seconds) seen now
    else raise invalid_ttl

unfoldable pub force_release : CacheLock → Action Bool
force_release lock = forget (lock_key lock.name)

unfoldable pub owned : CacheLock → ℕ → Action Bool
owned lock now = do
  value ← get (lock_key lock.name) undefined now
  pure (object_is value (string lock.owner))

-- The callback of `run` and `block`, with the release of the `finally` block behind it. A release
-- that throws would hide the callback's result.
module _ {A : Type 0} where
  abbrev after_release : Result CacheError A → Result CacheError Bool → Result CacheError A
  after_release r (ok released) = r
  after_release r (throw e) = throw e

  unfoldable pub guarded : CacheLock → Action A → ℕ → Action A
  guarded lock callback released_at s =
      let (r, s') = callback s in
      let (released, s'') = release lock released_at s' in (after_release r released, s'')

  unfoldable pub run : CacheLock → Action A → (now released_at : ℕ) → Action (Option A)
  run lock callback now released_at = do
    acquired ← acquire lock now
    if acquired then (do a ← guarded lock callback released_at; pure (some a)) else pure none

-- One round of the loop of `block`: the clock when it tries, the clock when it looks at the
-- deadline, and what others do to the cache while it sleeps.
pub record Round : Type 0 where
  pub acquire_at : ℕ
  pub check_at : ℕ
  pub asleep : Cache → Cache

pub data Waiting : Type 0 where
  acquired timed_out sleeping : Waiting

unfoldable pub block_rounds : CacheLock → (deadline : ℕ) → List Round → Action Waiting
block_rounds lock deadline [] s = (ok sleeping, s)
block_rounds lock deadline (round ∷ rounds) s =
    let (r, s') = acquire lock round.acquire_at s in
    let later = block_rounds lock deadline rounds (round.asleep s') in
    elim r [
      | throw e ↦ (throw e, s')
      | ok true ↦ (ok acquired, s')
      | ok false ↦ if leb deadline round.check_at then (ok timed_out, s') else later
    ]
