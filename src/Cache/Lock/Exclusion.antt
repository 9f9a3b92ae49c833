-- ===== src/Cache/Lock/Exclusion.antt =====
-- Mutual exclusion of packages/cache/src/runtime/CacheLock.ts.
use nuxt_laravelize.Common.{
  ℕ, ◌+◌, ◌*◌, ◌≤◌, ◌<◌, String, ◌≡◌, refl, ◌≢◌, true, false, none, some, arith, eq_iff, eq_refl,
  List, [], ◌∷◌,
}
use nuxt_laravelize.Cache.Lock.{lock_key, acquire, release, renew, owned, CacheLock}
use nuxt_laravelize.Cache.Value.{
  object_is, is_over, resolve_expiration, CacheEntry, string, seconds,
}
use nuxt_laravelize.Cache.InMemory.{Cache, get, holds}
use nuxt_laravelize.Cache.InMemory.Writes.{
  add-result, look-add, look-forget_if, look-expire_if_other,
}
use nuxt_laravelize.Cache.InMemory.View.{look, look-entry}
use nuxt_laravelize.Cache.InMemory.Valid.{
  IsValid, entry-IsValid, add-IsValid, forget_if-IsValid, expire_if-IsValid,
}
use nuxt_laravelize.Common.Text.{is_space, is_blank}
use nuxt_laravelize.Common.Exec.{ok}
use text.Mathlib.TextLemmas.{cons-append}

abbrev pub held_by : String → ℕ → CacheEntry
held_by owner until = record { value = string owner; expires_at = some until }

-- Every read of the lock's key from `start` on and before `until` finds its owner.
abbrev pub Holds : CacheLock → (start until : ℕ) → Cache → Type 0
Holds lock start until s =
    (t : ℕ)
    → start ≤ t
    → t < until
    → look s (lock_key lock.name) t ≡ some (held_by lock.owner until)

-- What another holder of the same lock may call, with its clock readings.
pub data LockCall : Type 0 where
  acquiring releasing running : (now : ℕ) → LockCall
  renewing : (ttl_seconds seen now : ℕ) → LockCall

unfoldable pub call : CacheLock → LockCall → Cache → Cache
call lock (acquiring now) s = (acquire lock now s).1
call lock (releasing now) s = (release lock now s).1
call lock (running now) s = (owned lock now s).1
call lock (renewing ttl_seconds seen now) s = (renew lock ttl_seconds seen now s).1

abbrev pub IsBetween : (start until : ℕ) → LockCall → Type 0
IsBetween start until (renewing ttl seen now) = (start ≤ seen) × (seen ≤ now) × (now < until)
IsBetween start until (acquiring now) = (start ≤ now) × (now < until)
IsBetween start until (releasing now) = (start ≤ now) × (now < until)
IsBetween start until (running now) = (start ≤ now) × (now < until)

abbrev pub ends_at : LockCall → ℕ
ends_at (renewing ttl seen now) = now
ends_at (acquiring now) = now
ends_at (releasing now) = now
ends_at (running now) = now

pub lock_key-is_blank : (name : String) → is_blank (lock_key name) ≡ false
unfolding is_blank is_space
lock_key-is_blank name = rw cons-append refl

module _ (lock : CacheLock) (now : ℕ) (s : Cache) (valid : IsValid s) where
  -- In a valid cache, if no live entry stands under the key of a lock with a positive time to live,
  -- then acquiring it answers true, and every read before the time to live is over finds its owner.
  pub acquire_free :
      look s (lock_key lock.name) now ≡ none
      → 0 < lock.ttl_seconds
      → ((acquire lock now s).0 ≡ ok true)
        × Holds lock now (now + lock.ttl_seconds * 1000) (acquire lock now s).1
  unfolding acquire resolve_expiration is_over
  acquire_free free positive = (
    ground (
      arith,
      free,
      lock_key-is_blank lock.name,
      add-result (lock_key lock.name) (string lock.owner) (some (seconds lock.ttl_seconds)) now s
          (some (now + lock.ttl_seconds * 1000)) (lock_key-is_blank lock.name) (λ e. cc) refl
          valid.distinct_entries,
    ),
    λ t after before. ground (
      arith,
      free,
      eq_refl (lock_key lock.name),
      look-add (lock_key lock.name) (string lock.owner) (some (seconds lock.ttl_seconds)) now s
          (some (now + lock.ttl_seconds * 1000)) (lock_key-is_blank lock.name) (λ e. cc) refl
          valid.distinct_entries (lock_key lock.name) t after,
    ),
  )

  -- In a valid cache, if a live entry stands under the key of a lock, then acquiring it answers
  -- false.
  pub acquire_held :
      {e : CacheEntry}
      → look s (lock_key lock.name) now ≡ some e
      → (acquire lock now s).0 ≡ ok false
  unfolding acquire resolve_expiration
  acquire_held held = ground (
    arith,
    held,
    add-result (lock_key lock.name) (string lock.owner) (some (seconds lock.ttl_seconds)) now s
        (some (now + lock.ttl_seconds * 1000)) (lock_key-is_blank lock.name) (λ e. cc) refl
        valid.distinct_entries,
  )

module _ (mine other : CacheLock) (start until : ℕ) (s : Cache) (same : other.name ≡ mine.name)
    (foreign : other.owner ≢ mine.owner) (valid : IsValid s) (held : Holds mine start until s) where
  foreign-object_is : object_is (string mine.owner) (string other.owner) ≡ false
  unfolding object_is
  foreign-object_is = ground (arith, eq_iff mine.owner other.owner)

  -- No call of another owner takes a held lock away, or shortens it.
  pub call-Holds :
      (c : LockCall) → IsBetween start until c → Holds mine (ends_at c) until (call other c s)
  unfolding call acquire release owned renew get holds resolve_expiration
  call-Holds (acquiring now) (after, before) t later early = ground (
    arith,
    held now after before,
    held t (omega arith) early,
    look-add (lock_key other.name) (string other.owner) (some (seconds other.ttl_seconds)) now s
        (some (now + other.ttl_seconds * 1000)) (lock_key-is_blank other.name) (λ e. cc) refl
        valid.distinct_entries (lock_key mine.name) t later,
  )
  call-Holds (releasing now) (after, before) t later early = ground (
    arith,
    foreign-object_is,
    held now after before,
    held t (omega arith) early,
    look-forget_if (lock_key other.name) (string other.owner) now s (lock_key-is_blank other.name)
        (lock_key mine.name) t later,
  )
  call-Holds (running now) (after, before) t later early = ground (
    arith,
    held t (omega arith) early,
    look-entry (lock_key other.name) now s (lock_key mine.name) t later,
  )
  call-Holds (renewing ttl seen now) (after, order, before) t later early = ground (
    arith,
    foreign-object_is,
    held seen after (omega arith),
    held t (omega arith) early,
    look-expire_if_other (lock_key other.name) (string other.owner) seen s
        (lock_key-is_blank other.name) (seconds ttl) now
        (ground (arith, foreign-object_is, held seen after (omega arith))) order
        (lock_key mine.name) t later,
  )

pub call-IsValid :
    (lock : CacheLock) (c : LockCall) {s : Cache} → IsValid s → IsValid (call lock c s)
unfolding call acquire release owned renew get
call-IsValid lock (acquiring now) v =
    add-IsValid (lock_key lock.name) (string lock.owner) (some (seconds lock.ttl_seconds)) now v
call-IsValid lock (releasing now) v =
    forget_if-IsValid (lock_key lock.name) (string lock.owner) now v
call-IsValid lock (running now) {s} v = ground (arith, entry-IsValid (lock_key lock.name) now v)
call-IsValid lock (renewing ttl seen now) {s} v =
    ground
      (arith, expire_if-IsValid (lock_key lock.name) (string lock.owner) (seconds ttl) seen now v)

-- The calls of other holders, one after the other.
pub calls : List (CacheLock × LockCall) → Cache → Cache
calls [] s = s
calls ((lock, c) ∷ rest) s = calls rest (call lock c s)

-- The calls are by other owners of the same lock, in the order of the clock, before `until`.
abbrev pub AreForeign : CacheLock → (start until : ℕ) → List (CacheLock × LockCall) → Type 0
AreForeign mine start until [] = Unit
AreForeign mine start until ((other, c) ∷ rest) =
    (other.name ≡ mine.name)
    × (other.owner ≢ mine.owner)
    × IsBetween start until c
    × AreForeign mine (ends_at c) until rest

abbrev pub last_end : ℕ → List (CacheLock × LockCall) → ℕ
last_end start [] = start
last_end start ((other, c) ∷ rest) = last_end (ends_at c) rest

-- In a valid cache, a lock that is held until an instant stays its holder's until that instant,
-- whatever acquire, release, renew and owned calls other owners make on it, in the order of the
-- clock, before the instant.
pub calls-Holds :
    (mine : CacheLock) (rest : List (CacheLock × LockCall)) (start until : ℕ) (s : Cache)
    → IsValid s
    → Holds mine start until s
    → AreForeign mine start until rest
    → Holds mine (last_end start rest) until (calls rest s)
unfolding calls
calls-Holds mine [] start until s valid held foreign = held
calls-Holds mine ((other, c) ∷ rest) start until s valid held (same, differs, between, foreign) =
    calls-Holds mine rest (ends_at c) until (call other c s) (call-IsValid other c valid)
      (call-Holds mine other start until s same differs valid held c between) foreign
