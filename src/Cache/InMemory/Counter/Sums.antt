-- ===== src/Cache/InMemory/Counter/Sums.antt =====
-- Counting up and down with the in-memory cache.
use nuxt_laravelize.Common.Map
use nuxt_laravelize.Common.{
  Option, String, ℕ, some, ◌≡◌, false, ◌≤◌, not, ◌&&◌, none, arith, if◌then◌else◌,
}
use nuxt_laravelize.Cache.Number.{ℤ, pos, finite, plus-exact}
use nuxt_laravelize.Cache.Value.{CacheEntry, CacheTtl, is_over, resolve_expiration, number}
use nuxt_laravelize.Cache.InMemory.{Cache, touch, maybe_sweep, entry}
use nuxt_laravelize.Common.Text.{is_blank}
use nuxt_laravelize.Common.Map.Distinct.{IsDistinct, keep}
use nuxt_laravelize.Cache.InMemory.Counter.{current_count, count_expiration, increment}
use nuxt_laravelize.Cache.InMemory.View.{
  is_over_at, look, look-set_entry, look-touch, look-maybe_sweep, entry-result, look-entry,
}
use nuxt_laravelize.Common.Map.{Map}
use nuxt_laravelize.Common.Exec.{ok}
use nuxt_laravelize.Common.Int.{pos_part, neg_part, ◌+ℤ◌}

abbrev pub count_of : Option CacheEntry → Option ℤ
count_of none = some (pos 0)
count_of (some e) = elim e.value [ number (finite z) ↦ some z | _ ↦ none ]

-- A counter keeps the expiration of its entry; a new one takes the given time to live.
abbrev pub lasting : Option CacheEntry → Option ℕ → Option ℕ
lasting none fresh = fresh
lasting (some e) fresh = elim e.expires_at [ none ↦ fresh | some t ↦ some t ]

module _ (key : String) (step current : ℤ) (ttl : Option CacheTtl) (now : ℕ) (s : Cache)
    (fresh : Option ℕ) (named : is_blank key ≡ false) (distinct : IsDistinct s.entries)
    (counted : count_of (look s key now) ≡ some current)
    (above : pos_part (current +ℤ step) ≤ 9007199254740991)
    (below : neg_part (current +ℤ step) ≤ 9007199254740991)
    (lasts : resolve_expiration ttl now ≡ ok fresh) where
  swept : (entry key now (maybe_sweep now s)).0 ≡ ok (look s key now)
  swept = rw (
    entry-result key now (maybe_sweep now s) named,
    look-maybe_sweep now s key now distinct (omega arith),
  )

  counting : (e : Option CacheEntry) → count_of e ≡ some current → current_count e ≡ ok current
  unfolding current_count
  counting e h = ground arith

  keeping : (e : Option CacheEntry) → count_expiration e ttl now ≡ ok (lasting e fresh)
  unfolding count_expiration
  keeping e = ground (arith, lasts)

  -- If a key that is not blank reads as a whole count or as absent, the step is whole, and the sum
  -- is a safe integer, then after `increment` the key reads as the exact sum until the expiration
  -- that the entry had, or else the given one, unless that is over at once, and all else reads as
  -- before.
  pub look-increment :
      (k : String) (t : ℕ)
      → now ≤ t
      → look (increment key (finite step) ttl now s).1 k t ≡ (
          if not (is_over (lasting (look s key now) fresh) now) && Map.key_eq key k
          then keep (is_over_at t) (
              some (record {
                value = number (finite (current +ℤ step));
                expires_at = lasting (look s key now) fresh;
              }))
          else look s k t)
  unfolding increment
  look-increment k t h = ground (
    arith,
    swept,
    counting (look s key now) counted,
    keeping (look s key now),
    plus-exact current step above below,
    look-entry key now (maybe_sweep now s) k t h,
    look-maybe_sweep now s k t distinct h,
    look-touch key k (entry key now (maybe_sweep now s)).1 t,
    look-set_entry key k
        (record {
          value = number (finite (current +ℤ step));
          expires_at = lasting (look s key now) fresh;
        })
        (touch key (entry key now (maybe_sweep now s)).1) t,
  )
