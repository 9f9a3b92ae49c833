-- ===== src/Cache/InMemory/Valid.antt =====
-- What holds of the in-memory cache between two calls.
use nuxt_laravelize.Common.{ℕ, ◌≤◌, String, Option, arith}
use nuxt_laravelize.Cache.Value.{is_over, CacheValue, CacheTtl, CacheEntry}
use nuxt_laravelize.Cache.InMemory.{
  empty, touch, drop_entry, set_entry, maybe_sweep, entry, put, add, forget_if, expire_at,
  expire_held, expire_if, Cache,
}
use nuxt_laravelize.Common.Map.Distinct.{
  IsDistinct, put-IsDistinct, remove-IsDistinct, sweep-IsDistinct,
}

pub record IsValid (s : Cache) : Type 0 where
  pub distinct_entries : IsDistinct s.entries
  pub distinct_pending : IsDistinct s.pending
  pub sweep_due : 1 ≤ s.writes_until_sweep
  pub sweep_soon : s.writes_until_sweep ≤ 64

pub empty-IsValid : IsValid empty
empty-IsValid = record {
  distinct_entries = tt;
  distinct_pending = tt;
  sweep_due = omega arith;
  sweep_soon = omega arith;
}

pub touch-IsValid : (key : String) {s : Cache} → IsValid s → IsValid (touch key s)
unfolding touch
touch-IsValid key {s} v = ground (arith, remove-IsDistinct key s.pending v.distinct_pending)

pub drop_entry-IsValid : (key : String) {s : Cache} → IsValid s → IsValid (drop_entry key s)
unfolding drop_entry
drop_entry-IsValid key {s} v = ground (arith, remove-IsDistinct key s.entries v.distinct_entries)

pub set_entry-IsValid :
    (key : String) (e : CacheEntry) {s : Cache} → IsValid s → IsValid (set_entry key e s)
unfolding set_entry
set_entry-IsValid key e {s} v = ground (arith, put-IsDistinct key e s.entries v.distinct_entries)

pub maybe_sweep-IsValid : (now : ℕ) {s : Cache} → IsValid s → IsValid (maybe_sweep now s)
unfolding maybe_sweep
maybe_sweep-IsValid now {s} v =
    ground (arith, sweep-IsDistinct (λ e. is_over e.expires_at now) s.entries v.distinct_entries)

pub entry-IsValid : (key : String) (now : ℕ) {s : Cache} → IsValid s → IsValid (entry key now s).1
unfolding entry
entry-IsValid key now {s} v = ground (arith, remove-IsDistinct key s.entries v.distinct_entries)

pub ruleset kept =
    (touch-IsValid, drop_entry-IsValid, set_entry-IsValid, maybe_sweep-IsValid, entry-IsValid)

pub put-IsValid :
    (key : String) (value : CacheValue) (ttl : Option CacheTtl) (now : ℕ) {s : Cache}
    → IsValid s
    → IsValid (put key value ttl now s).1
unfolding put
put-IsValid key value ttl now v = grind (arith, kept)

pub add-IsValid :
    (key : String) (value : CacheValue) (ttl : Option CacheTtl) (now : ℕ) {s : Cache}
    → IsValid s
    → IsValid (add key value ttl now s).1
unfolding add
add-IsValid key value ttl now v = grind (arith, kept)

pub forget_if-IsValid :
    (key : String) (expected : CacheValue) (now : ℕ) {s : Cache}
    → IsValid s
    → IsValid (forget_if key expected now s).1
unfolding forget_if
forget_if-IsValid key expected now v = grind (arith, kept)

pub expire_if-IsValid :
    (key : String) (expected : CacheValue) (ttl : CacheTtl) (seen now : ℕ) {s : Cache}
    → IsValid s
    → IsValid (expire_if key expected ttl seen now s).1
unfolding expire_if expire_held expire_at
expire_if-IsValid key expected ttl seen now v = grind (arith, kept)
