-- ===== src/Cache/InMemory/View.antt =====
-- What a reader of the in-memory cache can see: the entries that are not over. The deletions of
-- `#entry` and the sweep are invisible from the instant at which they are made.
use nuxt_laravelize.Common.{
  ℕ, ◌≤◌, String, ◌≡◌, refl, Bool, false, Option, none, some, arith, if◌then◌else◌, eq_iff,
}
use nuxt_laravelize.Common.Text.{is_blank}
use nuxt_laravelize.Common.Map
use nuxt_laravelize.Common.Map.{get-put, get-remove}
use nuxt_laravelize.Common.Map.Distinct.{IsDistinct, keep, get-sweep}
use nuxt_laravelize.Common.Exec.{ok}
use nuxt_laravelize.Cache.Value.{CacheEntry, is_over}
use nuxt_laravelize.Cache.InMemory.{Cache, entry, drop_entry, set_entry, touch, maybe_sweep}

abbrev pub is_over_at : ℕ → CacheEntry → Bool
is_over_at now e = is_over e.expires_at now

-- The entry of a key that a read at `now` finds.
unfoldable pub look : Cache → String → ℕ → Option CacheEntry
look s key now = keep (is_over_at now) (Map.get key s.entries)

-- What is over stays over.
keep_later :
    (now t : ℕ) (o : Option CacheEntry)
    → now ≤ t
    → keep (is_over_at t) (keep (is_over_at now) o) ≡ keep (is_over_at t) o
unfolding is_over
keep_later now t o h = ground arith

pub look-set_entry :
    (key k : String) (e : CacheEntry) (s : Cache) (t : ℕ)
    → look (set_entry key e s) k t
      ≡ (if Map.key_eq key k then keep (is_over_at t) (some e) else look s k t)
unfolding look set_entry
look-set_entry key k e s t = rw get-put (ground arith)

pub look-drop_entry :
    (key k : String) (s : Cache) (t : ℕ)
    → look (drop_entry key s) k t ≡ (if Map.key_eq key k then none else look s k t)
unfolding look drop_entry
look-drop_entry key k s t = rw get-remove (ground arith)

pub look-touch : (key k : String) (s : Cache) (t : ℕ) → look (touch key s) k t ≡ look s k t
unfolding look touch
look-touch key k s t = refl

pub look-maybe_sweep :
    (now : ℕ) (s : Cache) (k : String) (t : ℕ)
    → IsDistinct s.entries
    → now ≤ t
    → look (maybe_sweep now s) k t ≡ look s k t
unfolding look maybe_sweep
look-maybe_sweep now s k t d h =
    ground
      (arith, get-sweep (is_over_at now) k s.entries d, keep_later now t (Map.get k s.entries) h)

-- `#entry` of a key that is not blank returns what a read at `now` finds.
pub entry-result :
    (key : String) (now : ℕ) (s : Cache)
    → is_blank key ≡ false
    → (entry key now s).0 ≡ ok (look s key now)
unfolding entry look
entry-result key now s h = ground arith

pub look-entry :
    (key : String) (now : ℕ) (s : Cache) (k : String) (t : ℕ)
    → now ≤ t
    → look (entry key now s).1 k t ≡ look s k t
unfolding entry look
look-entry key now s k t h =
    ground
      (arith, get-remove key k s.entries, eq_iff key k, keep_later now t (Map.get k s.entries) h)
