-- ===== src/Cache/Tests.antt =====
-- packages/cache: the in-memory cache and its locks on small inputs.
use nuxt_laravelize.Common.Map
use nuxt_laravelize.Common.{
  ℕ, ◌≤◌, ◌<◌, ◌≡◌, refl, ◌≢◌, true, false, none, some, [], ◌∷◌, arith, eq_iff,
}
use nuxt_laravelize.Cache.Lock.{lock_key, acquire, CacheLock}
use nuxt_laravelize.Cache.Value.{
  object_is, is_over, resolve_expiration, is_fixed_window_entry, CacheEntry, undefined, null,
  number, string, window, seconds,
}
use nuxt_laravelize.Cache.InMemory.{empty, put, add, holds, forget_if, expire_if, Cache}
use nuxt_laravelize.Cache.Number.{plus, pos, finite, rounded, round_from}
use nuxt_laravelize.Cache.Lock.Exclusion.{
  Holds, acquire_free, call-IsValid, calls, calls-Holds, acquiring, releasing, call,
}
use nuxt_laravelize.Cache.InMemory.Writes.{look-put, look-add, look-forget_if, look-expire_if}
use nuxt_laravelize.Cache.InMemory.Counter.{increment}
use nuxt_laravelize.Cache.InMemory.Window.{entry_window}
use nuxt_laravelize.Cache.InMemory.View.{look}
use nuxt_laravelize.Cache.InMemory.Valid.{IsValid, empty-IsValid}
use nuxt_laravelize.Cache.InMemory.Remember.{is_pending, settle}
use nuxt_laravelize.Cache.InMemory.Window.Series.{hits, counted-hits}
use nuxt_laravelize.Cache.InMemory.Window.Counts.{counted}
use nuxt_laravelize.Cache.InMemory.Remember.Laws.{settle-put}
use nuxt_laravelize.Cache.InMemory.Counter.Sums.{count_of, look-increment}
use nuxt_laravelize.Common.Text.{is_space, is_blank}
use nuxt_laravelize.Common.Map.{Map}
use nuxt_laravelize.Common.Exec.{ok}
use nuxt_laravelize.Common.Map.Distinct.{IsDistinct}
use nuxt_laravelize.Common.Int.{◌+ℤ◌}

abbrev text_entry : CacheEntry
text_entry = record { value = string "x"; expires_at = some 5000 }

abbrev null_entry : CacheEntry
null_entry = record { value = null; expires_at = none }

abbrev filled : Cache
filled = record {
  entries = ("a", text_entry) ∷ ("b", null_entry) ∷ [];
  pending = [];
  writes_until_sweep = 64;
  next_reference = 0;
}

filled-IsDistinct : IsDistinct filled.entries
unfolding Map.get
filled-IsDistinct = (refl, (refl, tt))

a_named : is_blank "a" ≡ false
unfolding is_blank is_space
a_named = refl

five_seconds : resolve_expiration (some (seconds 5)) 1000 ≡ ok (some 6000)
unfolding resolve_expiration
five_seconds = refl

no_ttl : resolve_expiration none 1000 ≡ ok none
unfolding resolve_expiration
no_ttl = refl

five_date : resolve_expiration (some (seconds 5)) 2000 ≡ ok (some 7000)
unfolding resolve_expiration
five_date = refl

a_looks : look filled "a" 1000 ≡ some text_entry
unfolding look Map.get is_over
a_looks = refl

c_looks : look filled "c" 1000 ≡ none
unfolding look Map.get
c_looks = refl

defined : string "y" ≢ undefined
defined e = cc

look-put_example :
    look (put "a" (string "y") (some (seconds 5)) 1000 filled).1 "a" 2000
    ≡ some (record { value = string "y"; expires_at = some 6000 })
unfolding is_over
look-put_example =
    look-put "a" (string "y") (some (seconds 5)) 1000 filled (some 6000) a_named defined
      five_seconds filled-IsDistinct "a" 2000 (omega arith)

look-add_example :
    look (add "a" (string "y") (some (seconds 5)) 1000 filled).1 "a" 2000 ≡ some text_entry
unfolding look Map.get is_over
look-add_example =
    look-add "a" (string "y") (some (seconds 5)) 1000 filled (some 6000) a_named defined
      five_seconds filled-IsDistinct "a" 2000 (omega arith)

look-forget_if_example : look (forget_if "a" (string "x") 1000 filled).1 "a" 2000 ≡ none
unfolding look Map.get is_over holds object_is
look-forget_if_example = look-forget_if "a" (string "x") 1000 filled a_named "a" 2000 (omega arith)

look-expire_if_example :
    look (expire_if "a" (string "x") (seconds 5) 1000 2000 filled).1 "a" 6000
    ≡ some (record { value = string "x"; expires_at = some 7000 })
unfolding is_over object_is
look-expire_if_example =
    look-expire_if "a" (string "x") 1000 filled a_named (seconds 5) text_entry 7000 2000 a_looks
      (omega arith) five_date "a" 6000 (omega arith)

abbrev counter_entry : CacheEntry
counter_entry = record { value = number (finite (pos 4)); expires_at = some 5000 }

abbrev counting : Cache
counting = record filled { entries = ("a", counter_entry) ∷ [] }

counting-IsDistinct : IsDistinct counting.entries
unfolding Map.get
counting-IsDistinct = (refl, tt)

four : count_of (look counting "a" 1000) ≡ some (pos 4)
unfolding look Map.get is_over
four = refl

-- Beyond the safe integers a sum is rounded, and half way to the even double.
half_way : plus (pos 9007199254740992) (pos 1) ≡ finite (pos 9007199254740992)
unfolding plus rounded round_from
half_way = refl

past_half : plus (pos 9007199254740992) (pos 3) ≡ finite (pos 9007199254740996)
unfolding plus rounded round_from
past_half = refl

look-increment_example :
    look (increment "a" (finite (pos 2)) none 1000 counting).1 "a" 2000
    ≡ some (record { value = number (finite (pos 6)); expires_at = some 5000 })
unfolding look Map.get is_over ◌+ℤ◌
look-increment_example =
    look-increment "a" (pos 2) (pos 4) none 1000 counting none a_named counting-IsDistinct four
      (omega arith) (omega arith) no_ttl "a" 2000 (omega arith)

abbrev windowed : Cache
windowed = record filled {
  entries = ("a", record { value = window 0 2 9000; expires_at = some 9000 }) ∷ [];
}

open_until : (t : ℕ) → 4000 ≤ t → t < 9000 → counted windowed "a" t ≡ some (2, 9000)
unfolding look Map.get is_over entry_window is_fixed_window_entry
open_until t h early = ground (arith, h, early)

counted-hits_example : counted (hits "a" 1000 (4500 ∷ 5000 ∷ []) windowed) "a" 6000 ≡ some (4, 9000)
counted-hits_example =
    counted-hits "a" 1000 a_named (omega arith) (4500 ∷ 5000 ∷ []) 4000 2 9000 windowed open_until
      (omega arith, omega arith, (omega arith, omega arith, tt)) (omega arith) (omega arith) 6000
      (omega arith) (omega arith)

abbrev running_factory : Cache
running_factory = record filled { pending = ("c", 7) ∷ [] }

c_named : is_blank "c" ≡ false
unfolding is_blank is_space
c_named = refl

c_runs : is_pending "c" 7 running_factory ≡ true
unfolding is_pending Map.get
c_runs = refl

c_absent : look running_factory "c" 1000 ≡ none
unfolding look Map.get
c_absent = refl

settle-put_example :
    settle "c"
      (some (seconds 5))
      7
      (string "x")
      1500
      (put "c" (string "y") none 1000 running_factory).1
    ≡ (ok (string "x"), (put "c" (string "y") none 1000 running_factory).1)
settle-put_example =
    settle-put "c" (string "y") none 1000 running_factory none c_named defined no_ttl 7 (string "x")
      (some (seconds 5)) 1500 (λ e. cc)

abbrev mine : CacheLock
mine = record { name = "job"; ttl_seconds = 5; owner = "me" }

abbrev other : CacheLock
other = record { name = "job"; ttl_seconds = 60; owner = "you" }

job_free : look empty (lock_key "job") 1000 ≡ none
unfolding look Map.get
job_free = refl

acquire_free_example :
    ((acquire mine 1000 empty).0 ≡ ok true) × Holds mine 1000 6000 (acquire mine 1000 empty).1
acquire_free_example = acquire_free mine 1000 empty empty-IsValid job_free (omega arith)

abbrev locked : Cache
locked = (acquire mine 1000 empty).1

locked-IsValid : IsValid locked
unfolding acquire call
locked-IsValid = call-IsValid mine (acquiring 1000) empty-IsValid

differs : other.owner ≢ mine.owner
differs e = ground (arith, eq_iff "you" "me", e)

calls-Holds_example :
    Holds mine 3000 6000 (calls ((other, acquiring 2000) ∷ (other, releasing 3000) ∷ []) locked)
calls-Holds_example =
    calls-Holds mine ((other, acquiring 2000) ∷ (other, releasing 3000) ∷ []) 1000 6000 locked
      locked-IsValid acquire_free_example.1
      (refl, differs, (omega arith, omega arith), (refl, differs, (omega arith, omega arith), tt))
