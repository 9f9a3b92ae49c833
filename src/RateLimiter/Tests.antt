-- ===== src/RateLimiter/Tests.antt =====
-- packages/rate-limiter: hits on a small cache.
use nuxt_laravelize.Common.Map
use nuxt_laravelize.Common.{ℕ, ◌≤◌, ◌<◌, ◌≡◌, refl, true, false, some, [], ◌∷◌, arith}
use nuxt_laravelize.RateLimiter.{atomic_key, hit, RateLimiter, HitClock, attempts_key, hit_timer}
use nuxt_laravelize.RateLimiter.Bound.{limited_hits, hit_bound}
use nuxt_laravelize.Cache.Value.{is_over, is_fixed_window_entry, window, resolve_expiration}
use nuxt_laravelize.Cache.InMemory.{empty, Cache, touch, set_entry, maybe_sweep, entry, get, add}
use nuxt_laravelize.Cache.Number.{pos, negate, plus, rounded}
use nuxt_laravelize.Cache.InMemory.Window.{entry_window}
use nuxt_laravelize.Cache.InMemory.View.{look}
use nuxt_laravelize.Cache.InMemory.Window.Counts.{counted}
use nuxt_laravelize.Common.Text.{is_space, is_blank, decimal}
use nuxt_laravelize.Common.Map.{Map}
use nuxt_laravelize.Common.Exec.{ok}
use nuxt_laravelize.Cache.InMemory.Counter.{increment}

abbrev limiter : RateLimiter
limiter = record { prefix = "rl:"; atomic_fixed_window = true }

abbrev timer_limiter : RateLimiter
timer_limiter = record { prefix = "rl:"; atomic_fixed_window = false }

abbrev clock_at : ℕ → HitClock
clock_at now = record { now = now; add_at = now; get_at = now; increment_at = now }

abbrev opened : Cache
opened = record empty {
  entries = ("rl:u:window", record { value = window 0 1 9000; expires_at = some 9000 }) ∷ [];
}

window_named : is_blank (atomic_key limiter "u") ≡ false
unfolding is_blank is_space
window_named = refl

key_named : is_blank "u" ≡ false
unfolding is_blank is_space
key_named = refl

open_until : (t : ℕ) → 4000 ≤ t → t < 9000 → counted opened "rl:u:window" t ≡ some (1, 9000)
unfolding look Map.get is_over entry_window is_fixed_window_entry
open_until t h early = ground (arith, h, early)

hit_bound_example :
    (hit limiter "u" 2 60
      (clock_at 5000)
      (limited_hits limiter "u" 2 60 (clock_at 4500 ∷ []) opened)).0
    ≡ ok (record {
      allowed = false;
      attempts = pos 3;
      remaining = 0;
      retry_after = 4;
      retry_after_milliseconds = 4000;
      reset_at = 9000;
    })
hit_bound_example =
    hit_bound limiter "u" 2 60 window_named key_named (omega arith) (omega arith) (omega arith) refl
      (clock_at 4500 ∷ []) 4000 1 9000 opened (clock_at 5000) open_until
      (omega arith, omega arith, tt) (omega arith) (omega arith) (omega arith) (omega arith)

timer_test :
    (hit timer_limiter "u" 2 60 (clock_at 1000) empty).0
    ≡ ok (record {
      allowed = true;
      attempts = pos 1;
      remaining = 1;
      retry_after = 60;
      retry_after_milliseconds = 60000;
      reset_at = 61000;
    })
unfolding hit hit_timer attempts_key is_blank is_space add entry maybe_sweep get set_entry touch
    increment resolve_expiration decimal plus rounded negate Map.get Map.put
timer_test = refl
