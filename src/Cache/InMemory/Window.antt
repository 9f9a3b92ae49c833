-- ===== src/Cache/InMemory/Window.antt =====
-- packages/cache/src/runtime/InMemoryCache.ts: the atomic fixed-window counter.
pub mod Counts
pub mod Series
use nuxt_laravelize.Common.{
  ℕ, ◌+◌, ◌-◌, max, String, Bool, Option, none, some, leb, if◌then◌else◌, max_safe_integer,
}
use nuxt_laravelize.Common.Exec.{pure, raise, modify, ◌>>=◌, ◌>>◌}
use nuxt_laravelize.Cache.Number.{Number}
use nuxt_laravelize.Cache.Value.{
  unsafe_expiration, CacheValue, window, CacheEntry, is_fixed_window_entry,
}
use nuxt_laravelize.Cache.InMemory.{
  Cache, Action, assert_key, assert_window, entry, touch, set_entry, forget,
}

pub record FixedWindowState : Type 0 where
  pub attempts : ℕ
  pub reset_at : ℕ
  pub retry_after_milliseconds : ℕ

-- The attempts and the reset of a value that is a fixed window.
unfoldable pub window_of : CacheValue → Option (ℕ × ℕ)
window_of (window r attempts reset_at) =
    if is_fixed_window_entry (window r attempts reset_at) then some (attempts, reset_at) else none
window_of _ = none

unfoldable pub entry_window : Option CacheEntry → Option (ℕ × ℕ)
unfolding window_of
entry_window none = none
entry_window (some e) = window_of e.value

abbrev pub state_at : ℕ → ℕ → ℕ → FixedWindowState
state_at attempts reset_at now = record {
  attempts = attempts;
  reset_at = reset_at;
  retry_after_milliseconds = max 1 (reset_at - now);
}

-- `existing?.resetAt ?? now + windowMilliseconds` and `(existing?.attempts ?? 0) + 1`
abbrev pub next_reset : Option (ℕ × ℕ) → ℕ → ℕ
next_reset none fresh = fresh
next_reset (some (attempts, reset_at)) fresh = reset_at

abbrev pub next_attempts : Option (ℕ × ℕ) → ℕ
next_attempts none = 1
next_attempts (some (attempts, reset_at)) = attempts + 1

-- `this.#entries.set` of a new window object
unfoldable pub set_window : String → ℕ → ℕ → Cache → Cache
set_window key attempts reset_at s =
    set_entry key
      (record { value = window s.next_reference attempts reset_at; expires_at = some reset_at })
      (record s { next_reference = s.next_reference + 1 })

unfoldable pub hit_fixed_window : String → Number → ℕ → Action FixedWindowState
unfolding assert_key assert_window
hit_fixed_window key window_milliseconds now = do
  assert_key key
  length ← assert_window window_milliseconds
  if leb (now + length) max_safe_integer
      then (do
        e ← entry key now
        modify (touch key)
        modify (
            set_window key (next_attempts (entry_window e))
              (next_reset (entry_window e) (now + length)))
        pure (
            state_at (next_attempts (entry_window e)) (next_reset (entry_window e) (now + length))
              now))
      else raise unsafe_expiration

abbrev observed : Option (ℕ × ℕ) → ℕ → Option FixedWindowState
observed none now = none
observed (some (attempts, reset_at)) now = some (state_at attempts reset_at now)

unfoldable pub fixed_window_state : String → ℕ → Action (Option FixedWindowState)
fixed_window_state key now = do e ← entry key now; pure (observed (entry_window e) now)

unfoldable pub clear_fixed_window : String → Action Bool
clear_fixed_window key = forget key
