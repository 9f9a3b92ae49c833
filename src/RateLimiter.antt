-- ===== src/RateLimiter.antt =====
-- packages/rate-limiter/src/runtime/RateLimiter.ts over the in-memory cache, which is a cache with
-- atomic fixed windows. A decay is a whole number of seconds. The values under the limiter's keys
-- are its own: one of another type, which the source would go on with, is the error `foreign_value`.
pub mod Bound
pub mod Tests
use Prim.Native.String
use nuxt_laravelize.Common.{
  ℕ, ◌+◌, ◌-◌, ◌*◌, ◌/◌, max, String, Bool, true, ◌&&◌, Option, none, some, ltb, leb, if◌then◌else◌,
  max_safe_integer,
}
use nuxt_laravelize.Cache.InMemory.{Action, get, add, forget, Cache}
use nuxt_laravelize.Cache.Value.{CacheError, CacheValue, undefined, null, number, seconds, date}
use nuxt_laravelize.Cache.Number.{pos_part, ◌+ℤ◌, negate, ℤ, Number, pos, negsuc, finite}
use nuxt_laravelize.Cache.InMemory.Counter.{increment}
use nuxt_laravelize.Cache.InMemory.Window.{
  hit_fixed_window, fixed_window_state, clear_fixed_window, FixedWindowState,
}
use nuxt_laravelize.Common.Text.{is_blank, decimal}
use nuxt_laravelize.Common.Exec.{Exec, pure, raise, Result, ok, throw, ◌>>=◌, ◌>>◌}

pub data RateLimitError : Type 0 where
  cache_error : CacheError → RateLimitError
  empty_limit_key invalid_maximum invalid_decay invalid_window_length foreign_value : RateLimitError

pub record RateLimitResult : Type 0 where
  pub allowed : Bool
  pub attempts : ℤ
  pub remaining : ℕ
  pub retry_after : ℕ
  pub retry_after_milliseconds : ℕ
  pub reset_at : ℕ

pub record RateLimiter : Type 0 where
  pub prefix : String
  pub atomic_fixed_window : Bool

abbrev pub Limiting : Type 0 → Type 0
Limiting A = Exec Cache RateLimitError A

module _ {A : Type 0} where
  abbrev of_cache : Result CacheError A → Result RateLimitError A
  of_cache (ok a) = ok a
  of_cache (throw e) = throw (cache_error e)

  -- A call of the cache.
  abbrev pub cached : Action A → Limiting A
  cached m s = let (r, s') = m s in (of_cache r, s')

abbrev infix_text : String → String → String
infix_text a b = String.◌++◌ a b

abbrev pub timer_key : RateLimiter → String → String
timer_key limiter key = infix_text limiter.prefix (infix_text key ":timer")

abbrev pub atomic_key : RateLimiter → String → String
atomic_key limiter key = infix_text limiter.prefix (infix_text key ":window")

unfoldable pub attempts_key : RateLimiter → String → ℕ → String
attempts_key limiter key reset_at =
    infix_text limiter.prefix
      (infix_text key (infix_text ":" (infix_text (decimal reset_at) ":attempts")))

unfoldable pub assert_limit_key : String → Limiting Unit
assert_limit_key key = if is_blank key then raise empty_limit_key else pure tt

unfoldable pub assert_positive_integer : ℕ → Limiting Unit
assert_positive_integer n =
    if ltb 0 n && leb n max_safe_integer then pure tt else raise invalid_maximum

unfoldable pub assert_arguments : String → (max_attempts decay_seconds : ℕ) → Limiting Unit
unfolding assert_limit_key assert_positive_integer
assert_arguments key max_attempts decay_seconds = do
  assert_limit_key key
  assert_positive_integer max_attempts
  if ltb 0 decay_seconds then pure tt else raise invalid_decay

unfoldable pub window_milliseconds : ℕ → Limiting ℕ
window_milliseconds decay_seconds =
    if leb (decay_seconds * 1000) max_safe_integer && ltb 0 decay_seconds
    then pure (decay_seconds * 1000)
    else raise invalid_window_length

abbrev at_most : ℤ → ℕ → Bool
at_most (pos n) most = leb n most
at_most (negsuc n) most = true

-- `Math.max(0, maxAttempts - attempts)`
abbrev pub left_of : ℕ → ℤ → ℕ
left_of most attempts = pos_part (pos most +ℤ negate attempts)

-- The result for a number of attempts, the clock reading, and the reset.
abbrev pub result_of :
    (max_attempts : ℕ) → ℤ → (retry_after_milliseconds retry_after reset_at : ℕ) → RateLimitResult
result_of max_attempts attempts retry_after_milliseconds retry_after reset_at = record {
  allowed = at_most attempts max_attempts;
  attempts = attempts;
  remaining = left_of max_attempts attempts;
  retry_after = retry_after;
  retry_after_milliseconds = retry_after_milliseconds;
  reset_at = reset_at;
}

-- `Math.ceil(milliseconds / 1000)`
abbrev pub seconds_up : ℕ → ℕ
seconds_up milliseconds = (milliseconds + 999) / 1000

unfoldable pub hit_atomic :
    RateLimiter → String → (max_attempts decay_seconds : ℕ) → (now : ℕ) → Limiting RateLimitResult
hit_atomic limiter key max_attempts decay_seconds now = do
  length ← window_milliseconds decay_seconds
  state ← cached (hit_fixed_window (atomic_key limiter key) (finite (pos length)) now)
  pure (
      result_of max_attempts (pos state.attempts) state.retry_after_milliseconds
        (seconds_up state.retry_after_milliseconds) state.reset_at)

-- The readings of the limiter's clock, and of the cache's clock in its three calls.
pub record HitClock : Type 0 where
  pub now : ℕ
  pub add_at : ℕ
  pub get_at : ℕ
  pub increment_at : ℕ

abbrev instant_of : CacheValue → Limiting ℕ
instant_of (number (finite (pos n))) s = (ok n, s)
instant_of _ s = (throw foreign_value, s)

abbrev count_of_number : Number → Limiting ℤ
count_of_number (finite z) s = (ok z, s)
count_of_number _ s = (throw foreign_value, s)

unfoldable pub hit_timer :
    RateLimiter → String → (max_attempts decay_seconds : ℕ) → HitClock → Limiting RateLimitResult
hit_timer limiter key max_attempts decay_seconds clock =
    let reset_at = number (finite (pos (clock.now + decay_seconds * 1000))) in
    do
      cached (add (timer_key limiter key) reset_at (some (seconds decay_seconds)) clock.add_at)
      stored ← cached (get (timer_key limiter key) reset_at clock.get_at)
      stored_reset_at ← instant_of stored
      counted ← cached (
          increment (attempts_key limiter key stored_reset_at) (finite (pos 1))
            (some (date stored_reset_at)) clock.increment_at)
      attempts ← count_of_number counted
      pure (
          result_of max_attempts attempts (max 1 (stored_reset_at - clock.now))
            (seconds_up (stored_reset_at - clock.now)) stored_reset_at)

unfoldable pub hit :
    RateLimiter → String → (max_attempts decay_seconds : ℕ) → HitClock → Limiting RateLimitResult
unfolding assert_arguments
hit limiter key max_attempts decay_seconds clock = do
  assert_arguments key max_attempts decay_seconds
  if limiter.atomic_fixed_window
      then hit_atomic limiter key max_attempts decay_seconds clock.now
      else hit_timer limiter key max_attempts decay_seconds clock

abbrev state_attempts : Option FixedWindowState → ℕ
state_attempts none = 0
state_attempts (some state) = state.attempts

-- `undefined` and `null` count as no attempt.
abbrev count_of_value : CacheValue → Limiting ℤ
count_of_value (number (finite z)) s = (ok z, s)
count_of_value undefined s = (ok (pos 0), s)
count_of_value null s = (ok (pos 0), s)
count_of_value _ s = (throw foreign_value, s)

-- The attempts of the timer mode, once the timer is read.
unfoldable pub timed_attempts : RateLimiter → String → CacheValue → ℕ → Limiting ℤ
timed_attempts limiter key undefined now = pure (pos 0)
timed_attempts limiter key timer now = do
  reset_at ← instant_of timer
  counted ← cached (get (attempts_key limiter key reset_at) (number (finite (pos 0))) now)
  count_of_value counted

unfoldable pub attempts : RateLimiter → String → (timer_at now : ℕ) → Limiting ℤ
unfolding assert_limit_key timed_attempts
attempts limiter key timer_at now = do
  assert_limit_key key
  if limiter.atomic_fixed_window
      then (do
        state ← cached (fixed_window_state (atomic_key limiter key) now)
        pure (pos (state_attempts state)))
      else (do
        timer ← cached (get (timer_key limiter key) undefined timer_at)
        timed_attempts limiter key timer now)

unfoldable pub remaining :
    RateLimiter → String → (max_attempts : ℕ) → (timer_at now : ℕ) → Limiting ℕ
unfolding assert_limit_key assert_positive_integer
remaining limiter key max_attempts timer_at now = do
  assert_limit_key key
  assert_positive_integer max_attempts
  made ← attempts limiter key timer_at now
  pure (left_of max_attempts made)

-- The removals of `clear` in the timer mode.
unfoldable pub clear_timed : RateLimiter → String → CacheValue → Limiting Unit
clear_timed limiter key undefined = do cached (forget (timer_key limiter key)); pure tt
clear_timed limiter key timer = do
  cached (forget (timer_key limiter key))
  reset_at ← instant_of timer
  cached (forget (attempts_key limiter key reset_at))
  pure tt

unfoldable pub clear : RateLimiter → String → (now : ℕ) → Limiting Unit
unfolding assert_limit_key clear_timed
clear limiter key now = do
  assert_limit_key key
  if limiter.atomic_fixed_window
      then (do cached (clear_fixed_window (atomic_key limiter key)); pure tt)
      else (do
        timer ← cached (get (timer_key limiter key) undefined now)
        clear_timed limiter key timer)
