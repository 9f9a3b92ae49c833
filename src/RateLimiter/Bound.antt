-- ===== src/RateLimiter/Bound.antt =====
-- How many hits the limiter allows in one window.
use nuxt_laravelize.Common.{
  ℕ, ◌+◌, ◌-◌, ◌*◌, ◌≤◌, ◌<◌, max, String, ◌≡◌, true, false, some, List, arith, leb,
  max_safe_integer, length, refl, [], ◌∷◌,
}
use nuxt_laravelize.RateLimiter.{
  atomic_key, window_milliseconds, left_of, seconds_up, hit_atomic, hit, RateLimiter, HitClock,
}
use nuxt_laravelize.Cache.InMemory.{Cache}
use nuxt_laravelize.Cache.Number.{negate, pos, ◌+ℤ◌, finite}
use nuxt_laravelize.Cache.InMemory.Window.Series.{hits, IsWithin, last_of, counted-hits}
use nuxt_laravelize.Cache.InMemory.Window.Counts.{counted, hit_fixed_window-result}
use nuxt_laravelize.Common.Text.{is_blank}
use nuxt_laravelize.Common.Exec.{ok}
use nuxt_laravelize.Cache.InMemory.Window.{hit_fixed_window}

pub left_of_pos : (most n : ℕ) → left_of most (pos n) ≡ most - n
unfolding negate ◌+ℤ◌
left_of_pos most n = ground arith

-- The hits of a list of clock readings, one after the other.
unfoldable pub limited_hits :
    RateLimiter → String → (max_attempts decay_seconds : ℕ) → List HitClock → Cache → Cache
limited_hits limiter key max_attempts decay_seconds [] s = s
limited_hits limiter key max_attempts decay_seconds (clock ∷ clocks) s =
    limited_hits limiter key max_attempts decay_seconds clocks
      (hit limiter key max_attempts decay_seconds clock s).1

abbrev pub readings : List HitClock → List ℕ
readings [] = []
readings (clock ∷ clocks) = clock.now ∷ readings clocks

module _ (limiter : RateLimiter) (key : String) (max_attempts decay_seconds : ℕ)
    (named : is_blank (atomic_key limiter key) ≡ false) (keyed : is_blank key ≡ false)
    (positive : 1 ≤ decay_seconds) (some_allowed : 1 ≤ max_attempts)
    (sane : max_attempts ≤ max_safe_integer) (atomic : limiter.atomic_fixed_window ≡ true) where
  pub hit-result :
      (clock : HitClock) (s : Cache) (before reset_at : ℕ)
      → counted s (atomic_key limiter key) clock.now ≡ some (before, reset_at)
      → clock.now + decay_seconds * 1000 ≤ max_safe_integer
      → (hit limiter key max_attempts decay_seconds clock s).0
        ≡ ok (record {
          allowed = leb (before + 1) max_attempts;
          attempts = pos (before + 1);
          remaining = max_attempts - (before + 1);
          retry_after = seconds_up (max 1 (reset_at - clock.now));
          retry_after_milliseconds = max 1 (reset_at - clock.now);
          reset_at = reset_at;
        })
  unfolding hit hit_atomic window_milliseconds
  hit-result clock s before reset_at seen near = ground (
    arith,
    keyed,
    atomic,
    positive,
    some_allowed,
    sane,
    near,
    seen,
    left_of_pos max_attempts (before + 1),
    hit_fixed_window-result (atomic_key limiter key) (decay_seconds * 1000) clock.now s named
        (omega (arith, positive)) near,
  )

  hit-leaves :
      (clock : HitClock) (s : Cache)
      → decay_seconds * 1000 ≤ max_safe_integer
      → (hit limiter key max_attempts decay_seconds clock s).1
        ≡ (hit_fixed_window
            (atomic_key limiter key)
            (finite (pos (decay_seconds * 1000)))
            clock.now
            s).1
  unfolding hit hit_atomic window_milliseconds
  hit-leaves clock s short = ground (arith, keyed, atomic, positive, some_allowed, sane, short)

  limited_hits-hits :
      (clocks : List HitClock) (s : Cache)
      → decay_seconds * 1000 ≤ max_safe_integer
      → limited_hits limiter key max_attempts decay_seconds clocks s
        ≡ hits (atomic_key limiter key) (decay_seconds * 1000) (readings clocks) s
  unfolding limited_hits hits
  limited_hits-hits [] s short = refl
  limited_hits-hits (clock ∷ clocks) s short = rw (hit-leaves clock s short) (
      limited_hits-hits clocks
        (hit_fixed_window (atomic_key limiter key) (finite (pos (decay_seconds * 1000))) clock.now
          s).1
        short)

  -- The limiter is in the atomic mode, its keys are not blank, its maximum and its decay are
  -- positive and safe. If every read finds a window with a count until its reset, then after any
  -- hits of the limiter in the order of the clock and before the reset, a further hit before the
  -- reset is allowed exactly if the count with all of them and itself is at most the maximum, and
  -- it reports this count, what is left, and the reset.
  pub hit_bound :
      (clocks : List HitClock) (start opened reset_at : ℕ) (s : Cache) (clock : HitClock)
      → ((t : ℕ)
          → start ≤ t
          → t < reset_at
          → counted s (atomic_key limiter key) t ≡ some (opened, reset_at))
      → IsWithin start reset_at (readings clocks)
      → reset_at + decay_seconds * 1000 ≤ max_safe_integer
      → opened + length (readings clocks) ≤ max_safe_integer
      → last_of start (readings clocks) ≤ clock.now
      → clock.now < reset_at
      → (hit limiter key max_attempts decay_seconds clock
          (limited_hits limiter key max_attempts decay_seconds clocks s)).0
        ≡ ok (record {
          allowed = leb (opened + length (readings clocks) + 1) max_attempts;
          attempts = pos (opened + length (readings clocks) + 1);
          remaining = max_attempts - (opened + length (readings clocks) + 1);
          retry_after = seconds_up (max 1 (reset_at - clock.now));
          retry_after_milliseconds = max 1 (reset_at - clock.now);
          reset_at = reset_at;
        })
  hit_bound clocks start opened reset_at s clock seen order near few after early =
      hit-result clock (limited_hits limiter key max_attempts decay_seconds clocks s)
        (opened + length (readings clocks)) reset_at
        (rw (limited_hits-hits clocks s (omega (arith, near))) (
          counted-hits (atomic_key limiter key) (decay_seconds * 1000) named
            (omega (arith, positive)) (readings clocks) start opened reset_at s seen order near few
            clock.now after early))
        (omega (arith, near, early))
