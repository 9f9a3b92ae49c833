-- ===== src/Cache/InMemory/Window/Counts.antt =====
-- How the fixed window counts its hits.
use nuxt_laravelize.Common.{
  String, ℕ, Option, ◌≡◌, false, ◌≤◌, ◌+◌, none, some, arith, eq_refl, leb, if◌then◌else◌,
  max_safe_integer,
}
use nuxt_laravelize.Cache.InMemory.{Cache, touch, entry}
use nuxt_laravelize.Common.Text.{is_blank}
use nuxt_laravelize.Cache.InMemory.Window.{
  entry_window, state_at, next_reset, next_attempts, set_window, hit_fixed_window,
}
use nuxt_laravelize.Cache.InMemory.View.{look, look-set_entry, entry-result}
use nuxt_laravelize.Cache.Value.{is_over, is_fixed_window_entry, window}
use nuxt_laravelize.Cache.Number.{positive_safe, Number, pos, finite}
use nuxt_laravelize.Common.Exec.{ok}

-- The attempts and the reset of the window that a read at `now` finds.
abbrev pub counted : Cache → String → ℕ → Option (ℕ × ℕ)
counted s key now = entry_window (look s key now)

module _ (key : String) (length now : ℕ) (s : Cache) (named : is_blank key ≡ false)
    (positive : 1 ≤ length) (safe : now + length ≤ max_safe_integer) where
  abbrev milliseconds : Number
  milliseconds = finite (pos length)

  length_safe : positive_safe milliseconds ≡ length
  unfolding positive_safe
  length_safe = ground arith

  -- A hit on a key that is not blank, with a positive length and a safe end, returns one attempt
  -- more than the window that is open, and its reset, or the first attempt of a window of that
  -- length.
  pub hit_fixed_window-result :
      (hit_fixed_window key milliseconds now s).0
      ≡ ok (
          state_at
            (next_attempts (counted s key now))
            (next_reset (counted s key now) (now + length))
            now)
  unfolding hit_fixed_window
  hit_fixed_window-result = ground (arith, length_safe, entry-result key now s named)

  -- A hit counts one more in the window that is open, or opens a window of the given length.
  pub counted-hit_fixed_window :
      (t : ℕ)
      → now ≤ t
      → next_attempts (counted s key now) ≤ max_safe_integer
      → next_reset (counted s key now) (now + length) ≤ max_safe_integer
      → counted (hit_fixed_window key milliseconds now s).1 key t ≡ (
          if leb (next_reset (counted s key now) (now + length)) t
          then none
          else some
              (next_attempts (counted s key now), next_reset (counted s key now) (now + length)))
  unfolding hit_fixed_window set_window entry_window is_fixed_window_entry is_over
  counted-hit_fixed_window t h few near = ground (
    arith,
    length_safe,
    entry-result key now s named,
    eq_refl key,
    look-set_entry key key
        (record {
          value =
              window (touch key (entry key now s).1).next_reference
                (next_attempts (counted s key now)) (next_reset (counted s key now) (now + length));
          expires_at = some (next_reset (counted s key now) (now + length));
        })
        (record (touch key (entry key now s).1) {
          next_reference = (touch key (entry key now s).1).next_reference + 1;
        })
        t,
  )
