-- ===== src/Cache/InMemory/Window/Series.antt =====
-- A series of hits on one fixed window.
use nuxt_laravelize.Common.{
  ℕ, ◌+◌, ◌≤◌, ◌<◌, String, ◌≡◌, false, some, List, [], ◌∷◌, arith, max_safe_integer, length,
}
use nuxt_laravelize.Cache.InMemory.{Cache}
use nuxt_laravelize.Cache.Number.{pos, finite}
use nuxt_laravelize.Cache.InMemory.Window.{hit_fixed_window}
use nuxt_laravelize.Cache.InMemory.Window.Counts.{counted, counted-hit_fixed_window}
use nuxt_laravelize.Common.Text.{is_blank}

-- The hits of a list of clock readings, one after the other.
unfoldable pub hits : String → ℕ → List ℕ → Cache → Cache
hits key length [] s = s
hits key length (now ∷ later) s =
    hits key length later (hit_fixed_window key (finite (pos length)) now s).1

-- Readings in order, from `start` on and before `reset_at`.
abbrev pub IsWithin : ℕ → ℕ → List ℕ → Type 0
IsWithin start reset_at [] = Unit
IsWithin start reset_at (now ∷ later) =
    (start ≤ now) × (now < reset_at) × IsWithin now reset_at later

abbrev pub last_of : ℕ → List ℕ → ℕ
last_of start [] = start
last_of start (now ∷ later) = last_of now later

module _ (key : String) (window_length : ℕ) (named : is_blank key ≡ false)
    (positive : 1 ≤ window_length) where
  -- If every read finds a window with a count and a reset until the reset, then after hits in the
  -- order of the clock and before the reset, every later read before the reset finds the count with
  -- all of them, and the same reset. The key is not blank, the length of a window is positive, and
  -- the numbers stay safe integers.
  pub counted-hits :
      (later : List ℕ) (start attempts reset_at : ℕ) (s : Cache)
      → ((t : ℕ) → start ≤ t → t < reset_at → counted s key t ≡ some (attempts, reset_at))
      → IsWithin start reset_at later
      → reset_at + window_length ≤ max_safe_integer
      → attempts + length later ≤ max_safe_integer
      → (t : ℕ) → last_of start later ≤ t
      → t < reset_at
      → counted (hits key window_length later s) key t ≡ some (attempts + length later, reset_at)
  unfolding hits
  counted-hits [] start attempts reset_at s seen order near few t h early =
      ground (arith, seen t h early)
  counted-hits (now ∷ later) start attempts reset_at s seen (after, before, order) near few t h
        early =
      let opened : (u : ℕ)
          → now ≤ u
          → u < reset_at
          → counted (hit_fixed_window key (finite (pos window_length)) now s).1 key u
            ≡ some (attempts + 1, reset_at) =
        λ u hu ub. ground (
          arith,
          seen now after before,
          counted-hit_fixed_window key window_length now s named positive (omega arith) u hu,
        ) in
      ground (
        arith,
        counted-hits later now (attempts + 1) reset_at
            (hit_fixed_window key (finite (pos window_length)) now s).1 opened order near
            (omega arith) t h early,
      )
