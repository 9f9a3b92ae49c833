-- ===== src/Cache/Number.antt =====
-- The numbers that a cache counter works on: packages/cache/src/runtime/InMemoryCache.ts adds doubles.
-- A finite number is a whole one here, and a sum is rounded to the nearest double.
use nuxt_laravelize.Common.{
  ℕ, zero, suc, ◌+◌, ◌*◌, ◌/◌, ◌%◌, ◌≤◌, ◌^◌, ◌≡◌, ◌&&◌, ◌||◌, ◌==◌, leb, ltb, if◌then◌else◌, refl,
  arith,
}
pub use nuxt_laravelize.Common.Int.{ℤ, pos, negsuc, pos_part, neg_part, +ℤ_assoc}
unfoldable pub use nuxt_laravelize.Common.Int.{◌+ℤ◌, negate}

pub data Number : Type 0 where
  finite : ℤ → Number
  nan infinity minus_infinity : Number

-- Beyond this bound a sum of doubles is infinite.
pub limit : ℕ
limit = 2 ^ 1024

-- The multiple of `unit` that is nearest to `n`; of two that are as near, the even one.
abbrev nearest : (n unit : ℕ) → ℕ
nearest n unit =
    let quotient = n / unit in
    let twice = 2 * (n % unit) in
    if ltb twice unit || twice == unit && quotient % 2 == 0
    then quotient * unit
    else (quotient + 1) * unit

-- Rounds to 53 significant bits: `unit` goes through the powers of 2. A sum of two finite numbers is
-- below 2^1025, so 972 of them are enough.
unfoldable pub round_from : (fuel unit n : ℕ) → ℕ
round_from zero unit n = n
round_from (suc fuel) unit n =
    let next = round_from fuel (2 * unit) n in
    if ltb n (9007199254740992 * unit) then nearest n unit else next

-- The double that is nearest to a natural number.
unfoldable pub rounded : ℕ → ℕ
rounded n = if leb n 9007199254740991 then n else round_from 972 2 n

-- The double that is nearest to an integer.
unfoldable pub round : ℤ → Number
unfolding limit negate
round z =
    let up = rounded (pos_part z) in
    let down = rounded (neg_part z) in
    if leb limit up
    then infinity
    else if leb limit down
    then minus_infinity
    else if ltb 0 up
    then finite (pos up)
    else finite (negate (pos down))

-- The sum of two finite numbers: the exact sum, rounded.
unfoldable pub plus : ℤ → ℤ → Number
unfolding round ◌+ℤ◌
plus a b = round (a +ℤ b)

rounded_safe : (n : ℕ) → n ≤ 9007199254740991 → rounded n ≡ n
unfolding rounded
rounded_safe n safe = ground (arith, safe)

round_safe :
    (z : ℤ) → pos_part z ≤ 9007199254740991 → neg_part z ≤ 9007199254740991 → round z ≡ finite z
unfolding round negate limit
round_safe (pos zero) above below = rw (rounded_safe 0 (omega arith)) refl
round_safe (pos (suc n)) above below =
    ground (arith, rounded_safe (suc n) above, rounded_safe 0 (omega arith), above)
round_safe (negsuc n) above below =
    ground (arith, rounded_safe (suc n) below, rounded_safe 0 (omega arith), below)

-- A sum that is a safe integer is exact.
pub plus-exact :
    (a b : ℤ)
    → pos_part (a +ℤ b) ≤ 9007199254740991
    → neg_part (a +ℤ b) ≤ 9007199254740991
    → plus a b ≡ finite (a +ℤ b)
unfolding plus
plus-exact a b above below = round_safe (a +ℤ b) above below

unfoldable pub minus : Number → Number
unfolding negate
minus (finite z) = finite (negate z)
minus nan = nan
minus infinity = minus_infinity
minus minus_infinity = infinity

-- `Number.isSafeInteger(value) && value >= 1`, with the number as a natural.
unfoldable pub positive_safe : Number → ℕ
positive_safe (finite (pos n)) = if leb n 9007199254740991 then n else 0
positive_safe _ = 0
