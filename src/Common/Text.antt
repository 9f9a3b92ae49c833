-- ===== src/Common/Text.antt =====
-- Tests on native text.
use Prim.Native.Nat.{ℕ, zero, suc, ◌+◌, ◌-◌, ◌/◌, ◌%◌}
use Prim.Native.Char.{code}
use Prim.Native.String.{String, [], ◌∷◌}
use mathlib.Core.Bool.{Bool, true, false, ◌&&◌, ◌||◌}
use Prim.Native.String
use mathlib.Core.List.{List}
use mathlib.Core.Path.{◌≡◌, refl}
use nuxt_laravelize.Common.Tests.{ltb, leb, ◌==◌, if◌then◌else◌}

-- The code points that `String.prototype.trim` removes: white space and line terminators.
unfoldable pub is_space : ℕ → Bool
is_space c =
    leb 9 c && leb c 13
    || c == 32
    || c == 160
    || c == 0x1680
    || leb 0x2000 c && leb c 0x200a
    || leb 0x2028 c && leb c 0x2029
    || c == 0x202f
    || c == 0x205f
    || c == 0x3000
    || c == 0xfeff

-- `!text.trim()`
unfoldable pub is_blank : String → Bool
unfolding is_space
is_blank [] = true
is_blank (c ∷ s) = is_space (code c) && is_blank s

-- The code points of a text.
unfoldable pub codes : String → List ℕ
codes [] = List.[]
codes (c ∷ s) = List.◌∷◌ (code c) (codes s)

-- `text.length`, which counts the units of UTF-16.
unfoldable pub utf16_length : String → ℕ
utf16_length [] = 0
utf16_length (c ∷ s) = (if leb 0x10000 (code c) then 2 else 1) + utf16_length s

abbrev digit : ℕ → String
digit zero = "0"
digit (suc zero) = "1"
digit (suc (suc zero)) = "2"
digit (suc (suc (suc zero))) = "3"
digit (suc (suc (suc (suc zero)))) = "4"
digit (suc (suc (suc (suc (suc zero))))) = "5"
digit (suc (suc (suc (suc (suc (suc zero)))))) = "6"
digit (suc (suc (suc (suc (suc (suc (suc zero))))))) = "7"
digit (suc (suc (suc (suc (suc (suc (suc (suc zero)))))))) = "8"
digit _ = "9"

decimal_digits : ℕ → ℕ → String → String
decimal_digits zero n rest = rest
decimal_digits (suc fuel) n rest =
    let more = decimal_digits fuel (n / 10) (String.◌++◌ (digit (n % 10)) rest) in
    if ltb n 10 then String.◌++◌ (digit n) rest else more

-- A number as JavaScript writes it into a text. A number has at most as many digits as it counts.
unfoldable pub decimal : ℕ → String
unfolding decimal_digits
decimal n = decimal_digits (suc n) n ""

decimal_test : decimal 9007 ≡ "9007"
unfolding decimal
decimal_test = refl

-- `text.slice(0, n)`; a character of two units that does not fit is dropped whole.
unfoldable pub utf16_take : ℕ → String → String
utf16_take n [] = ""
utf16_take n (c ∷ s) =
    let units : ℕ = if leb 0x10000 (code c) then 2 else 1 in
    let rest = utf16_take (n - units) s in if leb units n then c ∷ rest else ""

-- `<` on texts: the order of the first code points that differ.
codes_lt : List ℕ → List ℕ → Bool
codes_lt xs List.[] = false
codes_lt List.[] (List.◌∷◌ y ys) = true
codes_lt (List.◌∷◌ x xs) (List.◌∷◌ y ys) = ltb x y || x == y && codes_lt xs ys

unfoldable pub text_lt : String → String → Bool
unfolding codes_lt codes
text_lt a b = codes_lt (codes a) (codes b)
