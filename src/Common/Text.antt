-- ===== src/Common/Text.antt =====
-- What the code uses of the language's texts and numbers: `trim`, a number in a template, and a
-- JavaScript number as far as the code tells numbers apart.
use Prim.Native.Nat.{ℕ, zero, suc, ◌+◌, ◌/◌, ◌%◌}
use Prim.Native.Char.{code}
use Prim.Native.String.{String, slice, ◌++◌}
use mathlib.Core.Path.{◌≡◌, refl}
use mathlib.Core.Bool.{Bool, false, not, ◌&&◌, ◌||◌}
use mathlib.Core.List.{List, [], ◌∷◌}
use agentic_bank.Common.Tests.{ltb, leb, if◌then◌else◌, ◌===◌, string_eq, String_discrete}
use agentic_bank.Common.Int.{ℤ, pos, negsuc, ltb_ℤ, int_eq}

-- The white space and line ends that `trim` takes off.
unfoldable pub is_space : ℕ → Bool
is_space c =
    (leb 9 c && leb c 13)
    || is 32
    || is 0xa0
    || is 0x1680
    || (leb 0x2000 c && leb c 0x200a)
    || is 0x2028
    || is 0x2029
    || is 0x202f
    || is 0x205f
    || is 0x3000
    || is 0xfeff
  where
    is : ℕ → Bool
    is k = leb k c && leb c k

trim_start : String → String
trim_start String.[] = String.[]
trim_start (String.◌∷◌ c s) =
    let rest = trim_start s in if is_space (code c) then rest else String.◌∷◌ c s

trim_end : String → String
trim_end String.[] = String.[]
trim_end (String.◌∷◌ c s) =
    let rest = trim_end s in if rest === "" && is_space (code c) then "" else String.◌∷◌ c rest

unfoldable pub trim : String → String
unfolding is_space trim_start trim_end String_discrete
trim s = trim_end (trim_start s)

digits : ℕ → ℕ → String
digits zero n = ""
digits (suc f) n =
    let last = slice "0123456789" (n % 10) (n % 10 + 1) in
    let rest = digits f (n / 10) in if ltb n 10 then last else rest ++ last

-- The code points of a text.
abbrev pub codes : String → List ℕ
codes String.[] = []
codes (String.◌∷◌ c s) = code c ∷ codes s

-- A natural number in decimal; a number has fewer digits than it counts.
unfoldable pub show_nat : ℕ → String
unfolding digits
show_nat n = digits (suc n) n

unfoldable pub show_int : ℤ → String
unfolding show_nat
show_int (pos n) = show_nat n
show_int (negsuc n) = "-" ++ show_nat (suc n)

-- A JavaScript number: an integer, or any other one by its printed form, which determines it
-- ("NaN", "Infinity", "0.5").
pub data Number : Type 0 where
  int : ℤ → Number
  non_int : String → Number

-- `===` on numbers: `NaN` is not equal to itself.
unfoldable pub same_number : Number → Number → Bool
same_number (int a) (int b) = a === b
same_number (int a) (non_int t) = false
same_number (non_int s) (int b) = false
same_number (non_int s) (non_int t) = s === t && not (s === "NaN")

unfoldable pub show_number : Number → String
unfolding show_int
show_number (int a) = show_int a
show_number (non_int s) = s

-- `typeof amount === "number" && Number.isInteger(amount) && amount > 0`
unfoldable pub is_positive_int_won : Number → Bool
is_positive_int_won (int a) = ltb_ℤ (pos 0) a
is_positive_int_won (non_int s) = false

-- The integer that a number is; it is read only behind `is_positive_int_won`.
abbrev pub won : Number → ℤ
won (int a) = a
won (non_int s) = pos 0

trim_test : trim "  k 1 " ≡ "k 1"
unfolding trim
trim_test = refl

show_test : show_int (negsuc 4_999_999) ≡ "-5000000"
unfolding show_int
show_test = refl

same_number_test : same_number (non_int "NaN") (non_int "NaN") ≡ false
unfolding same_number String_discrete
same_number_test = refl
