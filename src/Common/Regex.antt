-- ===== src/Common/Regex.antt =====
-- Anchored regular expressions over code points, matched by derivatives.
pub mod Language
use mathlib.Core.Bool.{Bool, true, false, ◌&&◌, ◌||◌}
use mathlib.Core.List.{List, [], ◌∷◌}
use Prim.Native.Nat.{ℕ, zero, suc}
use agentic_bank.Common.Tests.{if◌then◌else◌}

pub data Regex : Type 0 where
  fail : Regex
  empty : Regex
  class : (ℕ → Bool) → Regex
  seq : Regex → Regex → Regex
  alt : Regex → Regex → Regex
  star : Regex → Regex

unfoldable pub nullable : Regex → Bool
nullable fail = false
nullable empty = true
nullable (class p) = false
nullable (seq r s) = nullable r && nullable s
nullable (alt r s) = nullable r || nullable s
nullable (star r) = true

unfoldable pub derivative : ℕ → Regex → Regex
unfolding nullable
derivative c fail = fail
derivative c empty = fail
derivative c (class p) = if p c then empty else fail
derivative c (seq r s) =
    let rest = derivative c s in
    let first = seq (derivative c r) s in if nullable r then alt first rest else first
derivative c (alt r s) = alt (derivative c r) (derivative c s)
derivative c (star r) = seq (derivative c r) (star r)

unfoldable pub matches : Regex → List ℕ → Bool
unfolding nullable derivative
matches r [] = nullable r
matches r (c ∷ cs) = matches (derivative c r) cs

-- r{n}, r? and r+
abbrev pub repeat : ℕ → Regex → Regex
repeat zero r = empty
repeat (suc n) r = seq r (repeat n r)

abbrev pub optional : Regex → Regex
optional r = alt r empty

abbrev pub plus : Regex → Regex
plus r = seq r (star r)
