-- ===== src/Common/Regex/Language.antt =====
-- The language of a regular expression, and that derivatives decide it.
use mathlib.Core.Bool.{Bool, true, false}
use mathlib.Core.List.{List, [], ◌∷◌, ◌++◌}
use Prim.Native.Nat.{ℕ}
use agentic_bank.Common.{
  ◌≡◌, ◌⊎◌, ◌↔◌, inl, inr, refl, ap, sym, ◌∙◌, All, arith, Bool-cases, if◌then◌else◌,
}
use agentic_bank.Common.Regex.{
  Regex, fail, empty, class, seq, alt, star, nullable, derivative, matches,
}

-- All words of a list, one after the other.
abbrev pub concat : List (List ℕ) → List ℕ
concat [] = []
concat (w ∷ ws) = w ++ concat ws

-- The words of an expression.
abbrev pub Word : Regex → List ℕ → Type 0
Word fail cs = ⊥
Word empty cs = cs ≡ []
Word (class p) cs = (c : ℕ) × (cs ≡ c ∷ []) × (p c ≡ true)
Word (seq r s) cs = (xs : List ℕ) × (ys : List ℕ) × (cs ≡ xs ++ ys) × Word r xs × Word s ys
Word (alt r s) cs = Word r cs ⊎ Word s cs
Word (star r) cs = (ws : List (List ℕ)) × (cs ≡ concat ws) × All (Word r) ws

nil_left : (xs ys : List ℕ) → [] ≡ xs ++ ys → (xs ≡ []) × (ys ≡ [])
nil_left [] ys e = (refl, sym e)
nil_left (x ∷ xs) ys e = absurd (cc e)

nullable_of : (r : Regex) → Word r [] → nullable r ≡ true
unfolding nullable
nullable_of fail w = elim w [ ]
nullable_of empty w = refl
nullable_of (class p) (c, e, h) = cc e
nullable_of (seq r s) (xs, ys, e, v, w) =
    let (no_xs, no_ys) = nil_left xs ys e in
    let left = nullable_of r (rw (← no_xs) v) in
    let right = nullable_of s (rw (← no_ys) w) in ground (arith, left, right)
nullable_of (alt r s) (inl w) = let left = nullable_of r w in ground (arith, left)
nullable_of (alt r s) (inr w) = let right = nullable_of s w in ground (arith, right)
nullable_of (star r) w = refl

word_of_nullable : (r : Regex) → nullable r ≡ true → Word r []
unfolding nullable
word_of_nullable fail h = absurd (cc h)
word_of_nullable empty h = refl
word_of_nullable (class p) h = absurd (cc h)
word_of_nullable (seq r s) h =
    let left : nullable r ≡ true = ground arith in
    let right : nullable s ≡ true = ground arith in
    ([], [], refl, word_of_nullable r left, word_of_nullable s right)
word_of_nullable (alt r s) h = elim (Bool-cases (nullable r)) [
  | inl left ↦ inl (word_of_nullable r left)
  | inr not_left ↦ let right : nullable s ≡ true = ground arith in inr (word_of_nullable s right)
]
word_of_nullable (star r) h = ([], refl, tt)

-- The first letter of a word of repeated words.
split_star :
    (r : Regex) (c : ℕ) (cs : List ℕ) (ws : List (List ℕ))
    → c ∷ cs ≡ concat ws
    → All (Word r) ws
    → (xs : List ℕ) × (ys : List ℕ) × (cs ≡ xs ++ ys) × Word r (c ∷ xs) × Word (star r) ys
split_star r c cs [] e h = absurd (cc e)
split_star r c cs ([] ∷ ws) e h = split_star r c cs ws e h.1
split_star r c cs ((x ∷ xs) ∷ ws) e h =
    let same : c ≡ x = cc e in
    let rest : cs ≡ xs ++ concat ws = cc e in (xs, concat ws, rest, rw same h.0, (ws, refl, h.1))

cons_split :
    (c : ℕ) (cs xs ys : List ℕ)
    → c ∷ cs ≡ xs ++ ys
    → ((xs ≡ []) × (ys ≡ c ∷ cs)) ⊎ ((zs : List ℕ) × (xs ≡ c ∷ zs) × (cs ≡ zs ++ ys))
cons_split c cs [] ys e = inl (refl, sym e)
cons_split c cs (x ∷ xs) ys e =
    let same : c ≡ x = cc e in
    let rest : cs ≡ xs ++ ys = cc e in inr (xs, ap (λ y. y ∷ xs) (sym same), rest)

branch_of :
    (b : Bool) (f g : Regex) (cs : List ℕ)
    → Word (if b then alt f g else f) cs
    → Word f cs ⊎ ((b ≡ true) × Word g cs)
branch_of true f g cs (inl w) = inl w
branch_of true f g cs (inr w) = inr (refl, w)
branch_of false f g cs w = inl w

of_branch :
    (b : Bool) (f g : Regex) (cs : List ℕ)
    → Word f cs ⊎ ((b ≡ true) × Word g cs)
    → Word (if b then alt f g else f) cs
of_branch true f g cs (inl w) = inl w
of_branch true f g cs (inr (h, w)) = inr w
of_branch false f g cs (inl w) = w
of_branch false f g cs (inr (h, w)) = absurd (cc h)

class_of : (b : Bool) (cs : List ℕ) → Word (if b then empty else fail) cs → (b ≡ true) × (cs ≡ [])
class_of true cs w = (refl, w)
class_of false cs w = elim w [ ]

word_of_derivative : (c : ℕ) (r : Regex) (cs : List ℕ) → Word (derivative c r) cs → Word r (c ∷ cs)
unfolding derivative
word_of_derivative c fail cs w = elim w [ ]
word_of_derivative c empty cs w = elim w [ ]
word_of_derivative c (class p) cs w =
    let (h, nothing) = class_of (p c) cs w in (c, ap (λ t. c ∷ t) nothing, h)
word_of_derivative c (seq r s) cs w =
    elim (branch_of (nullable r) (seq (derivative c r) s) (derivative c s) cs w) [
      | inl (xs, ys, e, v, u) ↦ (c ∷ xs, ys, ap (λ t. c ∷ t) e, word_of_derivative c r xs v, u)
      | inr (h, u) ↦ ([], c ∷ cs, refl, word_of_nullable r h, word_of_derivative c s cs u)
    ]
word_of_derivative c (alt r s) cs (inl w) = inl (word_of_derivative c r cs w)
word_of_derivative c (alt r s) cs (inr w) = inr (word_of_derivative c s cs w)
word_of_derivative c (star r) cs (xs, ys, e, v, (ws, e', h)) =
    ((c ∷ xs) ∷ ws, ap (λ t. c ∷ t) (e ∙ ap (λ t. xs ++ t) e'), (word_of_derivative c r xs v, h))

derivative_of_word : (c : ℕ) (r : Regex) (cs : List ℕ) → Word r (c ∷ cs) → Word (derivative c r) cs
unfolding derivative
derivative_of_word c fail cs w = elim w [ ]
derivative_of_word c empty cs w = absurd (cc w)
derivative_of_word c (class p) cs (d, e, h) =
    let same : c ≡ d = cc e in
    let nothing : cs ≡ [] = cc e in let hit : p c ≡ true = rw same h in rw (hit, nothing) refl
derivative_of_word c (seq r s) cs (xs, ys, e, v, u) =
    of_branch (nullable r) (seq (derivative c r) s) (derivative c s) cs
      (elim (cons_split c cs xs ys e) [
        | inl (nothing, all) ↦
            inr (nullable_of r (rw (← nothing) v), derivative_of_word c s cs (rw (← all) u))
        | inr (zs, start, rest) ↦ inl (zs, ys, rest, derivative_of_word c r zs (rw (← start) v), u)
      ])
derivative_of_word c (alt r s) cs (inl w) = inl (derivative_of_word c r cs w)
derivative_of_word c (alt r s) cs (inr w) = inr (derivative_of_word c s cs w)
derivative_of_word c (star r) cs (ws, e, h) =
    let (xs, ys, e', v, u) = split_star r c cs ws e h in
    (xs, ys, e', derivative_of_word c r xs v, u)

-- A text matches an expression exactly when it is one of its words.
pub matches-Word : (r : Regex) (cs : List ℕ) → (matches r cs ≡ true) ↔ Word r cs
unfolding matches
matches-Word r [] = (word_of_nullable r, nullable_of r)
matches-Word r (c ∷ cs) =
    let (there, back) = matches-Word (derivative c r) cs in
    (λ h. word_of_derivative c r cs (there h), λ w. back (derivative_of_word c r cs w))
