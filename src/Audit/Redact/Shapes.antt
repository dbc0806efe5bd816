-- ===== src/Audit/Redact/Shapes.antt =====
-- packages/core/src/audit.ts: the shapes of personal data, letter by letter, and the words of the
-- classes of characters that the expressions are made of.
use agentic_bank.Common.{
  ℕ, suc, ◌≤◌, ◌≡◌, ◌≢◌, ◌⊎◌, ◌↔◌, inl, inr, refl, ap, ◌∙◌, Bool, true, false, not, ◌&&◌, ◌||◌,
  List, [], ◌∷◌, ◌++◌, is_space, length, All, arith,
}
use Prim.Native.Nat.{zero}
use agentic_bank.Common.Regex.{class, seq, star, repeat, optional, plus}
use agentic_bank.Common.Regex.Language.{Word, concat}
use agentic_bank.Audit.Redact.{is, char, is_digit}

abbrev pub IsDigit : ℕ → Type 0
IsDigit c = (b'0' ≤ c) × (c ≤ b'9')

abbrev pub IsPlain : ℕ → Type 0
IsPlain c = (is_space c ≡ false) × (c ≢ b'@')

-- A number of digits.
abbrev pub Digits : ℕ → List ℕ → Type 0
Digits n cs = (length cs ≡ n) × All IsDigit cs

-- At least one character, none of them a space or an `@`.
abbrev pub Plain : List ℕ → Type 0
Plain cs = (cs ≢ []) × All IsPlain cs

-- Nothing, or one character of a kind.
abbrev pub Optional : (ℕ → Type 0) → List ℕ → Type 0
Optional P cs = ((c : ℕ) × (cs ≡ c ∷ []) × P c) ⊎ (cs ≡ [])

abbrev pub IsDash : ℕ → Type 0
IsDash c = (c ≡ b'-') ⊎ (is_space c ≡ true)

abbrev pub IsSeparator : ℕ → Type 0
IsSeparator c = (c ≡ b'-') ⊎ ((c ≡ b'.') ⊎ (is_space c ≡ true))

-- user@host.domain
abbrev pub IsEmail : List ℕ → Type 0
IsEmail cs =
    (user : List ℕ) × (host : List ℕ) × (domain : List ℕ) × (cs
      ≡ user ++ b'@' ∷ (host ++ b'.' ∷ domain))
    × Plain user
    × Plain host
    × Plain domain

-- Six digits, perhaps a dash or a space, and seven digits.
abbrev pub IsResident : List ℕ → Type 0
IsResident cs =
    (birth : List ℕ) × (dash : List ℕ) × (number : List ℕ) × (cs ≡ birth ++ (dash ++ number))
    × Digits 6 birth
    × Optional IsDash dash
    × Digits 7 number

-- `+82` and perhaps a separator.
abbrev pub IsCountry : List ℕ → Type 0
IsCountry cs =
    ((rest : List ℕ) × (cs ≡ b'+' ∷ b'8' ∷ b'2' ∷ rest) × Optional IsSeparator rest) ⊎ (cs ≡ [])

-- Perhaps the country, perhaps `0`, then `1` and a digit, three or four digits and four digits,
-- with a separator or none between them.
abbrev pub IsPhone : List ℕ → Type 0
IsPhone cs =
    (country : List ℕ) × (lead : List ℕ) × (kind : ℕ) × (first : List ℕ) × (middle : List ℕ)
    × (second : List ℕ) × (last : List ℕ) × (cs
        ≡ country ++ (lead ++ b'1' ∷ kind ∷ (first ++ (middle ++ (second ++ last)))))
    × IsCountry country
    × ((lead ≡ b'0' ∷ []) ⊎ (lead ≡ []))
    × IsDigit kind
    × Optional IsSeparator first
    × (Digits 3 middle ⊎ Digits 4 middle)
    × Optional IsSeparator second
    × Digits 4 last

module _ (P : ℕ → Type 0) (p : ℕ → Bool) (decides : (c : ℕ) → (p c ≡ true) ↔ P c) where
  pub class-word : (cs : List ℕ) → Word (class p) cs ↔ ((c : ℕ) × (cs ≡ c ∷ []) × P c)
  class-word cs = (λ w. (w.0, w.1, (decides w.0).0 w.2), λ w. (w.0, w.1, (decides w.0).1 w.2))

  star-all :
      (cs : List ℕ) (ws : List (List ℕ)) → cs ≡ concat ws → All (Word (class p)) ws → All P cs
  star-all cs [] e h = rw e tt
  star-all cs (w ∷ ws) e ((c, one, hit), h) =
      let same : cs ≡ c ∷ concat ws = e ∙ ap (λ t. t ++ concat ws) one in
      rw same ((decides c).0 hit, star-all (concat ws) ws refl h)

  all-star : (cs : List ℕ) → All P cs → Word (star (class p)) cs
  all-star [] h = ([], refl, tt)
  all-star (c ∷ cs) (hit, h) =
      let (ws, e, all) = all-star cs h in
      ((c ∷ []) ∷ ws, ap (λ t. c ∷ t) e, ((c, refl, (decides c).1 hit), all))

  pub plus-word : (cs : List ℕ) → Word (plus (class p)) cs ↔ ((cs ≢ []) × All P cs)
  plus-word cs = (
    λ w.
        let (xs, ys, e, (c, one, hit), (ws, e', h)) = w in
        let same : cs ≡ c ∷ ys = e ∙ ap (λ t. t ++ ys) one in
        (λ nothing. cc (same, nothing), rw same ((decides c).0 hit, star-all ys ws e' h)),
    back cs,
  )
    where
      back : (ds : List ℕ) → (ds ≢ []) × All P ds → Word (plus (class p)) ds
      back [] (some_, h) = absurd (some_ refl)
      back (d ∷ ds) (some_, (hit, h)) =
          (d ∷ [], ds, refl, (d, refl, (decides d).1 hit), all-star ds h)

  pub repeat-word :
      (n : ℕ) (cs : List ℕ) → Word (repeat n (class p)) cs ↔ ((length cs ≡ n) × All P cs)
  repeat-word zero [] = (λ w. (refl, tt), λ w. refl)
  repeat-word zero (c ∷ cs) = (λ w. absurd (cc w), λ w. absurd (omega (arith, w.0)))
  repeat-word (suc n) [] = (λ w. absurd (none_left w), λ w. absurd (omega (arith, w.0)))
    where
      none_left : Word (seq (class p) (repeat n (class p))) [] → ⊥
      none_left (xs, ys, e, (c, one, hit), v) = cc (e, one)
  repeat-word (suc n) (c ∷ cs) = (
    λ w.
        let (xs, ys, e, (d, one, hit), v) = w in
        let same : c ∷ cs ≡ d ∷ ys = e ∙ ap (λ t. t ++ ys) one in
        let first : c ≡ d = cc same in
        let rest : cs ≡ ys = cc same in
        let (len, all) = (repeat-word n cs).0 (rw rest v) in
        (ap (λ (k : ℕ). suc k) len, (rw first ((decides d).0 hit), all)),
    λ w.
        let len : length cs ≡ n = omega (arith, w.0) in
        (c ∷ [], cs, refl, (c, refl, (decides c).1 w.1.0), (repeat-word n cs).1 (len, w.1.1)),
  )

  pub optional-word : (cs : List ℕ) → Word (optional (class p)) cs ↔ Optional P cs
  optional-word cs = (
    λ w. elim w [ inl (c, e, h) ↦ inl (c, e, (decides c).0 h) | inr e ↦ inr e ],
    λ w. elim w [ inl (c, e, h) ↦ inl (c, e, (decides c).1 h) | inr e ↦ inr e ],
  )

pub is_digit-IsDigit : (c : ℕ) → (is_digit c ≡ true) ↔ IsDigit c
is_digit-IsDigit c = (λ h. ground arith, λ h. ground arith)

pub is_space-IsPlain : (c : ℕ) → ((not (is_space c) && not (is b'@' c)) ≡ true) ↔ IsPlain c
is_space-IsPlain c = (λ h. ground arith, λ h. ground arith)

pub is_space-IsDash : (c : ℕ) → ((is b'-' c || is_space c) ≡ true) ↔ IsDash c
is_space-IsDash c = (λ h. ground arith, λ h. ground arith)

pub is_space-IsSeparator : (c : ℕ) → ((is b'-' c || is b'.' c || is_space c) ≡ true) ↔ IsSeparator c
is_space-IsSeparator c = (λ h. ground arith, λ h. ground arith)

pub char-word : (k : ℕ) (cs : List ℕ) → Word (char k) cs ↔ (cs ≡ k ∷ [])
char-word k cs = (
  λ w. let (c, e, h) = w in let same : c ≡ k = ground arith in e ∙ ap (λ (d : ℕ). d ∷ []) same,
  λ e. (k, e, ground arith),
)
