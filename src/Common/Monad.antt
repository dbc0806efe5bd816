-- ===== src/Common/Monad.antt =====
-- Fallible code: `none` is a thrown error. `All` says that every row of a table meets a condition.
use mathlib.Core.Path.{◌≡◌, refl}
use mathlib.Core.Bool.{Bool, true, false}
use mathlib.Core.Option.{Option, none, some}
use mathlib.Core.List.{List, [], ◌∷◌, ◌++◌}
use mathlib.Core.Logic.{inl, inr}
use native.Mathlib.Omega.{arith}
use agentic_bank.Common.Int.{ℤ, pos, ◌≤ℤ◌, int_laws}
use agentic_bank.Common.Table.{find, select, update, sum_by}
use agentic_bank.Common.Tests.{if◌then◌else◌, Bool-cases}

infixl 5 ◌>>=◌ ◌>>◌
abbrev pub ◌>>=◌ {ℓ κ} : {A : Type ℓ} {B : Type κ} → Option A → (A → Option B) → Option B
none >>= f = none
some a >>= f = f a

abbrev pub ◌>>◌ {ℓ} : {B : Type ℓ} → Option (Unit {0}) → Option B → Option B
m >> k = m >>= λ _. k

abbrev pub throw_if : Bool → Option (Unit {0})
throw_if true = none
throw_if false = some tt

abbrev pub is_some {ℓ} : {A : Type ℓ} → Option A → Bool
is_some none = false
is_some (some _) = true

module _ {ℓ κ} {A : Type ℓ} where
  abbrev pub All : (A → Type κ) → List A → Type κ
  All P [] = Unit
  All P (x ∷ xs) = P x × All P xs

  pub All-append : (P : A → Type κ) (xs ys : List A) → All P xs → All P ys → All P (xs ++ ys)
  All-append P [] ys h k = k
  All-append P (x ∷ xs) ys h k = (h.0, All-append P xs ys h.1 k)

  pub All-map : (P Q : A → Type κ) (xs : List A) → ((x : A) → P x → Q x) → All P xs → All Q xs
  All-map P Q [] f h = tt
  All-map P Q (x ∷ xs) f h = (f x h.0, All-map P Q xs f h.1)

module _ {ℓ} {A : Type ℓ} where
  pub select-nil : (p : A → Bool) (xs : List A) → All (λ x. p x ≡ false) xs → select p xs ≡ []
  unfolding select
  select-nil p [] h = refl
  select-nil p (x ∷ xs) h = ground (arith, select-nil p xs h.1)

  pub All-select {κ} :
      (P : A → Type κ) (p : A → Bool) (xs : List A) → All P xs → All P (select p xs)
  unfolding select
  All-select P p [] h = tt
  All-select P p (x ∷ xs) h = elim (Bool-cases (p x)) [
    | inl hit ↦ rw hit (h.0, All-select P p xs h.1)
    | inr miss ↦ rw miss (All-select P p xs h.1)
  ]

  pub sum_by-mono :
      (f g : A → ℤ) (xs : List A) → All (λ x. f x ≤ℤ g x) xs → sum_by f xs ≤ℤ sum_by g xs
  unfolding sum_by
  sum_by-mono f g [] h = omega arith
  sum_by-mono f g (x ∷ xs) h = omega (int_laws, h.0, sum_by-mono f g xs h.1)

  -- Two sums agree where they agree on the rows of the table.
  pub sum_by-cong_on :
      (f g : A → ℤ) (xs : List A) → All (λ x. f x ≡ g x) xs → sum_by f xs ≡ sum_by g xs
  unfolding sum_by
  sum_by-cong_on f g [] h = refl
  sum_by-cong_on f g (x ∷ xs) h = rw (h.0, sum_by-cong_on f g xs h.1)

  pub sum_by-nonneg : (f : A → ℤ) (xs : List A) → All (λ x. pos 0 ≤ℤ f x) xs → pos 0 ≤ℤ sum_by f xs
  unfolding sum_by
  sum_by-nonneg f [] h = omega arith
  sum_by-nonneg f (x ∷ xs) h = omega (int_laws, h.0, sum_by-nonneg f xs h.1)

  pub All-update {κ} :
      (P : A → Type κ) (p : A → Bool) (u : A → A) (xs : List A)
      → ((x : A) → P x → P (u x))
      → All P xs
      → All P (update p u xs)
  unfolding update
  All-update P p u [] f h = tt
  All-update P p u (x ∷ xs) f h = (hit (p x), All-update P p u xs f h.1)
    where
      hit : (b : Bool) → P (if b then u x else x)
      hit true = f x h.0
      hit false = h.0

-- The row that a lookup has found is in the table.
pub find-All {ℓ} :
    {A : Type 0} (P : A → Type ℓ) (q : A → Bool) (xs : List A) (x : A)
    → All P xs
    → find q xs ≡ some x
    → P x
unfolding find
find-All P q [] x h e = absurd (cc)
find-All P q (y ∷ xs) x h e = elim (Bool-cases (q y)) [
  | inl hit ↦ let same : y ≡ x = ground (arith, hit) in rw (← same) h.0
  | inr miss ↦ find-All P q xs x h.1 (ground (arith, miss))
]

-- A chain that returns has returned at its first step.
pub >>=-some {ℓ κ} :
    {A : Type ℓ} {B : Type κ} (m : Option A) (f : A → Option B) {b : B}
    → (m >>= f) ≡ some b
    → (a : A) × (m ≡ some a) × (f a ≡ some b)
>>=-some none f e = cc
>>=-some (some a) f e = (a, refl, e)

pub >>=-none {ℓ κ} :
    {A : Type ℓ} {B : Type κ} (m : Option A) (f : A → Option B)
    → ((a : A) → f a ≡ none)
    → (m >>= f) ≡ none
>>=-none none f h = refl
>>=-none (some a) f h = h a
