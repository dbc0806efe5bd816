-- ===== src/Common/Tests.antt =====
-- Boolean tests on the native numbers, decided equality, and the conditional.
use Prim.Native.Nat.{ℕ, compare, Ordering}
use Prim.Native.String.{String}
use text.Mathlib.Text.{◌==◌ as text_eq}
use text.Mathlib.TextEquality.{eq_iff}
use mathlib.Core.Path.{◌≡◌, refl}
use mathlib.Core.Logic.{◌≢◌, ◌⊎◌, inl, inr}
use mathlib.Core.Bool.{Bool, true, false}
use mathlib.Core.Option.{Option, none, some}
use native.Mathlib.Omega.{arith}

abbrev pub ltb : ℕ → ℕ → Bool
ltb a b = elim (compare a b) [ Ordering.lt ↦ true | _ ↦ false ]

abbrev pub leb : ℕ → ℕ → Bool
leb a b = elim (compare a b) [ Ordering.gt ↦ false | _ ↦ true ]

infix 1 if◌then◌else◌
abbrev pub if◌then◌else◌ {ℓ} : {A : Type ℓ} → Bool → A → A → A
if true then x else y = x
if false then x else y = y

pub Bool-cases : (b : Bool) → (b ≡ true) ⊎ (b ≡ false)
Bool-cases true = inl refl
Bool-cases false = inr refl

pub Option-cases {ℓ} : {A : Type ℓ} (o : Option A) → (o ≡ none) ⊎ ((a : A) × (o ≡ some a))
Option-cases none = inl refl
Option-cases (some a) = inr (a, refl)

-- Equality is an interface: a decision for each type whose values the code compares by `===`.
pub record Eq {ℓ} (A : Type ℓ) : Type ℓ where
  pub dec_eq : (a b : A) → Dec (a ≡ b)

infix 50 ◌===◌
abbrev pub ◌===◌ {ℓ} : {A : Type ℓ} ⦃e : Eq A⦄ → A → A → Bool
◌===◌ ⦃e⦄ a b = elim (e.dec_eq a b) [ yes _ ↦ true | no _ ↦ false ]

module _ {ℓ} {A : Type ℓ} ⦃e : Eq A⦄ where
  pub ===_of_eq : (a b : A) → a ≡ b → (a === b) ≡ true
  ===_of_eq a b h = ground arith

  pub ===_of_ne : (a b : A) → a ≢ b → (a === b) ≡ false
  ===_of_ne a b h = ground arith

decide_text : (s t : String) (b : Bool) → text_eq s t ≡ b → Dec (s ≡ t)
decide_text s t true h = yes ((eq_iff s t).0 h)
decide_text s t false h = no (λ e. cc ((eq_iff s t).1 e))

unfoldable pub String_discrete : (s t : String) → Dec (s ≡ t)
unfolding decide_text
String_discrete s t = decide_text s t (text_eq s t) refl

instance abbrev pub string_eq : Eq String
string_eq = record { dec_eq = String_discrete }

unfoldable pub Option_discrete {ℓ} :
    {A : Type ℓ} → ((a b : A) → Dec (a ≡ b)) → (o p : Option A) → Dec (o ≡ p)
Option_discrete d none none = yes refl
Option_discrete d none (some b) = no (λ e. cc)
Option_discrete d (some a) none = no (λ e. cc)
Option_discrete d (some a) (some b) = elim (d a b) [
  | yes p ↦ yes (λ i. some (p i))
  | no n ↦ no (λ e. n (cc))
]

instance abbrev pub option_eq {ℓ} : {A : Type ℓ} ⦃e : Eq A⦄ → Eq (Option A)
option_eq ⦃e⦄ = record { dec_eq = Option_discrete e.dec_eq }
