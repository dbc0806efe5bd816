-- ===== src/Common/Table.antt =====
-- A table as the list of its rows in insertion order, and the statements that the code runs on
-- it: a lookup by a key, SELECT with a condition, UPDATE, DELETE and SUM.
use Prim.Native.Nat.{ℕ, suc}
use mathlib.Core.Path.{◌≡◌, refl, ◌∙◌}
use mathlib.Core.Logic.{inl, inr}
use mathlib.Core.Bool.{Bool, true, false, ◌||◌}
use mathlib.Core.Option.{Option, none, some}
use mathlib.Core.List.{List, [], ◌∷◌, ◌++◌}
use native.Mathlib.Omega.{arith}
use agentic_bank.Common.Tests.{leb, if◌then◌else◌, Eq, ◌===◌, Bool-cases}
use agentic_bank.Common.Int.{ℤ, pos, ◌+ℤ◌, ◌-ℤ◌, int_laws}

module _ {ℓ} {A : Type ℓ} where
  abbrev pub length : List A → ℕ
  length [] = 0
  length (x ∷ xs) = suc (length xs)

  -- The first row that meets the condition, as `get` returns it.
  unfoldable pub find : (A → Bool) → List A → Option A
  find p [] = none
  find p (x ∷ xs) = if p x then some x else find p xs

  unfoldable pub select : (A → Bool) → List A → List A
  select p [] = []
  select p (x ∷ xs) = let rest = select p xs in if p x then x ∷ rest else rest

  -- `includes` of an array.
  unfoldable pub includes : ⦃e : Eq A⦄ → List A → A → Bool
  includes [] a = false
  includes (x ∷ xs) a = x === a || includes xs a

  -- UPDATE … SET f WHERE p
  unfoldable pub update : (A → Bool) → (A → A) → List A → List A
  update p f [] = []
  update p f (x ∷ xs) = (if p x then f x else x) ∷ update p f xs

  -- DELETE … WHERE p
  unfoldable pub delete : (A → Bool) → List A → List A
  delete p [] = []
  delete p (x ∷ xs) = let rest = delete p xs in if p x then rest else x ∷ rest

  insert_desc : (A → ℕ) → A → List A → List A
  insert_desc key a [] = a ∷ []
  insert_desc key a (x ∷ xs) =
      let rest = insert_desc key a xs in if leb (key x) (key a) then a ∷ x ∷ xs else x ∷ rest

  -- ORDER BY key DESC; rows of one key stay in the order of insertion.
  unfoldable pub order_desc : (A → ℕ) → List A → List A
  unfolding insert_desc
  order_desc key [] = []
  order_desc key (x ∷ xs) = insert_desc key x (order_desc key xs)

  unfoldable pub map_rows {κ} : {B : Type κ} → (A → B) → List A → List B
  map_rows f [] = []
  map_rows f (x ∷ xs) = f x ∷ map_rows f xs

  -- COALESCE(SUM(f), 0)
  unfoldable pub sum_by : (A → ℤ) → List A → ℤ
  sum_by f [] = pos 0
  sum_by f (x ∷ xs) = f x +ℤ sum_by f xs

  pub sum_by-append :
      (f : A → ℤ) (xs ys : List A) → sum_by f (xs ++ ys) ≡ sum_by f xs +ℤ sum_by f ys
  unfolding sum_by
  sum_by-append f [] ys = omega int_laws
  sum_by-append f (x ∷ xs) ys = rw (sum_by-append f xs ys) (omega int_laws)

  pub sum_by-cong : (f g : A → ℤ) (xs : List A) → ((x : A) → f x ≡ g x) → sum_by f xs ≡ sum_by g xs
  unfolding sum_by
  sum_by-cong f g [] h = refl
  sum_by-cong f g (x ∷ xs) h = rw (h x, sum_by-cong f g xs h)

  pub sum_by-zero : (xs : List A) → sum_by (λ _. pos 0) xs ≡ pos 0
  unfolding sum_by
  sum_by-zero [] = refl
  sum_by-zero (x ∷ xs) = rw (sum_by-zero xs) (omega int_laws)

  pub sum_by-add :
      (f g : A → ℤ) (xs : List A) → sum_by (λ x. f x +ℤ g x) xs ≡ sum_by f xs +ℤ sum_by g xs
  unfolding sum_by
  sum_by-add f g [] = omega int_laws
  sum_by-add f g (x ∷ xs) = rw (sum_by-add f g xs) (omega int_laws)

  pub sum_by-sub :
      (f g : A → ℤ) (xs : List A) → sum_by (λ x. f x -ℤ g x) xs ≡ sum_by f xs -ℤ sum_by g xs
  unfolding sum_by
  sum_by-sub f g [] = omega int_laws
  sum_by-sub f g (x ∷ xs) = rw (sum_by-sub f g xs) (omega int_laws)

  -- A sum after UPDATE is a sum over the old rows.
  pub sum_by-update :
      (f : A → ℤ) (p : A → Bool) (u : A → A) (xs : List A)
      → sum_by f (update p u xs) ≡ sum_by (λ x. f (if p x then u x else x)) xs
  unfolding sum_by update
  sum_by-update f p u [] = refl
  sum_by-update f p u (x ∷ xs) = rw (sum_by-update f p u xs)

  pub find-append :
      (p : A → Bool) (xs ys : List A)
      → find p (xs ++ ys) ≡ elim (find p xs) [ none ↦ find p ys | some x ↦ some x ]
  unfolding find
  find-append p [] ys = refl
  find-append p (x ∷ xs) ys = ground (arith, find-append p xs ys)

  -- A lookup after an UPDATE that leaves the key alone.
  pub find-update :
      (q p : A → Bool) (u : A → A) (xs : List A)
      → ((x : A) → q (u x) ≡ q x)
      → find q (update p u xs)
        ≡ elim (find q xs) [ none ↦ none | some x ↦ some (if p x then u x else x) ]
  unfolding find update
  find-update q p u [] h = refl
  find-update q p u (x ∷ xs) h = ground (arith, h x, find-update q p u xs h)

  -- What a lookup returns meets its condition.
  pub find_holds : (p : A → Bool) (xs : List A) (x : A) → find p xs ≡ some x → p x ≡ true
  unfolding find
  find_holds p [] x e = cc
  find_holds p (y ∷ xs) x e = ground (arith, find_holds p xs x)

  pub select-append :
      (p : A → Bool) (xs ys : List A) → select p (xs ++ ys) ≡ select p xs ++ select p ys
  unfolding select
  select-append p [] ys = refl
  select-append p (x ∷ xs) ys = ground (arith, select-append p xs ys)

  -- A sum over the rows that meet a condition, over mapped rows, and over rows in another order.
  pub sum_by-select :
      (f : A → ℤ) (p : A → Bool) (xs : List A)
      → sum_by f (select p xs) ≡ sum_by (λ x. if p x then f x else pos 0) xs
  unfolding sum_by select
  sum_by-select f p [] = refl
  sum_by-select f p (x ∷ xs) = elim (Bool-cases (p x)) [
    | inl hit ↦ rw (hit, sum_by-select f p xs)
    | inr miss ↦ rw (miss, sum_by-select f p xs) (omega int_laws)
  ]

  sum_by-insert_desc :
      (f : A → ℤ) (key : A → ℕ) (a : A) (xs : List A)
      → sum_by f (insert_desc key a xs) ≡ f a +ℤ sum_by f xs
  unfolding sum_by insert_desc
  sum_by-insert_desc f key a [] = refl
  sum_by-insert_desc f key a (x ∷ xs) = elim (Bool-cases (leb (key x) (key a))) [
    | inl le ↦ rw le
    | inr gt ↦ rw (gt, sum_by-insert_desc f key a xs) (omega int_laws)
  ]

  pub sum_by-order_desc :
      (f : A → ℤ) (key : A → ℕ) (xs : List A) → sum_by f (order_desc key xs) ≡ sum_by f xs
  unfolding sum_by order_desc
  sum_by-order_desc f key [] = refl
  sum_by-order_desc f key (x ∷ xs) =
      sum_by-insert_desc f key x (order_desc key xs) ∙ rw (sum_by-order_desc f key xs)

pub sum_by-map_rows {ℓ κ} :
    {A : Type ℓ} {B : Type κ} (f : B → ℤ) (g : A → B) (xs : List A)
    → sum_by f (map_rows g xs) ≡ sum_by (λ x. f (g x)) xs
unfolding sum_by map_rows
sum_by-map_rows f g [] = refl
sum_by-map_rows f g (x ∷ xs) = rw (sum_by-map_rows f g xs)
