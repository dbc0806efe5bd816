-- ===== src/Audit/Redact/Kept.antt =====
-- packages/core/src/audit.ts, `redactArgs`: what is kept of arguments, described on its own.
use agentic_bank.Common.{
  ℕ, ◌+◌, ◌≤◌, ◌≡◌, ◌⊎◌, ◌↔◌, inl, inr, refl, ap, Bool, true, ◌||◌, Number, List, [], ◌∷◌, ◌++◌,
  String, codes, arith, Bool-cases,
}
use agentic_bank.Store.Args.{
  Json, Items, Fields, null, bool, num, str, arr, obj, nil, cons, end, field,
}
use agentic_bank.Audit.Redact.{
  is, lower, starts_with, contains_word, any_word, is_secret_key, secret_words,
  looks_like_pii_value, redact_args, redact_items, redact_fields,
}
use agentic_bank.Audit.Redact.Text.{IsPersonal, looks_like_pii_value-IsPersonal}

-- A letter of either case, where the word has the small one.
abbrev pub IsLetter : ℕ → ℕ → Type 0
IsLetter w c = ((b'A' ≤ c) × (c ≤ b'Z') × (w ≡ c + 32)) ⊎ (¬ ((b'A' ≤ c) × (c ≤ b'Z')) × (w ≡ c))

abbrev pub Spells : List ℕ → List ℕ → Type 0
Spells [] [] = Unit
Spells (w ∷ ws) (c ∷ cs) = IsLetter w c × Spells ws cs
Spells [] (c ∷ cs) = ⊥
Spells (w ∷ ws) [] = ⊥

-- The word stands somewhere in the text.
abbrev pub Contains : List ℕ → List ℕ → Type 0
Contains word cs =
    (before : List ℕ) × (middle : List ℕ) × (behind : List ℕ) × (cs ≡ before ++ (middle ++ behind))
    × Spells word middle

abbrev pub ContainsOne : List String → List ℕ → Type 0
ContainsOne [] cs = ⊥
ContainsOne (w ∷ ws) cs = Contains (codes w) cs ⊎ ContainsOne ws cs

abbrev pub IsSecret : String → Type 0
IsSecret key =
    ContainsOne
      ("password" ∷ "secret" ∷ "token" ∷ "authorization" ∷ "cookie" ∷ "ssn" ∷ "pan" ∷ "cvv" ∷ "pin"
        ∷ "email" ∷ "e-mail" ∷ "phone" ∷ "mobile" ∷ "tel" ∷ "rrn" ∷ "jumin" ∷ "resident" ∷ [])
      (codes key)

lower-IsLetter : (w c : ℕ) → (is w (lower c) ≡ true) ↔ IsLetter w c
lower-IsLetter w c = (λ h. ground arith, λ h. ground arith)

starts_with-Spells :
    (ws cs : List ℕ)
    → (starts_with ws cs ≡ true)
      ↔ ((middle : List ℕ) × (behind : List ℕ) × (cs ≡ middle ++ behind) × Spells ws middle)
unfolding starts_with
starts_with-Spells [] cs = (λ h. ([], cs, refl, tt), λ s. refl)
starts_with-Spells (w ∷ ws) [] = (λ h. absurd (cc h), none_left)
  where
    none_left :
        (middle : List ℕ) × (behind : List ℕ) × ([] ≡ middle ++ behind) × Spells (w ∷ ws) middle
        → starts_with (w ∷ ws) [] ≡ true
    none_left ([], behind, e, s) = elim s [ ]
    none_left (m ∷ ms, behind, e, s) = absurd (cc e)
starts_with-Spells (w ∷ ws) (c ∷ cs) = (
  λ h.
      let here : is w (lower c) ≡ true = ground arith in
      let there : starts_with ws cs ≡ true = ground arith in
      let (middle, behind, e, s) = (starts_with-Spells ws cs).0 there in
      (c ∷ middle, behind, ap (λ t. c ∷ t) e, ((lower-IsLetter w c).0 here, s)),
  back (starts_with-Spells ws cs).1,
)
  where
    back :
        ((middle : List ℕ) × (behind : List ℕ) × (cs ≡ middle ++ behind) × Spells ws middle
          → starts_with ws cs ≡ true)
        → (middle : List ℕ) × (behind : List ℕ) × (c ∷ cs ≡ middle ++ behind)
          × Spells (w ∷ ws) middle
        → starts_with (w ∷ ws) (c ∷ cs) ≡ true
    back rest ([], behind, e, s) = elim s [ ]
    back rest (m ∷ ms, behind, e, (letter, s)) =
        let same : c ≡ m = cc e in
        let left : cs ≡ ms ++ behind = cc e in
        let here : is w (lower c) ≡ true = (lower-IsLetter w c).1 (rw same letter) in
        let there = rest (ms, behind, left, s) in ground (arith, here, there)

contains_word-Contains : (word cs : List ℕ) → (contains_word word cs ≡ true) ↔ Contains word cs
unfolding contains_word
contains_word-Contains word [] = (
  λ h. let (middle, behind, e, s) = (starts_with-Spells word []).0 h in ([], middle, behind, e, s),
  back,
)
  where
    back : Contains word [] → starts_with word [] ≡ true
    back ([], middle, behind, e, s) = (starts_with-Spells word []).1 (middle, behind, e, s)
    back (b ∷ before, middle, behind, e, s) = absurd (cc e)
contains_word-Contains word (c ∷ cs) = (
  λ h. elim (Bool-cases (starts_with word (c ∷ cs))) [
    | inl here ↦
        let (middle, behind, e, s) = (starts_with-Spells word (c ∷ cs)).0 here in
        ([], middle, behind, e, s)
    | inr not_here ↦
        let there : contains_word word cs ≡ true = ground arith in
        let (before, middle, behind, e, s) = (contains_word-Contains word cs).0 there in
        (c ∷ before, middle, behind, ap (λ t. c ∷ t) e, s)
  ],
  back (contains_word-Contains word cs).1,
)
  where
    back :
        (Contains word cs → contains_word word cs ≡ true)
        → Contains word (c ∷ cs)
        → (starts_with word (c ∷ cs) || contains_word word cs) ≡ true
    back later ([], middle, behind, e, s) =
        let here = (starts_with-Spells word (c ∷ cs)).1 (middle, behind, e, s) in
        ground (arith, here)
    back later (b ∷ before, middle, behind, e, s) =
        let left : cs ≡ before ++ (middle ++ behind) = cc e in
        let there = later (before, middle, behind, left, s) in ground (arith, there)

any_word-ContainsOne :
    (words : List String) (cs : List ℕ) → (any_word words cs ≡ true) ↔ ContainsOne words cs
unfolding any_word
any_word-ContainsOne [] cs = (λ h. absurd (cc h), λ s. elim s [ ])
any_word-ContainsOne (w ∷ words) cs =
    let first = contains_word-Contains (codes w) cs in
    let others = any_word-ContainsOne words cs in
    (
      λ h. elim (Bool-cases (contains_word (codes w) cs)) [
        | inl here ↦ inl (first.0 here)
        | inr not_here ↦ let there : any_word words cs ≡ true = ground arith in inr (others.0 there)
      ],
      λ s. elim s [
        | inl here ↦ let h = first.1 here in ground (arith, h)
        | inr there ↦ let h = others.1 there in ground (arith, h)
      ],
    )

is_secret_key-IsSecret : (key : String) → (is_secret_key key ≡ true) ↔ IsSecret key
unfolding is_secret_key
is_secret_key-IsSecret key = any_word-ContainsOne secret_words (codes key)

-- What arguments come to: a text that is personal data and the value of every secret key come to the
-- marker, `null` to an object with no fields, and all else is kept in its place, the keys too.
mutual
  pub data KeptAs : Json → Json → Type 0 where
    hidden : (s : String) → IsPersonal s → KeptAs (str s) (str "[redacted]")
    shown : (s : String) → ¬ IsPersonal s → KeptAs (str s) (str s)
    nothing : KeptAs null (obj end)
    truth : (b : Bool) → KeptAs (bool b) (bool b)
    number : (n : Number) → KeptAs (num n) (num n)
    array : (xs ys : Items) → ItemsKeptAs xs ys → KeptAs (arr xs) (arr ys)
    object : (fs gs : Fields) → FieldsKeptAs fs gs → KeptAs (obj fs) (obj gs)

  pub data ItemsKeptAs : Items → Items → Type 0 where
    no_items : ItemsKeptAs nil nil
    item :
        (x y : Json) (xs ys : Items)
        → KeptAs x y
        → ItemsKeptAs xs ys
        → ItemsKeptAs (cons x xs) (cons y ys)

  pub data FieldsKeptAs : Fields → Fields → Type 0 where
    no_fields : FieldsKeptAs end end
    secret :
        (key : String) (v : Json) (fs gs : Fields)
        → IsSecret key
        → FieldsKeptAs fs gs
        → FieldsKeptAs (field key v fs) (field key (str "[redacted]") gs)
    open_field :
        (key : String) (v w : Json) (fs gs : Fields)
        → ¬ IsSecret key
        → KeptAs v w
        → FieldsKeptAs fs gs
        → FieldsKeptAs (field key v fs) (field key w gs)

mutual
  unfolding redact_args

  json_kept : (j : Json) → KeptAs j (redact_args j)
  json_kept (str s) = elim (Bool-cases (looks_like_pii_value s)) [
    | inl pii ↦ rw pii (hidden s ((looks_like_pii_value-IsPersonal s).0 pii))
    | inr plain ↦ rw plain (shown s (λ p. cc (plain, (looks_like_pii_value-IsPersonal s).1 p)))
  ]
  json_kept null = nothing
  json_kept (bool b) = truth b
  json_kept (num n) = number n
  json_kept (arr xs) = array xs (redact_items xs) (items_kept xs)
  json_kept (obj fs) = object fs (redact_fields fs) (fields_kept fs)

  items_kept : (xs : Items) → ItemsKeptAs xs (redact_items xs)
  items_kept nil = no_items
  items_kept (cons x xs) = item x (redact_args x) xs (redact_items xs) (json_kept x) (items_kept xs)

  fields_kept : (fs : Fields) → FieldsKeptAs fs (redact_fields fs)
  fields_kept end = no_fields
  fields_kept (field k v fs) = elim (Bool-cases (is_secret_key k)) [
    | inl is_one ↦
        rw is_one
          (secret k v fs (redact_fields fs) ((is_secret_key-IsSecret k).0 is_one) (fields_kept fs))
    | inr not_one ↦ rw not_one (
        open_field k v (redact_args v) fs (redact_fields fs)
          (λ s. cc (not_one, (is_secret_key-IsSecret k).1 s)) (json_kept v) (fields_kept fs))
  ]
