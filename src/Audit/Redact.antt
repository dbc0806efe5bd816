-- ===== src/Audit/Redact.antt =====
-- packages/core/src/audit.ts, `redactArgs`: what is kept of a call's arguments.
pub mod Shapes
pub mod Text
pub mod Kept
use agentic_bank.Common.{
  ℕ, ◌+◌, Bool, true, false, not, ◌&&◌, ◌||◌, List, [], ◌∷◌, String, codes, trim, is_space, leb,
  if◌then◌else◌, string_eq,
}
use agentic_bank.Common.Regex.{Regex, class, seq, alt, matches, repeat, optional, plus}
use agentic_bank.Store.Args.{
  Json, Items, Fields, null, bool, num, str, arr, obj, nil, cons, end, field,
}

abbrev pub is : ℕ → ℕ → Bool
is k c = leb k c && leb c k

abbrev pub char : ℕ → Regex
char k = class (is k)

abbrev pub is_digit : ℕ → Bool
is_digit c = leb b'0' c && leb c b'9'

abbrev pub digit : Regex
digit = class is_digit

-- [^\s@]
abbrev pub plain : Regex
plain = class λ c. not (is_space c) && not (is b'@' c)

-- /^[^\s@]+@[^\s@]+\.[^\s@]+$/
abbrev pub email_value : Regex
email_value = seq (plus plain) (seq (char b'@') (seq (plus plain) (seq (char b'.') (plus plain))))

-- [-.\s]?
abbrev pub separator : Regex
separator = optional (class λ c. is b'-' c || is b'.' c || is_space c)

-- /^(?:\+82[-.\s]?)?0?1[0-9][-.\s]?\d{3,4}[-.\s]?\d{4}$/
abbrev pub phone_value : Regex
phone_value = seq (optional (seq (char b'+') (seq (char b'8') (seq (char b'2') separator)))) (
    seq (optional (char b'0')) (
      seq (char b'1') (
        seq digit (
          seq separator
            (seq (alt (repeat 3 digit) (repeat 4 digit)) (seq separator (repeat 4 digit)))))))

-- /^\d{6}[-\s]?\d{7}$/
abbrev pub rrn_value : Regex
rrn_value =
    seq (repeat 6 digit) (seq (optional (class λ c. is b'-' c || is_space c)) (repeat 7 digit))

unfoldable pub looks_like_pii_value : String → Bool
unfolding matches trim
looks_like_pii_value value =
    let trimmed = codes (trim value) in
    matches email_value trimmed || matches phone_value trimmed || matches rrn_value trimmed

abbrev pub lower : ℕ → ℕ
lower c = if leb b'A' c && leb c b'Z' then c + 32 else c

unfoldable pub starts_with : List ℕ → List ℕ → Bool
starts_with [] cs = true
starts_with (w ∷ ws) [] = false
starts_with (w ∷ ws) (c ∷ cs) = is w (lower c) && starts_with ws cs

unfoldable pub contains_word : List ℕ → List ℕ → Bool
unfolding starts_with
contains_word word [] = starts_with word []
contains_word word (c ∷ cs) = starts_with word (c ∷ cs) || contains_word word cs

unfoldable pub any_word : List String → List ℕ → Bool
unfolding contains_word
any_word [] key = false
any_word (w ∷ ws) key = contains_word (codes w) key || any_word ws key

-- /password|secret|…/i
abbrev pub secret_words : List String
secret_words =
    "password" ∷ "secret" ∷ "token" ∷ "authorization" ∷ "cookie" ∷ "ssn" ∷ "pan" ∷ "cvv" ∷ "pin"
    ∷ "email" ∷ "e-mail" ∷ "phone" ∷ "mobile" ∷ "tel" ∷ "rrn" ∷ "jumin" ∷ "resident" ∷ []

unfoldable pub is_secret_key : String → Bool
unfolding any_word
is_secret_key key = any_word secret_words (codes key)

abbrev pub redacted : Json
redacted = str "[redacted]"

-- `null` comes out as `{}`.
unfoldable mutual
  pub redact_args : Json → Json
  redact_args (str s) = if looks_like_pii_value s then redacted else str s
  redact_args null = obj end
  redact_args (bool b) = bool b
  redact_args (num n) = num n
  redact_args (arr xs) = arr (redact_items xs)
  redact_args (obj fs) = obj (redact_fields fs)

  pub redact_items : Items → Items
  redact_items nil = nil
  redact_items (cons x xs) = cons (redact_args x) (redact_items xs)

  pub redact_fields : Fields → Fields
  redact_fields end = end
  redact_fields (field k v fs) =
      field k (if is_secret_key k then redacted else redact_args v) (redact_fields fs)
