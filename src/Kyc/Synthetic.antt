-- ===== src/Kyc/Synthetic.antt =====
-- packages/core/src/kyc.ts: the fields of a submission, which hold synthetic values only.
use Prim.Native.Nat.{ℕ, ◌+◌}
use agentic_bank.Common.{
  Bool, true, false, ◌&&◌, ◌||◌, Option, List, [], ◌∷◌, String, if◌then◌else◌, ◌===◌, string_eq,
  String_discrete, leb, trim, is_space, codes, select, includes, ◌≡◌, refl, arith,
}
use agentic_bank.Common.Regex.{Regex, class, seq, star, empty, matches, repeat, optional, plus}
use agentic_bank.Audit.{get_or}
use agentic_bank.Audit.Redact.{is, digit, is_digit}

abbrev pub syn_display_name : String
syn_display_name = "앨리스"

abbrev pub syn_phone : String
syn_phone = "syn_phone_01000000000"

abbrev pub syn_email : String
syn_email = "syn_alice@sandbox.invalid"

abbrev pub syn_id_placeholder : String
syn_id_placeholder = "syn_id_placeholder"

abbrev allowed_names : List String
allowed_names = syn_display_name ∷ "Alice" ∷ "alice" ∷ "syn_alice" ∷ []

-- [\s\S]*, which an expression without an anchor has on both sides.
abbrev anything : Regex
anything = star (class λ c. true)

-- /\d{6}[-\s]?\d{7}/
abbrev rrn_like : Regex
rrn_like = seq anything (
    seq (repeat 6 digit)
      (seq (optional (class λ c. is b'-' c || is_space c)) (seq (repeat 7 digit) anything)))

-- /\d{13}/
abbrev digits_13 : Regex
digits_13 = seq anything (seq (repeat 13 digit) anything)

-- [a-z] under the flag i
abbrev is_letter : ℕ → Bool
is_letter c = (leb b'a' c && leb c b'z') || (leb b'A' c && leb c b'Z')

-- A word under the flag i, from its letters in lower case.
word : List ℕ → Regex → Regex
word [] rest = rest
word (w ∷ ws) rest = seq (class (either w)) (word ws rest)
  where
    either : ℕ → ℕ → Bool
    either k c = is k c || (leb b'a' k && leb k b'z' && is k (c + 32))

-- /^syn_phone_[0-9a-z_]+$/i
unfoldable pub syn_phone_ok : Regex
unfolding word
syn_phone_ok = word (codes "syn_phone_") (plus (class λ c. is_digit c || is_letter c || is b'_' c))

-- /^syn_[a-z0-9._+-]+@sandbox\.invalid$/i
unfoldable pub syn_email_ok : Regex
unfolding word
syn_email_ok = word (codes "syn_") (
    seq
      (plus
        (class λ c. is_letter c || is_digit c || is b'.' c || is b'_' c || is b'+' c || is b'-' c))
      (word (codes "@sandbox.invalid") empty))

-- /^syn_id_[a-z0-9._-]+$/i
unfoldable pub syn_id_ok : Regex
unfolding word
syn_id_ok =
    word (codes "syn_id_")
      (plus (class λ c. is_letter c || is_digit c || is b'.' c || is b'_' c || is b'-' c))

unfoldable pub looks_like_real_pii : String → Bool
unfolding matches trim
looks_like_real_pii value =
    let trimmed = trim value in
    if trimmed === ""
    then false
    else matches rrn_like (codes trimmed) || matches digits_13 (select is_digit (codes trimmed))

-- A normalized field, or why it was refused.
pub data Normal (A : Type 0) : Type 0 where
  normal : A → Normal A
  refused : String → Normal A

-- The next field is read only when this one is accepted.
abbrev pub and_then : {A B : Type 0} → Normal A → (A → Normal B) → Normal B
and_then (normal a) f = f a
and_then (refused e) f = refused e

unfoldable pub normalize_name : Option String → Normal String
normalize_name value =
    let raw = trim (get_or value syn_display_name) in
    if looks_like_real_pii raw
    then refused "real_pii"
    else if includes allowed_names raw
    then normal syn_display_name
    else refused "name_must_be_synthetic"

-- `normalizePhone`, `normalizeEmail` and `normalizeIdPlaceholder` differ in their default, their
-- expression and their error only.
unfoldable pub normalize_field : String → Regex → String → Option String → Normal String
normalize_field default expected error value =
    let raw = trim (get_or value "") in
    if raw === ""
    then normal default
    else if looks_like_real_pii raw
    then refused "real_pii"
    else if matches expected (codes raw)
    then normal raw
    else refused error

abbrev pub normalize_phone : Option String → Normal String
normalize_phone = normalize_field syn_phone syn_phone_ok "phone_must_be_syn"

abbrev pub normalize_email : Option String → Normal String
normalize_email = normalize_field syn_email syn_email_ok "email_must_be_syn"

abbrev pub normalize_id_placeholder : Option String → Normal String
normalize_id_placeholder = normalize_field syn_id_placeholder syn_id_ok "id_must_be_syn"

-- A field that may be stored: it does not look like a real number of a person, and has the form
-- of a synthetic value.
pub record IsSynthetic (expected : Regex) (value : String) : Type 0 where
  pub no_pii : looks_like_real_pii value ≡ false
  pub well_formed : matches expected (codes value) ≡ true

pub normalize_field-IsSynthetic :
    (default : String) (expected : Regex) (error : String) (value : Option String) {v : String}
    → IsSynthetic expected default
    → normalize_field default expected error value ≡ normal v
    → IsSynthetic expected v
unfolding normalize_field
normalize_field-IsSynthetic default expected error value d e = ground arith

pub syn_phone-IsSynthetic : IsSynthetic syn_phone_ok syn_phone
unfolding looks_like_real_pii syn_phone_ok select String_discrete
syn_phone-IsSynthetic = record { no_pii = refl; well_formed = refl }

pub syn_email-IsSynthetic : IsSynthetic syn_email_ok syn_email
unfolding looks_like_real_pii syn_email_ok select String_discrete
syn_email-IsSynthetic = record { no_pii = refl; well_formed = refl }

pub syn_id-IsSynthetic : IsSynthetic syn_id_ok syn_id_placeholder
unfolding looks_like_real_pii syn_id_ok select String_discrete
syn_id-IsSynthetic = record { no_pii = refl; well_formed = refl }
