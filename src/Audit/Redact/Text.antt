-- ===== src/Audit/Redact/Text.antt =====
-- packages/core/src/audit.ts, `looksLikePiiValue`: which texts are personal data.
use agentic_bank.Common.{
  ℕ, ◌≡◌, ◌⊎◌, ◌↔◌, inl, inr, refl, ap, ◌∙◌, Bool, true, ◌||◌, List, [], ◌∷◌, ◌++◌, String, codes,
  trim, arith,
}
use agentic_bank.Common.Regex.{seq, alt, matches, repeat, optional, plus}
use agentic_bank.Common.Regex.Language.{Word, matches-Word}
use agentic_bank.Audit.Redact.{
  char, is_digit, digit, plain, email_value, separator, phone_value, rrn_value,
  looks_like_pii_value,
}
use agentic_bank.Audit.Redact.Shapes.{
  IsDigit, IsPlain, Digits, Plain, Optional, IsDash, IsSeparator, IsEmail, IsResident, IsCountry,
  IsPhone, plus-word, repeat-word, optional-word, is_digit-IsDigit, is_space-IsPlain,
  is_space-IsDash, is_space-IsSeparator, char-word,
}

plains : (cs : List ℕ) → Word (plus plain) cs ↔ Plain cs
plains cs = plus-word IsPlain _ is_space-IsPlain cs

digits : (n : ℕ) (cs : List ℕ) → Word (repeat n digit) cs ↔ Digits n cs
digits n cs = repeat-word IsDigit is_digit is_digit-IsDigit n cs

email_value-IsEmail : (cs : List ℕ) → Word email_value cs ↔ IsEmail cs
email_value-IsEmail cs = (
  λ w.
      let (user, r, e, u, (at_, r1, e1, a, (host, r2, e2, h, (dot, domain, e3, d, v)))) = w in
      let start : cs ≡ user ++ (at_ ++ (host ++ (dot ++ domain))) = rw (← e3, ← e2, ← e1) e in
      let spelled : cs ≡ user ++ b'@' ∷ (host ++ b'.' ∷ domain) =
        start
        ∙ ap (λ x. user ++ (x ++ (host ++ (dot ++ domain)))) ((char-word b'@' at_).0 a)
        ∙ ap (λ x. user ++ b'@' ∷ (host ++ (x ++ domain))) ((char-word b'.' dot).0 d) in
      (user, host, domain, spelled, (plains user).0 u, (plains host).0 h, (plains domain).0 v),
  λ s.
      let (user, host, domain, e, u, h, v) = s in
      (
        user,
        b'@' ∷ (host ++ b'.' ∷ domain),
        e,
        (plains user).1 u,
        (
          b'@' ∷ [],
          host ++ b'.' ∷ domain,
          refl,
          (char-word b'@' (b'@' ∷ [])).1 refl,
          (
            host,
            b'.' ∷ domain,
            refl,
            (plains host).1 h,
            (b'.' ∷ [], domain, refl, (char-word b'.' (b'.' ∷ [])).1 refl, (plains domain).1 v),
          ),
        ),
      ),
)

rrn_value-IsResident : (cs : List ℕ) → Word rrn_value cs ↔ IsResident cs
rrn_value-IsResident cs = (
  λ w.
      let (birth, r, e, b, (dash, number, e1, d, n)) = w in
      (
        birth,
        dash,
        number,
        rw (← e1) e,
        (digits 6 birth).0 b,
        (optional-word IsDash _ is_space-IsDash dash).0 d,
        (digits 7 number).0 n,
      ),
  λ s.
      let (birth, dash, number, e, b, d, n) = s in
      (
        birth,
        dash ++ number,
        e,
        (digits 6 birth).1 b,
        (
          dash,
          number,
          refl,
          (optional-word IsDash _ is_space-IsDash dash).1 d,
          (digits 7 number).1 n,
        ),
      ),
)

separators : (cs : List ℕ) → Word separator cs ↔ Optional IsSeparator cs
separators cs = optional-word IsSeparator _ is_space-IsSeparator cs

optional-IsCountry :
    (cs : List ℕ)
    → Word (optional (seq (char b'+') (seq (char b'8') (seq (char b'2') separator)))) cs
      ↔ IsCountry cs
optional-IsCountry cs = (
  λ w. elim w [
    | inr e ↦ inr e
    | inl v ↦
        let (p, r, e, a, (q, s, e1, b, (t, u, e2, c, d))) = v in
        let start : cs ≡ p ++ (q ++ (t ++ u)) = rw (← e2, ← e1) e in
        let spelled : cs ≡ b'+' ∷ b'8' ∷ b'2' ∷ u =
          start
          ∙ ap (λ x. x ++ (q ++ (t ++ u))) ((char-word b'+' p).0 a)
          ∙ ap (λ x. b'+' ∷ (x ++ (t ++ u))) ((char-word b'8' q).0 b)
          ∙ ap (λ x. b'+' ∷ b'8' ∷ (x ++ u)) ((char-word b'2' t).0 c) in
        inl (u, spelled, (separators u).0 d)
  ],
  λ s. elim s [
    | inr e ↦ inr e
    | inl (u, e, d) ↦ inl (
      b'+' ∷ [],
      b'8' ∷ b'2' ∷ u,
      e,
      (char-word b'+' (b'+' ∷ [])).1 refl,
      (
        b'8' ∷ [],
        b'2' ∷ u,
        refl,
        (char-word b'8' (b'8' ∷ [])).1 refl,
        (b'2' ∷ [], u, refl, (char-word b'2' (b'2' ∷ [])).1 refl, (separators u).1 d),
      ),
    )
  ],
)

lead-word : (cs : List ℕ) → Word (optional (char b'0')) cs ↔ ((cs ≡ b'0' ∷ []) ⊎ (cs ≡ []))
lead-word cs = (
  λ w. elim w [ inl v ↦ inl ((char-word b'0' cs).0 v) | inr e ↦ inr e ],
  λ s. elim s [ inl e ↦ inl ((char-word b'0' cs).1 e) | inr e ↦ inr e ],
)

middle-word :
    (cs : List ℕ) → Word (alt (repeat 3 digit) (repeat 4 digit)) cs ↔ (Digits 3 cs ⊎ Digits 4 cs)
middle-word cs = (
  λ w. elim w [ inl v ↦ inl ((digits 3 cs).0 v) | inr v ↦ inr ((digits 4 cs).0 v) ],
  λ s. elim s [ inl v ↦ inl ((digits 3 cs).1 v) | inr v ↦ inr ((digits 4 cs).1 v) ],
)

phone_value-IsPhone : (cs : List ℕ) → Word phone_value cs ↔ IsPhone cs
phone_value-IsPhone cs = (
  λ w.
      let (
        country,
        r,
        e,
        c,
        (
          lead,
          r1,
          e1,
          l,
          (
            one_,
            r2,
            e2,
            o,
            (
              kinds,
              r3,
              e3,
              (kind, e7, k),
              (first, r4, e4, f, (middle, r5, e5, m, (second, last, e6, s, n))),
            ),
          ),
        ),
      ) =
        w in
      let start : cs
          ≡ country ++ (lead ++ (one_ ++ (kinds ++ (first ++ (middle ++ (second ++ last)))))) =
        rw (← e6, ← e5, ← e4, ← e3, ← e2, ← e1) e in
      let tail = first ++ (middle ++ (second ++ last)) in
      let spelled : cs ≡ country ++ (lead ++ b'1' ∷ kind ∷ tail) =
        start
        ∙ ap (λ x. country ++ (lead ++ (x ++ (kinds ++ tail)))) ((char-word b'1' one_).0 o)
        ∙ ap (λ x. country ++ (lead ++ b'1' ∷ (x ++ tail))) e7 in
      (
        country,
        lead,
        kind,
        first,
        middle,
        second,
        last,
        spelled,
        (optional-IsCountry country).0 c,
        (lead-word lead).0 l,
        (is_digit-IsDigit kind).0 k,
        (separators first).0 f,
        (middle-word middle).0 m,
        (separators second).0 s,
        (digits 4 last).0 n,
      ),
  λ p.
      let (country, lead, kind, first, middle, second, last, e, c, l, k, f, m, s, n) = p in
      (
        country,
        lead ++ b'1' ∷ kind ∷ (first ++ (middle ++ (second ++ last))),
        e,
        (optional-IsCountry country).1 c,
        (
          lead,
          b'1' ∷ kind ∷ (first ++ (middle ++ (second ++ last))),
          refl,
          (lead-word lead).1 l,
          (
            b'1' ∷ [],
            kind ∷ (first ++ (middle ++ (second ++ last))),
            refl,
            (char-word b'1' (b'1' ∷ [])).1 refl,
            (
              kind ∷ [],
              first ++ (middle ++ (second ++ last)),
              refl,
              (kind, refl, (is_digit-IsDigit kind).1 k),
              (
                first,
                middle ++ (second ++ last),
                refl,
                (separators first).1 f,
                (
                  middle,
                  second ++ last,
                  refl,
                  (middle-word middle).1 m,
                  (second, last, refl, (separators second).1 s, (digits 4 last).1 n),
                ),
              ),
            ),
          ),
        ),
      ),
)

-- A text is personal data when it is an e-mail address, a phone number or a resident number, once the
-- spaces at its ends are left off.
abbrev pub IsPersonal : String → Type 0
IsPersonal s = let cs = codes (trim s) in IsEmail cs ⊎ (IsPhone cs ⊎ IsResident cs)

or_of : (a b c : Bool) → ((a || b || c) ≡ true) ↔ ((a ≡ true) ⊎ ((b ≡ true) ⊎ (c ≡ true)))
or_of a b c = (λ h. ground arith, λ h. ground arith)

pub looks_like_pii_value-IsPersonal : (s : String) → (looks_like_pii_value s ≡ true) ↔ IsPersonal s
unfolding looks_like_pii_value
looks_like_pii_value-IsPersonal s =
    let cs = codes (trim s) in
    let any = or_of (matches email_value cs) (matches phone_value cs) (matches rrn_value cs) in
    (
      λ h. elim (any.0 h) [
        | inl m ↦ inl ((email_value-IsEmail cs).0 ((matches-Word email_value cs).0 m))
        | inr (inl m) ↦ inr (inl ((phone_value-IsPhone cs).0 ((matches-Word phone_value cs).0 m)))
        | inr (inr m) ↦ inr (inr ((rrn_value-IsResident cs).0 ((matches-Word rrn_value cs).0 m)))
      ],
      λ p. any.1 (elim p [
        | inl m ↦ inl ((matches-Word email_value cs).1 ((email_value-IsEmail cs).1 m))
        | inr (inl m) ↦ inr (inl ((matches-Word phone_value cs).1 ((phone_value-IsPhone cs).1 m)))
        | inr (inr m) ↦ inr (inr ((matches-Word rrn_value cs).1 ((rrn_value-IsResident cs).1 m)))
      ]),
    )
