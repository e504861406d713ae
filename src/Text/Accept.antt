-- ===== src/Text/Accept.antt =====
-- The texts that are read as numbers of 64 bits.
use market_order_book_engine.Base.{
  ℕ, ◌+◌, ◌-◌, ◌*◌, ◌≤◌, ◌≡◌, ◌≢◌, ◌↔◌, refl, sym, ap, ◌∙◌, [], ◌∷◌, some, none, true, leb, arith,
  All, Bool-cases, inl, inr,
}
use market_order_book_engine.Text.{
  Text, is_digit, scan, starts_number, from_chars, whole_number, max_u64, parse_unsigned,
}
use market_order_book_engine.Text.Decimal.{IsDigit}

-- the number that digits spell behind `n`
pub value : ℕ → Text → ℕ
value n [] = n
value n (c ∷ s) = value (n * 10 + (c - b'0')) s

-- A numeral: digits, at least one, for a number within 64 bits.
pub record IsNumeral (s : Text) (n : ℕ) : Type 0 where
  pub some_digit : s ≢ []
  pub digits : All IsDigit s
  pub spelled : value 0 s ≡ n
  pub fits : n ≤ max_u64

IsDigit-is_digit : (c : ℕ) → IsDigit c → is_digit c ≡ true
IsDigit-is_digit c (a, b) = ground (arith, a, b)

is_digit-IsDigit : (c : ℕ) → is_digit c ≡ true → IsDigit c
is_digit-IsDigit c h = ground (arith, h)

scan-value : (n : ℕ) (s : Text) → All IsDigit s → scan n s ≡ (value n s, [])
unfolding scan value
scan-value n [] h = refl
scan-value n (c ∷ s) (d, h) = rw (IsDigit-is_digit c d) (scan-value (n * 10 + (c - b'0')) s h)

scan-digits : (n : ℕ) (s : Text) → (scan n s).1 ≡ [] → All IsDigit s
unfolding scan
scan-digits n [] h = tt
scan-digits n (c ∷ s) h = elim (Bool-cases (is_digit c)) [
  | inl d ↦ (is_digit-IsDigit c d, scan-digits (n * 10 + (c - b'0')) s (rw d at h))
  | inr d ↦ absurd (no_rest (rw d at h))
]
  where
    no_rest : ¬ (c ∷ s ≡ [])
    no_rest h = cc

whole_number-rest : (r : ℕ × Text) (n : ℕ) → whole_number (some r) ≡ some n → (r.1 ≡ []) × (r.0 ≡ n)
whole_number-rest (m, []) n h = (refl, cc)
whole_number-rest (m, c ∷ s) n h = absurd cc

reads :
    (s : Text) (n : ℕ)
    → starts_number s ≡ true
    → scan 0 s ≡ (n, [])
    → n ≤ max_u64
    → parse_unsigned s ≡ some n
unfolding from_chars
reads s n starts read fits =
    let small : leb n max_u64 ≡ true = ground (arith, fits) in rw (starts, read, small) refl

IsNumeral-reads : (s : Text) (n : ℕ) → IsNumeral s n → parse_unsigned s ≡ some n
IsNumeral-reads [] n v = absurd (v.some_digit refl)
IsNumeral-reads (c ∷ s) n v =
    reads (c ∷ s) n (IsDigit-is_digit c v.digits.0)
      (scan-value 0 (c ∷ s) v.digits ∙ ap (λ (k : ℕ). (k, [])) v.spelled) v.fits

no_number : {n : ℕ} → ¬ (none ≡ some n)
no_number h = cc

not_empty : (s : Text) → starts_number s ≡ true → s ≢ []
not_empty [] h = λ e. absurd cc
not_empty (c ∷ s) h = λ e. cc

reads-IsNumeral : (s : Text) (n : ℕ) → parse_unsigned s ≡ some n → IsNumeral s n
unfolding from_chars
reads-IsNumeral s n h = elim (Bool-cases (starts_number s)) [
  | inr starts ↦ absurd (no_number (rw starts at h))
  | inl starts ↦ elim (Bool-cases (leb (scan 0 s).0 max_u64)) [
    | inr large ↦ absurd (no_number (rw (starts, large) at h))
    | inl small ↦
        let (rest, read) = whole_number-rest (scan 0 s) n (rw (starts, small) at h) in
        let digits = scan-digits 0 s rest in
        record {
          some_digit = not_empty s starts;
          digits = digits;
          spelled = ap (λ (r : ℕ × Text). r.0) (sym (scan-value 0 s digits)) ∙ read;
          fits = ground (arith, small, read);
        }
  ]
]

-- An integer field of an unsigned type is read as a number exactly if it is a numeral of that number: it
-- has digits only, at least one, and they spell the number, which fits into 64 bits.
pub parse_unsigned_iff : (s : Text) (n : ℕ) → (parse_unsigned s ≡ some n) ↔ IsNumeral s n
parse_unsigned_iff s n = (reads-IsNumeral s n, IsNumeral-reads s n)
