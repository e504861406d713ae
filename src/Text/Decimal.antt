-- ===== src/Text/Decimal.antt =====
-- Decimal print, and that reading gives a printed number back.
use native.Mathlib.Nat.{pow-suc}
use market_order_book_engine.Base.{
  ℕ, zero, suc, ◌+◌, ◌-◌, ◌*◌, ◌/◌, ◌%◌, ◌^◌, ◌≤◌, ◌<◌, ◌≡◌, refl, ℤ, pos, negsuc, [], ◌∷◌, some,
  true, false, ltb, leb, arith, ◌∙◌, ap, sym, subst, ◌==◌, if◌then◌else◌, All, IsI64, if_both, ◌≢◌,
}
use market_order_book_engine.Text.Cut.{Lacks}
use market_order_book_engine.Text.{
  Text, scan, starts_number, from_chars, from_chars_signed, whole_number, max_u64, parse_unsigned,
  parse_signed, as_positive, as_negative,
}

abbrev digit : ℕ → ℕ
digit n = b'0' + n % 10

-- The digits of `n` in front of `out`, by rounds of a division by ten.
decimal_loop : ℕ → ℕ → Text → Text
decimal_loop zero n out = out
decimal_loop (suc rounds) n out =
    let rest = decimal_loop rounds (n / 10) (digit n ∷ out) in
    if ltb n 10 then digit n ∷ out else rest

-- The decimal print of a number below 10 ^ 20.
pub decimal : ℕ → Text
unfolding decimal_loop
decimal n = decimal_loop 20 n []

-- the print of an integer
pub decimal_signed : ℤ → Text
decimal_signed (pos n) = decimal n
decimal_signed (negsuc n) = b'-' ∷ decimal (n + 1)

-- what a number ends at: no digit follows
abbrev pub EndsNumber : Text → Type 0
EndsNumber s = starts_number s ≡ false

-- one digit more
scan-digit : (m n : ℕ) (out : Text) → scan m (digit n ∷ out) ≡ scan (m * 10 + n % 10) out
unfolding scan
scan-digit m n out = ground arith

-- reading the digits of `n` behind `m`, where `out` goes on from the number read so far
decimal_loop-scan :
    (rounds n : ℕ) (out : Text)
    → n < 10 ^ rounds
    → 0 < rounds
    → (scan 0 (decimal_loop rounds n out) ≡ scan n out)
      × (starts_number (decimal_loop rounds n out) ≡ true)
unfolding decimal_loop
decimal_loop-scan zero n out h p = absurd (omega arith)
decimal_loop-scan (suc rounds) n out h p =
    if_both (λ (s : Text). (scan 0 s ≡ scan n out) × (starts_number s ≡ true)) (ltb n 10)
      (λ e.
        let small : n < 10 = ground (arith, e) in
        (scan-digit 0 n out ∙ ap (λ k. scan k out) (omega (arith, small)), ground arith))
      (λ e.
        let big : 10 ≤ n = ground (arith, e) in
        let split : 10 ^ suc rounds ≡ 10 ^ rounds * 10 = pow-suc 10 rounds in
        let up =
          decimal_loop-scan rounds (n / 10) (digit n ∷ out) (omega (arith, split, h))
            (some_rounds rounds n h big) in
        (up.0 ∙ scan-digit (n / 10) n out ∙ ap (λ k. scan k out) (omega arith), up.1))
  where
    some_rounds : (rounds n : ℕ) → n < 10 ^ suc rounds → 10 ≤ n → 0 < rounds
    some_rounds zero n h big = absurd (omega (arith, h, big))
    some_rounds (suc rounds) n h big = omega arith

-- what stands behind the number is left
scan-EndsNumber : (n : ℕ) (s : Text) → EndsNumber s → scan n s ≡ (n, s)
unfolding scan
scan-EndsNumber n [] h = refl
scan-EndsNumber n (c ∷ s) h = rw h refl

pub decimal-scan :
    (n : ℕ) → n ≤ max_u64 → (scan 0 (decimal n) ≡ (n, [])) × (starts_number (decimal n) ≡ true)
unfolding decimal
decimal-scan n h =
    let read = decimal_loop-scan 20 n [] (omega (arith, h)) (omega arith) in
    (read.0 ∙ scan-EndsNumber n [] refl, read.1)

from_chars-decimal :
    (most n : ℕ) → n ≤ most → n ≤ max_u64 → from_chars most (decimal n) ≡ some (n, [])
unfolding from_chars
from_chars-decimal most n h k =
    let (read, starts) = decimal-scan n k in
    let within : leb n most ≡ true = ground (arith, h) in rw (starts, read, within) refl

-- The decimal print of a number within the range of uint64_t is read as that number.
pub parse_unsigned-decimal : (n : ℕ) → n ≤ max_u64 → parse_unsigned (decimal n) ≡ some n
parse_unsigned-decimal n h = ap whole_number (from_chars-decimal max_u64 n h h)

from_chars_signed-positive :
    (s : Text)
    → starts_number s ≡ true
    → from_chars_signed s ≡ as_positive (from_chars (2 ^ 63 - 1) s)
unfolding from_chars_signed
from_chars_signed-positive [] h = absurd (ground (arith, h))
from_chars_signed-positive (c ∷ s) h =
    let other : (c == b'-') ≡ false = ground (arith, h) in rw other refl

-- The print of a number within the range of int64_t is read as that number.
pub parse_signed-decimal : (i : ℤ) → IsI64 i → parse_signed (decimal_signed i) ≡ some i
unfolding decimal_signed from_chars_signed
parse_signed-decimal (pos n) h = ap whole_number (
    from_chars_signed-positive (decimal n) (decimal-scan n (omega (arith, h))).1
    ∙ ap as_positive (from_chars-decimal (2 ^ 63 - 1) n (omega (arith, h)) (omega (arith, h))))
parse_signed-decimal (negsuc n) h =
    let read =
      ap as_negative (from_chars-decimal (2 ^ 63) (n + 1) (omega (arith, h)) (omega (arith, h))) in
    ap whole_number read ∙ ground arith

-- a byte that is a digit
abbrev pub IsDigit : ℕ → Type 0
IsDigit c = (b'0' ≤ c) × (c ≤ b'9')

decimal_loop-digits :
    (rounds n : ℕ) (out : Text) → All IsDigit out → All IsDigit (decimal_loop rounds n out)
unfolding decimal_loop
decimal_loop-digits zero n out h = h
decimal_loop-digits (suc rounds) n out h =
    let more : All IsDigit (digit n ∷ out) = ((omega arith, omega arith), h) in
    if_both (All IsDigit) (ltb n 10) (λ e. more)
      (λ e. decimal_loop-digits rounds (n / 10) (digit n ∷ out) more)

-- A print has no byte that is neither a digit nor a sign.
pub decimal-Lacks : (d n : ℕ) → ¬ (IsDigit d) → Lacks d (decimal n)
unfolding decimal
decimal-Lacks d n other = only (decimal_loop 20 n []) (decimal_loop-digits 20 n [] tt)
  where
    only : (s : Text) → All IsDigit s → Lacks d s
    only [] h = tt
    only (c ∷ s) (p, h) = (λ e. other (subst IsDigit e p), only s h)

pub decimal_signed-Lacks : (d : ℕ) (i : ℤ) → ¬ (IsDigit d) → d ≢ b'-' → Lacks d (decimal_signed i)
unfolding decimal_signed
decimal_signed-Lacks d (pos n) other sign = decimal-Lacks d n other
decimal_signed-Lacks d (negsuc n) other sign = (λ e. sign (sym e), decimal-Lacks d (n + 1) other)
