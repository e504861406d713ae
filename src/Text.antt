-- ===== src/Text.antt =====
-- Text as bytes: literals, comparison, and the numbers that std::from_chars reads, for the CSV
-- connector and the command lines.
pub mod Cut
pub mod Decimal
pub mod Accept
use Prim.Native.Char.{code}
use Prim.Native.String.{String}
use market_order_book_engine.Base.{
  ℕ, ◌+◌, ◌-◌, ◌*◌, ◌^◌, ℤ, pos, negsuc, List, [], ◌∷◌, Option, none, some, Bool, true, false, ◌&&◌,
  leb, ltb, ◌==◌, if◌then◌else◌,
}

abbrev pub Text : Type 0
Text = List ℕ

-- the bytes of an ASCII literal
abbrev pub codes : String → Text
codes String.[] = []
codes (String.◌∷◌ c s) = code c ∷ codes s

-- `==` of string views
unfoldable pub equal : Text → Text → Bool
equal [] [] = true
equal [] (y ∷ ys) = false
equal (x ∷ xs) [] = false
equal (x ∷ xs) (y ∷ ys) = x == y && equal xs ys

-- `starts_with`
unfoldable pub starts_with : Text → Text → Bool
starts_with s [] = true
starts_with [] (y ∷ ys) = false
starts_with (x ∷ xs) (y ∷ ys) = x == y && starts_with xs ys

abbrev pub put_first : ℕ → Option (Text × Text) → Option (Text × Text)
put_first c none = none
put_first c (some (s, t)) = some (c ∷ s, t)

-- What stands before the first byte `d`, and what behind it.
unfoldable pub cut : ℕ → Text → Option (Text × Text)
cut d [] = none
cut d (c ∷ s) = let rest = put_first c (cut d s) in if c == d then some ([], s) else rest

abbrev pub is_digit : ℕ → Bool
is_digit c = leb b'0' c && leb c b'9'

-- The digits at the front, as the number that they spell behind `n`, and the text behind them.
unfoldable pub scan : ℕ → Text → ℕ × Text
scan n [] = (n, [])
scan n (c ∷ s) = if is_digit c then scan (n * 10 + (c - b'0')) s else (n, c ∷ s)

abbrev pub starts_number : Text → Bool
starts_number [] = false
starts_number (c ∷ s) = is_digit c

-- std::from_chars into an unsigned type of values up to `max`: the number and the text behind it, or
-- none where it gives an error code.
unfoldable pub from_chars : ℕ → Text → Option (ℕ × Text)
unfolding scan
from_chars max s =
    let (n, rest) = scan 0 s in
    if starts_number s then (if leb n max then some (n, rest) else none) else none

abbrev pub negated : ℕ → ℤ
negated n = if n == 0 then pos 0 else negsuc (n - 1)

abbrev pub as_positive : Option (ℕ × Text) → Option (ℤ × Text)
as_positive none = none
as_positive (some (n, rest)) = some (pos n, rest)

abbrev pub as_negative : Option (ℕ × Text) → Option (ℤ × Text)
as_negative none = none
as_negative (some (n, rest)) = some (negated n, rest)

-- std::from_chars into an int64_t
unfoldable pub from_chars_signed : Text → Option (ℤ × Text)
from_chars_signed [] = none
from_chars_signed (c ∷ s) =
    if c == b'-'
    then as_negative (from_chars (2 ^ 63) s)
    else as_positive (from_chars (2 ^ 63 - 1) (c ∷ s))

-- `error != std::errc{} || ptr != end` gives none
abbrev pub whole_number {ℓ} : {A : Type ℓ} → Option (A × Text) → Option A
whole_number none = none
whole_number (some (a, [])) = some a
whole_number (some (a, c ∷ s)) = none

abbrev pub max_u64 : ℕ
max_u64 = 2 ^ 64 - 1

abbrev pub parse_unsigned : Text → Option ℕ
parse_unsigned s = whole_number (from_chars max_u64 s)

abbrev pub parse_signed : Text → Option ℤ
parse_signed s = whole_number (from_chars_signed s)
