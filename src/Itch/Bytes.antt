-- ===== src/Itch/Bytes.antt =====
-- The big-endian readers of include/market/itch/ItchDecoder.hpp. A pointer into a message is the
-- message with an offset; `none` is a read past its end.
pub mod Reads
use market_order_book_engine.Base.{
  ℕ, zero, suc, ◌+◌, ◌*◌, ◌%◌, ◌^◌, List, Option, none, some, bit_or, get_elem?, leb, length, take,
  drop, if◌then◌else◌,
}

abbrev pub Bytes : Type 0
Bytes = List ℕ

infixl 5 ◌>>=◌
abbrev pub ◌>>=◌ {ℓ κ} : {A : Type ℓ} {B : Type κ} → Option A → (A → Option B) → Option B
none >>= f = none
some a >>= f = f a

-- `n` bytes from a pointer on; `none` if they are not all there.
unfoldable pub slice : Bytes → ℕ → ℕ → Option Bytes
slice p i n = if leb (i + n) (length p) then some (take n (drop i p)) else none

unfoldable pub read_be16 : Bytes → ℕ → Option ℕ
read_be16 p i = do
  b0 ← get_elem? p i
  b1 ← get_elem? p (i + 1)
  some (bit_or (b0 * 2 ^ 8 % 2 ^ 16) b1 % 2 ^ 16)

unfoldable pub read_be32 : Bytes → ℕ → Option ℕ
read_be32 p i = do
  b0 ← get_elem? p i
  b1 ← get_elem? p (i + 1)
  b2 ← get_elem? p (i + 2)
  b3 ← get_elem? p (i + 3)
  some (
      bit_or (bit_or (bit_or (b0 * 2 ^ 24 % 2 ^ 32) (b1 * 2 ^ 16 % 2 ^ 32)) (b2 * 2 ^ 8 % 2 ^ 32))
        b3)

-- `for (...) value = (value << 8) | p[i]`, with `n` rounds left
pub read_loop : Bytes → ℕ → ℕ → ℕ → Option ℕ
read_loop p i zero value = some value
read_loop p i (suc n) value =
    get_elem? p i >>= λ b. read_loop p (i + 1) n (bit_or (value * 2 ^ 8 % 2 ^ 64) b)

unfoldable pub read_be48 : Bytes → ℕ → Option ℕ
unfolding read_loop
read_be48 p i = read_loop p i 6 0

unfoldable pub read_be64 : Bytes → ℕ → Option ℕ
unfolding read_loop
read_be64 p i = read_loop p i 8 0
