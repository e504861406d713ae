-- ===== src/Itch/Bytes/Reads.antt =====
-- The big-endian readers stay inside a message that is long enough, and compute the number that the
-- bytes stand for.
use market_order_book_engine.Base.{
  ℕ, zero, suc, ◌+◌, ◌*◌, ◌%◌, ◌^◌, ◌≤◌, ◌<◌, ◌≡◌, refl, List, [], ◌∷◌, Option, some, length,
  get_elem?, bit_or, arith, leb, true, take, drop,
}
use market_order_book_engine.Itch.Bytes.{
  Bytes, ◌>>=◌, slice, read_be16, read_be32, read_loop, read_be48, read_be64,
}

abbrev pub Reads {ℓ} : {A : Type ℓ} → Option A → Type ℓ
Reads {A} o = (a : A) × (o ≡ some a)

pub get_elem?-Reads {ℓ} : {A : Type ℓ} (p : List A) (i : ℕ) → i < length p → Reads (get_elem? p i)
get_elem?-Reads [] i h = absurd (omega arith)
get_elem?-Reads (x ∷ p) zero h = (x, refl)
get_elem?-Reads (x ∷ p) (suc i) h = get_elem?-Reads p i (omega arith)

pub >>=-Reads {ℓ κ} :
    {A : Type ℓ} {B : Type κ} {o : Option A} (f : A → Option B)
    → Reads o
    → ((a : A) → Reads (f a))
    → Reads (o >>= f)
>>=-Reads f (a, e) h = rw e (h a)

pub slice-Reads : (p : Bytes) (i n : ℕ) → i + n ≤ length p → slice p i n ≡ some (take n (drop i p))
unfolding slice
slice-Reads p i n h =
    let inside : leb (i + n) (length p) ≡ true = ground (arith, h) in rw inside refl

module _ (p : Bytes) where
  pub read_loop-Reads : (n i value : ℕ) → i + n ≤ length p → Reads (read_loop p i n value)
  unfolding read_loop
  read_loop-Reads zero i value h = (value, refl)
  read_loop-Reads (suc n) i value h =
      >>=-Reads _ (get_elem?-Reads p i (omega arith)) λ b. read_loop-Reads n (i + 1) _ (omega arith)

  pub read_be16-Reads : (i : ℕ) → i + 2 ≤ length p → Reads (read_be16 p i)
  unfolding read_be16
  read_be16-Reads i h =
      >>=-Reads _ (get_elem?-Reads p i (omega arith))
        λ b0. >>=-Reads _ (get_elem?-Reads p (i + 1) (omega arith)) λ b1. (_, refl)

  pub read_be16_bounded :
      (i : ℕ) → i + 2 ≤ length p → (n : ℕ) × (read_be16 p i ≡ some n) × (n < 2 ^ 16)
  unfolding read_be16
  read_be16_bounded i h =
      let (b0, e0) = get_elem?-Reads p i (omega arith) in
      let (b1, e1) = get_elem?-Reads p (i + 1) (omega arith) in
      (bit_or (b0 * 2 ^ 8 % 2 ^ 16) b1 % 2 ^ 16, rw (e0, ◌>>=◌, e1), omega arith)

  pub read_be32-Reads : (i : ℕ) → i + 4 ≤ length p → Reads (read_be32 p i)
  unfolding read_be32
  read_be32-Reads i h = >>=-Reads _ (get_elem?-Reads p i (omega arith)) λ b0.
      >>=-Reads _ (get_elem?-Reads p (i + 1) (omega arith)) λ b1.
        >>=-Reads _ (get_elem?-Reads p (i + 2) (omega arith))
          λ b2. >>=-Reads _ (get_elem?-Reads p (i + 3) (omega arith)) λ b3. (_, refl)

  pub read_be48-Reads : (i : ℕ) → i + 6 ≤ length p → Reads (read_be48 p i)
  unfolding read_be48
  read_be48-Reads i h = read_loop-Reads 6 i 0 h

  pub read_be64-Reads : (i : ℕ) → i + 8 ≤ length p → Reads (read_be64 p i)
  unfolding read_be64
  read_be64-Reads i h = read_loop-Reads 8 i 0 h
