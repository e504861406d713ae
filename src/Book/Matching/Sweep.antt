-- ===== src/Book/Matching/Sweep.antt =====
-- The makers of a level as a list, and a reference for what an incoming order takes of them.
use market_order_book_engine.Base.{
  ℕ, ◌-◌, ◌≤◌, ◌<◌, ◌≡◌, ◌⊎◌, inl, inr, Bool-cases, true, false, arith, refl, List, [], ◌∷◌, All,
  leb, add64, if◌then◌else◌, ◌==◌, ℤ,
}
use market_order_book_engine.Types.{OrderRequest, Fill}
use market_order_book_engine.Book.State.{Book, order_at}
use market_order_book_engine.Book.Whole.Unlink.{SameMaker}

pub record Maker : Type 0 where
  pub id : ℕ
  pub quantity : ℕ

abbrev pub maker_of : Book → ℕ → Maker
maker_of b x = record { id = (order_at b x).id; quantity = (order_at b x).quantity }

-- the orders at the indices, first in the queue first
abbrev pub makers_of : Book → List ℕ → List Maker
makers_of b [] = []
makers_of b (x ∷ xs) = maker_of b x ∷ makers_of b xs

-- the fills, what remains of the incoming order, the makers that are left and the number of the next fill
pub record Swept : Type 0 where
  pub fills : List Fill
  pub remaining : ℕ
  pub left : List Maker
  pub next : ℕ

abbrev pub fill_with : OrderRequest → ℤ → ℕ → ℕ → ℕ → Fill
fill_with r price n id quantity = record {
  taker_id = r.id;
  maker_id = id;
  taker_side = r.side;
  price_ticks = price;
  quantity = quantity;
  sequence = n;
}

-- The makers are taken in their order, each as a whole as long as enough remains, the next one in part.
unfoldable pub sweep : OrderRequest → ℤ → ℕ → ℕ → List Maker → Swept
sweep r price n remaining [] = record { fills = []; remaining = remaining; left = []; next = n }
sweep r price n remaining (m ∷ ms) =
    let rest = sweep r price (add64 n 1) (remaining - m.quantity) ms in
    if remaining == 0
    then record { fills = []; remaining = 0; left = m ∷ ms; next = n }
    else if leb m.quantity remaining
    then record {
      fills = fill_with r price n m.id m.quantity ∷ rest.fills;
      remaining = rest.remaining;
      left = rest.left;
      next = rest.next;
    }
    else record {
      fills = fill_with r price n m.id remaining ∷ [];
      remaining = 0;
      left = record { id = m.id; quantity = m.quantity - remaining } ∷ ms;
      next = add64 n 1;
    }

-- Orders that keep their ids and quantities are the same makers.
pub makers_of-same :
    (b b' : Book) (xs : List ℕ) → All (SameMaker b b') xs → makers_of b' xs ≡ makers_of b xs
makers_of-same b b' [] h = refl
makers_of-same b b' (x ∷ xs) ((i, q), h) = rw (i, q, makers_of-same b b' xs h) refl

-- What remains is nothing, or no maker is left.
pub sweep-ends :
    (r : OrderRequest) (price : ℤ) (n remaining : ℕ) (ms : List Maker)
    → ((sweep r price n remaining ms).remaining ≡ 0) ⊎ ((sweep r price n remaining ms).left ≡ [])
unfolding sweep
sweep-ends r price n remaining [] = inr refl
sweep-ends r price n remaining (m ∷ ms) =
    let rest = sweep-ends r price (add64 n 1) (remaining - m.quantity) ms in
    elim (Bool-cases (remaining == 0)) [
      | inl e ↦ rw e (inl refl)
      | inr e ↦ rw e (elim (Bool-cases (leb m.quantity remaining)) [
        | inl d ↦ rw d rest
        | inr d ↦ rw d (inl refl)
      ])
    ]

pub sweep_le :
    (r : OrderRequest) (price : ℤ) (n remaining : ℕ) (ms : List Maker)
    → (sweep r price n remaining ms).remaining ≤ remaining
unfolding sweep
sweep_le r price n remaining [] = omega arith
sweep_le r price n remaining (m ∷ ms) =
    let rest = sweep_le r price (add64 n 1) (remaining - m.quantity) ms in
    elim (Bool-cases (remaining == 0)) [
      | inl e ↦ rw e (omega arith)
      | inr e ↦ rw e (elim (Bool-cases (leb m.quantity remaining)) [
        | inl d ↦ rw d (omega (arith, rest))
        | inr d ↦ rw d (omega arith)
      ])
    ]

module _ (r : OrderRequest) (price : ℤ) (n remaining : ℕ) where
  pub sweep_none :
      (ms : List Maker)
      → remaining ≡ 0
      → sweep r price n remaining ms ≡ record { fills = []; remaining = 0; left = ms; next = n }
  unfolding sweep
  sweep_none [] e = rw e refl
  sweep_none (m ∷ ms) e = let none : (remaining == 0) ≡ true = ground (arith, e) in rw none refl

  pub sweep_filled :
      (m : Maker) (ms : List Maker)
      → 0 < remaining
      → m.quantity ≤ remaining
      → let rest = sweep r price (add64 n 1) (remaining - m.quantity) ms in
        sweep r price n remaining (m ∷ ms) ≡ record {
          fills = fill_with r price n m.id m.quantity ∷ rest.fills;
          remaining = rest.remaining;
          left = rest.left;
          next = rest.next;
        }
  unfolding sweep
  sweep_filled m ms h k =
      let more : (remaining == 0) ≡ false = ground (arith, h) in
      let enough : leb m.quantity remaining ≡ true = ground (arith, k) in rw (more, enough) refl

  pub sweep_part :
      (m : Maker) (ms : List Maker)
      → 0 < remaining
      → remaining < m.quantity
      → sweep r price n remaining (m ∷ ms) ≡ record {
        fills = fill_with r price n m.id remaining ∷ [];
        remaining = 0;
        left = record { id = m.id; quantity = m.quantity - remaining } ∷ ms;
        next = add64 n 1;
      }
  unfolding sweep
  sweep_part m ms h k =
      let more : (remaining == 0) ≡ false = ground (arith, h) in
      let less : leb m.quantity remaining ≡ false = ground (arith, k) in rw (more, less) refl
