-- ===== src/Book/Events/Takes.antt =====
-- What a cancellation, a trade and a reduction of an order make of a whole book.
use market_order_book_engine.Base.{
  ℕ, ◌<◌, ◌≡◌, ◌≢◌, ◌⊎◌, inl, inr, refl, List, ◌∷◌, ◌++◌, arith, true, false, ◌==◌, ltb, sub64,
}
use native.Mathlib.Decide.{dec_le}
use market_order_book_engine.Types.{Side, applied, invalid_quantity}
use market_order_book_engine.Book.Table.{npos}
use market_order_book_engine.Book.State.{Book, order_at}
use market_order_book_engine.Book.Ladder.Swap.{Holds}
use market_order_book_engine.Book.Links.{
  find_order_index, erase_order_lookup, unlink, free_order_slot,
}
use market_order_book_engine.Book.Events.{cancel, decrement, trade}
use market_order_book_engine.Book.Whole.{IsBook}
use market_order_book_engine.Book.Whole.Changes.{pools_same}
use market_order_book_engine.Book.Whole.Unlink.{
  Left, SamePools-Left, free_order_slot-Left, unlink-Left, in_pool,
}
use market_order_book_engine.Book.Whole.Reduce.{Reduced, reduced-Reduced}

-- The order `o` of the id stands in the queue of its level, which is on the ladder of the side.
pub record Rests (b : Book) (queues : ℕ → List ℕ) (id o : ℕ) (side : Side) (ys zs : List ℕ)
    : Type 0 where
  pub found : find_order_index b id ≡ o
  pub there : o ≢ npos
  pub held : Holds side b (order_at b o).level
  pub here : queues (order_at b o).level ≡ ys ++ o ∷ zs

module _ (b : Book) (queues : ℕ → List ℕ) (id o : ℕ) (side : Side) (ys zs : List ℕ)
    (v : IsBook b queues) (h : Rests b queues id o side ys zs) where
  abbrev l : ℕ
  l = (order_at b o).level

  cancelled : Left side l o queues (ys ++ zs) b (cancel b id).0 × ((cancel b id).1 ≡ applied)
  unfolding cancel erase_order_lookup
  cancelled =
      let b1 = unlink b o in
      let b2 = erase_order_lookup b1 id in
      let b3 = free_order_slot b2 o in
      let other : (o == npos) ≡ false = ground (arith, h.there) in
      let w1 = unlink-Left b queues v o side h.held ys zs h.here in
      let w2 =
        SamePools-Left side l o queues (ys ++ zs) b b1 w1 b2
          (pools_same b1 b2 refl refl refl refl refl refl) in
      let w3 =
        free_order_slot-Left side l o queues (ys ++ zs) b b2 w2
          (in_pool b queues v o side h.held ys zs h.here) in
      rw (h.found, other)
        (
          SamePools-Left side l o queues (ys ++ zs) b b3 w3
              (record b3 { active_orders = sub64 b3.active_orders 1 })
              (pools_same b3 _ refl refl refl refl refl refl),
          refl,
        )

  traded_part :
      (quantity : ℕ)
      → quantity ≢ 0
      → quantity < (order_at b o).quantity
      → Reduced o quantity queues b (trade b id quantity).0 × ((trade b id quantity).1 ≡ applied)
  unfolding trade decrement
  traded_part quantity some less =
      let other : (o == npos) ≡ false = ground (arith, h.there) in
      let valid : (quantity == 0) ≡ false = ground (arith, some) in
      let enough : ltb (order_at b o).quantity quantity ≡ false = ground (arith, less) in
      let part : (quantity == (order_at b o).quantity) ≡ false = ground (arith, less) in
      rw (valid, h.found, other, enough, part)
        (reduced-Reduced b queues v o side h.held ys zs h.here quantity (omega (arith, less)), refl)

  traded_all :
      (quantity : ℕ)
      → quantity ≢ 0
      → quantity ≡ (order_at b o).quantity
      → trade b id quantity ≡ cancel b id
  unfolding trade
  traded_all quantity some all =
      let other : (o == npos) ≡ false = ground (arith, h.there) in
      let valid : (quantity == 0) ≡ false = ground (arith, some) in
      let enough : ltb (order_at b o).quantity quantity ≡ false = ground (arith, all) in
      let whole : (quantity == (order_at b o).quantity) ≡ true = ground (arith, all) in
      rw (valid, h.found, other, enough, whole) refl

  traded_more :
      (quantity : ℕ)
      → (order_at b o).quantity < quantity
      → trade b id quantity ≡ (b, invalid_quantity)
  unfolding trade
  traded_more quantity more =
      let other : (o == npos) ≡ false = ground (arith, h.there) in
      let valid : (quantity == 0) ≡ false = ground (arith, more) in
      let beyond : ltb (order_at b o).quantity quantity ≡ true = ground (arith, more) in
      rw (valid, h.found, other, beyond) refl

-- A trade or a reduction of an order that rests in a whole book, for a quantity that is not 0: beyond the
-- order's quantity it is refused and nothing changes; below it the order keeps its place with the rest; for
-- all of it the order leaves the book, as it does when it is cancelled, and with it its level if no order is
-- left there. The book stays whole.
pub trade-Takes :
    (b : Book) (queues : ℕ → List ℕ) (id o : ℕ) (side : Side) (ys zs : List ℕ) (quantity : ℕ)
    → IsBook b queues
    → Rests b queues id o side ys zs
    → quantity ≢ 0
    → (((order_at b o).quantity < quantity) × (trade b id quantity ≡ (b, invalid_quantity)))
      ⊎ ((quantity < (order_at b o).quantity)
          × Reduced o quantity queues b (trade b id quantity).0
          × ((trade b id quantity).1 ≡ applied))
      ⊎ ((quantity ≡ (order_at b o).quantity)
          × (trade b id quantity ≡ cancel b id)
          × Left side (order_at b o).level o queues (ys ++ zs) b (cancel b id).0
          × ((cancel b id).1 ≡ applied))
trade-Takes b queues id o side ys zs quantity v h some =
    elim (dec_le quantity (order_at b o).quantity) [
      | no n ↦
          let more : (order_at b o).quantity < quantity = omega (arith, n) in
          inl (more, traded_more b queues id o side ys zs v h quantity more)
      | yes e ↦ elim (dec_le (order_at b o).quantity quantity) [
        | no n ↦
            let less : quantity < (order_at b o).quantity = omega (arith, n) in
            let (r, a) = traded_part b queues id o side ys zs v h quantity some less in
            inr (inl (less, r, a))
        | yes d ↦
            let all : quantity ≡ (order_at b o).quantity = omega (arith, e, d) in
            let (w, a) = cancelled b queues id o side ys zs v h in
            inr (inr (all, traded_all b queues id o side ys zs v h quantity some all, w, a))
      ]
    ]
