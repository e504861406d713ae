-- ===== src/Book/Matching/Prices.antt =====
-- Who the fills of a submitted order name, and at which prices.
use market_order_book_engine.Base.{
  ℕ, zero, suc, ◌+◌, ℤ, ◌≡◌, refl, [], true, ◌&&◌, not, ltb, ◌==◌, length, arith, Bool-cases, inl,
  inr, ◌⊎◌, All, All-append,
}
use market_order_book_engine.Types.{opposite, OrderRequest, Fill, RequestType}
use market_order_book_engine.Book.Table.{npos}
use market_order_book_engine.Book.State.{Book, level_at}
use market_order_book_engine.Book.Ladder.{ladder_top}
use market_order_book_engine.Book.Matching.{
  crosses, Run, fill_of, trade_step, level_loop, match_loop, match_order, dispose, submit_new,
  submit_cancel, submit_typed, submit,
}

-- What every fill of `r` has: the ids and the side, and a price that the order's limit allows.
pub record IsFillOf (r : OrderRequest) (f : Fill) : Type 0 where
  pub taker : f.taker_id ≡ r.id
  pub side : f.taker_side ≡ r.side
  pub inside : crosses r f.price_ticks ≡ true

module _ (r : OrderRequest) where
  level_loop-IsFillOf :
      (price : ℤ) (level_index rounds : ℕ) (s : Run) (index : ℕ)
      → crosses r price ≡ true
      → All (IsFillOf r) s.fills
      → All (IsFillOf r) (level_loop r price level_index rounds s index).fills
  unfolding level_loop trade_step fill_of
  level_loop-IsFillOf price level_index zero s index h a = a
  level_loop-IsFillOf price level_index (suc rounds) s index h a =
      let step = trade_step r price level_index s index in
      let rest = level_loop-IsFillOf price level_index rounds step.0 step.1 h (
        All-append (IsFillOf r) s.fills _ a
          (record { taker = refl; side = refl; inside = h }, tt)) in
      elim (Bool-cases (not (index == npos) && ltb 0 s.remaining)) [
        | inl b ↦ rw b rest
        | inr b ↦ rw b a
      ]

  match_loop-IsFillOf :
      (rounds : ℕ) (s : Run)
      → All (IsFillOf r) s.fills
      → All (IsFillOf r) (match_loop r rounds s).fills
  unfolding match_loop
  match_loop-IsFillOf zero s a = a
  match_loop-IsFillOf (suc rounds) s a =
      let level_index = ladder_top (opposite r.side) s.book in
      let level = level_at s.book level_index in
      let n = length s.book.orders + 1 in
      elim (Bool-cases (ltb 0 s.remaining && not (level_index == npos) && crosses r level.price)) [
        | inl b ↦ rw b (
            match_loop-IsFillOf rounds (level_loop r level.price level_index n s level.head)
              (level_loop-IsFillOf level.price level_index n s level.head (ground arith) a))
        | inr b ↦ rw b a
      ]

match_order-IsFillOf : (b : Book) (r : OrderRequest) → All (IsFillOf r) (match_order b r).fills
unfolding match_order
match_order-IsFillOf b r =
    match_loop-IsFillOf r (length b.levels + 1)
      (record { book = b; remaining = r.quantity; fills = [] }) tt

-- A new order ends with the fills of the match, or with none.
pub submit_new-fills :
    (b : Book) (r : OrderRequest)
    → ((submit_new b r).fills ≡ (match_order b r).fills) ⊎ ((submit_new b r).fills ≡ [])
unfolding submit_new dispose
submit_new-fills b r = ground arith

new_IsFillOf : (b : Book) (r : OrderRequest) → All (IsFillOf r) (submit_new b r).fills
new_IsFillOf b r = elim (submit_new-fills b r) [
  | inl e ↦ rw e (match_order-IsFillOf b r)
  | inr e ↦ rw e tt
]

-- Every fill that an order causes carries its id and its side, at a price within its limit.
pub submit-IsFillOf : (b : Book) (r : OrderRequest) → All (IsFillOf r) (submit b r).fills
unfolding submit submit_cancel
submit-IsFillOf b r = typed r.type
  where
    typed : (type : RequestType) → All (IsFillOf r) (submit_typed b r type).fills
    typed RequestType.new = new_IsFillOf b r
    typed RequestType.cancel = tt
