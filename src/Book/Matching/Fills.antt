-- ===== src/Book/Matching/Fills.antt =====
-- The fills of a submitted order: how much they add up to, at which prices, in which sequence.
use market_order_book_engine.Base.{
  ℕ, zero, suc, ◌+◌, ◌^◌, ◌<◌, ℤ, ◌≡◌, refl, ◌∙◌, List, [], ◌∷◌, ◌++◌, ◌&&◌, not, min, ltb, ◌==◌,
  length, arith, Bool-cases, inl, inr,
}
use market_order_book_engine.Types.{
  opposite, OrderRequest, Fill, RequestType, SubmitResult, filled_complete, rested_no_fill,
  partial_fill_rested, partial_fill_killed, no_fill_killed, canceled, rejected_fok,
  rejected_duplicate, rejected_capacity, rejected_invalid,
}
use market_order_book_engine.Book.Table.{npos}
use market_order_book_engine.Book.State.{Book, order_at, level_at}
use market_order_book_engine.Book.Ladder.{ladder_top}
use market_order_book_engine.Book.Matching.{
  crosses, Run, fill_of, trade_step, level_loop, match_loop, match_order, Submitted, dispose,
  submit_new, submit_cancel, submit_typed, submit,
}

abbrev pub total : List Fill → ℕ
total [] = 0
total (f ∷ fs) = f.quantity + total fs

pub total-append : (fs gs : List Fill) → total (fs ++ gs) ≡ total fs + total gs
total-append [] gs = omega arith
total-append (f ∷ fs) gs = omega (arith, total-append fs gs)

-- `t` is `s` after trades: what has been filled is what remains less.
abbrev Conserves : Run → Run → Type 0
Conserves s t = (total t.fills + t.remaining ≡ total s.fills + s.remaining) × (t.remaining < 2 ^ 64)

module _ (r : OrderRequest) where
  trade_step-Conserves :
      (price : ℤ) (level_index : ℕ) (s : Run) (index : ℕ)
      → s.remaining < 2 ^ 64
      → Conserves s (trade_step r price level_index s index).0
  unfolding trade_step fill_of
  trade_step-Conserves price level_index s index h = omega (
    arith,
    total-append s.fills
        (fill_of r s.book price index (min s.remaining (order_at s.book index).quantity) ∷ []),
  )

  level_loop-Conserves :
      (price : ℤ) (level_index rounds : ℕ) (s : Run) (index : ℕ)
      → s.remaining < 2 ^ 64
      → Conserves s (level_loop r price level_index rounds s index)
  unfolding level_loop
  level_loop-Conserves price level_index zero s index h = (refl, h)
  level_loop-Conserves price level_index (suc rounds) s index h =
      let step = trade_step r price level_index s index in
      let kept = trade_step-Conserves price level_index s index h in
      let rest = level_loop-Conserves price level_index rounds step.0 step.1 kept.1 in
      elim (Bool-cases (not (index == npos) && ltb 0 s.remaining)) [
        | inl b ↦ rw b (rest.0 ∙ kept.0, rest.1)
        | inr b ↦ rw b (refl, h)
      ]

  match_loop-Conserves :
      (rounds : ℕ) (s : Run) → s.remaining < 2 ^ 64 → Conserves s (match_loop r rounds s)
  unfolding match_loop
  match_loop-Conserves zero s h = (refl, h)
  match_loop-Conserves (suc rounds) s h =
      let level_index = ladder_top (opposite r.side) s.book in
      let level = level_at s.book level_index in
      let kept =
        level_loop-Conserves level.price level_index (length s.book.orders + 1) s level.head h in
      let rest =
        match_loop-Conserves rounds
          (level_loop r level.price level_index (length s.book.orders + 1) s level.head) kept.1 in
      elim (Bool-cases (ltb 0 s.remaining && not (level_index == npos) && crosses r level.price)) [
        | inl b ↦ rw b (rest.0 ∙ kept.0, rest.1)
        | inr b ↦ rw b (refl, h)
      ]

-- What a result says of the filled part of an order for `wanted`.
abbrev pub Accounts : SubmitResult → ℕ → ℕ → Type 0
Accounts filled_complete filled wanted = (filled ≡ wanted) × (0 < wanted)
Accounts rested_no_fill filled wanted = (filled ≡ 0) × (0 < wanted)
Accounts partial_fill_rested filled wanted = (0 < filled) × (filled < wanted)
Accounts partial_fill_killed filled wanted = (0 < filled) × (filled < wanted)
Accounts no_fill_killed filled wanted = (filled ≡ 0) × (0 < wanted)
Accounts canceled filled wanted = filled ≡ 0
Accounts rejected_fok filled wanted = filled ≡ 0
Accounts rejected_duplicate filled wanted = filled ≡ 0
Accounts rejected_capacity filled wanted = filled < wanted
Accounts rejected_invalid filled wanted = filled ≡ 0

abbrev AccountsOf : ℕ → Submitted → Type 0
AccountsOf wanted s = Accounts s.result (total s.fills) wanted

dispose-Accounts :
    (r : OrderRequest) (s : Run)
    → total s.fills + s.remaining ≡ r.quantity
    → 0 < r.quantity
    → r.quantity < 2 ^ 64
    → AccountsOf r.quantity (dispose r s)
unfolding dispose
dispose-Accounts r s e pos small = ground arith

pub total-match_order :
    (b : Book) (r : OrderRequest)
    → r.quantity < 2 ^ 64
    → total (match_order b r).fills + (match_order b r).remaining ≡ r.quantity
unfolding match_order
total-match_order b r small = omega (
  arith,
  (match_loop-Conserves r (length b.levels + 1)
      (record { book = b; remaining = r.quantity; fills = [] }) small).0,
)

-- The result of a submitted order tells how much of it was filled, whatever the book: exactly all,
-- exactly nothing, or a part.
pub submit-Accounts :
    (b : Book) (r : OrderRequest)
    → r.quantity < 2 ^ 64
    → Accounts (submit b r).result (total (submit b r).fills) r.quantity
unfolding submit submit_new submit_cancel
submit-Accounts b r small = typed r.type
  where
    matched : total (match_order b r).fills + (match_order b r).remaining ≡ r.quantity
    matched = total-match_order b r small

    typed : (type : RequestType) → AccountsOf r.quantity (submit_typed b r type)
    typed RequestType.new = ground (arith, dispose-Accounts r (match_order b r) matched)
    typed RequestType.cancel = ground arith
