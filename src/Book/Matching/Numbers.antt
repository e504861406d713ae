-- ===== src/Book/Matching/Numbers.antt =====
-- The sequence numbers of the fills of a submitted order.
use market_order_book_engine.Base.{
  ℕ, zero, suc, ◌+◌, ℤ, ◌≡◌, refl, sym, ap, ◌∙◌, List, [], ◌∷◌, ◌++◌, ◌&&◌, not, min, ltb, ◌==◌,
  add64, length, arith, inl, inr, if_both,
}
use market_order_book_engine.Types.{opposite, OrderRequest, Fill, RequestType}
use market_order_book_engine.Book.Table.{npos}
use market_order_book_engine.Book.State.{Book, order_at, level_at}
use market_order_book_engine.Book.Ladder.{ladder_top}
use market_order_book_engine.Book.Ladder.Frame.{ladder_remove-Frame}
use market_order_book_engine.Book.Links.{
  leave_queue, release_level, erase_level_lookup, erase_order_lookup, unlink, free_order_slot,
}
use market_order_book_engine.Book.Matching.{
  crosses, Run, fill_of, remove_maker, reduce_maker, trade_step, level_loop, match_loop,
  match_order, submit_new, submit_cancel, submit_typed, submit,
}
use market_order_book_engine.Book.Matching.Prices.{submit_new-fills}

-- The fills are numbered from `n` on, by a counter of 64 bits.
abbrev pub Numbered : ℕ → List Fill → Type 0
Numbered n [] = Unit
Numbered n (f ∷ fs) = (f.sequence ≡ n) × Numbered (add64 n 1) fs

-- the counter after the fills
after : ℕ → List Fill → ℕ
after n [] = n
after n (f ∷ fs) = after (add64 n 1) fs

Numbered-append :
    (n : ℕ) (fs : List Fill) (f : Fill)
    → Numbered n fs
    → f.sequence ≡ after n fs
    → Numbered n (fs ++ f ∷ []) × (after n (fs ++ f ∷ []) ≡ add64 (after n fs) 1)
unfolding after
Numbered-append n [] f h e = ((e, tt), refl)
Numbered-append n (g ∷ fs) f (h, hs) e =
    let (rest, last) = Numbered-append (add64 n 1) fs f hs e in ((h, rest), last)

release_level-fill_sequence :
    (b : Book) (i : ℕ) → (release_level b i).fill_sequence ≡ b.fill_sequence
unfolding release_level erase_level_lookup
release_level-fill_sequence b i = (ladder_remove-Frame (level_at b i).side b i).fill_sequence

leave_queue-fill_sequence : (b : Book) (i : ℕ) → (leave_queue b i).fill_sequence ≡ b.fill_sequence
unfolding leave_queue
leave_queue-fill_sequence b i = ground arith

unlink-fill_sequence : (b : Book) (i : ℕ) → (unlink b i).fill_sequence ≡ b.fill_sequence
unfolding unlink
unlink-fill_sequence b i =
    let b1 = leave_queue b i in
    ground
      (arith, leave_queue-fill_sequence b i, release_level-fill_sequence b1 (order_at b i).level)

-- The counter goes up by one with each trade.
pub trade_step-fill_sequence :
    (r : OrderRequest) (price : ℤ) (level_index : ℕ) (s : Run) (index : ℕ)
    → (trade_step r price level_index s index).0.book.fill_sequence ≡ add64 s.book.fill_sequence 1
unfolding trade_step remove_maker reduce_maker free_order_slot erase_order_lookup
trade_step-fill_sequence r price level_index s index =
    let b1 = record (s.book) { fill_sequence = add64 s.book.fill_sequence 1 } in
    if_both (λ (b : Book). b.fill_sequence ≡ add64 s.book.fill_sequence 1)
      (min s.remaining (order_at s.book index).quantity == (order_at s.book index).quantity)
      (λ c. unlink-fill_sequence (erase_order_lookup b1 (order_at b1 index).id) index) λ c. refl

-- A run whose fills are numbered from `n` on, the counter of its book being the next number.
abbrev Counts : ℕ → Run → Type 0
Counts n s = Numbered n s.fills × (s.book.fill_sequence ≡ after n s.fills)

module _ (r : OrderRequest) (n : ℕ) where
  trade_step-Counts :
      (price : ℤ) (level_index : ℕ) (s : Run) (index : ℕ)
      → Counts n s
      → Counts n (trade_step r price level_index s index).0
  unfolding trade_step fill_of
  trade_step-Counts price level_index s index (numbered, counter) =
      let fill = fill_of r s.book price index (min s.remaining (order_at s.book index).quantity) in
      let (more, next) = Numbered-append n s.fills fill numbered counter in
      (
        more,
        trade_step-fill_sequence r price level_index s index
            ∙ ap (λ k. add64 k 1) counter
            ∙ sym next,
      )

  level_loop-Counts :
      (price : ℤ) (level_index rounds : ℕ) (s : Run) (index : ℕ)
      → Counts n s
      → Counts n (level_loop r price level_index rounds s index)
  unfolding level_loop
  level_loop-Counts price level_index zero s index c = c
  level_loop-Counts price level_index (suc rounds) s index c =
      let step = trade_step r price level_index s index in
      let rest =
        level_loop-Counts price level_index rounds step.0 step.1
          (trade_step-Counts price level_index s index c) in
      if_both (Counts n) (not (index == npos) && ltb 0 s.remaining) (λ b. rest) λ b. c

  match_loop-Counts : (rounds : ℕ) (s : Run) → Counts n s → Counts n (match_loop r rounds s)
  unfolding match_loop
  match_loop-Counts zero s c = c
  match_loop-Counts (suc rounds) s c =
      let level_index = ladder_top (opposite r.side) s.book in
      let level = level_at s.book level_index in
      let m = length s.book.orders + 1 in
      let rest =
        match_loop-Counts rounds (level_loop r level.price level_index m s level.head)
          (level_loop-Counts level.price level_index m s level.head c) in
      if_both (Counts n) (ltb 0 s.remaining && not (level_index == npos) && crosses r level.price)
        (λ b. rest) λ b. c

match_order-Numbered :
    (b : Book) (r : OrderRequest) → Numbered b.fill_sequence (match_order b r).fills
unfolding match_order after
match_order-Numbered b r =
    (match_loop-Counts r b.fill_sequence (length b.levels + 1)
      (record { book = b; remaining = r.quantity; fills = [] }) (tt, refl)).0

new_Numbered : (b : Book) (r : OrderRequest) → Numbered b.fill_sequence (submit_new b r).fills
new_Numbered b r = elim (submit_new-fills b r) [
  | inl e ↦ rw e (match_order-Numbered b r)
  | inr e ↦ rw e tt
]

-- The fills of an order are numbered one after the other, from the book's counter on.
pub submit-Numbered : (b : Book) (r : OrderRequest) → Numbered b.fill_sequence (submit b r).fills
unfolding submit submit_cancel
submit-Numbered b r = typed r.type
  where
    typed : (type : RequestType) → Numbered b.fill_sequence (submit_typed b r type).fills
    typed RequestType.new = new_Numbered b r
    typed RequestType.cancel = tt
