-- ===== src/Book/Matching/Rejected.antt =====
-- What a submitted order leaves untouched when it is refused.
use market_order_book_engine.Base.{◌≡◌, [], Bool, true, false, arith}
use market_order_book_engine.Types.{
  OrderRequest, RequestType, SubmitResult, rejected_fok, rejected_duplicate, rejected_invalid,
}
use market_order_book_engine.Book.State.{Book}
use market_order_book_engine.Book.Events.{cancel}
use market_order_book_engine.Book.Matching.{
  Submitted, dispose, submit_new, submit_cancel, submit_typed, submit,
}

-- the results that promise that nothing was done
abbrev pub refuses : SubmitResult → Bool
refuses rejected_fok = true
refuses rejected_duplicate = true
refuses rejected_invalid = true
refuses _ = false

abbrev Untouched : Book → Submitted → Type 0
Untouched b s = refuses s.result ≡ true → (s.book ≡ b) × (s.fills ≡ [])

new_Untouched : (b : Book) (r : OrderRequest) → Untouched b (submit_new b r)
unfolding submit_new dispose
new_Untouched b r h = ground arith

cancel_Untouched : (b : Book) (r : OrderRequest) → Untouched b (submit_cancel b r)
unfolding submit_cancel cancel
cancel_Untouched b r h = ground arith

-- An order that is rejected as invalid, as a duplicate or as a fill-or-kill that cannot be filled
-- leaves the book as it was and causes no fill.
pub submit-refuses :
    (b : Book) (r : OrderRequest)
    → refuses (submit b r).result ≡ true
    → ((submit b r).book ≡ b) × ((submit b r).fills ≡ [])
unfolding submit
submit-refuses b r = typed r.type
  where
    typed : (type : RequestType) → Untouched b (submit_typed b r type)
    typed RequestType.new = new_Untouched b r
    typed RequestType.cancel = cancel_Untouched b r
