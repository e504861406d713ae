-- ===== src/Book/Matching/Kill.antt =====
-- Fill-or-kill orders.
use market_order_book_engine.Base.{
  ℕ, ◌^◌, ◌≤◌, ◌<◌, ◌≡◌, ◌⊎◌, inl, inr, ap, subst, ◌∙◌, List, [], arith, ltb, Bool-cases,
}
use market_order_book_engine.Types.{
  opposite, OrderRequest, RequestType, fok, filled_complete, rejected_fok,
}
use market_order_book_engine.Book.State.{Book}
use market_order_book_engine.Book.Matching.{
  fillable_quantity, match_order, dispose, submit_new, submit_typed, submit,
}
use market_order_book_engine.Book.Matching.Fills.{Accounts, total, submit-Accounts}
use market_order_book_engine.Book.Matching.Rejected.{refuses, submit-refuses}
use market_order_book_engine.Book.Matching.Tiers.{tiers_of, Ranked}
use market_order_book_engine.Book.Matching.Complete.{match_order-Done}
use market_order_book_engine.Book.Matching.Offered.{match_tiers-offered}
use market_order_book_engine.Book.Matching.Fillable.{fillable_quantity_le}
use market_order_book_engine.Book.Whole.{IsBook, Stocked}

module _ (b : Book) (r : OrderRequest) (queues : ℕ → List ℕ) (ks : List ℕ) (v : IsBook b queues)
    (f : Stocked b queues) (h : Ranked (opposite r.side) b ks) (small : r.quantity < 2 ^ 64) where
  -- what fillable_quantity counts is filled
  filled-match_order : r.quantity ≤ fillable_quantity b r → (match_order b r).remaining ≡ 0
  filled-match_order enough =
      (match_order-Done b r queues ks v f h small).remaining
      ∙ match_tiers-offered r b.fill_sequence r.quantity (tiers_of b queues ks)
          (omega (arith, enough, fillable_quantity_le b r queues v ks h))

  submit_new-result :
      0 < r.quantity
      → r.tif ≡ fok
      → ((submit_new b r).result ≡ filled_complete) ⊎ ((submit_new b r).result ≡ rejected_fok)
  unfolding submit_new dispose
  submit_new-result pos kill = elim (Bool-cases (ltb (fillable_quantity b r) r.quantity)) [
    | inl e ↦ inr (ground (arith, pos, kill, e))
    | inr e ↦
        let done = filled-match_order (ground (arith, e)) in
        inl (ground (arith, pos, kill, e, done))
  ]

-- On a whole book, a fill-or-kill order for a positive quantity is filled completely, or it is rejected and
-- leaves the book as it was, with no fill.
pub submit-fok :
    (b : Book) (r : OrderRequest) (queues : ℕ → List ℕ) (ks : List ℕ)
    → IsBook b queues
    → Stocked b queues
    → Ranked (opposite r.side) b ks
    → 0 < r.quantity
    → r.quantity < 2 ^ 64
    → r.type ≡ RequestType.new
    → r.tif ≡ fok
    → (((submit b r).result ≡ filled_complete) × (total (submit b r).fills ≡ r.quantity))
      ⊎ (((submit b r).result ≡ rejected_fok) × ((submit b r).book ≡ b) × ((submit b r).fills ≡ []))
unfolding submit submit_typed
submit-fok b r queues ks v f h pos small new kill =
    elim (submit_new-result b r queues ks v f h small pos kill) [
      | inl e ↦
          let done : (submit b r).result ≡ filled_complete =
            ap (λ t. (submit_typed b r t).result) new ∙ e in
          let told : Accounts filled_complete (total (submit b r).fills) r.quantity =
            subst (λ t. Accounts t (total (submit b r).fills) r.quantity) done
              (submit-Accounts b r small) in
          inl (done, told.0)
      | inr e ↦
          let killed : (submit b r).result ≡ rejected_fok =
            ap (λ t. (submit_typed b r t).result) new ∙ e in
          let same = submit-refuses b r (ap refuses killed) in inr (killed, same.0, same.1)
    ]
