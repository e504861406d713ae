-- ===== src/Research/Features.antt =====
-- include/market/research/Features.hpp: the top of a book as a row of the feature stream.
use market_order_book_engine.Base.{
  ℕ, ℤ, pos, Option, none, some, Bool, true, false, ◌&&◌, ◌||◌, not, ◌==◌, eqb_ℤ,
}
use market_order_book_engine.Types.{LevelView}
use market_order_book_engine.Book.State.{Book}
use market_order_book_engine.Book.Views.{best_bid, best_ask}

pub record L1Row : Type 0 where
  pub sequence : ℕ
  pub timestamp_ns : ℕ
  pub bid_px : ℤ
  pub bid_sz : ℕ
  pub ask_px : ℤ
  pub ask_sz : ℕ
  pub two_sided : Bool

abbrev pub no_row : L1Row
no_row = record {
  sequence = 0;
  timestamp_ns = 0;
  bid_px = pos 0;
  bid_sz = 0;
  ask_px = pos 0;
  ask_sz = 0;
  two_sided = false;
}

abbrev pub has_value {ℓ} : {A : Type ℓ} → Option A → Bool
has_value none = false
has_value (some _) = true

-- the price and the size of a side, 0 where it is empty
abbrev pub px : Option LevelView → ℤ
px none = pos 0
px (some l) = l.price_ticks

abbrev pub sz : Option LevelView → ℕ
sz none = 0
sz (some l) = l.total_quantity

unfoldable pub l1_row : ℕ → ℕ → Book → L1Row
l1_row sequence timestamp_ns b =
    let bid = best_bid b in
    let ask = best_ask b in
    record {
      sequence = sequence;
      timestamp_ns = timestamp_ns;
      bid_px = px bid;
      bid_sz = sz bid;
      ask_px = px ask;
      ask_sz = sz ask;
      two_sided = has_value bid && has_value ask;
    }

unfoldable pub l1_changed : L1Row → L1Row → Bool
l1_changed a b =
    not (eqb_ℤ a.bid_px b.bid_px)
    || not (a.bid_sz == b.bid_sz)
    || not (eqb_ℤ a.ask_px b.ask_px)
    || not (a.ask_sz == b.ask_sz)
