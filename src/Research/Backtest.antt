-- ===== src/Research/Backtest.antt =====
-- include/market/research/Backtest.hpp and src/Backtest.cpp: the event-driven backtest. Signed sums
-- are integers: an overflow of int64_t, undefined in C++, is not modelled.
pub mod Ledger
pub mod Flat
use market_order_book_engine.Base.{
  ℕ, ◌+◌, ℤ, pos, negsuc, pos_part, neg_part, ◌+ℤ◌, ◌-ℤ◌, ◌*ℤ◌, ltb_ℤ, eqb_ℤ, to_u64, to_i64, List,
  [], ◌∷◌, ◌++◌, Option, none, some, Bool, true, false, ◌&&◌, not, leb, ◌==◌, add64, rotl, bit_xor,
  if◌then◌else◌,
}
use market_order_book_engine.Types.{Side, buy, sell, MarketDataEvent, LevelView}
use market_order_book_engine.Checksum.{checksum_mix, side_salt}
use market_order_book_engine.Book.State.{Book, new_book}
use market_order_book_engine.Book.Events.{process_event}
use market_order_book_engine.Book.Views.{best_bid, best_ask}
use market_order_book_engine.Research.Float.{Float}
use market_order_book_engine.Research.Features.{L1Row, no_row, l1_row, l1_changed}

pub data Signal : Type 0 where
  short flat long : Signal

-- `static_cast<std::int64_t>(target)`
abbrev pub signal_value : Signal → ℤ
signal_value short = negsuc 0
signal_value flat = pos 0
signal_value long = pos 1

abbrev pub is_flat : Signal → Bool
is_flat flat = true
is_flat _ = false

module _ (f : Float) where
  open f use {Double, zero, of_u64, plus, minus, over, negate, le}

  -- ImbalanceStrategy::target
  unfoldable pub strategy_target : Double → Double → L1Row → Signal → Signal
  strategy_target enter exit l1 current =
      let bid = of_u64 l1.bid_sz in
      let ask = of_u64 l1.ask_sz in
      let total = plus bid ask in
      let imbalance = over (minus bid ask) total in
      if le total zero
      then flat
      else if le enter imbalance
      then long
      else if le imbalance (negate enter)
      then short
      else if le imbalance exit && le (negate exit) imbalance
      then flat
      else current

pub record Fill : Type 0 where
  pub timestamp_ns : ℕ
  pub side : Side
  pub price : ℤ
  pub quantity : ℕ

pub record Pending : Type 0 where
  pub arrival_ns : ℕ
  pub side : Side
  pub quantity : ℕ

-- The thresholds of the configuration are in `target`, the strategy that they make.
pub record Config : Type 0 where
  pub locate : ℕ
  pub latency_ns : ℕ
  pub order_size : ℕ
  pub target : L1Row → Signal → Signal

pub record Backtester : Type 0 where
  pub config : Config
  pub book : Book
  pub pending : List Pending
  pub fills : List Fill
  pub prev_l1 : L1Row
  pub have_l1 : Bool
  pub committed_units : ℤ
  pub position : ℤ
  pub cash_ticks : ℤ
  pub trades : ℕ
  pub unfilled : ℕ
  pub l1_updates : ℕ
  pub checksum : ℕ
  pub last_ts : ℕ

abbrev pub backtester_over : Config → Book → Backtester
backtester_over config b = record {
  config = config;
  book = b;
  pending = [];
  fills = [];
  prev_l1 = no_row;
  have_l1 = false;
  committed_units = pos 0;
  position = pos 0;
  cash_ticks = pos 0;
  trades = 0;
  unfilled = 0;
  l1_updates = 0;
  checksum = 0;
  last_ts = 0;
}

-- The constructor; `none` is the exception of the book's.
unfoldable pub new_backtester : Config → ℕ → Option Backtester
new_backtester config capacity = elim (new_book capacity) [
  | none ↦ none
  | some b ↦ some (backtester_over config b)
]

-- what a fill adds to the running checksum
pub fill_hash : ℕ → Side → ℤ → ℕ → ℕ
unfolding to_u64 rotl checksum_mix
fill_hash now_ns side price quantity =
    let h1 = bit_xor (checksum_mix now_ns) (rotl (checksum_mix (to_u64 price)) 11) in
    let h2 = bit_xor h1 (rotl (checksum_mix quantity) 23) in bit_xor h2 (side_salt side)

abbrev pub touch : Side → Book → Option LevelView
touch buy b = best_ask b
touch sell b = best_bid b

-- `position_ += signed_qty` or `position_ -= signed_qty`
abbrev pub signed_by : Side → ℤ → ℤ → ℤ
signed_by buy a b = a +ℤ b
signed_by sell a b = a -ℤ b

-- `cash_ticks_ -= price * signed_qty` or `cash_ticks_ += price * signed_qty`
abbrev pub paid_by : Side → ℤ → ℤ → ℤ
paid_by buy a b = a -ℤ b
paid_by sell a b = a +ℤ b

pub fill_at : Backtester → Side → ℕ → ℕ → ℤ → Backtester
unfolding fill_hash
fill_at t side quantity now_ns price =
    let signed_qty = to_i64 quantity in
    record t {
      position = signed_by side t.position signed_qty;
      cash_ticks = paid_by side t.cash_ticks (price *ℤ signed_qty);
      fills =
          t.fills
          ++ (record { timestamp_ns = now_ns; side = side; price = price; quantity = quantity }
              ∷ []);
      trades = add64 t.trades 1;
      checksum = checksum_mix (bit_xor t.checksum (fill_hash now_ns side price quantity));
    }

unfoldable pub execute_crossing : Backtester → Side → ℕ → ℕ → Backtester
unfolding fill_at
execute_crossing t side quantity now_ns = elim (touch side t.book) [
  | none ↦ record t { unfilled = add64 t.unfilled 1 }
  | some level ↦ fill_at t side quantity now_ns level.price_ticks
]

abbrev pub execute_pending : Backtester → Pending → Backtester
execute_pending t order = execute_crossing t order.side order.quantity order.arrival_ns

-- `while (!pending_.empty() && pending_.front().arrival_ns <= now_ns)`, over what is pending
pub release_loop : List Pending → Backtester → ℕ → Backtester
release_loop [] t now_ns = record t { pending = [] }
release_loop (order ∷ rest) t now_ns =
    let released = release_loop rest (execute_pending (record t { pending = rest }) order) now_ns in
    if leb order.arrival_ns now_ns then released else record t { pending = order ∷ rest }

unfoldable pub release_arrived : Backtester → ℕ → Backtester
unfolding release_loop
release_arrived t now_ns = release_loop t.pending t now_ns

abbrev pub current_signal : ℤ → Signal
current_signal units =
    if ltb_ℤ (pos 0) units then long else if ltb_ℤ units (pos 0) then short else flat

-- `std::llabs`
abbrev pub llabs : ℤ → ℕ
llabs a = pos_part a + neg_part a

-- The order of `delta` units: crossed at once, or sent on its way.
pub send_order : Backtester → MarketDataEvent → ℤ → Backtester
send_order t e delta =
    let side = if ltb_ℤ (pos 0) delta then buy else sell in
    let quantity = llabs delta in
    if t.config.latency_ns == 0
    then execute_crossing t side quantity e.exchange_timestamp_ns
    else (let order : Pending = record {
      arrival_ns = add64 e.exchange_timestamp_ns t.config.latency_ns;
      side = side;
      quantity = quantity;
    } in
        record t { pending = t.pending ++ (order ∷ []) })

-- The decision at a row that has changed.
pub decide : Backtester → MarketDataEvent → L1Row → Bool → Backtester
unfolding send_order
decide t e l1 first =
    let target = t.config.target l1 (current_signal t.committed_units) in
    let target_units = signal_value target *ℤ to_i64 t.config.order_size in
    if first && is_flat target
    then t
    else if eqb_ℤ target_units t.committed_units
    then t
    else send_order (record t { committed_units = target_units }) e
        (target_units -ℤ t.committed_units)

-- The book takes the event; a row that is two-sided and new is acted on.
pub observe : Backtester → MarketDataEvent → Backtester
unfolding decide
observe t e =
    let t1 = record t { book = (process_event t.book e).0; last_ts = e.exchange_timestamp_ns } in
    let l1 = l1_row e.sequence e.exchange_timestamp_ns t1.book in
    if not l1.two_sided
    then t1
    else if t1.have_l1 && not (l1_changed t1.prev_l1 l1)
    then t1
    else decide (record t1 { prev_l1 = l1; have_l1 = true; l1_updates = add64 t1.l1_updates 1 }) e
        l1 (not t1.have_l1)

unfoldable pub on_event : Backtester → MarketDataEvent → Backtester
unfolding observe
on_event t e =
    if not (e.symbol == t.config.locate)
    then t
    else observe (release_arrived t e.exchange_timestamp_ns) e

pub drain_loop : List Pending → Backtester → Backtester
drain_loop [] t = record t { pending = [] }
drain_loop (order ∷ rest) t = drain_loop rest (execute_pending (record t { pending = rest }) order)

-- `finish` up to the result: all that is pending executes, and the position is closed.
unfoldable pub settle : Backtester → Backtester
unfolding drain_loop
settle t =
    let t1 = drain_loop t.pending t in
    let side = if ltb_ℤ (pos 0) t1.position then sell else buy in
    if eqb_ℤ t1.position (pos 0)
    then t1
    else execute_crossing t1 side (llabs t1.position) t1.last_ts

pub record BacktestResult : Type 0 where
  pub position : ℤ
  pub cash_ticks : ℤ
  pub final_pnl_2x : ℤ
  pub trades : ℕ
  pub unfilled : ℕ
  pub l1_updates : ℕ
  pub checksum : ℕ

unfoldable pub finish : Backtester → BacktestResult
unfolding settle
finish t =
    let s = settle t in
    let h =
      bit_xor (checksum_mix (to_u64 s.position)) (rotl (checksum_mix (to_u64 s.cash_ticks)) 29) in
    record {
      position = s.position;
      cash_ticks = s.cash_ticks;
      final_pnl_2x =
          if s.have_l1
          then pos 2 *ℤ s.cash_ticks +ℤ s.position *ℤ (s.prev_l1.bid_px +ℤ s.prev_l1.ask_px)
          else pos 0;
      trades = s.trades;
      unfilled = s.unfilled;
      l1_updates = s.l1_updates;
      checksum = checksum_mix (bit_xor s.checksum h);
    }
