-- ===== src/Research/Backtest/Ledger.antt =====
-- The integer ledger of the backtest: its position and its cash are the sums over its fills.
use market_order_book_engine.Base.{
  ℕ, ◌%◌, ◌^◌, ℤ, pos, ◌-ℤ◌, ◌*ℤ◌, to_i64, ◌≡◌, refl, List, [], ◌∷◌, ◌++◌, Option-cases, Bool, true,
  add64, length, arith, length-append, eqb_ℤ, Bool-cases, inl, inr, leb, ◌==◌, not, ◌&&◌,
}
use market_order_book_engine.Types.{Side, MarketDataEvent}
use market_order_book_engine.Book.State.{Book}
use market_order_book_engine.Book.Events.{process_event}
use market_order_book_engine.Research.Features.{L1Row, l1_row, l1_changed}
use market_order_book_engine.Research.Backtest.{
  Fill, Pending, Config, Backtester, backtester_over, signed_by, paid_by, fill_at, touch,
  execute_crossing, execute_pending, release_loop, release_arrived, send_order, decide, observe,
  on_event, drain_loop, settle, llabs, current_signal, signal_value, is_flat,
}

-- The units that fills have bought, less those that they have sold.
abbrev pub net_units : ℤ → List Fill → ℤ
net_units acc [] = acc
net_units acc (f ∷ fs) = net_units (signed_by f.side acc (to_i64 f.quantity)) fs

-- The cash that fills have brought in, less what they have cost.
abbrev pub net_cash : ℤ → List Fill → ℤ
net_cash acc [] = acc
net_cash acc (f ∷ fs) = net_cash (paid_by f.side acc (f.price *ℤ to_i64 f.quantity)) fs

net_units-append :
    (acc : ℤ) (fs gs : List Fill) → net_units acc (fs ++ gs) ≡ net_units (net_units acc fs) gs
net_units-append acc [] gs = refl
net_units-append acc (f ∷ fs) gs = net_units-append (signed_by f.side acc (to_i64 f.quantity)) fs gs

net_cash-append :
    (acc : ℤ) (fs gs : List Fill) → net_cash acc (fs ++ gs) ≡ net_cash (net_cash acc fs) gs
net_cash-append acc [] gs = refl
net_cash-append acc (f ∷ fs) gs =
    net_cash-append (paid_by f.side acc (f.price *ℤ to_i64 f.quantity)) fs gs

-- The books balance: position and cash are the sums over the fills, and each fill counts as a trade.
pub record BalancedBy (fills : List Fill) (position cash : ℤ) (trades : ℕ) : Type 0 where
  pub units : position ≡ net_units (pos 0) fills
  pub money : cash ≡ net_cash (pos 0) fills
  pub count : trades ≡ length fills % 2 ^ 64

abbrev pub Balanced : Backtester → Type 0
Balanced t = BalancedBy t.fills t.position t.cash_ticks t.trades

pub backtester_over-Balanced : (config : Config) (b : Book) → Balanced (backtester_over config b)
backtester_over-Balanced config b = record { units = refl; money = refl; count = refl }

fill_at-Balanced :
    (t : Backtester) (side : Side) (quantity now_ns : ℕ) (price : ℤ)
    → Balanced t
    → Balanced (fill_at t side quantity now_ns price)
unfolding fill_at
fill_at-Balanced t side quantity now_ns price v =
    let fill : Fill = record {
      timestamp_ns = now_ns;
      side = side;
      price = price;
      quantity = quantity;
    } in
    record {
      units = rw (v.units, net_units-append);
      money = rw (v.money, net_cash-append);
      count = omega (arith, v.count, length-append t.fills (fill ∷ []));
    }

execute_crossing-Balanced :
    (t : Backtester) (side : Side) (quantity now_ns : ℕ)
    → Balanced t
    → Balanced (execute_crossing t side quantity now_ns)
unfolding execute_crossing
execute_crossing-Balanced t side quantity now_ns v = elim (Option-cases (touch side t.book)) [
  | inl e ↦ rw (e, execute_crossing) v
  | inr (level, e) ↦
      rw (e, execute_crossing) (fill_at-Balanced t side quantity now_ns level.price_ticks v)
]

release_loop-Balanced :
    (orders : List Pending) (t : Backtester) (now_ns : ℕ)
    → Balanced t
    → Balanced (release_loop orders t now_ns)
unfolding release_loop
release_loop-Balanced [] t now_ns v = v
release_loop-Balanced (order ∷ rest) t now_ns v =
    let t' = record t { pending = rest } in
    let next = execute_crossing-Balanced t' order.side order.quantity order.arrival_ns v in
    elim (Bool-cases (leb order.arrival_ns now_ns)) [
      | inl b ↦ rw b (release_loop-Balanced rest (execute_pending t' order) now_ns next)
      | inr b ↦ rw b v
    ]

drain_loop-Balanced :
    (orders : List Pending) (t : Backtester) → Balanced t → Balanced (drain_loop orders t)
unfolding drain_loop
drain_loop-Balanced [] t v = v
drain_loop-Balanced (order ∷ rest) t v =
    let t' = record t { pending = rest } in
    drain_loop-Balanced rest (execute_pending t' order)
      (execute_crossing-Balanced t' order.side order.quantity order.arrival_ns v)

send_order-Balanced :
    (t : Backtester) (e : MarketDataEvent) (delta : ℤ)
    → Balanced t
    → Balanced (send_order t e delta)
unfolding send_order
send_order-Balanced t e delta v = elim (Bool-cases (t.config.latency_ns == 0)) [
  | inl b ↦ rw b (execute_crossing-Balanced t _ (llabs delta) e.exchange_timestamp_ns v)
  | inr b ↦ rw b v
]

decide-Balanced :
    (t : Backtester) (e : MarketDataEvent) (l1 : L1Row) (first : Bool)
    → Balanced t
    → Balanced (decide t e l1 first)
unfolding decide
decide-Balanced t e l1 first v =
    let target = t.config.target l1 (current_signal t.committed_units) in
    let target_units = signal_value target *ℤ to_i64 t.config.order_size in
    elim (Bool-cases (first && is_flat target)) [
      | inl b ↦ rw b v
      | inr b ↦ rw b (elim (Bool-cases (eqb_ℤ target_units t.committed_units)) [
        | inl c ↦ rw c v
        | inr c ↦ rw c (
            send_order-Balanced (record t { committed_units = target_units }) e
              (target_units -ℤ t.committed_units) v)
      ])
    ]

observe-Balanced : (t : Backtester) (e : MarketDataEvent) → Balanced t → Balanced (observe t e)
unfolding observe
observe-Balanced t e v =
    let t1 = record t { book = (process_event t.book e).0; last_ts = e.exchange_timestamp_ns } in
    let l1 = l1_row e.sequence e.exchange_timestamp_ns t1.book in
    elim (Bool-cases (not l1.two_sided)) [
      | inl b ↦ rw b v
      | inr b ↦ rw b (elim (Bool-cases (t1.have_l1 && not (l1_changed t1.prev_l1 l1))) [
        | inl c ↦ rw c v
        | inr c ↦ rw c (
            decide-Balanced
              (record t1 { prev_l1 = l1; have_l1 = true; l1_updates = add64 t1.l1_updates 1 }) e l1
              (not t1.have_l1) v)
      ])
    ]

-- An event keeps the books balanced, whatever it releases, fills or sends on its way.
pub on_event-Balanced :
    (t : Backtester) (e : MarketDataEvent) → Balanced t → Balanced (on_event t e)
unfolding on_event release_arrived
on_event-Balanced t e v = elim (Bool-cases (not (e.symbol == t.config.locate))) [
  | inl b ↦ rw b v
  | inr b ↦ rw b (
      observe-Balanced (release_arrived t e.exchange_timestamp_ns) e
        (release_loop-Balanced t.pending t e.exchange_timestamp_ns v))
]

pub settle-Balanced : (t : Backtester) → Balanced t → Balanced (settle t)
unfolding settle
settle-Balanced t v =
    let t1 = drain_loop t.pending t in
    let v1 = drain_loop-Balanced t.pending t v in
    elim (Bool-cases (eqb_ℤ t1.position (pos 0))) [
      | inl b ↦ rw b v1
      | inr b ↦ rw b (execute_crossing-Balanced t1 _ (llabs t1.position) t1.last_ts v1)
    ]

pub feed : Backtester → List MarketDataEvent → Backtester
feed t [] = t
feed t (e ∷ es) = feed (on_event t e) es

feed-Balanced : (t : Backtester) (es : List MarketDataEvent) → Balanced t → Balanced (feed t es)
unfolding feed
feed-Balanced t [] v = v
feed-Balanced t (e ∷ es) v = feed-Balanced (on_event t e) es (on_event-Balanced t e v)

-- A backtest over any events, up to its result, ends with its books balanced: position and cash are
-- the sums over the fills, and the number of trades is their count.
pub backtest-Balanced :
    (config : Config) (b : Book) (es : List MarketDataEvent)
    → Balanced (settle (feed (backtester_over config b) es))
backtest-Balanced config b es =
    settle-Balanced (feed (backtester_over config b) es)
      (feed-Balanced (backtester_over config b) es (backtester_over-Balanced config b))
