-- ===== src/Programs/Replay/Counted.antt =====
-- What the counts of a replay say of the events.
use market_order_book_engine.Base.{
  ℕ, suc, ◌+◌, ◌^◌, ◌≤◌, ◌<◌, ◌≡◌, ◌⊎◌, inl, inr, refl, List, [], ◌∷◌, false, if◌then◌else◌, arith,
  length, max, Bool-cases,
}
use market_order_book_engine.Types.{MarketDataEvent, is_applied}
use market_order_book_engine.Book.State.{Book}
use market_order_book_engine.Book.Events.{process_event}
use market_order_book_engine.Book.Views.{order_count}
use market_order_book_engine.Programs.Limit.{left, is_full, left-more, left_none}
use market_order_book_engine.Programs.Replay.{
  Counts, no_counts, counted, peaked, apply_loop, apply_all,
}

-- The book behind some events, one after the other.
unfoldable pub book_after : Book → List MarketDataEvent → Book
book_after b [] = b
book_after b (e ∷ events) = book_after (process_event b e).0 events

-- the number of the events that are applied
unfoldable pub applied_in : Book → List MarketDataEvent → ℕ
applied_in b [] = 0
applied_in b (e ∷ events) =
    (if is_applied (process_event b e).1 then 1 else 0) + applied_in (process_event b e).0 events

-- the largest number of orders behind an event
unfoldable pub peak_in : Book → List MarketDataEvent → ℕ
peak_in b [] = 0
peak_in b (e ∷ events) =
    max (order_count (process_event b e).0) (peak_in (process_event b e).0 events)

-- Counts that go on from `c` over the events.
pub record Counted (events : List MarketDataEvent) (b : Book) (c : Counts) (r : Counts × Book)
    : Type 0 where
  pub book : r.1 ≡ book_after b events
  pub decoded : r.0.decoded ≡ c.decoded + length events
  pub applied : r.0.applied ≡ c.applied + applied_in b events
  pub rejected : r.0.applied + r.0.rejected + c.decoded ≡ c.applied + c.rejected + r.0.decoded
  pub peak : r.0.peak_orders ≡ max c.peak_orders (peak_in b events)

-- The counts of a loop that goes on, with so many events to come.
record Sound (max_events : ℕ) (c : Counts) (coming : ℕ) : Type 0 where
  applied : c.applied ≤ c.decoded
  rejected : c.rejected ≤ c.decoded
  small : c.decoded + coming < 2 ^ 64
  more : (max_events ≡ 0) ⊎ (c.decoded < max_events)

-- the counts behind an event
abbrev behind : Counts → Book → MarketDataEvent → Counts
behind c b e =
    let (b', result) = process_event b e in peaked (counted c (is_applied result)) (order_count b')

Counted-none : (b : Book) (c : Counts) → Counted [] b c (c, b)
unfolding book_after applied_in peak_in
Counted-none b c = record {
  book = refl;
  decoded = omega arith;
  applied = omega arith;
  rejected = omega arith;
  peak = omega arith;
}

module _ (max_events : ℕ) (c : Counts) (b : Book) (e : MarketDataEvent) where
  Counted-more :
      (n : ℕ)
      → Sound max_events c (suc n)
      → (events : List MarketDataEvent) (r : Counts × Book)
      → Counted events (process_event b e).0 (behind c b e) r
      → Counted (e ∷ events) b c r
  unfolding book_after applied_in peak_in
  Counted-more n v events r h = record {
    book = h.book;
    decoded = ground (arith, h.decoded, v.small);
    applied = ground (arith, h.applied, v.small, v.applied);
    rejected = ground (arith, h.rejected, v.small, v.applied, v.rejected);
    peak = ground (arith, h.peak);
  }

  Sound-behind :
      (n : ℕ)
      → Sound max_events c (suc n)
      → is_full max_events (behind c b e).decoded ≡ false
      → Sound max_events (behind c b e) n
  Sound-behind n v h = record {
    applied = ground (arith, v.applied, v.rejected, v.small);
    rejected = ground (arith, v.applied, v.rejected, v.small);
    small = ground (arith, v.small);
    more = grind (arith, v.small, h);
  }

apply_loop-Counted :
    (events : List MarketDataEvent) (max_events : ℕ) (c : Counts) (b : Book)
    → Sound max_events c (length events)
    → Counted (left max_events c.decoded events) b c (apply_loop events max_events c b)
unfolding apply_loop
apply_loop-Counted [] max_events c b v = rw (left_none max_events c.decoded) (Counted-none b c)
apply_loop-Counted (e ∷ events) max_events c b v =
    let more = left-more max_events c.decoded e events v.more (omega (arith, v.small)) in
    let one = Counted-more max_events c b e (length events) v in
    elim (Bool-cases (is_full max_events (behind c b e).decoded)) [
      | inl d ↦ rw (more, d) (one [] _ (Counted-none (process_event b e).0 (behind c b e)))
      | inr d ↦
          rw (more, d)
            (one _ _ (
              apply_loop-Counted events max_events (behind c b e) (process_event b e).0
                (Sound-behind max_events c b e (length events) v d)))
    ]

-- A replay applies the events in order, up to the limit if there is one: the book is the one behind these
-- events, the counts are their number, the number of those applied and of the others, and the peak is the
-- largest number of orders behind one of them.
pub apply_all-Counted :
    (events : List MarketDataEvent) (b : Book) (max_events : ℕ)
    → length events < 2 ^ 64
    → Counted (left max_events 0 events) b no_counts (apply_all events b max_events)
unfolding apply_all
apply_all-Counted events b max_events h = apply_loop-Counted events max_events no_counts b record {
  applied = omega arith;
  rejected = omega arith;
  small = omega (arith, h);
  more = ground arith;
}
