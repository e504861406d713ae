-- ===== src/Programs/Features/Taken.antt =====
-- The events that the feature stream takes.
use market_order_book_engine.Base.{
  ℕ, ◌+◌, ◌^◌, ◌≤◌, ◌<◌, ◌≡◌, ◌⊎◌, inl, inr, refl, subst, ap, ◌∙◌, List, [], ◌∷◌, not, ◌||◌, ◌==◌,
  if◌then◌else◌, if_both, arith, length, add64, Bool-cases,
}
use market_order_book_engine.Types.{MarketDataEvent}
use market_order_book_engine.Book.State.{Book}
use market_order_book_engine.Book.Events.{process_event}
use market_order_book_engine.Research.Features.{l1_row, l1_changed}
use market_order_book_engine.Programs.Limit.{left, is_full, left-more, left_none}
use market_order_book_engine.Programs.Replay.Counted.{book_after}
use market_order_book_engine.Programs.Features.{
  Emitter, emitter, write_changed, take_event, emit_loop,
}

-- the events of one symbol
unfoldable pub of_symbol : ℕ → List MarketDataEvent → List MarketDataEvent
of_symbol locate [] = []
of_symbol locate (e ∷ events) =
    let rest = of_symbol locate events in if not (e.symbol == locate) then rest else e ∷ rest

-- The loop has taken these events, from a book and a number of events taken.
pub record Taken (events : List MarketDataEvent) (b : Book) (n : ℕ) (t : Emitter) : Type 0 where
  pub book : t.book ≡ book_after b events
  pub decoded : t.decoded ≡ n + length events

take_event-book :
    (t : Emitter) (e : MarketDataEvent) → (take_event t e).book ≡ (process_event t.book e).0
unfolding take_event write_changed
take_event-book t e =
    let row = l1_row e.sequence e.exchange_timestamp_ns (process_event t.book e).0 in
    if_both (λ (t' : Emitter). t'.book ≡ (process_event t.book e).0)
      (not t.have_previous || l1_changed t.previous row) (λ _. refl) (λ _. refl)

take_event-decoded :
    (t : Emitter) (e : MarketDataEvent) → (take_event t e).decoded ≡ add64 t.decoded 1
unfolding take_event write_changed
take_event-decoded t e =
    let row = l1_row e.sequence e.exchange_timestamp_ns (process_event t.book e).0 in
    if_both (λ (t' : Emitter). t'.decoded ≡ add64 t.decoded 1)
      (not t.have_previous || l1_changed t.previous row) (λ _. refl) (λ _. refl)

Taken-none : (t : Emitter) → Taken [] t.book t.decoded t
unfolding book_after
Taken-none t = record { book = refl; decoded = omega arith }

Taken-more :
    (t r : Emitter) (e : MarketDataEvent) (events : List MarketDataEvent)
    → t.decoded + 1 < 2 ^ 64
    → Taken events (take_event t e).book (take_event t e).decoded r
    → Taken (e ∷ events) t.book t.decoded r
unfolding book_after
Taken-more t r e events small h = record {
  book = h.book ∙ ap (λ b. book_after b events) (take_event-book t e);
  decoded = omega (arith, h.decoded, take_event-decoded t e, small);
}

length-of_symbol :
    (locate : ℕ) (events : List MarketDataEvent) → length (of_symbol locate events) ≤ length events
unfolding of_symbol
length-of_symbol locate [] = omega arith
length-of_symbol locate (e ∷ events) = ground (arith, length-of_symbol locate events)

emit_loop-Taken :
    (events : List MarketDataEvent) (locate max_events : ℕ) (t : Emitter)
    → (max_events ≡ 0) ⊎ (t.decoded < max_events)
    → t.decoded + length events < 2 ^ 64
    → Taken
        (left max_events t.decoded (of_symbol locate events))
        t.book
        t.decoded
        (emit_loop events locate max_events t)
unfolding emit_loop of_symbol take_event write_changed
emit_loop-Taken [] locate max_events t more small =
    rw (left_none max_events t.decoded) (Taken-none t)
emit_loop-Taken (e ∷ events) locate max_events t more small =
    let t' = take_event t e in
    let n = take_event-decoded t e in
    let step =
      left-more max_events t.decoded e (of_symbol locate events) more (omega (arith, small)) in
    elim (Bool-cases (not (e.symbol == locate))) [
      | inl other ↦
          rw other (emit_loop-Taken events locate max_events t more (omega (arith, small)))
      | inr same ↦
          rw (same, step, n)
            (elim (Bool-cases (is_full max_events (add64 t.decoded 1))) [
              | inl d ↦ rw d (Taken-more t t' e [] (omega (arith, small)) (Taken-none t'))
              | inr d ↦ rw d (
                  Taken-more t _ e _ (omega (arith, small)) (
                    subst
                      (λ k.
                        Taken (left max_events k (of_symbol locate events)) t'.book t'.decoded
                          (emit_loop events locate max_events t'))
                      n
                      (emit_loop-Taken events locate max_events t' (ground (arith, d, n))
                        (omega (arith, n, small)))))
            ])
    ]

-- The book of the stream is the one behind the events of its symbol, in order, up to the limit where there
-- is one, and no other event counts.
pub emit_loop-takes :
    (events : List MarketDataEvent) (locate max_events : ℕ) (b : Book)
    → length events < 2 ^ 64
    → Taken
        (left max_events 0 (of_symbol locate events))
        b
        0
        (emit_loop events locate max_events (emitter b))
emit_loop-takes events locate max_events b h =
    emit_loop-Taken events locate max_events (emitter b) (ground arith) (omega (arith, h))
