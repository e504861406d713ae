-- ===== src/Programs/Features/Rows.antt =====
-- The rows that are written.
use market_order_book_engine.Base.{
  ℕ, ◌^◌, ◌%◌, ◌≡◌, ◌⊎◌, inl, inr, refl, sym, ap, ◌∙◌, List, [], ◌∷◌, Bool, true, false, not, ◌||◌,
  ◌==◌, if_both, arith, length, Bool-cases,
}
use market_order_book_engine.Types.{MarketDataEvent}
use market_order_book_engine.Book.State.{Book}
use market_order_book_engine.Book.Events.{process_event}
use market_order_book_engine.Research.Features.{L1Row, l1_row, l1_changed}
use market_order_book_engine.Programs.Limit.{is_full}
use market_order_book_engine.Programs.Features.{
  Emitter, emitter, write_changed, take_event, emit_loop,
}

-- The row differs from the last one of the rows, where there is one.
abbrev pub Follows : L1Row → List L1Row → Type 0
Follows row [] = Unit
Follows row (last ∷ rows) = l1_changed last row ≡ true

-- Each row differs from the one before it; the last row comes first.
abbrev pub Alternates : List L1Row → Type 0
Alternates [] = Unit
Alternates (row ∷ rows) = Follows row rows × Alternates rows

-- The last row shows the top of the book, under whatever number and time.
abbrev pub Shows : Book → List L1Row → Type 0
Shows b [] = Unit
Shows b (last ∷ rows) =
    (sequence timestamp_ns : ℕ) → l1_changed last (l1_row sequence timestamp_ns b) ≡ false

abbrev pub is_blank : List L1Row → Bool
is_blank [] = true
is_blank (row ∷ rows) = false

-- The rows of a stream: no row repeats the one before it, the last one shows the top of the book, and
-- there is one as soon as there was an event.
pub record Streamed (t : Emitter) : Type 0 where
  pub alternates : Alternates t.written
  pub shows : Shows t.book t.written
  pub count : t.rows ≡ length t.written % 2 ^ 64
  pub some_row : (t.decoded ≡ 0) ⊎ (is_blank t.written ≡ false)

-- How the loop knows the last row.
abbrev Linked : L1Row → Bool → List L1Row → Type 0
Linked previous have [] = have ≡ false
Linked previous have (row ∷ rows) = (have ≡ true) × (previous ≡ row)

l1_row-same :
    (last : L1Row) (s t u v : ℕ) (b : Book)
    → l1_changed last (l1_row s t b) ≡ l1_changed last (l1_row u v b)
unfolding l1_changed l1_row
l1_row-same last s t u v b = refl

l1_changed_refl : (s t u v : ℕ) (b : Book) → l1_changed (l1_row s t b) (l1_row u v b) ≡ false
unfolding l1_changed l1_row
l1_changed_refl s t u v b = ground arith

module _ (previous : L1Row) (have : Bool) (row : L1Row) where
  written-Follows :
      (written : List L1Row)
      → Linked previous have written
      → (not have || l1_changed previous row) ≡ true
      → Follows row written
  written-Follows [] link h = tt
  written-Follows (last ∷ rows) (known, same) h = rw (← same) (rw known at h)

  unwritten-some :
      (written : List L1Row)
      → Linked previous have written
      → (not have || l1_changed previous row) ≡ false
      → (is_blank written ≡ false) × (l1_changed previous row ≡ false)
  unwritten-some [] link h = absurd (true≢false (rw link at h))
    where
      true≢false : ¬ (true ≡ false)
      true≢false h = cc
  unwritten-some (last ∷ rows) (known, same) h = (refl, rw known at h)

unchanged-Shows :
    (s t : ℕ) (b : Book) (previous : L1Row) (have : Bool) (written : List L1Row)
    → Linked previous have written
    → l1_changed previous (l1_row s t b) ≡ false
    → Shows b written
unchanged-Shows s t b previous have [] link h = tt
unchanged-Shows s t b previous have (last ∷ rows) (known, same) h =
    λ u v. l1_row-same last u v s t b ∙ ap (λ row. l1_changed row (l1_row s t b)) (sym same) ∙ h

-- the stream between two events
record Streaming (t : Emitter) : Type 0 where
  stream : Streamed t
  link : Linked t.previous t.have_previous t.written

take_event-Streaming :
    (t : Emitter) (e : MarketDataEvent) → Streaming t → Streaming (take_event t e)
unfolding take_event write_changed
take_event-Streaming t e v =
    let b = (process_event t.book e).0 in
    let row = l1_row e.sequence e.exchange_timestamp_ns b in
    let s = v.stream in
    elim (Bool-cases (not t.have_previous || l1_changed t.previous row)) [
      | inl h ↦ rw h record {
        stream = record {
          alternates =
              (written-Follows t.previous t.have_previous row t.written v.link h, s.alternates);
          shows = λ u w. l1_changed_refl _ _ u w b;
          count = omega (arith, s.count);
          some_row = inr refl;
        };
        link = (refl, refl);
      }
      | inr h ↦
          let (some_row, same) = unwritten-some t.previous t.have_previous row t.written v.link h in
          rw h record {
            stream = record {
              alternates = s.alternates;
              shows = unchanged-Shows _ _ b t.previous t.have_previous t.written v.link same;
              count = s.count;
              some_row = inr some_row;
            };
            link = v.link;
          }
    ]

emit_loop-Streaming :
    (events : List MarketDataEvent) (locate max_events : ℕ) (t : Emitter)
    → Streaming t
    → Streaming (emit_loop events locate max_events t)
unfolding emit_loop
emit_loop-Streaming [] locate max_events t v = v
emit_loop-Streaming (e ∷ events) locate max_events t v =
    let v' = take_event-Streaming t e v in
    if_both Streaming (not (e.symbol == locate))
      (λ h. emit_loop-Streaming events locate max_events t v)
      (λ h.
        if_both Streaming (is_full max_events (take_event t e).decoded) (λ k. v')
          (λ k. emit_loop-Streaming events locate max_events (take_event t e) v'))

-- From a book and any events, no row that is written repeats the one before it, the last row shows the top
-- of the book as it then is, the rows are counted, and as soon as an event was taken there is a row.
pub emit_loop-Streamed :
    (events : List MarketDataEvent) (locate max_events : ℕ) (b : Book)
    → Streamed (emit_loop events locate max_events (emitter b))
emit_loop-Streamed events locate max_events b =
    (emit_loop-Streaming events locate max_events (emitter b) record {
      stream = record { alternates = tt; shows = tt; count = refl; some_row = inl refl };
      link = refl;
    }).stream
