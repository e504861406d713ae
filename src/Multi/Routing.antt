-- ===== src/Multi/Routing.antt =====
-- What an event does to the books of the symbols.
use market_order_book_engine.Base.{
  ℕ, ◌<◌, ◌≡◌, ◌≢◌, refl, [], ◌∷◌, ◌++◌, Option, none, some, false, length, get_or-set, length-set,
  leb, arith, inl, inr, Option-cases,
}
use market_order_book_engine.Types.{MarketDataEvent, ProcessResult}
use market_order_book_engine.Book.State.{Book, new_book}
use market_order_book_engine.Book.Events.{process_event}
use market_order_book_engine.Multi.{MultiSymbolBook, slot_of, deliver, deliver_first, route}

-- the book that an event of `symbol` meets: the symbol's own or a new one
abbrev pub book_for : MultiSymbolBook → ℕ → Option Book
book_for m symbol = elim (slot_of m symbol) [
  | some b ↦ some b
  | none ↦ new_book m.per_symbol_capacity
]

-- What routing `e` to `m` gives: the result of the symbol's book, which alone has changed.
pub record Routed (m : MultiSymbolBook) (e : MarketDataEvent) (b : Book) (m' : MultiSymbolBook)
    (result : ProcessResult) : Type 0 where
  pub answer : result ≡ (process_event b e).1
  pub own : slot_of m' e.symbol ≡ some (process_event b e).0
  pub others : (s : ℕ) → s ≢ e.symbol → slot_of m' s ≡ slot_of m s
  pub room : length m'.books ≡ length m.books

deliver-Routed :
    (m : MultiSymbolBook) (e : MarketDataEvent) (b : Book)
    → e.symbol < length m.books
    → Routed m e b (deliver m e b).0 (deliver m e b).1
unfolding deliver
deliver-Routed m e b h = record {
  answer = refl;
  own = ground (arith, get_or-set m.books e.symbol e.symbol (some (process_event b e).0) none);
  others = λ s ne. ground (arith, get_or-set m.books e.symbol s (some (process_event b e).0) none);
  room = length-set m.books e.symbol (some (process_event b e).0);
}

-- An event of a symbol in range, for which there is a book or one can be made, is answered by that
-- book, and the books of all other symbols stay as they are.
pub route-Routed :
    (m : MultiSymbolBook) (e : MarketDataEvent) (b : Book)
    → length m.books ≡ m.max_symbols
    → e.symbol < m.max_symbols
    → book_for m e.symbol ≡ some b
    → (m' : MultiSymbolBook) × (result : ProcessResult) × (route m e ≡ some (m', result))
      × Routed m e b m' result
unfolding route deliver_first
route-Routed m e b sized inside meets =
    let out : leb m.max_symbols e.symbol ≡ false = ground arith in
    elim (Option-cases (slot_of m e.symbol)) [
      | inl absent ↦
          let made : new_book m.per_symbol_capacity ≡ some b = ground (arith, meets, absent) in
          let m1 = record m { seen = m.seen ++ (e.symbol ∷ []) } in
          let first = deliver-Routed m1 e b (omega (arith, inside, sized)) in
          (
            (deliver m1 e b).0,
            (deliver m1 e b).1,
            rw (out, absent, made) refl,
            record {
              answer = first.answer;
              own = first.own;
              others = first.others;
              room = first.room;
            },
          )
      | inr (b', present) ↦
          let same : b' ≡ b = ground (arith, meets, present) in
          (
            (deliver m e b).0,
            (deliver m e b).1,
            rw (out, present, same) refl,
            deliver-Routed m e b (omega (arith, inside, sized)),
          )
    ]
