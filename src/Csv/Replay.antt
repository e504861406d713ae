-- ===== src/Csv/Replay.antt =====
-- A file of printed rows, read by calls of `next` as long as it delivers.
use market_order_book_engine.Base.{
  ℕ, zero, suc, ◌<◌, ◌≡◌, refl, ap, ◌∙◌, List, [], ◌∷◌, ◌++◌, some, true, false, All, arith, length,
  add64, ◌==◌,
}
use market_order_book_engine.Types.{MarketDataEvent}
use market_order_book_engine.Text.{Text, equal, starts_with, starts_number}
use market_order_book_engine.Text.Cut.{Lacks, cut-append}
use market_order_book_engine.Text.Decimal.{decimal, decimal-scan}
use market_order_book_engine.Csv.{
  Connector, open_file, get_line, is_skipped, Answer, delivered, refused, ended, unfinished,
  next_loop, next,
}
use market_order_book_engine.Csv.Print.{print_row, IsRowEvent}
use market_order_book_engine.Csv.Round.{parse_csv_event-print_row, print_row-Lacks}

get_line-append :
    (line rest : Text) → Lacks b'\n' line → get_line (line ++ b'\n' ∷ rest) ≡ some (line, rest)
unfolding get_line
get_line-append [] rest h = rw (get_line, cut-append b'\n' [] rest h) refl
get_line-append (c ∷ line) rest h = rw (get_line, cut-append b'\n' (c ∷ line) rest h) refl

-- a text that starts with a digit is a row
is_skipped-digit : (s rest : Text) → starts_number s ≡ true → is_skipped (s ++ rest) ≡ false
unfolding is_skipped starts_with equal
is_skipped-digit [] rest h = absurd cc
is_skipped-digit (c ∷ s) rest h =
    let a : (c == b'#') ≡ false = ground (arith, h) in
    let b : (c == b's') ≡ false = ground (arith, h) in rw (a, b) refl

-- `next` at a printed row
next-print_row :
    (e : MarketDataEvent) (rest : Text) (c : Connector)
    → IsRowEvent e
    → c.input ≡ print_row e ++ b'\n' ∷ rest
    → next c ≡ (
      delivered e,
      record c { input = rest; line = print_row e; line_number = add64 c.line_number 1 },
    )
unfolding next next_loop
next-print_row e rest c v same =
    let got : get_line c.input ≡ some (print_row e, rest) =
      ap get_line same
      ∙ get_line-append (print_row e) rest (print_row-Lacks b'\n' (omega arith) e) in
    let kept : is_skipped (print_row e) ≡ false =
      is_skipped-digit (decimal e.sequence) _ (decimal-scan e.sequence v.sequence).1 in
    rw (got, kept, parse_csv_event-print_row e v) refl

abbrev pub print_file : List MarketDataEvent → Text
print_file [] = []
print_file (e ∷ events) = print_row e ++ b'\n' ∷ print_file events

abbrev collect :
    (Connector → List MarketDataEvent × Answer) → Answer × Connector → List MarketDataEvent × Answer
collect later (delivered e, c) = let (events, last) = later c in (e ∷ events, last)
collect later (refused n why, c) = ([], refused n why)
collect later (ended, c) = ([], ended)
collect later (unfinished, c) = ([], unfinished)

-- The events of `while (connector.next(event))` in so many rounds, and the answer that ends the loop.
unfoldable pub drain : ℕ → Connector → List MarketDataEvent × Answer
drain zero c = ([], unfinished)
drain (suc rounds) c = collect (drain rounds) (next c)

drain_rows :
    (events : List MarketDataEvent) (rounds : ℕ) (c : Connector)
    → All IsRowEvent events
    → c.input ≡ print_file events
    → length events < rounds
    → drain rounds c ≡ (events, ended)
unfolding drain next next_loop get_line
drain_rows events zero c v same h = absurd (omega (arith, h))
drain_rows [] (suc rounds) c v same h = rw same refl
drain_rows (e ∷ events) (suc rounds) c (v, vs) same h =
    let read = drain_rows events rounds _ vs refl (omega (arith, h)) in
    ap (collect (drain rounds)) (next-print_row e (print_file events) c v same)
    ∙ ap (λ r. (e ∷ r.0, r.1)) read

-- A file of the rows of some events gives these events, in order, and then ends, with one call of `next`
-- more than there are events.
pub drain-print_file :
    (events : List MarketDataEvent)
    → All IsRowEvent events
    → drain (suc (length events)) (open_file (print_file events)) ≡ (events, ended)
drain-print_file events v =
    drain_rows events (suc (length events)) (open_file (print_file events)) v refl (omega arith)
