-- ===== src/Csv/Round.antt =====
-- A printed row is read as its event.
use market_order_book_engine.Base.{
  ℕ, ◌<◌, ◌≡◌, ◌≢◌, sym, ap, ◌∙◌, List, [], ◌∷◌, All, All-append, arith, get_or,
}
use market_order_book_engine.Types.{Side, buy, sell, EventType, MarketDataEvent}
use market_order_book_engine.Text.{Text}
use market_order_book_engine.Text.Cut.{Lacks}
use market_order_book_engine.Text.Decimal.{
  decimal, parse_unsigned-decimal, parse_signed-decimal, decimal-Lacks, decimal_signed-Lacks,
  IsDigit,
}
use market_order_book_engine.Csv.{ok, ◌>>=◌, split_row, read_fields, parse_csv_event}
use market_order_book_engine.Csv.Print.{
  type_word, side_word, row_fields, other_fields, print_row, join, IsRowEvent, parse_type-type_word,
  parse_side-side_word, split_fields-join,
}

type_word-Lacks : (d : ℕ) (t : EventType) → d < b'a' → Lacks d (type_word t)
unfolding type_word
type_word-Lacks d EventType.add h = ground arith
type_word-Lacks d EventType.modify h = ground arith
type_word-Lacks d EventType.cancel h = ground arith
type_word-Lacks d EventType.trade h = ground arith
type_word-Lacks d EventType.reduce h = ground arith
type_word-Lacks d EventType.replace h = ground arith

side_word-Lacks : (d : ℕ) (s : Side) → d < b'a' → Lacks d (side_word s)
unfolding side_word
side_word-Lacks d buy h = ground arith
side_word-Lacks d sell h = ground arith

module _ (d : ℕ) (h : d < b'-') where
  no-IsDigit : ¬ (IsDigit d)
  no-IsDigit (a, b) = omega (arith, a, h)

  -- no field of a row holds a byte below the sign's
  row_fields-Lacks : (e : MarketDataEvent) → All (Lacks d) (row_fields e)
  row_fields-Lacks e =
      let digits : (n : ℕ) → Lacks d (decimal n) = λ n. decimal-Lacks d n no-IsDigit in
      (
        digits e.sequence,
        (
          digits e.exchange_timestamp_ns,
          (
            type_word-Lacks d e.type (omega (arith, h)),
            (
              digits e.order_id,
              (
                side_word-Lacks d e.side (omega (arith, h)),
                (
                  decimal_signed-Lacks d e.price_ticks no-IsDigit (omega (arith, h)),
                  (digits e.quantity, tt),
                ),
              ),
            ),
          ),
        ),
      )

  join-Lacks :
      (field : Text) (fields : List Text)
      → d ≢ b','
      → Lacks d field
      → All (Lacks d) fields
      → Lacks d (join field fields)
  join-Lacks field [] n p h = p
  join-Lacks field (next ∷ fields) n p (q, h) =
      All-append _ field (b',' ∷ join next fields) p (λ e. n (sym e), join-Lacks next fields n q h)

-- a row is one line
pub print_row-Lacks : (d : ℕ) → d < b',' → (e : MarketDataEvent) → Lacks d (print_row e)
print_row-Lacks d h e =
    let lacks = row_fields-Lacks d (omega (arith, h)) e in
    join-Lacks d (omega (arith, h)) (decimal e.sequence) (other_fields e) (omega (arith, h)) lacks.0
      lacks.1

split_row-print_row : (e : MarketDataEvent) → split_row (print_row e) ≡ ok (row_fields e)
split_row-print_row e =
    let lacks = row_fields-Lacks b',' (omega arith) e in
    split_fields-join (decimal e.sequence) (other_fields e) lacks.0 lacks.1

read_fields-row_fields : (e : MarketDataEvent) → IsRowEvent e → read_fields (row_fields e) ≡ ok e
unfolding read_fields get_or
read_fields-row_fields e v =
    rw
      (
        parse_unsigned-decimal e.sequence v.sequence,
        parse_unsigned-decimal e.exchange_timestamp_ns v.timestamp,
        parse_type-type_word e.type v.type,
        parse_unsigned-decimal e.order_id v.order,
        parse_side-side_word e.side,
        parse_signed-decimal e.price_ticks v.price,
        parse_unsigned-decimal e.quantity v.quantity,
      )
      (ap (λ k. ok (record e { symbol = k; new_order_id = 0 })) (sym v.symbol)
        ∙ ap (λ k. ok (record e { new_order_id = k })) (sym v.new_order))

-- The row printed from an event that rows can hold is read as that event.
pub parse_csv_event-print_row :
    (e : MarketDataEvent) → IsRowEvent e → parse_csv_event (print_row e) ≡ ok e
unfolding parse_csv_event
parse_csv_event-print_row e v =
    ap (λ r. r >>= read_fields) (split_row-print_row e) ∙ read_fields-row_fields e v
