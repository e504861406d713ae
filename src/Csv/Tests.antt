-- ===== src/Csv/Tests.antt =====
-- Rows and files to read, and the theorems on them.
use market_order_book_engine.Base.{◌↔◌, some, ◌≡◌, refl, negsuc, [], ◌∷◌, arith, get_or}
use market_order_book_engine.Types.{sell, EventType, MarketDataEvent, no_event}
use market_order_book_engine.Text.Accept.{IsNumeral, parse_unsigned_iff}
use market_order_book_engine.Text.{
  parse_unsigned, Text, codes, cut, from_chars, from_chars_signed, scan, starts_with, equal,
}
use market_order_book_engine.Csv.{
  ok, thrown, too_many_fields, too_few_fields, invalid_integer, invalid_type, split_fields,
  read_fields, parse_type, parse_side, parse_csv_event, open_file, refused, ended, next, next_loop,
  get_line, is_skipped,
}
use market_order_book_engine.Csv.Lines.{Means, next-Means}
use market_order_book_engine.Csv.Print.{print_row, IsRowEvent, in_rows}
use market_order_book_engine.Csv.Round.{parse_csv_event-print_row}
use market_order_book_engine.Csv.Replay.{drain, print_file, drain-print_file}

abbrev row : MarketDataEvent
row = record no_event {
  sequence = 7;
  exchange_timestamp_ns = 1000;
  type = EventType.trade;
  order_id = 42;
  side = sell;
  price_ticks = negsuc 11;
  quantity = 5;
}

parsed_row : parse_csv_event (codes "7,1000,trade,42,sell,-12,5") ≡ ok row
unfolding parse_csv_event split_fields read_fields parse_type parse_side cut from_chars
    from_chars_signed scan equal get_or
parsed_row = refl

refused_rows :
    (parse_csv_event (codes "7,1000,trade,42,sell,-12") ≡ thrown too_few_fields)
    × (parse_csv_event (codes "7,1000,trade,42,sell,-12,5,") ≡ thrown too_many_fields)
    × (parse_csv_event (codes "7,1000,trade,42,sell,-12,+5") ≡ thrown invalid_integer)
    × (parse_csv_event (codes "7,1000,trade,42,sell,-12,18446744073709551616")
        ≡ thrown invalid_integer)
    × (parse_csv_event (codes "7,1000,reduce,42,sell,-12,5") ≡ thrown invalid_type)
unfolding parse_csv_event split_fields read_fields parse_type parse_side cut from_chars
    from_chars_signed scan equal get_or
refused_rows = (refl, refl, refl, refl, refl)

row-IsRowEvent : IsRowEvent row
unfolding in_rows
row-IsRowEvent = record {
  sequence = ground arith;
  timestamp = ground arith;
  order = ground arith;
  quantity = ground arith;
  price = ground arith;
  type = refl;
  symbol = refl;
  new_order = refl;
}

parse_csv_event-print_row_example : parse_csv_event (print_row row) ≡ ok row
parse_csv_event-print_row_example = parse_csv_event-print_row row row-IsRowEvent

-- a heading, a comment, a row, and a row that is no row
abbrev small_file : Text
small_file = codes "sequence,time\n# note\n\n7,1000,trade,42,sell,-12,5\r\n7,x\n"

next-Means_example : Means (open_file small_file) (next (open_file small_file))
next-Means_example = next-Means (open_file small_file)

drain-print_file_example :
    drain 3 (open_file (print_file (row ∷ row ∷ []))) ≡ (row ∷ row ∷ [], ended)
drain-print_file_example = drain-print_file (row ∷ row ∷ []) (row-IsRowEvent, (row-IsRowEvent, tt))

-- The row is refused under its number for the carriage return.
read_small_file : (next (open_file small_file)).0 ≡ refused 4 invalid_integer
unfolding next next_loop get_line is_skipped starts_with parse_csv_event split_fields read_fields
    parse_type parse_side cut from_chars from_chars_signed scan equal get_or
read_small_file = refl

parse_unsigned_iff_example : (parse_unsigned (codes "042") ≡ some 42) ↔ IsNumeral (codes "042") 42
parse_unsigned_iff_example = parse_unsigned_iff (codes "042") 42
