-- ===== src/Itch/Tests.antt =====
-- Messages and packets, read.
use market_order_book_engine.Base.{
  ℕ, ◌<◌, ◌≡◌, ◌↔◌, [], ◌∷◌, ◌++◌, false, Option, none, some, arith, length,
}
use market_order_book_engine.Itch.Bytes.{Bytes}
use market_order_book_engine.Itch.Decoder.{DecodeResult, decode_message}
use market_order_book_engine.Itch.Decoder.Safety.{decode_message-Reads}
use market_order_book_engine.Itch.Datagrams.{DatagramFile, open_datagrams, next_datagram}
use market_order_book_engine.Itch.Datagrams.Taken.{Taken, next_datagram-Taken}
use market_order_book_engine.Itch.Mold.{Packet, parse, read_block, header_size}
use market_order_book_engine.Itch.Mold.Safety.{BlockOk, read_block-BlockOk, parse_iff}
use market_order_book_engine.Itch.Window.{Window, whole, ensure}
use market_order_book_engine.Itch.Window.Moves.{IsWindow, whole-IsWindow}
use market_order_book_engine.Itch.Window.Stream.{Ensured, ensure-Ensured}
use market_order_book_engine.Itch.File
use market_order_book_engine.Itch.File.Ends.{Ends, next-Ends}
use market_order_book_engine.Itch.Soup
use market_order_book_engine.Itch.Soup.Finishes.{Finishes, next-Finishes}

-- A deletion of order 1 (symbol 7, at 2 ns), and the first bytes of one.
abbrev deletion : Bytes
deletion = 0x44 ∷ 0 ∷ 7 ∷ 0 ∷ 0 ∷ 0 ∷ 0 ∷ 0 ∷ 0 ∷ 0 ∷ 2 ∷ 0 ∷ 0 ∷ 0 ∷ 0 ∷ 0 ∷ 0 ∷ 0 ∷ 1 ∷ []

decode_message-Reads_example : (r : DecodeResult) × (decode_message deletion ≡ some r)
decode_message-Reads_example = decode_message-Reads deletion

-- A datagram of a block of three bytes, behind a header of 20.
abbrev datagram : Bytes
datagram =
    0 ∷ 0 ∷ 0 ∷ 0 ∷ 0 ∷ 0 ∷ 0 ∷ 0 ∷ 0 ∷ 0 ∷ 0 ∷ 0 ∷ 0 ∷ 0 ∷ 0 ∷ 0 ∷ 0 ∷ 5 ∷ 0 ∷ 1 ∷ 0 ∷ 3 ∷ 9 ∷ 8
    ∷ 7 ∷ []

abbrev packet : Packet
packet = record { bytes = datagram; sequence = 5; message_count = 1 }

read_block-BlockOk_example :
    (r : Option (Bytes × ℕ)) × (read_block packet 20 ≡ some r) × BlockOk packet 20 r
read_block-BlockOk_example = read_block-BlockOk packet 20 (omega arith) (omega arith)

parse_iff_example :
    (r : Option Packet) × (parse datagram ≡ some r) × ((r ≡ none) ↔ (length datagram < header_size))
parse_iff_example = parse_iff datagram

-- A message behind its length, and the first byte of another length.
abbrev stream : Bytes
stream = 0 ∷ 19 ∷ deletion ++ 0 ∷ []

-- A buffer of two bytes, one of them read, over a stream of three.
abbrev narrow : Window
narrow = record { buffer = 1 ∷ 2 ∷ []; input = 3 ∷ 4 ∷ 5 ∷ []; pos = 1; size = 2; eof = false }

narrow-IsWindow : IsWindow narrow
narrow-IsWindow = record { ordered = omega arith; fits = omega arith; drained = λ e. ground arith }

ensure-Ensured_example : Ensured narrow 3 (ensure narrow 3)
ensure-Ensured_example = ensure-Ensured narrow 3 narrow-IsWindow

abbrev file : File.Connector
unfolding whole
file = record {
  window = whole stream;
  sequence = 0;
  messages_decoded = 0;
  bytes_consumed = 0;
  failed = false;
}

next-Ends_example : (r : File.Round) × (File.next 23 file ≡ some r) × Ends r
unfolding file
next-Ends_example = next-Ends 23 file (whole-IsWindow stream) (omega arith)

-- The same message as Sequenced Data.
abbrev session : Soup.Connector
unfolding whole
session = record {
  window = whole (0 ∷ 20 ∷ 0x53 ∷ deletion);
  sequence = 0;
  messages_decoded = 0;
  failed = false;
  end_of_session = false;
}

next-Finishes_example : (r : Soup.Round) × (Soup.next 23 session ≡ some r) × Finishes r
unfolding session
next-Finishes_example =
    next-Finishes 23 session (whole-IsWindow (0 ∷ 20 ∷ 0x53 ∷ deletion)) (omega arith)

-- One datagram of two bytes behind its length, and more.
abbrev datagrams : DatagramFile
datagrams = open_datagrams (some (0 ∷ 0 ∷ 0 ∷ 2 ∷ 8 ∷ 9 ∷ 0 ∷ []))

next_datagram-Taken_example :
    (r : Option Bytes × DatagramFile) × (next_datagram datagrams ≡ some r) × Taken datagrams r
next_datagram-Taken_example = next_datagram-Taken datagrams
