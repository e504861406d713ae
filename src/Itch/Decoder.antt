-- ===== src/Itch/Decoder.antt =====
-- include/market/itch/ItchDecoder.hpp: the decoding of one message. A message is the list of its
-- bytes, so `len` is the list's length.
pub mod Safety
use market_order_book_engine.Base.{
  ℕ, zero, suc, ◌+◌, List, [], ◌∷◌, Option, none, some, Bool, pos, ltb, leb, ◌==◌, length,
  get_elem?, if◌then◌else◌,
}
use market_order_book_engine.Types.{Side, buy, sell, EventType, MarketDataEvent, no_event}
use market_order_book_engine.Itch.Bytes.{Bytes, ◌>>=◌, read_be16, read_be32, read_be48, read_be64}

-- The types of the messages that change a book.
pub data MessageType : Type 0 where
  add_order add_order_mpid order_executed order_executed_with_price : MessageType
  order_cancel order_delete order_replace : MessageType

-- `static_cast<MessageType>(type)`; `none` for a character that is no case of the switch
pub message_type : ℕ → Option MessageType
message_type c =
    if c == b'A'
    then some add_order
    else if c == b'F'
    then some add_order_mpid
    else if c == b'E'
    then some order_executed
    else if c == b'C'
    then some order_executed_with_price
    else if c == b'X'
    then some order_cancel
    else if c == b'D'
    then some order_delete
    else if c == b'U'
    then some order_replace
    else none

pub data DecodeResult : Type 0 where
  event : MarketDataEvent → DecodeResult
  skipped : DecodeResult
  malformed : DecodeResult

-- The lengths that the cases of the switch ask for. An `F` message is held to the length of an `A`.
abbrev pub min_length : MessageType → ℕ
min_length add_order = 36
min_length add_order_mpid = 36
min_length order_executed = 31
min_length order_executed_with_price = 36
min_length order_cancel = 23
min_length order_delete = 19
min_length order_replace = 35

pub set_side : ℕ → Option Side
set_side c = if c == b'B' then some buy else if c == b'S' then some sell else none

-- `if (len >= 3) event.symbol = read_be16(data + 1)`
abbrev pub read_symbol : Bytes → Option ℕ
read_symbol p = if leb 3 (length p) then read_be16 p 1 else some 0

-- the fields that every message has
pub read_common : EventType → Bytes → Option MarketDataEvent
read_common type p = do
  symbol ← read_symbol p
  timestamp ← read_be48 p 5
  order_id ← read_be64 p 11
  some (record no_event {
    symbol = symbol;
    type = type;
    exchange_timestamp_ns = timestamp;
    order_id = order_id;
  })

abbrev pub add_with_side : Bytes → MarketDataEvent → Option Side → Option DecodeResult
add_with_side p e none = some malformed
add_with_side p e (some side) = do
  quantity ← read_be32 p 20
  price ← read_be32 p 32
  some (event (record e { side = side; price_ticks = pos price; quantity = quantity }))

-- The cases of the switch, after the test of the length.
pub decode_fields : MessageType → Bytes → Option DecodeResult
unfolding read_common set_side
decode_fields add_order p = do
  e ← read_common EventType.add p
  c ← get_elem? p 19
  add_with_side p e (set_side c)
decode_fields add_order_mpid p = do
  e ← read_common EventType.add p
  c ← get_elem? p 19
  add_with_side p e (set_side c)
decode_fields order_executed p = do
  e ← read_common EventType.trade p
  quantity ← read_be32 p 19
  some (event (record e { quantity = quantity }))
decode_fields order_executed_with_price p = do
  e ← read_common EventType.trade p
  quantity ← read_be32 p 19
  price ← read_be32 p 32
  some (event (record e { price_ticks = pos price; quantity = quantity }))
decode_fields order_cancel p = do
  e ← read_common EventType.reduce p
  quantity ← read_be32 p 19
  some (event (record e { quantity = quantity }))
decode_fields order_delete p = do e ← read_common EventType.cancel p; some (event e)
decode_fields order_replace p = do
  e ← read_common EventType.replace p
  new_order_id ← read_be64 p 19
  quantity ← read_be32 p 27
  price ← read_be32 p 31
  some (
      event
        (record e { new_order_id = new_order_id; price_ticks = pos price; quantity = quantity }))

abbrev pub decode_type : Bytes → Option MessageType → Option DecodeResult
decode_type p none = some skipped
decode_type p (some type) =
    if ltb (length p) (min_length type) then some malformed else decode_fields type p

-- `none` is a read past the end of the message.
unfoldable pub decode_message : Bytes → Option DecodeResult
unfolding message_type decode_fields
decode_message [] = some malformed
decode_message (c ∷ rest) = decode_type (c ∷ rest) (message_type c)
