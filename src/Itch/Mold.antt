-- ===== src/Itch/Mold.antt =====
-- include/market/itch/MoldUdp64.hpp: a reader over one MoldUDP64 packet.
pub mod Safety
use market_order_book_engine.Base.{
  ℕ, ◌+◌, List, Option, none, some, Bool, true, false, ltb, ◌==◌, length, take, drop, add64,
  if◌then◌else◌,
}
use market_order_book_engine.Itch.Bytes.{Bytes, ◌>>=◌, slice, read_be16, read_be64}

abbrev pub header_size : ℕ
header_size = 20

pub record Packet : Type 0 where
  pub bytes : Bytes
  pub sequence : ℕ
  pub message_count : ℕ

-- The outer option is a read past the end, the inner one the function's own.
unfoldable pub parse : Bytes → Option (Option Packet)
parse datagram = if ltb (length datagram) header_size then some none else (do
  sequence ← read_be64 datagram 10
  count ← read_be16 datagram 18
  some (some (record { bytes = datagram; sequence = sequence; message_count = count })))

abbrev pub end_of_session : Packet → Bool
end_of_session p = p.message_count == 0xffff

abbrev pub heartbeat : Packet → Bool
heartbeat p = p.message_count == 0

-- The payload of the block at `offset` and the offset behind it; the inner `none` for `false`.
unfoldable pub read_block : Packet → ℕ → Option (Option (Bytes × ℕ))
read_block p offset = if ltb (length p.bytes) (add64 offset 2) then some none else (do
  n ← read_be16 p.bytes offset
  if ltb (length p.bytes) (add64 (add64 offset 2) n)
      then some none
      else (do payload ← slice p.bytes (offset + 2) n; some (some (payload, add64 offset (2 + n)))))
