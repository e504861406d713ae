-- ===== src/Itch/Decoder/Safety.antt =====
-- The decoder and the packet reader never read past the end of what they are given.
use market_order_book_engine.Base.{
  ◌≤◌, ◌≡◌, inl, inr, refl, [], ◌∷◌, Option, none, some, ltb, leb, length, arith, Bool-cases,
}
use market_order_book_engine.Types.{EventType, MarketDataEvent, Side}
use market_order_book_engine.Itch.Bytes.{Bytes}
use market_order_book_engine.Itch.Decoder.{
  MessageType, add_order, add_order_mpid, order_executed, order_executed_with_price, order_cancel,
  order_delete, order_replace, message_type, DecodeResult, min_length, set_side, read_symbol,
  read_common, add_with_side, decode_fields, decode_type, decode_message,
}
use market_order_book_engine.Itch.Bytes.Reads.{
  Reads, >>=-Reads, get_elem?-Reads, read_be16-Reads, read_be32-Reads, read_be48-Reads,
  read_be64-Reads,
}

module _ (p : Bytes) where
  read_symbol-Reads : Reads (read_symbol p)
  read_symbol-Reads = elim (Bool-cases (leb 3 (length p))) [
    | inl b ↦ rw b (read_be16-Reads p 1 (ground arith))
    | inr b ↦ rw b (0, refl)
  ]

  read_common-Reads : (type : EventType) → 19 ≤ length p → Reads (read_common type p)
  unfolding read_common
  read_common-Reads type h = >>=-Reads _ read_symbol-Reads λ symbol.
      >>=-Reads _ (read_be48-Reads p 5 (omega arith))
        λ timestamp. >>=-Reads _ (read_be64-Reads p 11 (omega arith)) λ id. (_, refl)

  add_with_side-Reads :
      (e : MarketDataEvent) (side : Option Side) → 36 ≤ length p → Reads (add_with_side p e side)
  add_with_side-Reads e none h = (_, refl)
  add_with_side-Reads e (some side) h =
      >>=-Reads _ (read_be32-Reads p 20 (omega arith))
        λ quantity. >>=-Reads _ (read_be32-Reads p 32 (omega arith)) λ price. (_, refl)

  decode_fields-Reads :
      (type : MessageType) → min_length type ≤ length p → Reads (decode_fields type p)
  unfolding decode_fields
  decode_fields-Reads add_order h = >>=-Reads _ (read_common-Reads EventType.add (omega arith)) λ e.
      >>=-Reads _ (get_elem?-Reads p 19 (omega arith)) λ c. add_with_side-Reads e (set_side c) h
  decode_fields-Reads add_order_mpid h =
      >>=-Reads _ (read_common-Reads EventType.add (omega arith)) λ e.
        >>=-Reads _ (get_elem?-Reads p 19 (omega arith)) λ c. add_with_side-Reads e (set_side c) h
  decode_fields-Reads order_executed h =
      >>=-Reads _ (read_common-Reads EventType.trade (omega arith))
        λ e. >>=-Reads _ (read_be32-Reads p 19 (omega arith)) λ quantity. (_, refl)
  decode_fields-Reads order_executed_with_price h =
      >>=-Reads _ (read_common-Reads EventType.trade (omega arith)) λ e.
        >>=-Reads _ (read_be32-Reads p 19 (omega arith))
          λ quantity. >>=-Reads _ (read_be32-Reads p 32 (omega arith)) λ price. (_, refl)
  decode_fields-Reads order_cancel h =
      >>=-Reads _ (read_common-Reads EventType.reduce (omega arith))
        λ e. >>=-Reads _ (read_be32-Reads p 19 (omega arith)) λ quantity. (_, refl)
  decode_fields-Reads order_delete h =
      >>=-Reads _ (read_common-Reads EventType.cancel (omega arith)) λ e. (_, refl)
  decode_fields-Reads order_replace h =
      >>=-Reads _ (read_common-Reads EventType.replace (omega arith)) λ e.
        >>=-Reads _ (read_be64-Reads p 19 (omega arith)) λ id.
          >>=-Reads _ (read_be32-Reads p 27 (omega arith))
            λ quantity. >>=-Reads _ (read_be32-Reads p 31 (omega arith)) λ price. (_, refl)

  decode_type-Reads : (type : Option MessageType) → Reads (decode_type p type)
  decode_type-Reads none = (_, refl)
  decode_type-Reads (some type) = elim (Bool-cases (ltb (length p) (min_length type))) [
    | inl b ↦ rw b (_, refl)
    | inr b ↦ rw b (decode_fields-Reads type (ground arith))
  ]

-- Whatever the bytes of a message are, and however few, the decoder reads none past their end: it
-- gives a result.
pub decode_message-Reads : (p : Bytes) → (r : DecodeResult) × (decode_message p ≡ some r)
unfolding decode_message
decode_message-Reads [] = (_, refl)
decode_message-Reads (c ∷ rest) = decode_type-Reads (c ∷ rest) (message_type c)
