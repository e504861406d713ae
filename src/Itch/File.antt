-- ===== src/Itch/File.antt =====
-- src/ItchFileConnector.cpp: a stream of messages, each behind a 2-byte length.
pub mod Ends
use market_order_book_engine.Base.{
  ℕ, zero, suc, ◌+◌, Option, some, Bool, true, not, ◌==◌, add64, take, drop, if◌then◌else◌,
}
use market_order_book_engine.Types.{MarketDataEvent}
use market_order_book_engine.Itch.Bytes.{◌>>=◌, slice, read_be16}
use market_order_book_engine.Itch.Decoder.{DecodeResult, event, skipped, malformed, decode_message}
use market_order_book_engine.Itch.Window.{Window, available, ensure}

pub record Connector : Type 0 where
  pub window : Window
  pub sequence : ℕ
  pub messages_decoded : ℕ
  pub bytes_consumed : ℕ
  pub failed : Bool

-- How a round of the loop in `next` ends: with an event, with `false`, or in another round.
pub data Round : Type 0 where
  delivered : MarketDataEvent → Connector → Round
  ended : Connector → Round
  again : Connector → Round

abbrev pub fail : Connector → Round
fail c = ended (record c { failed = true })

-- The decoded message at `pos_`, once its bytes are there.
pub deliver : Connector → ℕ → DecodeResult → Round
deliver c n result =
    let c1 = record c {
      window = record (c.window) { pos = c.window.pos + (2 + n) };
      bytes_consumed = add64 c.bytes_consumed (2 + n);
    } in
    elim result [
      | malformed ↦ fail c1
      | skipped ↦ again c1
      | event e ↦
          let sequence = add64 c1.sequence 1 in
          delivered (record e { sequence = sequence })
            (record c1 { sequence = sequence; messages_decoded = add64 c1.messages_decoded 1 })
    ]

-- A message of `n` bytes behind its length.
pub body : Connector → ℕ → Option Round
unfolding deliver
body c n =
    if n == 0
    then some (fail c)
    else (let (ready, w) = ensure c.window (2 + n) in
        let c1 = record c { window = w } in
        if not ready then some (fail c1) else (do
          message ← slice w.buffer (w.pos + 2) n
          result ← decode_message message
          some (deliver c1 n result)))

-- One round; `none` is a read out of range.
unfoldable pub next_round : Connector → Option Round
unfolding body
next_round c =
    let (ready, w) = ensure c.window 2 in
    let c1 = record c { window = w } in
    if not ready
    then some (ended (if available w == 0 then c1 else record c1 { failed = true }))
    else (read_be16 w.buffer w.pos >>= λ n. body c1 n)

-- `next`, within a number of rounds; the outer `none` is a fault, and `again` is no result of it
-- unless the rounds run out.
unfoldable pub next : ℕ → Connector → Option Round
next zero c = some (again c)
next (suc rounds) c = next_round c >>= λ r. elim r [
  | delivered e c' ↦ some (delivered e c')
  | ended c' ↦ some (ended c')
  | again c' ↦ next rounds c'
]
