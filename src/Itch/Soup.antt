-- ===== src/Itch/Soup.antt =====
-- src/SoupBinTcpConnector.cpp: a stream of SoupBinTCP packets, of which those of type `S` carry a
-- message.
pub mod Finishes
use market_order_book_engine.Base.{
  ℕ, zero, suc, ◌+◌, ◌-◌, Option, some, Bool, true, not, ◌==◌, add64, take, drop, get_elem?,
  if◌then◌else◌,
}
use market_order_book_engine.Types.{MarketDataEvent}
use market_order_book_engine.Itch.Bytes.{◌>>=◌, slice, read_be16}
use market_order_book_engine.Itch.Decoder.{DecodeResult, event, skipped, malformed, decode_message}
use market_order_book_engine.Itch.Window.{Window, available, ensure}

pub record Connector : Type 0 where
  pub window : Window
  pub sequence : ℕ
  pub messages_decoded : ℕ
  pub failed : Bool
  pub end_of_session : Bool

pub data Round : Type 0 where
  delivered : MarketDataEvent → Connector → Round
  ended : Connector → Round
  again : Connector → Round

abbrev pub fail : Connector → Round
fail c = ended (record c { failed = true })

-- A Sequenced Data packet: the sequence advances whatever the message is.
pub deliver : Connector → DecodeResult → Round
deliver c result =
    let sequence = add64 c.sequence 1 in
    let c1 = record c { sequence = sequence } in
    elim result [
      | malformed ↦ fail c1
      | skipped ↦ again c1
      | event e ↦
          delivered (record e { sequence = sequence })
            (record c1 { messages_decoded = add64 c1.messages_decoded 1 })
    ]

-- A packet of `n` bytes, its type among them, at `at`; `c` is already past it.
pub packet : Connector → ℕ → ℕ → Option Round
unfolding deliver
packet c at n = do
  type ← get_elem? c.window.buffer (at + 2)
  if type == b'Z'
      then some (ended (record c { end_of_session = true }))
      else if type == b'S'
      then (do
        payload ← slice c.window.buffer (at + 3) (n - 1)
        result ← decode_message payload
        some (deliver c result))
      else some (again c)

pub body : Connector → ℕ → Option Round
unfolding packet
body c n =
    if n == 0
    then some (fail c)
    else (let (ready, w) = ensure c.window (2 + n) in
        if not ready
        then some (fail (record c { window = w }))
        else packet (record c { window = record w { pos = w.pos + (2 + n) } }) w.pos n)

-- One round of the loop in `next`; `none` is a read out of range.
unfoldable pub next_round : Connector → Option Round
unfolding body
next_round c =
    let (ready, w) = ensure c.window 2 in
    let c1 = record c { window = w } in
    if not ready
    then some (ended (if available w == 0 then c1 else record c1 { failed = true }))
    else (read_be16 w.buffer w.pos >>= λ n. body c1 n)

-- `next`, within a number of rounds.
unfoldable pub next : ℕ → Connector → Option Round
next zero c = some (again c)
next (suc rounds) c = next_round c >>= λ r. elim r [
  | delivered e c' ↦ some (delivered e c')
  | ended c' ↦ some (ended c')
  | again c' ↦ next rounds c'
]
