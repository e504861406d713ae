-- ===== src/Itch/MoldConnector.antt =====
-- src/MoldUdp64Connector.cpp: MoldUDP64 packets, pulled one by one, with gap recovery. The source is
-- the list of the datagrams that it has yet to give, with what its `failed()` will say at the end;
-- the retransmit server is a function from sequence numbers.
use market_order_book_engine.Base.{
  ℕ, zero, suc, ◌+◌, ◌%◌, ◌^◌, List, [], ◌∷◌, Option, none, some, Bool, true, false, ◌&&◌, ◌||◌,
  not, ltb, leb, add64, sub64, if◌then◌else◌,
}
use market_order_book_engine.Types.{MarketDataEvent}
use market_order_book_engine.Itch.Bytes.{Bytes, ◌>>=◌}
use market_order_book_engine.Itch.Decoder.{DecodeResult, event, skipped, malformed, decode_message}
use market_order_book_engine.Itch.Mold.{
  header_size, Packet, parse, end_of_session, heartbeat, read_block,
}

abbrev pub Retransmit : Type 0
Retransmit = ℕ → Option Bytes

pub record Connector : Type 0 where
  pub source : List Bytes
  pub source_failed : Bool
  pub retransmit : Option Retransmit
  pub packet : Packet
  pub offset : ℕ
  pub local_index : ℕ
  pub have_packet : Bool
  pub initialized : Bool
  pub failed : Bool
  pub session_ended : Bool
  pub recovering : Bool
  pub recover_next : ℕ
  pub recover_end : ℕ
  pub expected : ℕ
  pub last_sequence : ℕ
  pub gaps_detected : ℕ
  pub messages_missed : ℕ
  pub messages_decoded : ℕ

-- the constructor
unfoldable pub connect : List Bytes → Bool → Option Retransmit → Connector
connect source source_failed retransmit = record {
  source = source;
  source_failed = source_failed;
  retransmit = retransmit;
  packet = record { bytes = []; sequence = 0; message_count = 0 };
  offset = 0;
  local_index = 0;
  have_packet = false;
  initialized = false;
  failed = false;
  session_ended = false;
  recovering = false;
  recover_next = 0;
  recover_end = 0;
  expected = 0;
  last_sequence = 0;
  gaps_detected = 0;
  messages_missed = 0;
  messages_decoded = 0;
}

-- How the loops go on.
pub data Load : Type 0 where
  loaded : Connector → Load
  stopped : Connector → Load
  reload : Connector → Load

abbrev pub give_up : Connector → Load
give_up c = stopped (record c { failed = true })

-- `while (already_seen > 0 && local_index_ < packet_.message_count())`
pub skip_loop : ℕ → Connector → Option Load
skip_loop zero c = some (loaded c)
skip_loop (suc already_seen) c = elim (ltb c.local_index c.packet.message_count) [
  | false ↦ some (loaded c)
  | true ↦ read_block c.packet c.offset >>= λ r. elim r [
    | none ↦ some (give_up c)
    | some (skipped_bytes, offset) ↦
        skip_loop already_seen
          (record c { offset = offset; local_index = (c.local_index + 1) % 2 ^ 16 })
  ]
]

abbrev pub take_packet : Connector → Load
take_packet c = loaded (record c { have_packet = true })

-- `seq > expected_`: recover the missing messages if there is a server, else count them
pub on_gap : Connector → Option Retransmit → ℕ → Connector
on_gap c none seq = record c {
  messages_missed = add64 c.messages_missed (sub64 seq c.expected);
  expected = seq;
}
on_gap c (some server) seq = record c {
  recover_next = c.expected;
  recover_end = seq;
  recovering = true;
}

abbrev pub after_skip : Load → Load
after_skip (loaded c) = if leb c.packet.message_count c.local_index then reload c else take_packet c
after_skip (stopped c) = stopped c
after_skip (reload c) = reload c

-- a packet with messages
pub enter_packet : Connector → Option Load
unfolding skip_loop on_gap
enter_packet c =
    let seq = c.packet.sequence in
    let c1 = if c.initialized then c else record c { initialized = true; expected = seq } in
    if ltb c1.expected seq
    then some (
        take_packet
          (on_gap (record c1 { gaps_detected = add64 c1.gaps_detected 1 }) c1.retransmit seq))
    else if ltb seq c1.expected
    then (skip_loop (sub64 c1.expected seq) c1 >>= λ r. some (after_skip r))
    else some (take_packet c1)

-- One round of the loop in `load_next_packet`, with a datagram.
pub load_round : Connector → Bytes → Option Load
unfolding enter_packet
load_round c datagram = parse datagram >>= λ parsed. elim parsed [
  | none ↦ some (give_up c)
  | some packet ↦
      let c1 = record c { packet = packet; offset = header_size; local_index = 0 } in
      if end_of_session packet
      then some (reload (record c1 { session_ended = true }))
      else if heartbeat packet
      then some (reload c1)
      else enter_packet c1
]

-- A round takes a datagram from the source.
pub load_loop : List Bytes → Connector → Option Load
load_loop [] c =
    some (stopped (record c { source = []; failed = if c.source_failed then true else c.failed }))
load_loop (datagram ∷ source) c = load_round (record c { source = source }) datagram >>= λ r.
    elim r [
      | loaded c' ↦ some (loaded c')
      | stopped c' ↦ some (stopped c')
      | reload c' ↦ load_loop source c'
    ]

unfoldable pub load_next_packet : Connector → Option Load
unfolding load_loop load_round
load_next_packet c = load_loop c.source c

pub data Round : Type 0 where
  delivered : MarketDataEvent → Connector → Round
  ended : Connector → Round
  again : Connector → Round

abbrev pub fail : Connector → Round
fail c = ended (record c { failed = true })

-- A message of the live packet.
pub deliver_live : Connector → ℕ → DecodeResult → Round
deliver_live c sequence malformed = fail c
deliver_live c sequence skipped = again c
deliver_live c sequence (event e) =
    delivered (record e { sequence = sequence })
      (record c { messages_decoded = add64 c.messages_decoded 1 })

-- A message that the server has recovered.
pub deliver_recovered : Connector → ℕ → DecodeResult → Round
deliver_recovered c sequence malformed = fail c
deliver_recovered c sequence skipped = again c
deliver_recovered c sequence (event e) =
    delivered (record e { sequence = sequence })
      (record c { last_sequence = sequence; messages_decoded = add64 c.messages_decoded 1 })

pub ask : Option Retransmit → ℕ → Option Bytes
ask none sequence = none
ask (some server) sequence = server sequence

pub recover_round : Connector → Option Round
unfolding deliver_recovered ask
recover_round c =
    let sequence = c.recover_next in
    let c1 = record c { recover_next = add64 sequence 1 } in
    elim (ask c.retransmit sequence) [
      | none ↦ some (again (record c1 { messages_missed = add64 c1.messages_missed 1 }))
      | some payload ↦
          decode_message payload >>= λ result. some (deliver_recovered c1 sequence result)
    ]

pub packet_round : Connector → Option Round
unfolding deliver_live
packet_round c = read_block c.packet c.offset >>= λ r. elim r [
  | none ↦ some (fail c)
  | some (payload, offset) ↦
      let sequence = add64 c.packet.sequence c.local_index in
      let c1 = record c {
        offset = offset;
        local_index = (c.local_index + 1) % 2 ^ 16;
        expected = add64 sequence 1;
        last_sequence = sequence;
      } in
      decode_message payload >>= λ result. some (deliver_live c1 sequence result)
]

abbrev pub of_load : Load → Round
of_load (loaded c) = again c
of_load (stopped c) = ended c
of_load (reload c) = again c

live_round : Connector → Option Round
unfolding packet_round load_next_packet
live_round c =
    if not c.have_packet || leb c.packet.message_count c.local_index
    then (load_next_packet (record c { have_packet = false }) >>= λ r. some (of_load r))
    else packet_round c

-- One round of the loop in `next`; `none` is a read out of range.
unfoldable pub next_round : Connector → Option Round
unfolding live_round recover_round
next_round c =
    if c.recovering && ltb c.recover_next c.recover_end
    then recover_round c
    else live_round (record c { recovering = false })

-- `next`, within a number of rounds.
unfoldable pub next : ℕ → Connector → Option Round
next zero c = some (again c)
next (suc rounds) c = next_round c >>= λ r. elim r [
  | delivered e c' ↦ some (delivered e c')
  | ended c' ↦ some (ended c')
  | again c' ↦ next rounds c'
]
