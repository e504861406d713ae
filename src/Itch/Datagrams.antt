-- ===== src/Itch/Datagrams.antt =====
-- include/market/itch/DatagramSource.hpp and its part of src/MoldUdp64Connector.cpp: datagrams from
-- memory, and from a file in which each stands behind its 4-byte length.
pub mod Taken
use market_order_book_engine.Base.{
  ℕ, ◌+◌, ◌<◌, List, [], Option, none, some, Bool, true, false, not, ◌||◌, ltb, min, ◌++◌, ◌==◌,
  length, take, drop, get_elem?, if◌then◌else◌,
}
use market_order_book_engine.Itch.Bytes.{Bytes, ◌>>=◌, read_be32}
use market_order_book_engine.Itch.Window.{resize}

pub record InMemoryDatagramSource : Type 0 where
  pub datagrams : List Bytes
  pub index : ℕ

unfoldable pub next_in_memory : InMemoryDatagramSource → Option Bytes × InMemoryDatagramSource
next_in_memory s = elim (get_elem? s.datagrams s.index) [
  | none ↦ (none, s)
  | some d ↦ (some d, record s { index = s.index + 1 })
]

-- `good` is the state of the stream: a read that comes short clears it. `buffer` keeps its bytes from
-- one datagram to the next.
pub record DatagramFile : Type 0 where
  pub input : Bytes
  pub buffer : Bytes
  pub good : Bool
  pub failed : Bool

-- the constructor, over the bytes of the file if it can be opened
abbrev pub open_datagrams : Option Bytes → DatagramFile
open_datagrams none = record { input = []; buffer = []; good = false; failed = true }
open_datagrams (some bytes) = record { input = bytes; buffer = []; good = true; failed = false }

abbrev pub fail_file : DatagramFile → Option Bytes × DatagramFile
fail_file s = (none, record s { input = []; good = false; failed = true })

-- `read` into a buffer: as many bytes as there are come over its first ones. It gives their number, the
-- buffer and the bytes that are left.
pub read_into : Bytes → Bytes → ℕ × Bytes × Bytes
read_into buffer input =
    let got = min (length buffer) (length input) in
    (got, take got input ++ drop got buffer, drop got input)

-- The datagram of `n` bytes behind its length. A stream with fewer bytes fills the first part of the
-- buffer alone, and fails.
unfoldable pub read_body : DatagramFile → ℕ → Option Bytes × DatagramFile
unfolding read_into
read_body s n =
    let resized = resize s.buffer n in
    let input = drop 4 s.input in
    if n == 0
    then (some resized, record s { input = input; buffer = resized })
    else (let (got, buffer, rest) = read_into resized input in
        if not (got == n)
        then fail_file (record s { buffer = buffer })
        else (some buffer, record s { input = rest; buffer = buffer }))

-- The outer option is a read past the end of the length bytes.
unfoldable pub next_datagram : DatagramFile → Option (Option Bytes × DatagramFile)
next_datagram s =
    if s.failed || not s.good
    then some (none, s)
    else if length s.input == 0
    then some (none, record s { good = false })
    else if ltb (length s.input) 4
    then some (fail_file s)
    else (read_be32 s.input 0 >>= λ n. some (read_body s n))
