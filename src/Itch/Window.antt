-- ===== src/Itch/Window.antt =====
-- The read window that ItchFileConnector and SoupBinTcpConnector share (`ensure` in
-- src/ItchFileConnector.cpp and src/SoupBinTcpConnector.cpp): a buffer that is compacted and
-- refilled from a stream. The stream is the list of the bytes that it has yet to give; a read gives
-- as many as it is asked for, or all that are left.
pub mod Moves
pub mod Stream
use market_order_book_engine.Base.{
  ℕ, zero, suc, ◌+◌, ◌-◌, ◌*◌, ◌^◌, [], ◌++◌, Bool, true, false, ◌&&◌, not, ltb, leb, ◌==◌, min,
  length, take, drop, replicate, if◌then◌else◌,
}
use market_order_book_engine.Itch.Bytes.{Bytes}

pub record Window : Type 0 where
  pub buffer : Bytes
  pub input : Bytes
  pub pos : ℕ
  pub size : ℕ
  pub eof : Bool

-- the constructor over a byte vector
unfoldable pub whole : Bytes → Window
whole bytes = record { buffer = bytes; input = []; pos = 0; size = length bytes; eof = true }

abbrev pub stream_buffer_size : ℕ
stream_buffer_size = 2 ^ 16

-- the constructor over a file that can be opened
unfoldable pub streamed : Bytes → Window
streamed file = record {
  buffer = replicate stream_buffer_size 0;
  input = file;
  pos = 0;
  size = 0;
  eof = false;
}

-- `buffer_.resize(n)`
unfoldable pub resize : Bytes → ℕ → Bytes
resize buffer n = take n buffer ++ replicate (n - length buffer) 0

-- `size_ - pos_`
abbrev pub available : Window → ℕ
available w = w.size - w.pos

-- the unread bytes move to the front
pub compact : Window → Window
compact w =
    let remaining = available w in
    if ltb 0 w.pos
    then record w {
      buffer = take remaining (drop w.pos w.buffer) ++ drop remaining w.buffer;
      pos = 0;
      size = remaining;
    }
    else w

-- `input_.read` into the free part of the buffer, of which there is some
pub read_more : Window → Window
unfolding resize
read_more w =
    let buffer =
      if w.size == length w.buffer then resize w.buffer (length w.buffer * 2) else w.buffer in
    let got = min (length buffer - w.size) (length w.input) in
    if got == 0 then record w { buffer = buffer; eof = true } else record w {
      buffer = take w.size buffer ++ (take got w.input ++ drop (w.size + got) buffer);
      input = drop got w.input;
      size = w.size + got;
    }

pub fill_loop : ℕ → ℕ → Window → Window
fill_loop zero n w = w
fill_loop (suc rounds) n w =
    let rest = fill_loop rounds n (read_more w) in if ltb w.size n && not w.eof then rest else w

-- `ensure` when it has to read. A round of its loop takes bytes from the stream or ends it.
pub refill : Window → ℕ → Window
unfolding compact fill_loop read_more resize
refill w n =
    let w1 = compact w in
    let w2 = if ltb (length w1.buffer) n then record w1 { buffer = resize w1.buffer n } else w1 in
    fill_loop (length w2.input + 2) n w2

unfoldable pub ensure : Window → ℕ → Bool × Window
unfolding refill
ensure w n =
    if leb n (available w)
    then (true, w)
    else if w.eof
    then (false, w)
    else (let w1 = refill w n in (leb n (available w1), w1))
