-- ===== src/Lib.antt =====
-- A verification library for the market data and order book engine.
--
-- The program replays exchange feeds into limit order books and matches orders against them.
-- Datagrams or byte streams are framed into messages (src/MoldUdp64Connector.cpp,
-- src/SoupBinTcpConnector.cpp, src/ItchFileConnector.cpp), each message is decoded into an event
-- (include/market/itch/ItchDecoder.hpp), events may cross a queue between two threads
-- (include/market/SpscQueue.hpp) and are applied to an order book (src/OrderBook.cpp), one per symbol
-- in src/MultiSymbolBook.cpp. Orders are submitted to the same book, which matches them. A backtest
-- and a queue model (src/Backtest.cpp, include/market/research/) read the book. Events also come as
-- rows of a text file (src/CSVReplayConnector.cpp), and five programs put the parts together.
--
-- Files and what they model:
--   Base          lists and integers over the native numbers, 64-bit words with their wrap-around,
--                 bit masks
--   Types         include/market/MarketDataEvent.hpp, include/market/OrderTypes.hpp and the views and
--                 results of include/market/OrderBook.hpp
--   Checksum      include/market/StateChecksum.hpp
--   Book          src/OrderBook.cpp: Table is the two lookup tables, State the pools and the
--                 constructor, Ladder the two heaps of price levels, Links the levels and their queues,
--                 Events process_event and its handlers, Matching submit, Views the queries; Whole is
--                 IsBook, the invariant of a well-formed book: its heaps, levels and queues agree
--   Multi         src/MultiSymbolBook.cpp
--   Itch          Bytes and Decoder are include/market/itch/ItchDecoder.hpp, Mold is
--                 include/market/itch/MoldUdp64.hpp, Datagrams is
--                 include/market/itch/DatagramSource.hpp, Window the buffer of the two stream
--                 connectors; File, Soup and MoldConnector are the connectors
--   Queue         include/market/SpscQueue.hpp: the calls, and in System the two threads, step by step
--   Text          numbers as std::from_chars reads them, and their decimal print
--   Csv           src/CSVReplayConnector.cpp: the rows, the lines and next; Print writes rows
--   Programs      the loops and arguments of src/Main.cpp, src/ItchReplay.cpp, src/ItchFeatures.cpp,
--                 src/ItchQueue.cpp and src/ItchBacktest.cpp; Main has two threads, as steps
--   Research      src/Backtest.cpp and the headers of include/market/research/
-- Functions keep the names of the source, without the underscores that end its fields. An object is a
-- record that a function takes and gives back; a reference into a pool is an index; an out-parameter
-- and a result are a pair; an exception, and a read past the end of a buffer, is none, but the exceptions of CSV
-- rows are values. The sink of
-- submit is the list of the fills it is given.
--
-- Words are natural numbers: additions, subtractions and products of 64-bit words wrap by % 2 ^ 64.
-- Prices are integers; the signed sums of the backtest are unbounded integers, their overflow being
-- undefined in C++. double is a record of operations, Research.Float, that nothing is assumed of.
--
-- Loops over a table run size() times, as in the source. The loops of the heaps run on fuel: a sift up
-- has as much as its position, a sift down the size of the heap, and both halve or double the position
-- at each round. The loops of submit and the walks of a level's queue have one round more than there
-- are orders or levels: each round takes an order or a level from a pool, and orders and levels of a
-- well-formed book are met once. The refill of the read window has two rounds more than the stream has bytes
-- left. next of a connector takes its number of rounds as an argument, but that of the CSV connector has
-- one round more than the file has bytes, and each of them takes a line. A print of a number has up to
-- 20 digits, enough for 64 bits.
--
-- Not modelled: the WebSocket and io_uring sources, thread pinning and clocks, which are calls of the
-- system and of libraries; the opening of files, exit codes and printing of the programs. A program
-- takes a connector as the list of the events that it delivers. strtod is a parameter. The acquire and
-- release orders of the queue are taken as an interleaving of atomic actions, and a stream as the bytes
-- that it has yet to give, of which a read gives as many as it is asked for or all that are left.
-- std::sort is an insertion sort, for levels that no two of which have the same side and price.
pub mod Base
pub mod Types
pub mod Text
pub mod Csv
pub mod Programs
pub mod Checksum
pub mod Book
pub mod Itch
pub mod Queue
pub mod Multi
pub mod Research
