-- ===== src/Itch.antt =====
-- The ITCH 5.0 feed: decoding of messages, MoldUDP64 packets, and the connectors that frame streams.
pub mod Bytes
pub mod Decoder
pub mod Mold
pub mod Datagrams
pub mod Window
pub mod File
pub mod Soup
pub mod MoldConnector
mod Tests
