-- ===== src/Checksum.antt =====
-- include/market/StateChecksum.hpp: the 64-bit finalizer and the checksum of a set of orders. The
-- finalizer stands once more in src/OrderBook.cpp, as the hash of the lookup tables.
use market_order_book_engine.Base.{
  ℕ, List, [], ◌∷◌, bit_xor, mul64, xor_shift, rotl, to_u64, length, if◌then◌else◌,
}
use market_order_book_engine.Types.{Side, buy, side_beq, OrderView}

unfoldable pub checksum_mix : ℕ → ℕ
checksum_mix value =
    let v1 = mul64 (xor_shift 30 value) 0xbf58476d1ce4e5b9 in
    let v2 = mul64 (xor_shift 27 v1) 0x94d049bb133111eb in xor_shift 31 v2

-- the constant that tells the sides apart
abbrev pub side_salt : Side → ℕ
side_salt side = if side_beq side buy then 0x6a09e667f3bcc909 else 0xbb67ae8584caa73b

unfoldable pub order_checksum : OrderView → ℕ
unfolding checksum_mix rotl to_u64
order_checksum o =
    let v1 = bit_xor (checksum_mix o.id) (rotl (checksum_mix (to_u64 o.price_ticks)) 11) in
    let v2 = bit_xor v1 (rotl (checksum_mix o.quantity) 23) in
    let v3 = bit_xor v2 (rotl (checksum_mix o.priority) 37) in
    checksum_mix (bit_xor v3 (side_salt o.side))

fold_orders : ℕ → List OrderView → ℕ
fold_orders result [] = result
fold_orders result (o ∷ orders) = fold_orders (bit_xor result (order_checksum o)) orders

unfoldable pub state_checksum : List OrderView → ℕ
unfolding fold_orders order_checksum
state_checksum orders = fold_orders (checksum_mix (length orders)) orders
