-- ===== src/Itch/Mold/Safety.antt =====
-- The packet reader stays inside the datagram, and finds the blocks that a packet is framed of.
use market_order_book_engine.Base.{
  ℕ, ◌+◌, ◌^◌, ◌≤◌, ◌<◌, ◌≡◌, ◌⊎◌, inl, inr, ◌↔◌, refl, sym, ap, ◌∙◌, Option, none, some, ltb,
  length, take, drop, add64, arith, Bool-cases, length-take, length-drop,
}
use market_order_book_engine.Itch.Bytes.{Bytes, ◌>>=◌, read_be16}
use market_order_book_engine.Itch.Mold.{Packet, parse, read_block, header_size}
use market_order_book_engine.Itch.Bytes.Reads.{
  read_be16-Reads, read_be16_bounded, read_be64-Reads, slice-Reads,
}

-- A block that is read: its payload is as long as the length at the offset says, and stands inside
-- the datagram right behind it; the offset moves past it.
pub record IsBlock (p : Packet) (offset : ℕ) (payload : Bytes) (next : ℕ) : Type 0 where
  pub long : read_be16 p.bytes offset ≡ some (length payload)
  pub inside : next ≤ length p.bytes
  pub moved : next ≡ offset + 2 + length payload
  pub same : payload ≡ take (length payload) (drop (offset + 2) p.bytes)

-- The datagram ends before the block does: in its length, or in its payload.
abbrev pub IsShort : Packet → ℕ → Type 0
IsShort p offset =
    (length p.bytes < offset + 2)
    ⊎ ((n : ℕ) × (read_be16 p.bytes offset ≡ some n) × (length p.bytes < offset + 2 + n))

abbrev pub BlockOk : Packet → ℕ → Option (Bytes × ℕ) → Type 0
BlockOk p offset none = IsShort p offset
BlockOk p offset (some (payload, next)) = IsBlock p offset payload next

-- Whatever the offset in a datagram shorter than 2 ^ 63 bytes, `read_block` reads none past its end. What it gives is
-- the payload that the length at the offset announces, with the offset behind it; and it answers false only if the
-- datagram is too short for that length or for the payload.
pub read_block-BlockOk :
    (p : Packet) (offset : ℕ)
    → length p.bytes < 2 ^ 63
    → offset ≤ length p.bytes
    → (r : Option (Bytes × ℕ)) × (read_block p offset ≡ some r) × BlockOk p offset r
unfolding read_block
read_block-BlockOk p offset small h = elim (Bool-cases (ltb (length p.bytes) (add64 offset 2))) [
  | inl b ↦ (none, rw b, inl (ground arith))
  | inr b ↦
      let (n, e, fits) = read_be16_bounded p.bytes offset (ground arith) in
      elim (Bool-cases (ltb (length p.bytes) (add64 (add64 offset 2) n))) [
        | inl c ↦ (none, rw (b, e, ◌>>=◌, c), inr (n, e, ground arith))
        | inr c ↦
            let block = take n (drop (offset + 2) p.bytes) in
            let whole : length block ≡ n = ground (
              arith,
              length-take n (drop (offset + 2) p.bytes),
              length-drop (offset + 2) p.bytes,
            ) in
            (
              some (block, add64 offset (2 + n)),
              rw (b, e, ◌>>=◌, c, slice-Reads p.bytes (offset + 2) n (ground arith)),
              record {
                long = e ∙ ap some (sym whole);
                inside = ground arith;
                moved = ground arith;
                same = rw whole;
              },
            )
      ]
]

-- A datagram is refused as a packet exactly when it is shorter than the header, and parsing reads
-- none past its end.
pub parse_iff :
    (datagram : Bytes)
    → (r : Option Packet) × (parse datagram ≡ some r)
      × ((r ≡ none) ↔ (length datagram < header_size))
unfolding parse
parse_iff datagram = elim (Bool-cases (ltb (length datagram) header_size)) [
  | inl b ↦ (none, rw b, ((λ e. ground arith), λ h. refl))
  | inr b ↦
      let (sequence, e) = read_be64-Reads datagram 10 (ground arith) in
      let (count, e') = read_be16-Reads datagram 18 (ground arith) in
      (
        some (record { bytes = datagram; sequence = sequence; message_count = count }),
        rw (b, e, ◌>>=◌, e'),
        ((λ e. cc), λ h. absurd (ground arith)),
      )
]
