-- ===== src/Book/Table.antt =====
-- The open-addressing lookup tables of src/OrderBook.cpp: linear probing with tombstones. The
-- loops over order_lookup_ and level_lookup_ differ in the key alone, so a slot is generic in its
-- key; the two inserts differ in what they do when the probes run out. Indices wrap by the mask
-- `size() - 1`, and `npos` marks what is not there.
pub mod Path
pub mod Valid
pub mod Enter
pub mod Erase
pub mod Full
use market_order_book_engine.Base.{
  ℕ, zero, suc, ◌-◌, ◌^◌, List, Option, none, some, Bool, bit_and, add64, length, get_or, set, ◌==◌,
  if◌then◌else◌, Eq,
}

-- `UINT32_MAX`
abbrev pub npos : ℕ
npos = 2 ^ 32 - 1

pub data SlotState : Type 0 where
  empty occupied tombstone : SlotState

pub record Slot {ℓ} (K : Type ℓ) : Type ℓ where
  pub key : K
  pub value : ℕ
  pub state : SlotState

-- How the probes of an insert end: at the destination, or with the first tombstone that they met
-- (`size()` for none).
pub data Probed : Type 0 where
  at : ℕ → Probed
  ran_out : ℕ → Probed

-- A table's keys: their equality, their hash, and the key of a fresh slot.
pub record Key {ℓ} (K : Type ℓ) : Type ℓ where
  pub eq : Eq K
  pub hash : K → ℕ
  pub default : K

-- `(slot + 1) & mask`
abbrev pub next_slot : ℕ → ℕ → ℕ
next_slot size i = bit_and (add64 i 1) (size - 1)

module _ {ℓ} {K : Type ℓ} ⦃key : Key K⦄ where
  infix 50 ◌=ᵏ◌
  abbrev pub ◌=ᵏ◌ : K → K → Bool
  ◌=ᵏ◌ = key.eq.beq

  abbrev pub empty_slot : Slot K
  empty_slot = record { key = key.default; value = npos; state = empty }

  abbrev pub slot_at : List (Slot K) → ℕ → Slot K
  slot_at t i = get_or t i empty_slot

  -- `mix(key) & mask`
  abbrev pub home : ℕ → K → ℕ
  home size k = bit_and (key.hash k) (size - 1)

  pub find_loop : List (Slot K) → K → ℕ → ℕ → ℕ
  find_loop t k zero i = npos
  find_loop t k (suc probes) i =
      let entry = slot_at t i in
      elim entry.state [
        | empty ↦ npos
        | occupied ↦
            let rest = find_loop t k probes (next_slot (length t) i) in
            if entry.key =ᵏ k then entry.value else rest
        | tombstone ↦ find_loop t k probes (next_slot (length t) i)
      ]

  unfoldable pub find : List (Slot K) → K → ℕ
  unfolding find_loop
  find t k = find_loop t k (length t) (home (length t) k)

  -- the probes of both inserts
  pub insert_loop : List (Slot K) → ℕ → ℕ → ℕ → Probed
  insert_loop t zero i tomb = ran_out tomb
  insert_loop t (suc probes) i tomb = elim (slot_at t i).state [
    | empty ↦ at (if tomb == length t then i else tomb)
    | occupied ↦ insert_loop t probes (next_slot (length t) i) tomb
    | tombstone ↦
        insert_loop t probes (next_slot (length t) i) (if tomb == length t then i else tomb)
  ]

  abbrev pub taken : K → ℕ → Slot K
  taken k v = record { key = k; value = v; state = occupied }

  abbrev pub put : List (Slot K) → ℕ → K → ℕ → List (Slot K)
  put t i k v = set t i (taken k v)

  -- insert_order_lookup, from the end of its probes: `none` for `false`
  abbrev pub place_or_reuse : List (Slot K) → K → ℕ → Probed → Option (List (Slot K))
  place_or_reuse t k v (at i) = some (put t i k v)
  place_or_reuse t k v (ran_out tomb) = if tomb == length t then none else some (put t tomb k v)

  unfoldable pub insert_or_reuse : List (Slot K) → K → ℕ → Option (List (Slot K))
  unfolding insert_loop
  insert_or_reuse t k v =
      place_or_reuse t k v (insert_loop t (length t) (home (length t) k) (length t))

  -- insert_level_lookup, which gives up when the probes run out
  abbrev pub place : List (Slot K) → K → ℕ → Probed → Option (List (Slot K))
  place t k v (at i) = some (put t i k v)
  place t k v (ran_out tomb) = none

  unfoldable pub insert : List (Slot K) → K → ℕ → Option (List (Slot K))
  unfolding insert_loop
  insert t k v = place t k v (insert_loop t (length t) (home (length t) k) (length t))

  pub erase_loop : List (Slot K) → K → ℕ → ℕ → List (Slot K)
  erase_loop t k zero i = t
  erase_loop t k (suc probes) i =
      let entry = slot_at t i in
      elim entry.state [
        | empty ↦ t
        | occupied ↦
            let rest = erase_loop t k probes (next_slot (length t) i) in
            if entry.key =ᵏ k then set t i (record entry { state = tombstone }) else rest
        | tombstone ↦ erase_loop t k probes (next_slot (length t) i)
      ]

  unfoldable pub erase : List (Slot K) → K → List (Slot K)
  unfolding erase_loop
  erase t k = erase_loop t k (length t) (home (length t) k)
