-- ===== src/Book/State/Sizes.antt =====
-- The sizes of a new book: its lookup tables are large enough, empty and well formed.
use market_order_book_engine.Base.{
  ℕ, zero, suc, ◌-◌, ◌*◌, ◌^◌, ◌≤◌, ◌<◌, ◌≡◌, refl, ap, List, none, some, ltb, mul64, ◌==◌, ◌||◌,
  arith, length, replicate, length-replicate, get_or-replicate, ◌↔◌, ◌⊎◌, if_both, Bool-cases, inl,
  inr,
}
use market_order_book_engine.Book.Table
use market_order_book_engine.Book.Table.{npos, Key, Slot, empty_slot}
use market_order_book_engine.Book.Table.Valid.{IsTable, fresh-IsTable, find-Absent}
use market_order_book_engine.Book.State.{
  Book, LevelKey, order_key, level_key, power_loop, next_power_of_two, new_book,
}

-- The least power of two that is at least `value`.
pub record IsCeiling (value power : ℕ) : Type 0 where
  pub width : ℕ
  pub is_power : power ≡ 2 ^ width
  pub enough : value ≤ power
  pub least : power < 2 * value

twice : (n : ℕ) → 2 ^ suc n ≡ 2 * 2 ^ n
twice n = grind arith

shift_two : (a b : ℕ) → a * (2 * b) ≡ 2 * a * b
shift_two a b = grind arith

shift_power : (a b : ℕ) → 2 ^ a * 2 ^ suc b ≡ 2 ^ suc a * 2 ^ b
shift_power a b = rw (twice a, twice b) (shift_two (2 ^ a) (2 ^ b))

power_loop-IsCeiling :
    (rounds width value : ℕ)
    → value ≤ 2 ^ 62
    → value ≤ 2 ^ rounds * 2 ^ width
    → 2 ^ width < 2 * value
    → IsCeiling value (power_loop rounds (2 ^ width) value)
unfolding power_loop
power_loop-IsCeiling zero width value small h l = record {
  width = width;
  is_power = refl;
  enough = omega arith;
  least = l;
}
power_loop-IsCeiling (suc rounds) width value small h l =
    if_both (IsCeiling value) (ltb (2 ^ width) value)
      (λ b.
        let double : mul64 (2 ^ width) 2 ≡ 2 ^ suc width = ground (arith, twice width) in
        rw double (
          power_loop-IsCeiling rounds (suc width) value small (rw (shift_power rounds width) h)
            (ground (arith, twice width))))
      λ b. record { width = width; is_power = refl; enough = ground arith; least = l }

-- For values from 1 to 2 ^ 62 the loop of next_power_of_two ends, with the least power of two that is
-- not below the value.
pub next_power_of_two-IsCeiling :
    (value : ℕ) → 0 < value → value ≤ 2 ^ 62 → IsCeiling value (next_power_of_two value)
unfolding next_power_of_two
next_power_of_two-IsCeiling value h small =
    power_loop-IsCeiling 64 0 value small (omega arith) (omega arith)

-- A table that nothing has been entered in: well formed, with room for twice `capacity` keys, none
-- of which is found.
pub record IsFresh {ℓ} {K : Type ℓ} ⦃key : Key K⦄ (capacity : ℕ) (t : List (Slot K)) : Type ℓ where
  pub table : IsTable t
  pub room : 2 * capacity ≤ length t
  pub finds : (k : K) → Table.find t k ≡ npos

replicate-IsFresh :
    {K : Type 0} ⦃key : Key K⦄ (capacity w : ℕ)
    → 2 * capacity ≤ 2 ^ w
    → IsFresh capacity (replicate (2 ^ w) (empty_slot {K = K}))
replicate-IsFresh {K} capacity w h = record {
  table = fresh-IsTable w;
  room = omega (arith, length-replicate (2 ^ w) (empty_slot {K = K}), h);
  finds = λ k. find-Absent (fresh-IsTable w) k λ i o.
      absurd (ground (arith, o, ap Slot.state (get_or-replicate (2 ^ w) i (empty_slot {K = K}))));
}

next_power_of_two-IsFresh :
    {K : Type 0} ⦃key : Key K⦄ (capacity : ℕ)
    → 0 < capacity
    → capacity < 2 ^ 32
    → IsFresh capacity (replicate (next_power_of_two (mul64 capacity 2)) (empty_slot {K = K}))
next_power_of_two-IsFresh capacity h small =
    let c = next_power_of_two-IsCeiling (mul64 capacity 2) (omega arith) (omega arith) in
    rw c.is_power (replicate-IsFresh capacity c.width (omega (arith, c.enough, c.is_power)))

-- The constructor succeeds for 1 to 2 ^ 32 - 1 orders, and for no other number; both tables of the
-- book that it makes are fresh.
pub new_book-IsFresh :
    (max_orders : ℕ)
    → ((new_book max_orders ≡ none) ↔ ((max_orders ≡ 0) ⊎ (2 ^ 32 ≤ max_orders)))
      × ((b : Book)
          → new_book max_orders ≡ some b
          → IsFresh max_orders b.order_lookup × IsFresh max_orders b.level_lookup)
unfolding new_book
new_book-IsFresh max_orders = elim (Bool-cases ((max_orders == 0) || ltb (2 ^ 32 - 1) max_orders)) [
  | inl c ↦ rw c (((λ e. ground arith), λ h. refl), λ b e. absurd (cc))
  | inr c ↦
      let ids = next_power_of_two-IsFresh {K = ℕ} max_orders (ground arith) (ground arith) in
      let prices =
        next_power_of_two-IsFresh {K = LevelKey} max_orders (ground arith) (ground arith) in
      rw c (
        ((λ e. absurd (cc)), λ h. absurd (ground arith)),
        λ b e.
            let i : b.order_lookup ≡ replicate (next_power_of_two (mul64 max_orders 2)) empty_slot =
              ground (arith, e) in
            let p : b.level_lookup ≡ replicate (next_power_of_two (mul64 max_orders 2)) empty_slot =
              ground (arith, e) in
            (rw i ids, rw p prices),
      )
]
