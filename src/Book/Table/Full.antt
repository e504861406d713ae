-- ===== src/Book/Table/Full.antt =====
-- A table with no empty slot left: tombstones never become empty again.
use market_order_book_engine.Base.{
  ℕ, zero, suc, ◌^◌, ◌<◌, ◌≡◌, ◌≢◌, refl, ◌∙◌, List, none, inl, inr, arith, length, set, length-set,
  get_or-set, set-eq_of_le, Bool-cases,
}
use native.Mathlib.Decide.{dec_le}
use market_order_book_engine.Book.Table.{
  empty, Slot, Probed, at, ran_out, Key, ◌=ᵏ◌, empty_slot, slot_at, home, next_slot, insert_loop,
  erase_loop, insert, place, erase,
}
use market_order_book_engine.Book.Table.Path.{home-lt, mask-lt, state_at, SlotState-cases}

abbrev RanOut : Probed → Type 0
RanOut (at i) = ⊥
RanOut (ran_out tomb) = Unit

module _ {ℓ} {K : Type ℓ} ⦃key : Key K⦄ where
  pub record IsFull (t : List (Slot K)) : Type 0 where
    pub width : ℕ
    pub sized : length t ≡ 2 ^ width
    pub used : (i : ℕ) → i < length t → state_at t i ≢ empty

  insert_loop-RanOut :
      (t : List (Slot K)) (m i tomb : ℕ) → IsFull t → i < length t → RanOut (insert_loop t m i tomb)
  unfolding insert_loop
  insert_loop-RanOut t zero i tomb full h = tt
  insert_loop-RanOut t (suc m) i tomb full h =
      let inside : next_slot (length t) i < length t = rw full.sized (mask-lt full.width _) in
      elim (SlotState-cases (state_at t i)) [
        | inl s ↦ absurd (full.used i h s)
        | inr (inl s) ↦
            rw (s, insert_loop) (insert_loop-RanOut t m (next_slot (length t) i) _ full inside)
        | inr (inr s) ↦
            rw (s, insert_loop) (insert_loop-RanOut t m (next_slot (length t) i) tomb full inside)
      ]

  place-RanOut : (t : List (Slot K)) (k : K) (v : ℕ) (r : Probed) → RanOut r → place t k v r ≡ none
  place-RanOut t k v (at i) h = elim h [ ]
  place-RanOut t k v (ran_out tomb) h = refl

  -- Into a table with no empty slot insert_level_lookup enters nothing, though tombstones are free.
  pub insert-full : (t : List (Slot K)) (k : K) (v : ℕ) → IsFull t → insert t k v ≡ none
  unfolding insert
  insert-full t k v full = place-RanOut t k v _ (
      insert_loop-RanOut t (length t) (home (length t) k) (length t) full
        (rw full.sized (home-lt full.width k)))

  -- a write of a slot that is not empty
  set-IsFull :
      (t : List (Slot K)) (j : ℕ) (s : Slot K) → s.state ≢ empty → IsFull t → IsFull (set t j s)
  set-IsFull t j s used full = elim (dec_le (length t) j) [
    | yes out ↦ rw (set-eq_of_le t j s out) full
    | no p ↦ record {
      width = full.width;
      sized = length-set t j s ∙ full.sized;
      used = λ i h e. ground (arith, get_or-set t j i s empty_slot, full.used i, length-set t j s);
    }
  ]

  erase_loop-IsFull : (t : List (Slot K)) (k : K) (m i : ℕ) → IsFull t → IsFull (erase_loop t k m i)
  unfolding erase_loop
  erase_loop-IsFull t k zero i full = full
  erase_loop-IsFull t k (suc m) i full =
      let rest = erase_loop-IsFull t k m (next_slot (length t) i) full in
      elim (SlotState-cases (state_at t i)) [
        | inl s ↦ rw (s, erase_loop) full
        | inr (inl s) ↦ rw (s, erase_loop) rest
        | inr (inr s) ↦
            rw (s, erase_loop)
              (elim (Bool-cases ((slot_at t i).key =ᵏ k)) [
                | inl b ↦ rw b (set-IsFull t i _ (ground arith) full)
                | inr b ↦ rw b rest
              ])
      ]

  -- A full table stays full, whatever is erased from it.
  pub erase-IsFull : (t : List (Slot K)) (k : K) → IsFull t → IsFull (erase t k)
  unfolding erase
  erase-IsFull t k full = erase_loop-IsFull t k (length t) (home (length t) k) full
