-- ===== src/Book/Table/Path.antt =====
-- The probe sequence of a lookup table: which slots it leads through, and where the loops stop.
use market_order_book_engine.Base.{
  ℕ, zero, suc, ◌+◌, ◌-◌, ◌^◌, ◌<◌, ◌≡◌, ◌≢◌, ◌⊎◌, inl, inr, refl, sym, ap, List, false, arith,
  bit_and, add64, length, set, get_or-set, get_or-eq_of_le, ◌==◌, if◌then◌else◌, Bool-cases,
}
use market_order_book_engine.Base.Bits.{bit_and_mask}
use native.Mathlib.Decide.{dec_le}
use native.Mathlib.Nat.{one-le-pow}
use market_order_book_engine.Book.Table.{
  npos, SlotState, empty, occupied, tombstone, Slot, Probed, at, ran_out, Key, ◌=ᵏ◌, empty_slot,
  slot_at, home, next_slot, find_loop, insert_loop, erase_loop,
}

pub SlotState-cases : (s : SlotState) → (s ≡ empty) ⊎ ((s ≡ tombstone) ⊎ (s ≡ occupied))
SlotState-cases empty = inl refl
SlotState-cases tombstone = inr (inl refl)
SlotState-cases occupied = inr (inr refl)

pub mask-lt : (w x : ℕ) → bit_and x (2 ^ w - 1) < 2 ^ w
mask-lt w x = omega (arith, bit_and_mask w x, one-le-pow w 2)

module _ {ℓ} {K : Type ℓ} ⦃key : Key K⦄ where
  pub home-lt : (w : ℕ) (k : K) → home (2 ^ w) k < 2 ^ w
  home-lt w k = mask-lt w (key.hash k)

  abbrev pub state_at : List (Slot K) → ℕ → SlotState
  state_at t i = (slot_at t i).state

  -- `d` steps of the probe sequence lead from `i` to `j`, over slots that are not empty
  abbrev pub Reaches : List (Slot K) → ℕ → ℕ → ℕ → ℕ → Type 0
  Reaches t n zero i j = i ≡ j
  Reaches t n (suc d) i j = (state_at t i ≢ empty) × Reaches t n d (next_slot n i) j

  pub Reaches-last :
      (t : List (Slot K)) (n d i j : ℕ)
      → Reaches t n d i j
      → state_at t j ≢ empty
      → Reaches t n (suc d) i (next_slot n j)
  Reaches-last t n zero i j e h = ground arith
  Reaches-last t n (suc d) i j (a, r) h = (a, Reaches-last t n d (next_slot n i) j r h)

  -- a slot that is written non-empty blocks no path
  pub Reaches-set :
      (t : List (Slot K)) (n d i j p : ℕ) (s : Slot K)
      → p < length t
      → s.state ≢ empty
      → Reaches t n d i j
      → Reaches (set t p s) n d i j
  Reaches-set t n zero i j p s hp hs r = r
  Reaches-set t n (suc d) i j p s hp hs (a, r) = (
    ground (arith, get_or-set t p i s empty_slot hp),
    Reaches-set t n d (next_slot n i) j p s hp hs r,
  )

  module _ (t : List (Slot K)) where
    -- slot `i` holds `v` under `k`
    pub record Stored (k : K) (v i : ℕ) : Type ℓ where
      pub state : state_at t i ≡ occupied
      pub same : (slot_at t i).key ≡ k
      pub value : (slot_at t i).value ≡ v

    abbrev pub Absent : K → Type 0
    Absent k = (i : ℕ) → state_at t i ≡ occupied → ((slot_at t i).key =ᵏ k) ≡ false

    abbrev pub IsUnique : Type ℓ
    IsUnique =
        (i j : ℕ)
        → state_at t i ≡ occupied
        → state_at t j ≡ occupied
        → (slot_at t i).key ≡ (slot_at t j).key
        → i ≡ j

    pub state_at-lt : (i : ℕ) → state_at t i ≢ empty → i < length t
    state_at-lt i h = elim (dec_le (length t) i) [
      | yes p ↦ absurd (h (ap Slot.state (get_or-eq_of_le t i empty_slot p)))
      | no p ↦ omega arith
    ]

  module _ (t : List (Slot K)) (k : K) where
    pub find_loop-Absent : (m i : ℕ) → Absent t k → find_loop t k m i ≡ npos
    unfolding find_loop
    find_loop-Absent zero i a = refl
    find_loop-Absent (suc m) i a =
        ground (arith, a i, find_loop-Absent m (next_slot (length t) i) a)

    pub erase_loop-Absent : (m i : ℕ) → Absent t k → erase_loop t k m i ≡ t
    unfolding erase_loop
    erase_loop-Absent zero i a = refl
    erase_loop-Absent (suc m) i a =
        ground (arith, a i, erase_loop-Absent m (next_slot (length t) i) a)

    -- a lookup that ends in a value has read it in a slot
    pub find_loop-Stored : (m i v : ℕ) → find_loop t k m i ≡ v → v ≢ npos → (j : ℕ) × Stored t k v j
    unfolding find_loop
    find_loop-Stored zero i v e h = absurd (h (sym e))
    find_loop-Stored (suc m) i v e h =
        let rest = find_loop-Stored m (next_slot (length t) i) v in
        elim (SlotState-cases (state_at t i)) [
          | inl s ↦ absurd (ground arith)
          | inr (inl s) ↦ rest (ground arith) h
          | inr (inr s) ↦ elim (Bool-cases ((slot_at t i).key =ᵏ k)) [
            | inl b ↦
                (i, record { state = s; same = (key.eq.beq_iff _ _).0 b; value = ground arith })
            | inr b ↦ rest (ground arith) h
          ]
        ]

    module _ (unique : IsUnique t) (v j : ℕ) (stored : Stored t k v j) where
      pub find_loop-Reaches :
          (m d i : ℕ) → d < m → Reaches t (length t) d i j → find_loop t k m i ≡ v
      unfolding find_loop
      find_loop-Reaches zero d i h r = absurd (omega arith)
      find_loop-Reaches (suc m) zero i h r =
          ground (arith, stored.state, stored.same, stored.value, key.eq.beq_iff k k)
      find_loop-Reaches (suc m) (suc d) i h (a, r) = ground (
        arith,
        unique i j,
        stored.state,
        stored.same,
        stored.value,
        key.eq.beq_iff (slot_at t i).key k,
        find_loop-Reaches m d (next_slot (length t) i) (omega arith) r,
      )

      pub erase_loop-Reaches :
          (m d i : ℕ)
          → d < m
          → Reaches t (length t) d i j
          → erase_loop t k m i ≡ set t j (record (slot_at t j) { state = tombstone })
      unfolding erase_loop
      erase_loop-Reaches zero d i h r = absurd (omega arith)
      erase_loop-Reaches (suc m) zero i h r =
          ground (arith, stored.state, stored.same, stored.value, key.eq.beq_iff k k)
      erase_loop-Reaches (suc m) (suc d) i h (a, r) = ground (
        arith,
        unique i j,
        stored.state,
        stored.same,
        stored.value,
        key.eq.beq_iff (slot_at t i).key k,
        erase_loop-Reaches m d (next_slot (length t) i) (omega arith) r,
      )

  -- `p` is where the probes for `k` may put it: not occupied, and on the path of `k`
  pub record Dest (t : List (Slot K)) (k : K) (p : ℕ) : Type ℓ where
    pub inside : p < length t
    pub vacant : state_at t p ≢ occupied
    pub steps : ℕ
    pub few : steps < length t
    pub path : Reaches t (length t) steps (home (length t) k) p

  abbrev pub NoneOrDest : List (Slot K) → K → ℕ → Type ℓ
  NoneOrDest t k p = (p ≡ length t) ⊎ Dest t k p

  abbrev pub ProbedOk : List (Slot K) → K → Probed → Type ℓ
  ProbedOk t k (at p) = Dest t k p
  ProbedOk t k (ran_out p) = NoneOrDest t k p

  module _ (t : List (Slot K)) (k : K) (w : ℕ) (sized : length t ≡ 2 ^ w) where
    next-lt : (i : ℕ) → next_slot (length t) i < length t
    next-lt i = rw sized (mask-lt w (add64 i 1))

    -- the first tombstone is kept
    first :
        (i d tomb : ℕ)
        → i < length t
        → d < length t
        → NoneOrDest t k tomb
        → Reaches t (length t) d (home (length t) k) i
        → state_at t i ≢ occupied
        → Dest t k (if tomb == length t then i else tomb)
    first i d tomb hi hd ok r s = elim (Bool-cases (tomb == length t)) [
      | inl b ↦ rw b (record { inside = hi; vacant = s; steps = d; few = hd; path = r })
      | inr b ↦ rw b (elim ok [ inl e ↦ absurd (ground arith) | inr dest ↦ dest ])
    ]

    pub insert_loop-ProbedOk :
        (m d i tomb : ℕ)
        → d + m ≡ length t
        → i < length t
        → Reaches t (length t) d (home (length t) k) i
        → NoneOrDest t k tomb
        → ProbedOk t k (insert_loop t m i tomb)
    unfolding insert_loop
    insert_loop-ProbedOk zero d i tomb h hi r ok = ok
    insert_loop-ProbedOk (suc m) d i tomb h hi r ok =
        let further = λ (s : state_at t i ≢ empty). Reaches-last t (length t) d _ i r s in
        elim (SlotState-cases (state_at t i)) [
          | inl s ↦ rw (s, insert_loop) (first i d tomb hi (omega arith) ok r (ground arith))
          | inr (inl s) ↦
              rw (s, insert_loop)
                (insert_loop-ProbedOk m (suc d) (next_slot (length t) i) _ (omega arith) (next-lt i)
                  (further (ground arith))
                  (inr (first i d tomb hi (omega arith) ok r (ground arith))))
          | inr (inr s) ↦
              rw (s, insert_loop)
                (insert_loop-ProbedOk m (suc d) (next_slot (length t) i) tomb (omega arith)
                  (next-lt i) (further (ground arith)) ok)
        ]
