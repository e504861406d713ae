-- ===== src/Book/Table/Valid.antt =====
-- Lookup tables in use, and what find reads in them.
use market_order_book_engine.Base.{
  ℕ, ◌^◌, ◌<◌, ◌≡◌, ◌≢◌, inl, inr, refl, sym, ap, ◌∙◌, List, arith, length, set, length-set,
  get_or-set, replicate, length-replicate, get_or-replicate, ◌==◌, if◌then◌else◌, Bool-cases,
}
use market_order_book_engine.Book.Table.{
  npos, empty, occupied, Slot, Key, ◌=ᵏ◌, empty_slot, slot_at, home, insert_loop, find,
}
use market_order_book_engine.Book.Table.Path.{
  home-lt, state_at, Reaches, Reaches-set, Stored, Absent, IsUnique, find_loop-Absent,
  find_loop-Stored, find_loop-Reaches, ProbedOk, insert_loop-ProbedOk,
}

module _ {ℓ} {K : Type ℓ} ⦃key : Key K⦄ where
  -- A table in use: its size is a power of two, a key stands in one slot at most, within reach of
  -- its home, and no slot holds `npos`.
  pub record IsTable (t : List (Slot K)) : Type ℓ where
    pub width : ℕ
    pub sized : length t ≡ 2 ^ width
    pub unique : IsUnique t
    pub reach :
        (i : ℕ)
        → state_at t i ≡ occupied
        → (d : ℕ) × (d < length t) × Reaches t (length t) d (home (length t) (slot_at t i).key) i
    pub valued : (i : ℕ) → state_at t i ≡ occupied → (slot_at t i).value ≢ npos

  pub fresh-IsTable : (w : ℕ) → IsTable (replicate (2 ^ w) (empty_slot {K = K}))
  fresh-IsTable w =
      let vacant = λ (i : ℕ). ap Slot.state (get_or-replicate (2 ^ w) i (empty_slot {K = K})) in
      record {
        width = w;
        sized = length-replicate (2 ^ w) empty_slot;
        unique = λ i j hi hj e. absurd (ground (arith, vacant i));
        reach = λ i hi. absurd (ground (arith, vacant i));
        valued = λ i hi. absurd (ground (arith, vacant i));
      }

  module _ {t : List (Slot K)} (table : IsTable t) (k : K) where
    pub find-Stored : (v i : ℕ) → Stored t k v i → find t k ≡ v
    unfolding find
    find-Stored v i s =
        let (d, h, r) = table.reach i s.state in
        find_loop-Reaches t k table.unique v i s (length t) d (home (length t) k) h
          (rw (ap (home (length t)) s.same) at r)

    pub find-eq-npos : find t k ≡ npos → Absent t k
    find-eq-npos e i h = elim (Bool-cases ((slot_at t i).key =ᵏ k)) [
      | inr b ↦ b
      | inl b ↦
          let s : Stored t k (slot_at t i).value i = record {
            state = h;
            same = (key.eq.beq_iff _ _).0 b;
            value = refl;
          } in
          absurd (table.valued i h (sym (find-Stored _ i s) ∙ e))
    ]

    pub find-Absent : Absent t k → find t k ≡ npos
    unfolding find
    find-Absent a = find_loop-Absent t k (length t) (home (length t) k) a

    pub find-found : find t k ≢ npos → (i : ℕ) × Stored t k (find t k) i
    unfolding find
    find-found h = find_loop-Stored t k (length t) (home (length t) k) (find t k) refl h

    pub home-inside : home (length t) k < length t
    home-inside = rw table.sized (home-lt table.width k)

    pub insert_loop_ends : ProbedOk t k (insert_loop t (length t) (home (length t) k) (length t))
    insert_loop_ends =
        insert_loop-ProbedOk t k table.width table.sized (length t) 0 (home (length t) k) (length t)
          (omega arith) home-inside refl (inl refl)

    module _ (p : ℕ) (new_slot : Slot K) (inside : p < length t)
        (used : new_slot.state ≢ empty) where
      pub slot_at-set :
          (i : ℕ) → slot_at (set t p new_slot) i ≡ (if p == i then new_slot else slot_at t i)
      slot_at-set i = get_or-set t p i new_slot empty_slot inside

      -- a key that was within reach of its home before a write is so after it
      pub reach-set :
          (q : K) (i d : ℕ)
          → d < length t
          → Reaches t (length t) d (home (length t) q) i
          → (slot_at (set t p new_slot) i).key ≡ q
          → (d : ℕ) × (d < length (set t p new_slot))
            × Reaches
                (set t p new_slot)
                (length (set t p new_slot))
                d
                (home (length (set t p new_slot)) (slot_at (set t p new_slot) i).key)
                i
      reach-set q i d h r e =
          rw (e, length-set t p new_slot)
            (d, h, Reaches-set t (length t) d _ i p new_slot inside used r)
