-- ===== src/Book/Table/Erase.antt =====
-- Removing a key from a lookup table.
use market_order_book_engine.Base.{
  ℕ, ◌≡◌, refl, ap, ◌∙◌, inl, inr, List, false, arith, length, set, length-set, ◌<◌, ◌==◌,
  if◌then◌else◌, Bool-cases,
}
use native.Mathlib.Decide.{ℕ_discrete}
use market_order_book_engine.Book.Table.{
  npos, tombstone, Slot, Key, ◌=ᵏ◌, slot_at, home, find, erase,
}
use market_order_book_engine.Book.Table.Valid.{
  IsTable, find-Stored, find-eq-npos, find-Absent, find-found, slot_at-set, reach-set,
}
use market_order_book_engine.Book.Table.Path.{
  Stored, Absent, state_at-lt, erase_loop-Absent, erase_loop-Reaches,
}

module _ {ℓ} {K : Type ℓ} ⦃key : Key K⦄ where
  -- What a table is after `k` has been removed.
  pub record Erased (t : List (Slot K)) (k : K) (t' : List (Slot K)) : Type ℓ where
    pub valid : IsTable t'
    pub size : length t' ≡ length t
    pub reads : (q : K) → find t' q ≡ (if k =ᵏ q then npos else find t q)

  module _ {t : List (Slot K)} (table : IsTable t) (k : K) where
    module _ (v j : ℕ) (s : Stored t k v j) where
      grave : Slot K
      grave = record (slot_at t j) { state = tombstone }

      erase-grave : erase t k ≡ set t j grave
      unfolding erase grave
      erase-grave =
          let (d, h, r) = table.reach j s.state in
          erase_loop-Reaches t k table.unique v j s (length t) d (home (length t) k) h
            (rw (ap (home (length t)) s.same) at r)

      inside : j < length t
      inside = state_at-lt t j (ground (arith, s.state))

      slots : (i : ℕ) → slot_at (set t j grave) i ≡ (if j == i then grave else slot_at t i)
      unfolding grave
      slots = slot_at-set table k j grave inside (ground arith)

      grave-IsTable : IsTable (set t j grave)
      unfolding grave
      grave-IsTable = record {
        width = table.width;
        sized = length-set t j grave ∙ table.sized;
        unique = λ a b ha hb e. ground (arith, slots a, slots b, table.unique a b);
        reach = λ i hi.
            let (d, h, r) = table.reach i (ground (arith, slots i)) in
            reach-set table k j grave inside (ground arith) (slot_at t i).key i d h r
              (ground (arith, slots i));
        valued = λ i hi. ground (arith, slots i, table.valued i);
      }

      grave-Absent : Absent (set t j grave) k
      unfolding grave
      grave-Absent i h =
          ground
            (arith, slots i, table.unique i j, s.state, s.same, key.eq.beq_iff (slot_at t i).key k)

      kept_Stored :
          (q : K) (x i : ℕ) → (k =ᵏ q) ≡ false → Stored t q x i → Stored (set t j grave) q x i
      unfolding grave
      kept_Stored q x i other p =
          ground (arith, slots i, p.state, p.same, p.value, s.same, key.eq.beq_iff k q)

      still_Absent : (q : K) → Absent t q → Absent (set t j grave) q
      unfolding grave
      still_Absent q a i h = ground (arith, slots i, a i)

      grave-Erased : Erased t k (set t j grave)
      grave-Erased = record {
        valid = grave-IsTable;
        size = length-set t j grave;
        reads = λ q. elim (Bool-cases (k =ᵏ q)) [
          | inl same ↦
              let e = (key.eq.beq_iff k q).0 same in
              rw (same, ← e) (find-Absent grave-IsTable k grave-Absent)
          | inr other ↦ rw other (elim (ℕ_discrete (find t q) npos) [
            | yes missing ↦
                rw missing
                  (find-Absent grave-IsTable q (still_Absent q (find-eq-npos table q missing)))
            | no found ↦
                let (i, p) = find-found table q found in
                find-Stored grave-IsTable q (find t q) i (kept_Stored q (find t q) i other p)
          ])
        ];
      }

    erase-Absent : Absent t k → erase t k ≡ t
    unfolding erase
    erase-Absent a = erase_loop-Absent t k (length t) (home (length t) k) a

    -- Erasing a key, whether it is in the table or not, leaves a well-formed table of the same size
    -- in which the key is not found and every other key reads as before.
    pub erase-Erased : Erased t k (erase t k)
    erase-Erased = elim (ℕ_discrete (find t k) npos) [
      | yes missing ↦
          let absent = find-eq-npos table k missing in
          rw (erase-Absent absent) (record {
            valid = table;
            size = refl;
            reads = λ q. elim (Bool-cases (k =ᵏ q)) [
              | inl same ↦ rw (same, ← (key.eq.beq_iff k q).0 same) missing
              | inr other ↦ rw other
            ];
          })
      | no found ↦
          let (i, p) = find-found table k found in
          rw (erase-grave (find t k) i p) (grave-Erased (find t k) i p)
    ]
