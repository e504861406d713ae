-- ===== src/Book/Table/Enter.antt =====
-- Entering a key in a lookup table.
use market_order_book_engine.Base.{
  ℕ, ◌≡◌, ◌≢◌, inl, inr, subst, ◌∙◌, List, false, some, arith, length, length-set, ◌==◌,
  if◌then◌else◌, Bool-cases,
}
use native.Mathlib.Decide.{ℕ_discrete}
use market_order_book_engine.Book.Table.{
  npos, Slot, Probed, at, ran_out, Key, ◌=ᵏ◌, slot_at, taken, find, insert, insert_or_reuse, place,
  place_or_reuse, put,
}
use market_order_book_engine.Book.Table.Valid.{
  IsTable, find-Stored, find-eq-npos, find-Absent, find-found, insert_loop_ends, slot_at-set,
  reach-set,
}
use market_order_book_engine.Book.Table.Path.{Stored, Absent, Dest, ProbedOk}

module _ {ℓ} {K : Type ℓ} ⦃key : Key K⦄ where
  module _ {t : List (Slot K)} (table : IsTable t) (k : K) where
    module _ (absent : Absent t k) (p v : ℕ) (dest : Dest t k p) (some_value : v ≢ npos) where
      slots : (i : ℕ) → slot_at (put t p k v) i ≡ (if p == i then taken k v else slot_at t i)
      slots = slot_at-set table k p (taken k v) dest.inside (ground arith)

      put-IsTable : IsTable (put t p k v)
      put-IsTable =
          let moved = reach-set table k p (taken k v) dest.inside (ground arith) in
          record {
            width = table.width;
            sized = length-set t p (taken k v) ∙ table.sized;
            unique = λ i j hi hj e. ground (
              arith,
              slots i,
              slots j,
              table.unique i j,
              absent i,
              absent j,
              key.eq.beq_iff (slot_at t i).key k,
              key.eq.beq_iff (slot_at t j).key k,
            );
            reach = λ i hi. elim (Bool-cases (p == i)) [
              | inl b ↦
                  let e : p ≡ i = ground arith in
                  moved k i dest.steps dest.few (rw e at dest.path) (ground (arith, slots i))
              | inr b ↦
                  let (d, h, r) = table.reach i (ground (arith, slots i)) in
                  moved (slot_at t i).key i d h r (ground (arith, slots i))
            ];
            valued = λ i hi. ground (arith, slots i, table.valued i);
          }

      put-Stored : Stored (put t p k v) k v p
      put-Stored = ground (arith, slots p)

      old_Stored : (q : K) (x j : ℕ) → Stored t q x j → Stored (put t p k v) q x j
      old_Stored q x j s = ground (arith, slots j, s.state, s.same, s.value, dest.vacant)

      -- what may be looked up besides `k` is what could be before
      put-Absent : (q : K) → (k =ᵏ q) ≡ false → Absent t q → Absent (put t p k v) q
      put-Absent q ne a i h = ground (arith, slots i, a i)

  -- What a table is after `v` has been entered under `k`.
  pub record Entered (t : List (Slot K)) (k : K) (v : ℕ) (t' : List (Slot K)) : Type ℓ where
    pub table : IsTable t'
    pub size : length t' ≡ length t
    pub reads : (q : K) → find t' q ≡ (if k =ᵏ q then v else find t q)

  module _ {t : List (Slot K)} (table : IsTable t) (k : K) (v : ℕ) (some_value : v ≢ npos)
      (free : find t k ≡ npos) where
    put-Entered : (p : ℕ) → Dest t k p → Entered t k v (put t p k v)
    put-Entered p dest = record {
      table = table';
      size = length-set t p (taken k v);
      reads = λ q. elim (Bool-cases (k =ᵏ q)) [
        | inl same ↦
            let e = (key.eq.beq_iff k q).0 same in
            rw (same, ← e)
              (find-Stored table' k v p (put-Stored table k absent p v dest some_value))
        | inr other ↦ rw other (elim (ℕ_discrete (find t q) npos) [
          | yes missing ↦ rw missing (
              find-Absent table' q (
                put-Absent table k absent p v dest some_value q other
                  (find-eq-npos table q missing)))
          | no found ↦
              let (j, s) = find-found table q found in
              find-Stored table' q (find t q) j
                (old_Stored table k absent p v dest some_value q (find t q) j s)
        ])
      ];
    }
      where
        absent : Absent t k
        absent = find-eq-npos table k free

        table' : IsTable (put t p k v)
        table' = put-IsTable table k absent p v dest some_value

    place-Entered :
        (r : Probed) {t' : List (Slot K)}
        → place t k v r ≡ some t'
        → ProbedOk t k r
        → Entered t k v t'
    place-Entered (at p) {t'} e dest =
        let same : put t p k v ≡ t' = cc in subst (Entered t k v) same (put-Entered p dest)
    place-Entered (ran_out p) e ok = cc

    place_or_reuse-Entered :
        (r : Probed) {t' : List (Slot K)}
        → place_or_reuse t k v r ≡ some t'
        → ProbedOk t k r
        → Entered t k v t'
    place_or_reuse-Entered (at p) {t'} e dest =
        let same : put t p k v ≡ t' = cc in subst (Entered t k v) same (put-Entered p dest)
    place_or_reuse-Entered (ran_out p) {t'} e (inl n) = absurd (ground arith)
    place_or_reuse-Entered (ran_out p) {t'} e (inr dest) =
        let same : put t p k v ≡ t' = ground (arith, dest.inside) in
        subst (Entered t k v) same (put-Entered p dest)

    -- A new key that insert_level_lookup accepts is found under its value, every other key reads as
    -- before, and the table stays well formed.
    pub insert-Entered : {t' : List (Slot K)} → insert t k v ≡ some t' → Entered t k v t'
    unfolding insert
    insert-Entered e = place-Entered _ e (insert_loop_ends table k)

    -- The same of insert_order_lookup, which also takes a tombstone when the probes run out.
    pub insert_or_reuse-Entered :
        {t' : List (Slot K)} → insert_or_reuse t k v ≡ some t' → Entered t k v t'
    unfolding insert_or_reuse
    insert_or_reuse-Entered e = place_or_reuse-Entered _ e (insert_loop_ends table k)
