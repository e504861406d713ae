-- ===== src/Book/Matching/Offered.antt =====
-- What the other side of a book offers to an order within its limit, and what fillable_quantity says of it.
use market_order_book_engine.Base.{
  ℕ, leb, ◌-◌, ◌+◌, ◌≤◌, ◌≡◌, ◌⊎◌, inl, inr, refl, List, [], ◌∷◌, arith, ℤ, ◌==◌, true, false,
  Bool-cases, if◌then◌else◌, add64,
}
use market_order_book_engine.Types.{OrderRequest}
use market_order_book_engine.Book.Matching.{crosses}
use market_order_book_engine.Book.Matching.Sweep.{Maker, sweep}
use market_order_book_engine.Book.Matching.Tiers.{
  Tier, match_tiers, goes_on, match_tiers-stop, match_tiers-more, match_tiers-part, sweep-part,
}

-- the quantity of the makers
abbrev pub quantity_in : List Maker → ℕ
quantity_in [] = 0
quantity_in (m ∷ ms) = m.quantity + quantity_in ms

module _ (r : OrderRequest) where
  -- What the tiers offer, up to the first one beyond the limit.
  abbrev pub offered : List Tier → ℕ
  offered [] = 0
  offered (t ∷ ts) = if crosses r t.price then quantity_in t.makers + offered ts else 0

  -- makers that are used up were filled with all of their quantity
  sweep-all :
      (price : ℤ) (n remaining : ℕ) (ms : List Maker)
      → (sweep r price n remaining ms).left ≡ []
      → (sweep r price n remaining ms).remaining + quantity_in ms ≡ remaining
  unfolding sweep
  sweep-all price n remaining [] e = omega arith
  sweep-all price n remaining (m ∷ ms) e = elim (Bool-cases (remaining == 0)) [
    | inl q ↦ let some_left : m ∷ ms ≡ [] = (rw q at e) in absurd (cc)
    | inr q ↦ elim (Bool-cases (leb m.quantity remaining)) [
      | inl k ↦
          let none : (sweep r price (add64 n 1) (remaining - m.quantity) ms).left ≡ [] =
            (rw (q, k) at e) in
          rw (q, k)
            (ground (arith, k, sweep-all price (add64 n 1) (remaining - m.quantity) ms none))
      | inr k ↦ absurd (part k (rw (q, k) at e))
    ]
  ]
    where
      part : {x : Maker} {xs : List Maker} → leb m.quantity remaining ≡ false → x ∷ xs ≡ [] → ⊥
      part k e = cc

  -- With as much on offer as is wanted, nothing remains.
  pub match_tiers-offered :
      (n remaining : ℕ) (ts : List Tier)
      → remaining ≤ offered ts
      → (match_tiers r n remaining ts).remaining ≡ 0
  unfolding match_tiers
  match_tiers-offered n remaining [] h = omega (arith, h)
  match_tiers-offered n remaining (t ∷ ts) h =
      let w = sweep r t.price n remaining t.makers in
      elim (Bool-cases (goes_on r remaining t.price)) [
        | inr e ↦
            let none : remaining ≡ 0 = stopped e in rw (match_tiers-stop r n remaining t ts e) none
        | inl e ↦ elim (left-cases w.left) [
          | inl q ↦
              let inside : crosses r t.price ≡ true = ground (arith, e) in
              let more : remaining ≤ quantity_in t.makers + offered ts = (rw inside at h) in
              rw (match_tiers-more r n remaining t ts e q) (
                match_tiers-offered w.next w.remaining ts
                  (omega (arith, more, sweep-all t.price n remaining t.makers q)))
          | inr (m, ms, q) ↦
              rw (match_tiers-part r n remaining t ts m ms e q)
                (sweep-part r n remaining t ts m ms q)
        ]
      ]
    where
      left-cases : (ms : List Maker) → (ms ≡ []) ⊎ ((m : Maker) × (ns : List Maker) × (ms ≡ m ∷ ns))
      left-cases [] = inl refl
      left-cases (m ∷ ms) = inr (m, ms, refl)

      stopped : goes_on r remaining t.price ≡ false → remaining ≡ 0
      stopped e = elim (Bool-cases (crosses r t.price)) [
        | inl c ↦ ground (arith, e, c)
        | inr c ↦ let few : remaining ≤ 0 = (rw c at h) in omega (arith, few)
      ]
