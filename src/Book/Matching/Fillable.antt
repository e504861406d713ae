-- ===== src/Book/Matching/Fillable.antt =====
-- fillable_quantity counts no more than what the other side offers.
use market_order_book_engine.Base.{
  ℕ, zero, suc, ◌+◌, ◌≤◌, ◌<◌, ◌≡◌, ◌≢◌, inl, inr, refl, ap, ◌∙◌, List, [], ◌∷◌, All, arith, ℤ,
  ◌==◌, ==_iff, false, Bool-cases, if◌then◌else◌, add64,
}
use market_order_book_engine.Types.{
  Side, buy, sell, opposite, OrderRequest, OrderType, limit, market,
}
use market_order_book_engine.Book.State.{Book, level_at}
use market_order_book_engine.Book.Ladder.{size_of, heap_at}
use market_order_book_engine.Book.Ladder.Swap.{heap_at_injective}
use market_order_book_engine.Book.Ladder.Write.{price_of}
use market_order_book_engine.Book.Links.Chain.{Lacks, Distinct}
use market_order_book_engine.Book.Links.Fifo.{quantity_of}
use market_order_book_engine.Book.Links.Bounds.{drop_out}
use market_order_book_engine.Book.Links.Cut.{All-map, All-zip}
use market_order_book_engine.Book.Matching.{
  within_limit, crosses, crosses_type, fillable_loop, fillable_quantity,
}
use market_order_book_engine.Book.Matching.Sweep.{makers_of}
use market_order_book_engine.Book.Matching.Tiers.{tiers_of, Among, Ahead, Sorted, Ranked}
use market_order_book_engine.Book.Whole.{IsBook}
use market_order_book_engine.Book.Matching.Offered.{quantity_in, offered}

-- the sum over the indices
abbrev sum : (ℕ → ℕ) → List ℕ → ℕ
sum f [] = 0
sum f (x ∷ xs) = f x + sum f xs

sum-drop_out :
    (f : ℕ → ℕ) (e : ℕ) (xs : List ℕ) → Among e xs → sum f xs ≡ f e + sum f (drop_out e xs)
unfolding drop_out
sum-drop_out f e [] a = absurd a
sum-drop_out f e (x ∷ xs) a = elim (Bool-cases (x == e)) [
  | inl q ↦ rw q (ap (λ k. f k + sum f xs) ((==_iff x e).0 q))
  | inr q ↦ elim a [
    | inl s ↦ absurd (ground (arith, q, s))
    | inr b ↦ rw q (omega (arith, sum-drop_out f e xs b))
  ]
]

Among-drop_out : (k e : ℕ) (xs : List ℕ) → k ≢ e → Among k xs → Among k (drop_out e xs)
unfolding drop_out
Among-drop_out k e [] ne a = a
Among-drop_out k e (x ∷ xs) ne a = elim (Bool-cases (x == e)) [
  | inl q ↦ elim a [ inl s ↦ absurd (ne (s ∙ (==_iff x e).0 q)) | inr b ↦ rw q b ]
  | inr q ↦ elim a [ inl s ↦ rw q (inl s) | inr b ↦ rw q (inr (Among-drop_out k e xs ne b)) ]
]

-- distinct indices out of a list have no larger sum
sum_le : (f : ℕ → ℕ) (es xs : List ℕ) → Distinct es → All (λ e. Among e xs) es → sum f es ≤ sum f xs
sum_le f [] xs d h = omega arith
sum_le f (e ∷ es) xs (out, d) (a, h) = omega (
  arith,
  sum-drop_out f e xs a,
  sum_le f es (drop_out e xs) d (All-zip (λ k ne b. Among-drop_out k e xs ne b) es out h),
)

quantity_in-makers_of :
    (b : Book) (xs : List ℕ) → quantity_in (makers_of b xs) ≡ quantity_of b.orders xs
quantity_in-makers_of b [] = refl
quantity_in-makers_of b (x ∷ xs) = omega (arith, quantity_in-makers_of b xs)

-- A price that is nearer to the top than one within the limit is within it too.
crosses-Ahead :
    (r : OrderRequest) (p q : ℤ)
    → Ahead (opposite r.side) p q
    → crosses r p ≡ false
    → crosses r q ≡ false
unfolding crosses within_limit
crosses-Ahead r p q a = by_type r.order_type r.side a
  where
    by_type :
        (t : OrderType) (side : Side)
        → Ahead (opposite side) p q
        → crosses_type t (within_limit side r.price_ticks p) ≡ false
        → crosses_type t (within_limit side r.price_ticks q) ≡ false
    by_type limit buy a e = ground (arith, a, e)
    by_type limit sell a e = ground (arith, a, e)
    by_type market side a e = absurd (cc)

module _ (b : Book) (r : OrderRequest) (queues : ℕ → List ℕ) (v : IsBook b queues) where
  abbrev other : Side
  other = opposite r.side

  -- what the level offers to the order
  abbrev worth : ℕ → ℕ
  worth k = if crosses r (price_of b k) then quantity_in (makers_of b (queues k)) else 0

  sum-none : (ks : List ℕ) → All (λ k. crosses r (price_of b k) ≡ false) ks → sum worth ks ≡ 0
  sum-none [] h = refl
  sum-none (k ∷ ks) (e, h) = rw e (omega (arith, sum-none ks h))

  offered-worth :
      (ks : List ℕ) → Sorted other b ks → offered r (tiers_of b queues ks) ≡ sum worth ks
  offered-worth [] h = refl
  offered-worth (k ∷ ks) (a, h) = elim (Bool-cases (crosses r (price_of b k))) [
    | inl e ↦ rw e (omega (arith, offered-worth ks h))
    | inr e ↦ rw e (
        omega (
          arith,
          sum-none ks (All-map (λ j g. crosses-Ahead r (price_of b k) (price_of b j) g e) ks a),
        ))
  ]

  -- the levels in the heap from a position on
  entries : ℕ → ℕ → List ℕ
  entries zero i = []
  entries (suc n) i = heap_at other b i ∷ entries n (suc i)

  entries-Lacks :
      (j n i : ℕ) → j < i → i + n ≤ size_of other b → Lacks (heap_at other b j) (entries n i)
  unfolding entries
  entries-Lacks j zero i h k = tt
  entries-Lacks j (suc n) i h k = (
    (λ e. omega (
      arith,
      h,
      heap_at_injective (v.ladder other).place i j (omega (arith, k)) (omega (arith, h, k)) e,
    )),
    entries-Lacks j n (suc i) (omega (arith, h)) (omega (arith, k)),
  )

  entries-Distinct : (n i : ℕ) → i + n ≤ size_of other b → Distinct (entries n i)
  unfolding entries
  entries-Distinct zero i k = tt
  entries-Distinct (suc n) i k = (
    entries-Lacks i n (suc i) (omega arith) (omega (arith, k)),
    entries-Distinct n (suc i) (omega (arith, k)),
  )

  entries-Among :
      (ks : List ℕ)
      → Ranked other b ks
      → (n i : ℕ) → i + n ≤ size_of other b
      → All (λ e. Among e ks) (entries n i)
  unfolding entries
  entries-Among ks h zero i k = tt
  entries-Among ks h (suc n) i k = (
    h.all (heap_at other b i) (i, omega (arith, k), refl),
    entries-Among ks h n (suc i) (omega (arith, k)),
  )

  fillable_loop_le :
      (n i available : ℕ)
      → i + n ≤ size_of other b
      → fillable_loop b r n i available ≤ available + sum worth (entries n i)
  unfolding fillable_loop entries
  fillable_loop_le zero i available k = omega arith
  fillable_loop_le (suc n) i available k =
      let l = heap_at other b i in
      let q = v.queue other l (i, omega (arith, k), refl) in
      let total : (level_at b l).total_quantity ≤ quantity_in (makers_of b (queues l)) =
        omega (arith, q.total, quantity_in-makers_of b (queues l)) in
      elim (Bool-cases (crosses r (price_of b l))) [
        | inl e ↦
            let rest =
              fillable_loop_le n (suc i) (add64 available (level_at b l).total_quantity)
                (omega (arith, k)) in
            rw e (omega (arith, rest, total))
        | inr e ↦
            let rest = fillable_loop_le n (suc i) available (omega (arith, k)) in
            rw e (omega (arith, rest))
      ]

  pub fillable_quantity_le :
      (ks : List ℕ) → Ranked other b ks → fillable_quantity b r ≤ offered r (tiers_of b queues ks)
  unfolding fillable_quantity
  fillable_quantity_le ks h =
      let n = size_of other b in
      omega (
        arith,
        fillable_loop_le n 0 0 (omega arith),
        offered-worth ks h.sorted,
        sum_le worth (entries n 0) ks (entries-Distinct n 0 (omega arith))
            (entries-Among ks h n 0 (omega arith)),
      )
