-- ===== src/Book/Links/Bounds.antt =====
-- A list of distinct indices is no longer than what they index.
use market_order_book_engine.Base.{
  ℕ, zero, suc, ◌≤◌, ◌<◌, ◌≡◌, ◌≢◌, List, [], ◌∷◌, All, arith, length, ◌==◌, ==_iff, if◌then◌else◌,
  if_both, Bool-cases, inl, inr,
}
use market_order_book_engine.Book.Table.{npos}
use market_order_book_engine.Book.State.{Book}
use market_order_book_engine.Book.Links.Chain.{Lacks, Distinct}
use market_order_book_engine.Book.Links.Fifo.{IsQueue}
use market_order_book_engine.Book.Links.Cut.{Linked-within}

-- the list without the first `k` in it
unfoldable pub drop_out : ℕ → List ℕ → List ℕ
drop_out k [] = []
drop_out k (x ∷ xs) = if x == k then xs else x ∷ drop_out k xs

length-drop_out : (k : ℕ) (xs : List ℕ) → length xs ≤ suc (length (drop_out k xs))
unfolding drop_out
length-drop_out k [] = omega arith
length-drop_out k (x ∷ xs) = elim (Bool-cases (x == k)) [
  | inl e ↦ rw e (omega arith)
  | inr e ↦ rw e (omega (arith, length-drop_out k xs))
]

pub All-drop_out : (P : ℕ → Type 0) (k : ℕ) (xs : List ℕ) → All P xs → All P (drop_out k xs)
unfolding drop_out
All-drop_out P k [] h = tt
All-drop_out P k (x ∷ xs) (p, h) =
    if_both (All P) (x == k) (λ e. h) (λ e. (p, All-drop_out P k xs h))

Distinct-drop_out : (k : ℕ) (xs : List ℕ) → Distinct xs → Distinct (drop_out k xs)
unfolding drop_out
Distinct-drop_out k [] d = tt
Distinct-drop_out k (x ∷ xs) (out, d) =
    if_both Distinct (x == k) (λ e. d)
      (λ e. (All-drop_out (λ y. y ≢ x) k xs out, Distinct-drop_out k xs d))

-- without its largest entry, the entries are below it
below :
    (n : ℕ) (xs : List ℕ) → Distinct xs → All (λ x. x < suc n) xs → All (λ x. x < n) (drop_out n xs)
unfolding drop_out
below n [] d h = tt
below n (x ∷ xs) (out, d) (p, h) =
    if_both (All (λ x. x < n)) (x == n) (λ e. both xs ((==_iff x n).0 e) out h)
      (λ e. (ground (arith, p, e), below n xs d h))
  where
    both : (xs : List ℕ) → x ≡ n → Lacks x xs → All (λ x. x < suc n) xs → All (λ x. x < n) xs
    both [] e out h = tt
    both (y ∷ ys) e (ne, out) (q, h) = (omega (arith, e, ne, q), both ys e out h)

pub length-Distinct : (n : ℕ) (xs : List ℕ) → Distinct xs → All (λ x. x < n) xs → length xs ≤ n
length-Distinct zero [] d h = omega arith
length-Distinct zero (x ∷ xs) d (p, h) = absurd (omega (arith, p))
length-Distinct (suc n) xs d h = omega (
  arith,
  length-drop_out n xs,
  length-Distinct n (drop_out n xs) (Distinct-drop_out n xs d) (below n xs d h),
)

-- A queue holds no more orders than there are.
pub length-queue : (b : Book) (l : ℕ) (xs : List ℕ) → IsQueue b l xs → length xs ≤ length b.orders
length-queue b l xs v =
    length-Distinct (length b.orders) xs v.distinct (Linked-within b.orders npos npos xs v.linked)
