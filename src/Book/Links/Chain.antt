-- ===== src/Book/Links/Chain.antt =====
-- The queue of a level as the list of its orders' indices, linked both ways.
use market_order_book_engine.Base.{
  ℕ, ◌<◌, ◌≡◌, ◌≢◌, get_or, ◌∙◌, List, [], ◌∷◌, ◌++◌, All, arith, length, ◌==◌, if◌then◌else◌,
}
use market_order_book_engine.Book.State.{Order, fresh_order}

-- the first of the indices, or what comes behind them; the last one, or what comes before
abbrev pub first : List ℕ → ℕ → ℕ
first [] n = n
first (x ∷ xs) n = x

abbrev pub last : ℕ → List ℕ → ℕ
last p [] = p
last p (x ∷ xs) = last x xs

-- The orders at the indices, linked both ways from `p` to `n`.
abbrev pub Linked : List Order → ℕ → List ℕ → ℕ → Type 0
Linked orders p [] n = Unit
Linked orders p (x ∷ xs) n =
    (x < length orders)
    × ((get_or orders x fresh_order).prev ≡ p)
    × ((get_or orders x fresh_order).next ≡ first xs n)
    × Linked orders x xs n

abbrev pub Lacks : ℕ → List ℕ → Type 0
Lacks x xs = All (λ y. y ≢ x) xs

abbrev pub Distinct : List ℕ → Type 0
Distinct [] = Unit
Distinct (x ∷ xs) = Lacks x xs × Distinct xs

-- Orders that differ outside of a list leave its links.
pub Linked-same :
    (orders orders' : List Order) (p n : ℕ) (xs : List ℕ)
    → length orders' ≡ length orders
    → All
        (λ x.
          ((get_or orders' x fresh_order).prev ≡ (get_or orders x fresh_order).prev)
          × ((get_or orders' x fresh_order).next ≡ (get_or orders x fresh_order).next))
        xs
    → Linked orders p xs n
    → Linked orders' p xs n
Linked-same orders orders' p n [] e h l = tt
Linked-same orders orders' p n (x ∷ xs) e ((a, b), h) (i, c, d, l) =
    (omega (arith, i, e), a ∙ c, b ∙ d, Linked-same orders orders' x n xs e h l)

pub last-Lacks : (x y : ℕ) (ys : List ℕ) → Lacks x (y ∷ ys) → last y ys ≢ x
last-Lacks x y [] (p, h) = p
last-Lacks x y (z ∷ zs) (p, h) = last-Lacks x z zs h

-- the link to the order behind, after a write of the last one's
snoc_next :
    (x : ℕ) (xs : List ℕ) (v w o n n' : ℕ)
    → Lacks x xs
    → w ≡ (if x == last x xs then o else v)
    → v ≡ first xs n
    → w ≡ first (xs ++ o ∷ []) n'
snoc_next x [] v w o n n' out e f = ground (arith, e)
snoc_next x (y ∷ ys) v w o n n' out e f =
    let other : last y ys ≢ x = last-Lacks x y ys out in ground (arith, e, f, other)

-- Another order behind the last one.
pub Linked-snoc :
    (orders orders' : List Order) (o p n n' : ℕ) (xs : List ℕ)
    → length orders' ≡ length orders
    → o < length orders
    → (get_or orders' o fresh_order).prev ≡ last p xs
    → (get_or orders' o fresh_order).next ≡ n'
    → Distinct xs
    → All (λ x. (get_or orders' x fresh_order).prev ≡ (get_or orders x fresh_order).prev) xs
    → All
        (λ x.
          (get_or orders' x fresh_order).next
          ≡ (if x == last p xs then o else (get_or orders x fresh_order).next))
        xs
    → Linked orders p xs n
    → Linked orders' p (xs ++ o ∷ []) n'
Linked-snoc orders orders' o p n n' [] e i a b d hp hn l = (omega (arith, i, e), a, b, tt)
Linked-snoc orders orders' o p n n' (x ∷ xs) e i a b (out, d) (up, hp) (down, hn) (j, c, k, l) = (
  omega (arith, j, e),
  up ∙ c,
  snoc_next x xs _ _ o n n' out down k,
  Linked-snoc orders orders' o x n n' xs e i a b d hp hn l,
)
