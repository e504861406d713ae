-- ===== src/Book/Matching/Tiers.antt =====
-- A side of the book as tiers from the best price on, and a reference for what an incoming order
-- takes of them: price before time.
use market_order_book_engine.Base.{
  ℕ, ◌+◌, ◌<◌, ◌≡◌, ◌⊎◌, inl, inr, refl, sym, ap, ◌∙◌, subst, List, [], ◌∷◌, ◌++◌, All, arith, ℤ,
  ltb, ◌&&◌, if◌then◌else◌, Bool, true, false,
}
use market_order_book_engine.Types.{Side, OrderRequest, Fill}
use market_order_book_engine.Book.Table.{npos}
use market_order_book_engine.Book.State.{Book}
use market_order_book_engine.Book.Ladder.{ladder_top}
use market_order_book_engine.Book.Ladder.Best.{ladder_top-Behind}
use market_order_book_engine.Book.Ladder.Order.{gain, cost}
use market_order_book_engine.Book.Ladder.Swap.{Holds}
use market_order_book_engine.Book.Ladder.Write.{HasLadder, price_of}
use market_order_book_engine.Book.Links.Chain.{Lacks, Distinct}
use market_order_book_engine.Book.Links.Cut.{All-map}
use market_order_book_engine.Book.Matching.{crosses}
use market_order_book_engine.Book.Matching.Sweep.{Maker, Swept, makers_of, sweep, sweep-ends}

-- A price with its makers, first in the queue first.
pub record Tier : Type 0 where
  pub price : ℤ
  pub makers : List Maker

abbrev pub tier_of : Book → (ℕ → List ℕ) → ℕ → Tier
tier_of b queues k = record { price = price_of b k; makers = makers_of b (queues k) }

-- the levels at the indices, as tiers
abbrev pub tiers_of : Book → (ℕ → List ℕ) → List ℕ → List Tier
tiers_of b queues [] = []
tiers_of b queues (k ∷ ks) = tier_of b queues k ∷ tiers_of b queues ks

-- the fills, what remains of the incoming order and the tiers that are left
pub record Matched : Type 0 where
  pub fills : List Fill
  pub remaining : ℕ
  pub left : List Tier

-- a swept tier, and the rest if it is used up
abbrev pub after_tier : ℤ → List Maker → List Tier → Matched → Matched
after_tier price [] ts rest = rest
after_tier price (m ∷ ms) ts rest = record {
  fills = [];
  remaining = 0;
  left = record { price = price; makers = m ∷ ms } ∷ ts;
}

-- The tiers are swept from the best one on, as long as something remains and the price is within the limit.
unfoldable pub match_tiers : OrderRequest → ℕ → ℕ → List Tier → Matched
unfolding sweep
match_tiers r n remaining [] = record { fills = []; remaining = remaining; left = [] }
match_tiers r n remaining (t ∷ ts) =
    let w = sweep r t.price n remaining t.makers in
    let rest = after_tier t.price w.left ts (match_tiers r w.next w.remaining ts) in
    if ltb 0 remaining && crosses r t.price
    then record { fills = w.fills ++ rest.fills; remaining = rest.remaining; left = rest.left }
    else record { fills = []; remaining = remaining; left = t ∷ ts }

abbrev pub Among : ℕ → List ℕ → Type 0
Among k [] = ⊥
Among k (x ∷ xs) = (k ≡ x) ⊎ Among k xs

-- The first price is nearer to the top than the second.
abbrev pub Ahead : Side → ℤ → ℤ → Type 0
Ahead side p q = gain side q + cost side p < gain side p + cost side q

abbrev pub Sorted : Side → Book → List ℕ → Type 0
Sorted side b [] = Unit
Sorted side b (k ∷ ks) = All (λ j. Ahead side (price_of b k) (price_of b j)) ks × Sorted side b ks

-- The levels of the side, one for each price, from the best one on.
pub record Ranked (side : Side) (b : Book) (ks : List ℕ) : Type 0 where
  pub held : All (Holds side b) ks
  pub all : (k : ℕ) → Holds side b k → Among k ks
  pub sorted : Sorted side b ks

pub All-among : (P : ℕ → Type 0) (k : ℕ) (ks : List ℕ) → All P ks → Among k ks → P k
All-among P k [] h a = absurd a
All-among P k (x ∷ xs) (p, h) (inl e) = subst P (sym e) p
All-among P k (x ∷ xs) (p, h) (inr a) = All-among P k xs h a

pub Sorted-same :
    (side : Side) (b b' : Book) (ks : List ℕ)
    → ((k : ℕ) → price_of b' k ≡ price_of b k)
    → Sorted side b ks
    → Sorted side b' ks
Sorted-same side b b' [] e h = tt
Sorted-same side b b' (k ∷ ks) e (a, h) =
    (All-map (λ j g. rw (e k, e j) g) ks a, Sorted-same side b b' ks e h)

-- a level of a better price is another level
pub Sorted-Lacks :
    (side : Side) (b : Book) (k : ℕ) (ks : List ℕ)
    → All (λ j. Ahead side (price_of b k) (price_of b j)) ks
    → Lacks k ks
Sorted-Lacks side b k ks h =
    All-map
      (λ j a e.
        omega
          (arith, a, ap (λ i. gain side (price_of b i)) e, ap (λ i. cost side (price_of b i)) e))
      ks h

pub Sorted-Distinct : (side : Side) (b : Book) (ks : List ℕ) → Sorted side b ks → Distinct ks
Sorted-Distinct side b [] h = tt
Sorted-Distinct side b (k ∷ ks) (a, h) = (Sorted-Lacks side b k ks a, Sorted-Distinct side b ks h)

-- The top of the ladder is the first of the levels.
pub top-Ranked :
    (side : Side) (b : Book) (k : ℕ) (ks : List ℕ)
    → HasLadder side b
    → Ranked side b (k ∷ ks)
    → ladder_top side b ≡ k
top-Ranked side b k ks v h = elim (ladder_top-Behind side b v) [
  | inl e ↦ let (i, inside, _) = h.held.0 in absurd (omega (arith, e.0, inside))
  | inr (top, best) ↦ elim (h.all (ladder_top side b) top) [
    | inl e ↦ e
    | inr a ↦ absurd (
        omega (
          arith,
          All-among (λ j. Ahead side (price_of b k) (price_of b j)) (ladder_top side b) ks
              h.sorted.0 a,
          best k h.held.0,
        ))
  ]
]

-- A side without levels has no top.
pub top-none :
    (side : Side) (b : Book) → HasLadder side b → Ranked side b [] → ladder_top side b ≡ npos
top-none side b v h = elim (ladder_top-Behind side b v) [
  | inl e ↦ e.1
  | inr (top, best) ↦ absurd (h.all (ladder_top side b) top)
]

pub tiers_of-same :
    (b b' : Book) (queues queues' : ℕ → List ℕ) (ks : List ℕ)
    → All (λ k. tier_of b' queues' k ≡ tier_of b queues k) ks
    → tiers_of b' queues' ks ≡ tiers_of b queues ks
tiers_of-same b b' queues queues' [] h = refl
tiers_of-same b b' queues queues' (k ∷ ks) (e, h) =
    ap (λ t. t ∷ tiers_of b' queues' ks) e
    ∙ ap (λ ts. tier_of b queues k ∷ ts) (tiers_of-same b b' queues queues' ks h)

-- What remains is within the limit of the order.
abbrev pub goes_on : OrderRequest → ℕ → ℤ → Bool
goes_on r remaining price = ltb 0 remaining && crosses r price

module _ (r : OrderRequest) (n remaining : ℕ) (t : Tier) (ts : List Tier) where
  abbrev swept : Swept
  swept = sweep r t.price n remaining t.makers

  pub match_tiers-stop :
      goes_on r remaining t.price ≡ false
      → match_tiers r n remaining (t ∷ ts)
        ≡ record { fills = []; remaining = remaining; left = t ∷ ts }
  unfolding match_tiers
  match_tiers-stop e = rw e refl

  pub match_tiers-more :
      goes_on r remaining t.price ≡ true
      → swept.left ≡ []
      → let rest = match_tiers r swept.next swept.remaining ts in
        match_tiers r n remaining (t ∷ ts)
        ≡ record { fills = swept.fills ++ rest.fills; remaining = rest.remaining; left = rest.left }
  unfolding match_tiers
  match_tiers-more e none = rw (e, none) refl

  pub sweep-part : (m : Maker) (ms : List Maker) → swept.left ≡ m ∷ ms → swept.remaining ≡ 0
  sweep-part m ms some = elim (sweep-ends r t.price n remaining t.makers) [
    | inl e ↦ e
    | inr none ↦ absurd (cc)
  ]

  pub match_tiers-part :
      (m : Maker) (ms : List Maker)
      → goes_on r remaining t.price ≡ true
      → swept.left ≡ m ∷ ms
      → match_tiers r n remaining (t ∷ ts) ≡ record {
        fills = swept.fills ++ [];
        remaining = swept.remaining;
        left = record { price = t.price; makers = swept.left } ∷ ts;
      }
  unfolding match_tiers
  match_tiers-part m ms e some = rw (e, some, sweep-part m ms some) refl
