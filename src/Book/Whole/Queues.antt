-- ===== src/Book/Whole/Queues.antt =====
-- Books with the same queue of a level.
use market_order_book_engine.Base.{ℕ, ◌^◌, ◌%◌, ◌≡◌, ◌≢◌, sym, ap, ◌∙◌, List, All, arith, length}
use market_order_book_engine.Book.Table.{npos}
use market_order_book_engine.Book.State.{Book, order_at, level_at}
use market_order_book_engine.Book.Links.Chain.{Linked-same, Lacks}
use market_order_book_engine.Book.Links.Fifo.{IsQueue}
use market_order_book_engine.Book.Links.Cut.{All-map, All-zip}
use market_order_book_engine.Book.Links.Remove.{quantity_of-same}
use market_order_book_engine.Book.Whole.{Lodged}

-- The links and the quantity of an order are the same.
pub record SameLinks (b b' : Book) (x : ℕ) : Type 0 where
  pub prev : (order_at b' x).prev ≡ (order_at b x).prev
  pub next : (order_at b' x).next ≡ (order_at b x).next
  pub quantity : (order_at b' x).quantity ≡ (order_at b x).quantity

-- The ends of the level and what it counts are the same.
pub record SameEnds (b b' : Book) (l : ℕ) : Type 0 where
  pub head : (level_at b' l).head ≡ (level_at b l).head
  pub tail : (level_at b' l).tail ≡ (level_at b l).tail
  pub count : (level_at b' l).order_count ≡ (level_at b l).order_count
  pub total : (level_at b' l).total_quantity ≡ (level_at b l).total_quantity

pub IsQueue-same :
    (b b' : Book) (l : ℕ) (xs : List ℕ)
    → length b'.orders ≡ length b.orders
    → length b'.levels ≡ length b.levels
    → SameEnds b b' l
    → All (SameLinks b b') xs
    → IsQueue b l xs
    → IsQueue b' l xs
IsQueue-same b b' l xs e d s h v = record {
  inside = omega (arith, v.inside, d);
  small = omega (arith, v.small, e);
  linked =
      Linked-same b.orders b'.orders npos npos xs e
        (All-map (λ x (k : SameLinks b b' x). (k.prev, k.next)) xs h) v.linked;
  distinct = v.distinct;
  head = s.head ∙ v.head;
  tail = s.tail ∙ v.tail;
  count = s.count ∙ v.count;
  total =
      s.total
      ∙ v.total
      ∙ ap (λ n. n % 2 ^ 64)
          (sym (
            quantity_of-same b.orders b'.orders xs
              (All-map (λ x (k : SameLinks b b' x). k.quantity) xs h)));
}

-- The order is the same as an order of a level.
pub record SameOrder (b b' : Book) (x : ℕ) : Type 0 where
  pub links : SameLinks b b' x
  pub level : (order_at b' x).level ≡ (order_at b x).level
  pub active : (order_at b' x).active ≡ (order_at b x).active

-- The queue of a level and the orders in it are well formed.
abbrev pub IsManned : Book → ℕ → List ℕ → Type 0
IsManned b l xs = IsQueue b l xs × All (Lodged b l) xs

pub IsManned-same :
    (b b' : Book) (l : ℕ) (xs : List ℕ)
    → length b'.orders ≡ length b.orders
    → length b'.levels ≡ length b.levels
    → SameEnds b b' l
    → All (SameOrder b b') xs
    → IsManned b l xs
    → IsManned b' l xs
IsManned-same b b' l xs e d s h (v, w) = (
  IsQueue-same b b' l xs e d s (All-map (λ x (k : SameOrder b b' x). k.links) xs h) v,
  All-zip
      (λ x (k : SameOrder b b' x) (u : Lodged b l x). record {
        level = k.level ∙ u.level;
        quantity = omega (arith, k.links.quantity, u.quantity);
        active = k.active ∙ u.active;
      })
      xs h w,
)

-- Orders of two levels are two orders.
pub Lodged-apart :
    (b : Book) (k l : ℕ) (xs ys : List ℕ)
    → k ≢ l
    → All (Lodged b k) xs
    → All (Lodged b l) ys
    → All (λ y. Lacks y xs) ys
Lodged-apart b k l xs ys ne h g =
    All-map {P = Lodged b l} {Q = λ y. Lacks y xs}
      (λ y w.
        All-map {P = Lodged b k} {Q = λ x. x ≢ y}
          (λ x v e. ne (sym v.level ∙ ap (λ i. (order_at b i).level) e ∙ w.level)) xs h)
      ys g
