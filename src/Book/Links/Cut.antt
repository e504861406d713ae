-- ===== src/Book/Links/Cut.antt =====
-- A queue without one of its orders, wherever it stands.
use market_order_book_engine.Base.{
  ℕ, ◌+◌, ◌<◌, ◌≡◌, ◌≢◌, refl, sym, ◌∙◌, List, [], ◌∷◌, ◌++◌, All, arith, length, ◌==◌,
  if◌then◌else◌, get_or, false,
}
use market_order_book_engine.Book.State.{Order, fresh_order}
use market_order_book_engine.Book.Links.Chain.{
  first, last, Linked, Lacks, Distinct, Linked-same, last-Lacks,
}
use market_order_book_engine.Book.Links.Fifo.{quantity_of}

pub if_same : (x v w : ℕ) → (if x == x then v else w) ≡ v
if_same x v w = ground arith

pub if_other {ℓ} : {A : Type ℓ} (x y : ℕ) (v w : A) → x ≢ y → (if x == y then v else w) ≡ w
if_other x y v w h = let other : (x == y) ≡ false = ground (arith, h) in rw other refl

pub All-zip {ℓ} :
    {P Q R : ℕ → Type ℓ}
    → ((x : ℕ) → P x → Q x → R x)
    → (xs : List ℕ) → All P xs
    → All Q xs
    → All R xs
All-zip f [] p q = tt
All-zip f (x ∷ xs) (p, ps) (q, qs) = (f x p q, All-zip f xs ps qs)

pub All-map {ℓ} : {P Q : ℕ → Type ℓ} → ((x : ℕ) → P x → Q x) → (xs : List ℕ) → All P xs → All Q xs
All-map f [] p = tt
All-map f (x ∷ xs) (p, ps) = (f x p, All-map f xs ps)

pub All-split {ℓ} : (P : ℕ → Type ℓ) (xs ys : List ℕ) → All P (xs ++ ys) → All P xs × All P ys
All-split P [] ys p = (tt, p)
All-split P (x ∷ xs) ys (p, ps) = let (h, k) = All-split P xs ys ps in ((p, h), k)

pub last-All : (P : ℕ → Type 0) (p : ℕ) (xs : List ℕ) → P p → All P xs → P (last p xs)
last-All P p [] h a = h
last-All P p (x ∷ xs) h (q, a) = last-All P x xs q a

pub first-All : (P : ℕ → Type 0) (n : ℕ) (xs : List ℕ) → P n → All P xs → P (first xs n)
first-All P n [] h a = h
first-All P n (x ∷ xs) h (q, a) = q

-- What a list without repetition is around one of its entries.
pub record Around (o : ℕ) (ys zs : List ℕ) : Type 0 where
  pub before : Lacks o ys
  pub behind : Lacks o zs
  pub apart : All (λ y. Lacks y zs) ys
  pub ends : Distinct ys
  pub tails : Distinct zs
  pub rest : Distinct (ys ++ zs)

pub Distinct-Around : (o : ℕ) (ys zs : List ℕ) → Distinct (ys ++ o ∷ zs) → Around o ys zs
Distinct-Around o [] zs (out, d) = record {
  before = tt;
  behind = out;
  apart = tt;
  ends = tt;
  tails = d;
  rest = d;
}
Distinct-Around o (y ∷ ys) zs (out, d) =
    let a = Distinct-Around o ys zs d in
    let (in_ys, (not_y, in_zs)) = All-split (λ x. x ≢ y) ys (o ∷ zs) out in
    record {
      before = (λ e. not_y (sym e), a.before);
      behind = a.behind;
      apart = (in_zs, a.apart);
      ends = (in_ys, a.ends);
      tails = a.tails;
      rest = (Lacks-append y ys zs in_ys in_zs, a.rest);
    }
  where
    Lacks-append : (x : ℕ) (xs zs : List ℕ) → Lacks x xs → Lacks x zs → Lacks x (xs ++ zs)
    Lacks-append x [] zs h k = k
    Lacks-append x (y ∷ ys) zs (p, h) k = (p, Lacks-append x ys zs h k)

pub last-append : (p o : ℕ) (ys zs : List ℕ) → last p (ys ++ o ∷ zs) ≡ last o zs
last-append p o [] zs = refl
last-append p o (y ∷ ys) zs = last-append y o ys zs

module _ (os : List Order) where
  abbrev at : ℕ → Order
  at x = get_or os x fresh_order

  pub Linked-within : (p n : ℕ) (xs : List ℕ) → Linked os p xs n → All (λ x. x < length os) xs
  Linked-within p n [] l = tt
  Linked-within p n (x ∷ xs) (i, a, c, l) = (i, Linked-within x n xs l)

  first-append : (o n : ℕ) (xs zs : List ℕ) → first (xs ++ o ∷ zs) n ≡ first xs o
  first-append o n [] zs = refl
  first-append o n (x ∷ xs) zs = refl

  -- the parts of a queue around one of its orders
  pub record Parts (o p n : ℕ) (ys zs : List ℕ) : Type 0 where
    pub front : Linked os p ys o
    pub inside : o < length os
    pub prev : (at o).prev ≡ last p ys
    pub next : (at o).next ≡ first zs n
    pub back : Linked os o zs n

  pub Linked-Parts : (o p n : ℕ) (ys zs : List ℕ) → Linked os p (ys ++ o ∷ zs) n → Parts o p n ys zs
  Linked-Parts o p n [] zs (i, a, c, l) = record {
    front = tt;
    inside = i;
    prev = a;
    next = c;
    back = l;
  }
  Linked-Parts o p n (y ∷ ys) zs (i, a, c, l) =
      let r = Linked-Parts o y n ys zs l in
      record {
        front = (i, a, c ∙ first-append o n ys zs, r.front);
        inside = r.inside;
        prev = r.prev;
        next = r.next;
        back = r.back;
      }

  pub Linked-append :
      (p n : ℕ) (ys zs : List ℕ)
      → Linked os p ys (first zs n)
      → Linked os (last p ys) zs n
      → Linked os p (ys ++ zs) n
  Linked-append p n [] zs l k = k
  Linked-append p n (y ∷ ys) zs (i, a, c, l) k = (i, a, c ∙ onto ys, Linked-append y n ys zs l k)
    where
      onto : (ys : List ℕ) → first ys (first zs n) ≡ first (ys ++ zs) n
      onto [] = refl
      onto (x ∷ xs) = refl

  pub quantity_of-append :
      (ys zs : List ℕ) → quantity_of os (ys ++ zs) ≡ quantity_of os ys + quantity_of os zs
  quantity_of-append [] zs = omega arith
  quantity_of-append (y ∷ ys) zs = omega (arith, quantity_of-append ys zs)

module _ (os os' : List Order) (count : length os' ≡ length os) where
  abbrev old : ℕ → Order
  old x = get_or os x fresh_order

  abbrev new : ℕ → Order
  new x = get_or os' x fresh_order

  -- the front, with its last order linked to another one
  pub relink_front :
      (p n n' : ℕ) (ys : List ℕ)
      → Distinct ys
      → All
          (λ x.
            ((new x).prev ≡ (old x).prev)
            × ((new x).next ≡ (if last p ys == x then n' else (old x).next)))
          ys
      → Linked os p ys n
      → Linked os' p ys n'
  relink_front p n n' [] d h l = tt
  relink_front p n n' (y ∷ ys) (out, d) ((a', c'), h) (i, a, c, l) =
      (omega (arith, i, count), a' ∙ a, to_next ys out c' c, relink_front y n n' ys d h l)
    where
      to_next :
          (ys : List ℕ)
          → Lacks y ys
          → (new y).next ≡ (if last y ys == y then n' else (old y).next)
          → (old y).next ≡ first ys n
          → (new y).next ≡ first ys n'
      to_next [] out c' c = c' ∙ if_same y n' _
      to_next (z ∷ zs) out c' c = c' ∙ if_other (last z zs) y _ _ (last-Lacks y z zs out) ∙ c

  -- the back, with its first order linked to another one
  pub relink_back :
      (o t n : ℕ) (zs : List ℕ)
      → Distinct zs
      → All
          (λ x.
            ((new x).prev ≡ (if first zs n == x then t else (old x).prev))
            × ((new x).next ≡ (old x).next))
          zs
      → Linked os o zs n
      → Linked os' t zs n
  relink_back o t n [] d h l = tt
  relink_back o t n (z ∷ zs) (out, d) ((a', c'), h) (i, a, c, l) = (
    omega (arith, i, count),
    ground (arith, a'),
    c' ∙ c,
    Linked-same os os' z n zs count (All-zip keep zs out h) l,
  )
    where
      keep :
          (x : ℕ)
          → x ≢ z
          → ((new x).prev ≡ (if z == x then t else (old x).prev)) × ((new x).next ≡ (old x).next)
          → ((new x).prev ≡ (old x).prev) × ((new x).next ≡ (old x).next)
      keep x ne (a, c) = (a ∙ if_other z x _ _ (λ e. ne (sym e)), c)
