-- ===== src/Book/Links/Fifo.antt =====
-- The queue of a level as a list of orders, and the orders behind `link_tail`.
use market_order_book_engine.Base.{
  ℕ, ◌+◌, ◌^◌, ◌%◌, ◌≤◌, ◌<◌, ◌≡◌, ◌≢◌, ◌⊎◌, inl, inr, refl, sym, get_or, set, get_or-set,
  length-set, ap, ◌∙◌, List, [], ◌∷◌, ◌++◌, All, arith, length, ◌==◌, if◌then◌else◌, if_both,
  Bool-cases, ==_iff, false,
}
use market_order_book_engine.Book.Table.{npos}
use market_order_book_engine.Book.State.{Book, Order, fresh_order, level_at}
use market_order_book_engine.Book.Links.Chain.{first, last, Linked, Lacks, Distinct, last-Lacks}

abbrev pub quantity_of : List Order → List ℕ → ℕ
quantity_of orders [] = 0
quantity_of orders (x ∷ xs) = (get_or orders x fresh_order).quantity + quantity_of orders xs

-- The queue of the level holds these orders, from its head to its tail: they are linked both ways, the
-- level counts them and has the sum of their quantities.
pub record IsQueue (b : Book) (level : ℕ) (xs : List ℕ) : Type 0 where
  pub inside : level < length b.levels
  pub small : length b.orders ≤ npos
  pub linked : Linked b.orders npos xs npos
  pub distinct : Distinct xs
  pub head : (level_at b level).head ≡ first xs npos
  pub tail : (level_at b level).tail ≡ last npos xs
  pub count : (level_at b level).order_count ≡ length xs % 2 ^ 64
  pub total : (level_at b level).total_quantity ≡ quantity_of b.orders xs % 2 ^ 64

unequal : (x y : ℕ) → x ≢ y → (x == y) ≡ false
unequal x y h = ground (arith, h)

-- the tail of a queue that is not empty is an order of it
last_within :
    (orders : List Order) (p n x : ℕ) (xs : List ℕ)
    → Linked orders p (x ∷ xs) n
    → last x xs < length orders
last_within orders p n x [] (h, a, c, l) = h
last_within orders p n x (y ∷ ys) (h, a, c, l) = last_within orders x n y ys l

pub last_in :
    (orders : List Order) (n : ℕ) (xs : List ℕ)
    → Linked orders npos xs n
    → (last npos xs ≡ npos) ⊎ (last npos xs < length orders)
last_in orders n [] h = inl refl
last_in orders n (x ∷ xs) h = inr (last_within orders npos n x xs h)

pub last_apart : (o : ℕ) (xs : List ℕ) → o < npos → Lacks o xs → o ≢ last npos xs
last_apart o [] h out = λ e. omega (arith, h, e)
last_apart o (x ∷ xs) h out = λ e. last-Lacks o x xs out (sym e)

pub first-snoc :
    (orders : List Order) (o n : ℕ) (xs : List ℕ)
    → Linked orders npos xs n
    → length orders ≤ npos
    → (if last npos xs == npos then o else first xs npos) ≡ first (xs ++ o ∷ []) npos
first-snoc orders o n [] h small = refl
first-snoc orders o n (x ∷ xs) h small =
    let other : (last x xs == npos) ≡ false =
      ground (arith, last_within orders npos n x xs h, small) in
    rw other refl

pub Distinct-snoc : (o : ℕ) (xs : List ℕ) → Distinct xs → Lacks o xs → Distinct (xs ++ o ∷ [])
Distinct-snoc o [] d l = (tt, tt)
Distinct-snoc o (x ∷ xs) (out, d) (ne, l) =
    (Lacks-snoc x xs out (λ e. ne (sym e)), Distinct-snoc o xs d l)
  where
    Lacks-snoc : (x : ℕ) (xs : List ℕ) → Lacks x xs → o ≢ x → Lacks x (xs ++ o ∷ [])
    Lacks-snoc x [] h ne = (ne, tt)
    Lacks-snoc x (y ∷ ys) (p, h) ne = (p, Lacks-snoc x ys h ne)

pub quantity_of-snoc :
    (orders : List Order) (o : ℕ) (xs : List ℕ)
    → quantity_of orders (xs ++ o ∷ [])
      ≡ quantity_of orders xs + (get_or orders o fresh_order).quantity
quantity_of-snoc orders o [] = omega arith
quantity_of-snoc orders o (x ∷ xs) = omega (arith, quantity_of-snoc orders o xs)

pub last-snoc : (p o : ℕ) (xs : List ℕ) → last p (xs ++ o ∷ []) ≡ o
last-snoc p o [] = refl
last-snoc p o (x ∷ xs) = last-snoc x o xs

module _ (orders : List Order) (o t : ℕ) where
  -- the order with its links, and the tail with its link to it
  abbrev pub entered : Order
  entered = record (get_or orders o fresh_order) { prev = t; next = npos }

  abbrev pub with_entered : List Order
  with_entered = set orders o entered

  abbrev pub extended : Order
  extended = record (get_or with_entered t fresh_order) { next = o }

  -- the orders behind `link_tail`, with the tail `t`
  abbrev pub linked_orders : List Order
  linked_orders = if t == npos then with_entered else set with_entered t extended

  pub length-linked_orders : length linked_orders ≡ length orders
  length-linked_orders =
      if_both (λ os. length os ≡ length orders) (t == npos) (λ _. length-set orders o entered)
        (λ _. length-set with_entered t extended ∙ length-set orders o entered)

  module _ (in_o : o < length orders) (in_t : (t ≡ npos) ⊎ (t < length orders)) (apart : o ≢ t)
      (small : length orders ≤ npos) where
    linked_at :
        (x : ℕ)
        → x < length orders
        → get_or linked_orders x fresh_order ≡ (
            if o == x
            then entered
            else if t == x
            then record (get_or orders x fresh_order) { next = o }
            else get_or orders x fresh_order)
    linked_at x within =
        let at_x = get_or-set orders o x entered fresh_order in_o in
        let at_t = get_or-set orders o t entered fresh_order in_o in
        elim (Bool-cases (t == npos)) [
          | inl e ↦
              let other : (t == x) ≡ false = ground (arith, e, within, small) in
              rw (e, at_x, other) refl
          | inr e ↦
              let away : (o == t) ≡ false = ground (arith, apart) in
              let inner : t < length with_entered =
                ground (arith, in_t, e, length-set orders o entered) in
              let read = get_or-set with_entered t x extended fresh_order inner in
              rw e (
                read ∙ elim (Bool-cases (t == x)) [
                  | inl d ↦
                      let same : t ≡ x = (==_iff t x).0 d in
                      let not_o : (o == x) ≡ false = ground (arith, apart, same) in
                      let kept : get_or with_entered t fresh_order ≡ get_or orders x fresh_order =
                        (rw away at at_t) ∙ ap (λ k. get_or orders k fresh_order) same in
                      rw (d, not_o) (ap (λ (v : Order). record v { next = o }) kept)
                  | inr d ↦ rw d at_x
                ])
        ]

    pub linked_kept :
        (x : ℕ)
        → x < length orders
        → x ≢ o
        → ((get_or linked_orders x fresh_order).prev ≡ (get_or orders x fresh_order).prev)
          × ((get_or linked_orders x fresh_order).next
              ≡ (if x == t then o else (get_or orders x fresh_order).next))
          × ((get_or linked_orders x fresh_order).quantity ≡ (get_or orders x fresh_order).quantity)
    linked_kept x within ne = ground (arith, linked_at x within, ne)

    pub linked_entered :
        ((get_or linked_orders o fresh_order).prev ≡ t)
        × ((get_or linked_orders o fresh_order).next ≡ npos)
        × ((get_or linked_orders o fresh_order).quantity ≡ (get_or orders o fresh_order).quantity)
    linked_entered = ground (arith, linked_at o in_o)

    -- the same along a list
    pub kept_prev :
        (p n : ℕ) (xs : List ℕ)
        → Linked orders p xs n
        → Lacks o xs
        → All
            (λ x. (get_or linked_orders x fresh_order).prev ≡ (get_or orders x fresh_order).prev)
            xs
    kept_prev p n [] l out = tt
    kept_prev p n (x ∷ xs) (i, a, c, l) (ne, out) = ((linked_kept x i ne).0, kept_prev x n xs l out)

    pub kept_next :
        (p n : ℕ) (xs : List ℕ)
        → Linked orders p xs n
        → Lacks o xs
        → All
            (λ x.
              (get_or linked_orders x fresh_order).next
              ≡ (if x == t then o else (get_or orders x fresh_order).next))
            xs
    kept_next p n [] l out = tt
    kept_next p n (x ∷ xs) (i, a, c, l) (ne, out) = ((linked_kept x i ne).1, kept_next x n xs l out)

    pub kept_quantity :
        (p n : ℕ) (xs : List ℕ)
        → Linked orders p xs n
        → Lacks o xs
        → quantity_of linked_orders xs ≡ quantity_of orders xs
    kept_quantity p n [] l out = refl
    kept_quantity p n (x ∷ xs) (i, a, c, l) (ne, out) =
        omega (arith, (linked_kept x i ne).2, kept_quantity x n xs l out)

    -- a list without the order and without the tail
    pub kept_links :
        (p n : ℕ) (xs : List ℕ)
        → Linked orders p xs n
        → Lacks o xs
        → Lacks t xs
        → All
            (λ x.
              ((get_or linked_orders x fresh_order).prev ≡ (get_or orders x fresh_order).prev)
              × ((get_or linked_orders x fresh_order).next ≡ (get_or orders x fresh_order).next))
            xs
    kept_links p n [] l out off = tt
    kept_links p n (x ∷ xs) (i, a, c, l) (ne, out) (nt, off) =
        let k = linked_kept x i ne in
        ((k.0, rw (unequal x t nt) at k.1), kept_links x n xs l out off)
