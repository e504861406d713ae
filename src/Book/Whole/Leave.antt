-- ===== src/Book/Whole/Leave.antt =====
-- A whole book after `leave_queue`.
use market_order_book_engine.Base.{
  ℕ, ◌<◌, ◌≡◌, ◌≢◌, refl, sym, ap, ◌∙◌, subst, List, ◌∷◌, ◌++◌, All, All-append, arith, length,
  ◌==◌, ==_iff, if◌then◌else◌, if_both, true, false,
}
use market_order_book_engine.Types.{Side}
use market_order_book_engine.Book.Table.{npos}
use market_order_book_engine.Book.State.{Book, Order, order_at}
use market_order_book_engine.Book.State.Touched.{Touched}
use market_order_book_engine.Book.Ladder.Swap.{Holds}
use market_order_book_engine.Book.Links.{leave_queue}
use market_order_book_engine.Book.Links.Chain.{Lacks}
use market_order_book_engine.Book.Links.Fifo.{IsQueue}
use market_order_book_engine.Book.Links.Leave.{relinked, shortened}
use market_order_book_engine.Book.Links.Cut.{All-zip, All-split, Linked-within}
use market_order_book_engine.Book.Links.Remove.{touched, around, leave_queue-IsQueue}
use market_order_book_engine.Book.Whole.{IsBook, Lodged}
use market_order_book_engine.Book.Whole.Kin.{Kin, Touched-Kin}
use market_order_book_engine.Book.Whole.Queues.{IsManned, Lodged-apart}
use market_order_book_engine.Book.Whole.Changes.{Kin-IsBook}

-- the queues after the queue of the level `l` is replaced
abbrev pub replaced : (ℕ → List ℕ) → ℕ → List ℕ → ℕ → List ℕ
replaced queues l xs k = if k == l then xs else queues k

pub replaced_same : (queues : ℕ → List ℕ) (l : ℕ) (xs : List ℕ) → replaced queues l xs l ≡ xs
replaced_same queues l xs = let same : (l == l) ≡ true = ground arith in rw same refl

pub replaced_other :
    (queues : ℕ → List ℕ) (l k : ℕ) (xs : List ℕ) → k ≢ l → replaced queues l xs k ≡ queues k
replaced_other queues l k xs ne = let other : (k == l) ≡ false = ground (arith, ne) in rw other refl

relinked_keeps :
    {A : Type 0} (p : Order → A) (o pv nx x : ℕ) (w : Order)
    → p (record w { prev = npos; next = npos }) ≡ p w
    → ((a c : ℕ) → p (record w { prev = a; next = c }) ≡ p w)
    → p (relinked o pv nx x w) ≡ p w
relinked_keeps p o pv nx x w e f = if_both (λ z. p z ≡ p w) (o == x) (λ _. e) (λ _. f _ _)

module _ (b : Book) (queues : ℕ → List ℕ) (v : IsBook b queues) (o : ℕ) (side : Side)
    (held : Holds side b (order_at b o).level) (ys zs : List ℕ)
    (here : queues (order_at b o).level ≡ ys ++ o ∷ zs) where
  abbrev l : ℕ
  l = (order_at b o).level

  queue : IsQueue b l (ys ++ o ∷ zs)
  queue = subst (IsQueue b l) here (v.queue side l held)

  lodged : All (Lodged b l) (ys ++ o ∷ zs)
  lodged = subst (All (Lodged b l)) here (v.lodged side l held)

  change :
      Touched l
        (relinked o (order_at b o).prev (order_at b o).next)
        (shortened (order_at b o).prev (order_at b o).next (order_at b o).quantity)
        b
        (leave_queue b o)
  change = touched b o ys zs queue

  pub leave_queue-Kin : Kin b (leave_queue b o)
  leave_queue-Kin = Touched-Kin change refl refl refl

  keeps :
      {A : Type 0} (x : ℕ) (p : Order → A)
      → p (record (order_at b x) { prev = npos; next = npos }) ≡ p (order_at b x)
      → ((a c : ℕ) → p (record (order_at b x) { prev = a; next = c }) ≡ p (order_at b x))
      → p (relinked o (order_at b o).prev (order_at b o).next x (order_at b x)) ≡ p (order_at b x)
  keeps x p = relinked_keeps p o (order_at b o).prev (order_at b o).next x (order_at b x)

  still : (k x : ℕ) → x < length b.orders → Lodged b k x → Lodged (leave_queue b o) k x
  still k x h w =
      let at_x = change.order x h in
      record {
        level = ap Order.level at_x ∙ keeps x Order.level refl (λ a c. refl) ∙ w.level;
        quantity =
            omega (
              arith,
              ap Order.quantity at_x,
              keeps x Order.quantity refl (λ a c. refl),
              w.quantity,
            );
        active = ap Order.active at_x ∙ keeps x Order.active refl (λ a c. refl) ∙ w.active;
      }

  still_all :
      (k : ℕ) (xs : List ℕ)
      → IsQueue b k xs
      → All (Lodged b k) xs
      → All (Lodged (leave_queue b o) k) xs
  still_all k xs u w = All-zip (still k) xs (Linked-within b.orders npos npos xs u.linked) w

  -- the queue of another level
  pub elsewhere :
      (s : Side) (k : ℕ) → Holds s b k → k ≢ l → All (λ y. Lacks y (queues k)) (ys ++ o ∷ zs)
  elsewhere s k h ne = Lodged-apart b k l (queues k) (ys ++ o ∷ zs) ne (v.lodged s k h) lodged

  leave_queue-IsQueues :
      IsQueue (leave_queue b o) l (ys ++ zs)
      × ((k : ℕ) (xs : List ℕ)
          → k ≢ l
          → IsQueue b k xs
          → All (λ y. Lacks y xs) (ys ++ o ∷ zs)
          → IsQueue (leave_queue b o) k xs)
  leave_queue-IsQueues =
      leave_queue-IsQueue b o ys zs queue (All-split (Lodged b l) ys (o ∷ zs) lodged).1.0.quantity

  pub leave_queue-IsBook : IsBook (leave_queue b o) (replaced queues l (ys ++ zs))
  leave_queue-IsBook = Kin-IsBook queues _ leave_queue-Kin v λ s k h.
      if_both (IsManned (leave_queue b o) k) (k == l)
        (λ e.
          subst (λ j. IsManned (leave_queue b o) j (ys ++ zs)) (sym ((==_iff k l).0 e))
            (leave_queue-IsQueues.0, mine))
        λ e.
          let ne : k ≢ l = ground (arith, e) in
          (
            leave_queue-IsQueues.1 k (queues k) ne (v.queue s k h) (elsewhere s k h ne),
            still_all k (queues k) (v.queue s k h) (v.lodged s k h),
          )
    where
      mine : All (Lodged (leave_queue b o) l) (ys ++ zs)
      mine =
          let (front, (_, back)) =
            All-split (Lodged (leave_queue b o) l) ys (o ∷ zs)
              (still_all l (ys ++ o ∷ zs) queue lodged) in
          All-append (Lodged (leave_queue b o) l) ys zs front back

  -- The order is in no queue then.
  pub leave_queue-Lacks :
      (s : Side) (k : ℕ) → Holds s b k → Lacks o (replaced queues l (ys ++ zs) k)
  leave_queue-Lacks s k h =
      if_both (Lacks o) (k == l)
        (λ e. let a = around b o ys zs queue in All-append (λ y. y ≢ o) ys zs a.before a.behind)
        λ e.
          (All-split (λ y. Lacks y (queues k)) ys (o ∷ zs)
            (elsewhere s k h (ground (arith, e)))).1.0

  -- The other orders keep their ids and quantities.
  pub leave_queue-makers :
      (x : ℕ)
      → x < length b.orders
      → ((order_at (leave_queue b o) x).id ≡ (order_at b x).id)
        × ((order_at (leave_queue b o) x).quantity ≡ (order_at b x).quantity)
  leave_queue-makers x h = (
    ap Order.id (change.order x h) ∙ keeps x Order.id refl (λ a c. refl),
    ap Order.quantity (change.order x h) ∙ keeps x Order.quantity refl (λ a c. refl),
  )

  pub leave_queue-lengths :
      (length (leave_queue b o).orders ≡ length b.orders)
      × (length (leave_queue b o).levels ≡ length b.levels)
  leave_queue-lengths = (change.count, change.levels)
