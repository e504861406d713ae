-- ===== src/Book/Matching/Worked.antt =====
-- What the inner loop makes of a run, round by round.
use market_order_book_engine.Base.{
  ℕ, ◌+◌, ◌-◌, ◌<◌, ◌≡◌, ◌≢◌, ◌↔◌, refl, sym, ap, ◌∙◌, subst, List, [], ◌∷◌, ◌++◌, arith, length,
  append_nil, append_assoc,
}
use market_order_book_engine.Types.{Side, Fill}
use market_order_book_engine.Book.Table.{npos}
use market_order_book_engine.Book.State.{order_at, level_at}
use market_order_book_engine.Book.Ladder.{size_of}
use market_order_book_engine.Book.Ladder.Swap.{Holds}
use market_order_book_engine.Book.Links.Chain.{Lacks}
use market_order_book_engine.Book.Links.Fifo.{IsQueue}
use market_order_book_engine.Book.Links.Cut.{All-zip, Linked-within}
use market_order_book_engine.Book.Matching.{Run}
use market_order_book_engine.Book.Matching.Sweep.{makers_of, Swept, makers_of-same}
use market_order_book_engine.Book.Whole.{IsBook}
use market_order_book_engine.Book.Whole.Changes.{Kin-Holds}
use market_order_book_engine.Book.Whole.Leave.{replaced, replaced_same, replaced_other}
use market_order_book_engine.Book.Whole.Reduce.{Reduced}
use market_order_book_engine.Book.Whole.Unlink.{gone, SameMaker, Left}

-- The run `s'` is the run `s` after the makers of the level `l` are swept with the outcome `w`.
pub record Worked (side : Side) (l : ℕ) (queues : ℕ → List ℕ) (s s' : Run) (w : Swept)
    : Type 0 where
  pub queues' : ℕ → List ℕ
  pub book : IsBook s'.book queues'
  pub fills : s'.fills ≡ s.fills ++ w.fills
  pub remaining : s'.remaining ≡ w.remaining
  pub next : s'.book.fill_sequence ≡ w.next
  pub left : makers_of s'.book (queues' l) ≡ w.left
  pub elsewhere : (k : ℕ) → k ≢ l → queues' k ≡ queues k
  pub makers : (x : ℕ) → x < length s.book.orders → Lacks x (queues l) → SameMaker s.book s'.book x
  pub holds : (t : Side) (k : ℕ) → Holds t s'.book k ↔ (Holds t s.book k × (w.left ≡ [] → k ≢ l))
  pub size : size_of side s'.book + gone w.left ≡ size_of side s.book
  pub price : (k : ℕ) → (level_at s'.book k).price ≡ (level_at s.book k).price
  pub pool : length s'.book.orders ≡ length s.book.orders
  pub count : length s'.book.levels ≡ length s.book.levels

module _ (side : Side) (l : ℕ) where
  -- the first maker is filled, and the rest is swept
  pub Worked-filled :
      (queues : ℕ → List ℕ) (s s1 s' : Run) (x y : ℕ) (ys : List ℕ) (f : Fill) (w : Swept)
      → queues l ≡ x ∷ y ∷ ys
      → Left side l x queues (y ∷ ys) s.book s1.book
      → s1.fills ≡ s.fills ++ (f ∷ [])
      → Worked side l (replaced queues l (y ∷ ys)) s1 s' w
      → Worked side l queues s s'
          (record { fills = f ∷ w.fills; remaining = w.remaining; left = w.left; next = w.next })
  Worked-filled queues s s1 s' x y ys f w here u e v = record {
    queues' = v.queues';
    book = v.book;
    fills = v.fills ∙ ap (λ fs. fs ++ w.fills) e ∙ append_assoc s.fills (f ∷ []) w.fills;
    remaining = v.remaining;
    next = v.next;
    left = v.left;
    elsewhere = λ k ne. v.elsewhere k ne ∙ replaced_other queues l k (y ∷ ys) ne;
    makers = λ z h out.
        let (ne, behind) = subst (Lacks z) here out in
        let m = u.makers z h (λ e. ne (sym e)) in
        let n =
          v.makers z (omega (arith, h, u.pool))
            (subst (Lacks z) (sym (replaced_same queues l (y ∷ ys))) behind) in
        (n.0 ∙ m.0, n.1 ∙ m.1);
    holds = λ t k. (
      (λ h. let g = (v.holds t k).0 h in (((u.holds t k).0 g.0).0, g.1)),
      (λ (h, ne). (v.holds t k).1 ((u.holds t k).1 (h, λ q. absurd (cc)), ne)),
    );
    size = omega (arith, v.size, u.size);
    price = λ k. v.price k ∙ u.price k;
    pool = v.pool ∙ u.pool;
    count = v.count ∙ u.count;
  }

  -- the only maker is filled
  pub Worked-last :
      (queues : ℕ → List ℕ) (s s1 : Run) (x n : ℕ) (f : Fill)
      → queues l ≡ x ∷ []
      → Left side l x queues [] s.book s1.book
      → s1.fills ≡ s.fills ++ (f ∷ [])
      → s1.book.fill_sequence ≡ n
      → Worked side l queues s s1
          (record { fills = f ∷ []; remaining = s1.remaining; left = []; next = n })
  Worked-last queues s s1 x n f here u e number = record {
    queues' = replaced queues l [];
    book = u.book;
    fills = e;
    remaining = refl;
    next = number;
    left = ap (makers_of s1.book) (replaced_same queues l []);
    elsewhere = λ k ne. replaced_other queues l k [] ne;
    makers = λ z h out. u.makers z h (λ e. (subst (Lacks z) here out).0 (sym e));
    holds = λ t k. (
      (λ h. let g = (u.holds t k).0 h in (g.0, λ _. g.1 refl)),
      (λ (h, ne). (u.holds t k).1 (h, λ _. ne refl)),
    );
    size = u.size;
    price = u.price;
    pool = u.pool;
    count = u.count;
  }

  -- nothing is taken
  pub Worked-none :
      (queues : ℕ → List ℕ) (s : Run) (x : ℕ) (xs : List ℕ)
      → IsBook s.book queues
      → queues l ≡ x ∷ xs
      → s.remaining ≡ 0
      → Worked side l queues s s (record {
        fills = [];
        remaining = 0;
        left = makers_of s.book (x ∷ xs);
        next = s.book.fill_sequence;
      })
  Worked-none queues s x xs v here e = record {
    queues' = queues;
    book = v;
    fills = sym (append_nil s.fills);
    remaining = e;
    next = refl;
    left = ap (makers_of s.book) here;
    elsewhere = λ k ne. refl;
    makers = λ z h out. (refl, refl);
    holds = λ t k. ((λ h. (h, λ q. absurd (cc))), (λ h. h.0));
    size = omega arith;
    price = λ k. refl;
    pool = refl;
    count = refl;
  }

  -- the first maker is filled in part
  pub Worked-part :
      (queues : ℕ → List ℕ) (s s1 : Run) (x t n : ℕ) (xs : List ℕ) (f : Fill)
      → queues l ≡ x ∷ xs
      → IsQueue s.book l (x ∷ xs)
      → Reduced x t queues s.book s1.book
      → s1.fills ≡ s.fills ++ (f ∷ [])
      → s1.book.fill_sequence ≡ n
      → Worked side l queues s s1 (record {
        fills = f ∷ [];
        remaining = s1.remaining;
        left =
            record { id = (order_at s.book x).id; quantity = (order_at s.book x).quantity - t }
            ∷ makers_of s.book xs;
        next = n;
      })
  Worked-part queues s s1 x t n xs f here q u e number =
      let within = Linked-within s.book.orders npos npos (x ∷ xs) q.linked in
      let quantity : (order_at s1.book x).quantity ≡ (order_at s.book x).quantity - t =
        omega (arith, u.quantity) in
      record {
        queues' = queues;
        book = u.book;
        fills = e;
        remaining = refl;
        next = number;
        left =
            ap (makers_of s1.book) here
            ∙ rw
                (
                  u.id,
                  quantity,
                  makers_of-same s.book s1.book xs (All-zip u.others xs within.1 q.distinct.0),
                )
                refl;
        elsewhere = λ k ne. refl;
        makers = λ z h out. u.others z h (λ e. (subst (Lacks z) here out).0 (sym e));
        holds = λ t k. (
          (λ h. ((Kin-Holds u.kin t k).0 h, λ q. absurd (cc))),
          (λ h. (Kin-Holds u.kin t k).1 h.0),
        );
        size = omega (arith, u.kin.size side);
        price = u.kin.price;
        pool = u.pool;
        count = u.kin.count;
      }
