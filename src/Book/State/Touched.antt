-- ===== src/Book/State/Touched.antt =====
-- What writes of orders and of one level make of a book, entry by entry.
use market_order_book_engine.Base.{
  ℕ, ◌<◌, ◌≡◌, ◌≢◌, refl, ap, ◌∙◌, [], true, false, arith, length, length-set, get_or-set, ◌==◌,
  ==_iff, if◌then◌else◌, Bool-cases, inl, inr,
}
use market_order_book_engine.Book.State.{
  Order, fresh_order, Level, fresh_level, Book, order_at, level_at, set_order, set_level,
}

-- a book but for its pools
abbrev pub unpooled : Book → Book
unpooled b = record b { orders = []; levels = [] }

-- The orders are changed by `f`, the level `l` by `g`, and nothing else.
pub record Touched (l : ℕ) (f : ℕ → Order → Order) (g : Level → Level) (b b' : Book) : Type 0 where
  pub count : length b'.orders ≡ length b.orders
  pub order : (x : ℕ) → x < length b.orders → order_at b' x ≡ f x (order_at b x)
  pub levels : length b'.levels ≡ length b.levels
  pub level : level_at b' l ≡ g (level_at b l)
  pub others : (k : ℕ) → k ≢ l → level_at b' k ≡ level_at b k
  pub rest : unpooled b' ≡ unpooled b

module _ {l : ℕ} where
  pub Touched-trans :
      {f f' : ℕ → Order → Order} {g g' : Level → Level} {b b' b'' : Book}
      → Touched l f g b b'
      → Touched l f' g' b' b''
      → Touched l (λ x v. f' x (f x v)) (λ v. g' (g v)) b b''
  Touched-trans {f' = f'} {g' = g'} s t = record {
    count = t.count ∙ s.count;
    order = λ x h. t.order x (omega (arith, h, s.count)) ∙ ap (f' x) (s.order x h);
    levels = t.levels ∙ s.levels;
    level = t.level ∙ ap g' s.level;
    others = λ k ne. t.others k ne ∙ s.others k ne;
    rest = t.rest ∙ s.rest;
  }

  pub set_order-Touched :
      (b : Book) (i : ℕ) (f : Order → Order)
      → i < length b.orders
      → Touched l (λ x v. if i == x then f v else v) (λ v. v) b (set_order b i (f (order_at b i)))
  set_order-Touched b i f inside = record {
    count = length-set b.orders i _;
    order = λ x h. get_or-set b.orders i x _ fresh_order inside ∙ at x;
    levels = refl;
    level = refl;
    others = λ k ne. refl;
    rest = refl;
  }
    where
      at :
          (x : ℕ)
          → (if i == x then f (order_at b i) else order_at b x)
            ≡ (if i == x then f (order_at b x) else order_at b x)
      at x = elim (Bool-cases (i == x)) [
        | inl e ↦ rw e (ap (λ k. f (order_at b k)) ((==_iff i x).0 e))
        | inr e ↦ rw e refl
      ]

  pub set_level-Touched :
      (b : Book) (g : Level → Level)
      → l < length b.levels
      → Touched l (λ x v. v) g b (set_level b l (g (level_at b l)))
  set_level-Touched b g inside = record {
    count = refl;
    order = λ x h. refl;
    levels = length-set b.levels l _;
    level =
        let same : (l == l) ≡ true = ground arith in
        get_or-set b.levels l l _ fresh_level inside ∙ rw same refl;
    others = λ k ne.
        let other : (l == k) ≡ false = ground (arith, ne) in
        get_or-set b.levels l k _ fresh_level inside ∙ rw other refl;
    rest = refl;
  }

  -- the same changes, by other names
  pub Touched-as :
      {f f' : ℕ → Order → Order} {g g' : Level → Level} {b b' : Book}
      → Touched l f g b b'
      → ((x : ℕ) → x < length b.orders → f x (order_at b x) ≡ f' x (order_at b x))
      → g (level_at b l) ≡ g' (level_at b l)
      → Touched l f' g' b b'
  Touched-as t e d = record {
    count = t.count;
    order = λ x h. t.order x h ∙ e x h;
    levels = t.levels;
    level = t.level ∙ d;
    others = t.others;
    rest = t.rest;
  }
