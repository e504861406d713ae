-- ===== src/Programs/Replay/Most.antt =====
-- The most active symbol of a replay.
use market_order_book_engine.Base.{
  ℕ, ◌≤◌, ◌<◌, ◌≡◌, ◌⊎◌, inl, inr, refl, sym, ap, ◌∙◌, subst, List, [], ◌∷◌, ltb, if_both, arith,
}
use market_order_book_engine.Multi
use market_order_book_engine.Multi.{MultiSymbolBook}
use market_order_book_engine.Programs.Replay.{most_loop, most_active}

-- a symbol of the list
abbrev pub IsOneOf : ℕ → List ℕ → Type 0
IsOneOf symbol [] = ⊥
IsOneOf symbol (s ∷ symbols) = (s ≡ symbol) ⊎ IsOneOf symbol symbols

abbrev pub orders_of : MultiSymbolBook → ℕ → ℕ
orders_of m symbol = Multi.orders_in (Multi.book m symbol)

-- The best so far or a symbol of the list, with its orders, of which no symbol of the list has more.
pub record IsMost (m : MultiSymbolBook) (symbols : List ℕ) (s n : ℕ) (r : ℕ × ℕ) : Type 0 where
  pub most : (k : ℕ) → IsOneOf k symbols → orders_of m k ≤ r.1
  pub above : n ≤ r.1
  pub from : ((r.0 ≡ s) × (r.1 ≡ n)) ⊎ (IsOneOf r.0 symbols × (r.1 ≡ orders_of m r.0) × (n < r.1))

most_loop-IsMost :
    (symbols : List ℕ) (m : MultiSymbolBook) (s n : ℕ)
    → IsMost m symbols s n (most_loop symbols m s n)
unfolding most_loop
most_loop-IsMost [] m s n = record {
  most = λ k h. absurd h;
  above = omega arith;
  from = inl (refl, refl);
}
most_loop-IsMost (symbol ∷ symbols) m s n =
    let count = orders_of m symbol in
    if_both (IsMost m (symbol ∷ symbols) s n) (ltb n count)
      (λ e.
        let better : n < count = ground (arith, e) in
        let rest = most_loop-IsMost symbols m symbol count in
        record {
          most = λ k h. elim h [
            | inl same ↦
                subst (λ k. orders_of m k ≤ (most_loop symbols m symbol count).1) same rest.above
            | inr h ↦ rest.most k h
          ];
          above = omega (arith, better, rest.above);
          from = elim rest.from [
            | inl (same, e) ↦
                inr (inl (sym same), e ∙ ap (orders_of m) (sym same), omega (arith, better, e))
            | inr (h, e, less) ↦ inr (inr h, e, omega (arith, better, less))
          ];
        })
      (λ e.
        let worse : count ≤ n = ground (arith, e) in
        let rest = most_loop-IsMost symbols m s n in
        record {
          most = λ k h. elim h [
            | inl same ↦
                subst (λ k. orders_of m k ≤ (most_loop symbols m s n).1) same
                  (omega (arith, worse, rest.above))
            | inr h ↦ rest.most k h
          ];
          above = rest.above;
          from = elim rest.from [ inl h ↦ inl h | inr (h, e, less) ↦ inr (inr h, e, less) ];
        })

-- No symbol seen has more orders than the number given; it is the number of the symbol given, which has
-- been seen, or it is 0 with the symbol 0.
pub most_active-IsMost : (m : MultiSymbolBook) → IsMost m m.seen 0 0 (most_active m)
unfolding most_active
most_active-IsMost m = most_loop-IsMost m.seen m 0 0
