-- ===== src/Text/Cut.antt =====
-- Where `cut` cuts a text.
use market_order_book_engine.Base.{
  ℕ, ◌≡◌, ◌≢◌, refl, ap, [], ◌∷◌, ◌++◌, Option, none, some, true, false, ◌==◌, arith, All, if_both,
}
use market_order_book_engine.Text.{Text, cut, put_first}

-- a text without the byte
abbrev pub Lacks : ℕ → Text → Type 0
Lacks d s = All (λ c. c ≢ d) s

pub cut-append : (d : ℕ) (s rest : Text) → Lacks d s → cut d (s ++ d ∷ rest) ≡ some (s, rest)
unfolding cut
cut-append d [] rest h = let same : (d == d) ≡ true = ground arith in rw same refl
cut-append d (c ∷ s) rest (p, h) =
    let other : (c == d) ≡ false = ground (arith, p) in rw (other, cut-append d s rest h) refl

pub cut-Lacks : (d : ℕ) (s : Text) → Lacks d s → cut d s ≡ none
unfolding cut
cut-Lacks d [] h = refl
cut-Lacks d (c ∷ s) (p, h) =
    let other : (c == d) ≡ false = ground (arith, p) in rw (other, cut-Lacks d s h) refl

-- What `cut` answers for a text: nothing if the byte is not in it, else the text around its first one.
abbrev pub IsCut : ℕ → Text → Option (Text × Text) → Type 0
IsCut d s none = Lacks d s
IsCut d s (some (a, b)) = Lacks d a × (s ≡ a ++ d ∷ b)

put_first-IsCut :
    (d c : ℕ) (s : Text) (o : Option (Text × Text))
    → c ≢ d
    → IsCut d s o
    → IsCut d (c ∷ s) (put_first c o)
put_first-IsCut d c s none p h = (p, h)
put_first-IsCut d c s (some (a, b)) p (h, e) = ((p, h), ap (◌∷◌ c) e)

pub cut-IsCut : (d : ℕ) (s : Text) → IsCut d s (cut d s)
unfolding cut
cut-IsCut d [] = tt
cut-IsCut d (c ∷ s) =
    if_both (IsCut d (c ∷ s)) (c == d) (λ e. (tt, ap (λ k. k ∷ s) (ground (arith, e))))
      (λ e. put_first-IsCut d c s (cut d s) (ground (arith, e)) (cut-IsCut d s))
