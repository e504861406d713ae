-- ===== src/Queue/Window.antt =====
-- The entries of a ring from an index on, and what a write past them does.
use market_order_book_engine.Base.{
  ℕ, zero, suc, ◌+◌, ◌-◌, ◌%◌, ◌<◌, ◌≡◌, ◌≢◌, refl, sym, ap, ◌∙◌, List, [], ◌∷◌, ◌++◌, length,
  get_or, set, get_or-set, arith,
}
use native.Mathlib.Nat.{mod-add-mod, mod-eq_of_lt, mod-eq-sub-mod, add-zero}
use native.Mathlib.Decide.{dec_lt}
use market_order_book_engine.Queue.{increment}

pub add_zero_mod : {capacity i : ℕ} → i < capacity → (i + 0) % capacity ≡ i
add_zero_mod h = rw (add-zero, mod-eq_of_lt h)

pub increment_add :
    (capacity i k : ℕ) → (increment capacity i + k) % capacity ≡ (i + suc k) % capacity
increment_add capacity i k = rw mod-add-mod (ap (λ m. m % capacity) (omega arith))

module _ {ℓ} {A : Type ℓ} (d : A) where
  -- the `n` entries from index `i` on, going round at `capacity`
  abbrev pub window : List A → ℕ → ℕ → ℕ → List A
  window storage capacity i zero = []
  window storage capacity i (suc n) =
      get_or storage i d ∷ window storage capacity (increment capacity i) n

  pub window-last :
      (storage : List A) (capacity n i : ℕ)
      → i < capacity
      → window storage capacity i (suc n)
        ≡ window storage capacity i n ++ get_or storage ((i + n) % capacity) d ∷ []
  window-last storage capacity zero i h = rw (add-zero, mod-eq_of_lt h)
  window-last storage capacity (suc n) i h = ap (◌∷◌ (get_or storage i d)) (
      window-last storage capacity n (increment capacity i) (omega arith)
      ∙ rw (increment_add capacity i n))

  -- A write at an index that the window does not reach leaves it as it is.
  pub window-set :
      (storage : List A) (capacity n i j : ℕ) (item : A)
      → j < length storage
      → i < capacity
      → ((k : ℕ) → k < n → (i + k) % capacity ≢ j)
      → window (set storage j item) capacity i n ≡ window storage capacity i n
  window-set storage capacity zero i j item h hi apart = refl
  window-set storage capacity (suc n) i j item h hi apart =
      let first : i ≢ j = omega (arith, apart 0 (omega arith), add_zero_mod hi) in
      let rest =
        window-set storage capacity n (increment capacity i) j item h (omega arith)
          (λ k hk e. apart (suc k) (omega arith) (sym (increment_add capacity i k) ∙ e)) in
      rw (rest, get_or-set storage j i item d h) (ground (arith, first))

-- Fewer than `capacity` steps apart, indices differ.
pub steps_apart :
    {capacity i k n : ℕ}
    → i < capacity
    → k < n
    → n < capacity
    → (i + k) % capacity ≢ (i + n) % capacity
steps_apart {capacity} {i} {k} {n} hi hk hn = elim (dec_lt (i + n) capacity) [
  | yes p ↦ omega (arith, mod-eq_of_lt p, mod-eq_of_lt {n = i + k} {m = capacity} (omega arith))
  | no p ↦ elim (dec_lt (i + k) capacity) [
    | yes q ↦ omega (
      arith,
      mod-eq_of_lt q,
      mod-eq-sub-mod {n = i + n} {m = capacity} (omega arith),
      mod-eq_of_lt {n = i + n - capacity} {m = capacity} (omega arith),
    )
    | no q ↦ omega (
      arith,
      mod-eq-sub-mod {n = i + k} {m = capacity} (omega arith),
      mod-eq_of_lt {n = i + k - capacity} {m = capacity} (omega arith),
      mod-eq-sub-mod {n = i + n} {m = capacity} (omega arith),
      mod-eq_of_lt {n = i + n - capacity} {m = capacity} (omega arith),
    )
  ]
]
