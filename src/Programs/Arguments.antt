-- ===== src/Programs/Arguments.antt =====
-- The arguments of the programs: the same loop over `argv` in src/ItchReplay.cpp, ItchFeatures.cpp and
-- ItchQueue.cpp, for the options of each.
use market_order_book_engine.Base.{
  ℕ, ◌≡◌, refl, List, [], ◌∷◌, ◌++◌, Option, none, some, Option-cases, inl, inr, ap,
}
use market_order_book_engine.Text.{Text, parse_unsigned}

abbrev or_else {ℓ} : {A : Type ℓ} → Option A → A → A
or_else none a = a
or_else (some a) _ = a

-- What is not wholly a number within the range of size_t gives `fallback`.
unfoldable pub parse_size : Text → ℕ → ℕ
parse_size text fallback = or_else (parse_unsigned text) fallback

-- An option without a value, and one with a value; none for an argument that is no such option.
module _ {ℓ} {Options : Type ℓ} (flag : Text → Options → Option Options)
    (setting : Text → Text → Options → Option Options) where
  abbrev continue : (Options → Option Options) → Option Options → Option Options
  continue later none = none
  continue later (some o) = later o

  -- the argument `arg` before the argument `value`
  abbrev choose :
      (Options → Option Options)
      → (Options → Option Options)
      → Option Options
      → Option Options
      → Option Options
  choose next after (some o) _ = next o
  choose next after none valued = continue after valued

  -- The loop over the arguments: none for the error exit.
  unfoldable pub arguments : List Text → Options → Option Options
  arguments [] o = some o
  arguments (arg ∷ []) o = flag arg o
  arguments (arg ∷ value ∷ rest) o =
      choose (arguments (value ∷ rest)) (arguments rest) (flag arg o) (setting arg value o)

  -- Arguments that are accepted are settled before those behind them.
  pub arguments-append :
      (xs ys : List Text) (o o' : Options)
      → arguments xs o ≡ some o'
      → arguments (xs ++ ys) o ≡ arguments ys o'
  unfolding arguments
  arguments-append [] ys o o' h = ap (continue (arguments ys)) h
  arguments-append (arg ∷ []) [] o o' h = h
  arguments-append (arg ∷ []) (y ∷ ys) o o' h = rw h refl
  arguments-append (arg ∷ value ∷ rest) ys o o' h = elim (Option-cases (flag arg o)) [
    | inr (p, e) ↦ rw e (arguments-append (value ∷ rest) ys p o' (rw e at h))
    | inl e ↦ elim (Option-cases (setting arg value o)) [
      | inr (p, d) ↦ rw (e, d) (arguments-append rest ys p o' (rw (e, d) at h))
      | inl d ↦ absurd (no_option (rw (e, d) at h))
    ]
  ]
    where
      no_option : {o : Options} → ¬ (none ≡ some o)
      no_option h = cc
