-- ===== src/Programs/Limit.antt =====
-- The limit on the number of events that the programs take: 0 is no limit.
use market_order_book_engine.Base.{
  ℕ, zero, suc, ◌+◌, ◌-◌, ◌^◌, ◌<◌, ◌≡◌, ◌⊎◌, inl, inr, refl, List, [], ◌∷◌, Bool, true, false, not,
  ◌&&◌, leb, ◌==◌, add64, if◌then◌else◌, if_both, arith, take, Bool-cases,
}
use market_order_book_engine.Types.{MarketDataEvent}

-- `max_events != 0 && decoded >= max_events`
abbrev pub is_full : ℕ → ℕ → Bool
is_full max_events decoded = not (max_events == 0) && leb max_events decoded

-- The events that are left under the limit when `decoded` have been counted; 0 is no limit.
abbrev pub left : ℕ → ℕ → List MarketDataEvent → List MarketDataEvent
left max_events decoded events =
    if max_events == 0 then events else take (max_events - decoded) events

take_one :
    (e : MarketDataEvent) (m k : ℕ) (events : List MarketDataEvent)
    → m ≡ suc k
    → take m (e ∷ events) ≡ e ∷ take k events
take_one e m k events h = rw h refl

-- an event, and what is left behind it
pub left-more :
    (max_events d : ℕ) (e : MarketDataEvent) (events : List MarketDataEvent)
    → (max_events ≡ 0) ⊎ (d < max_events)
    → d + 1 < 2 ^ 64
    → left max_events d (e ∷ events)
      ≡ e ∷ (if is_full max_events (add64 d 1) then [] else left max_events (add64 d 1) events)
left-more max_events d e events (inl unlimited) small =
    let at0 : (max_events == 0) ≡ true = ground (arith, unlimited) in rw at0 refl
left-more max_events d e events (inr less) small =
    let some_limit : (max_events == 0) ≡ false = ground (arith, less) in
    elim (Bool-cases (leb max_events (add64 d 1))) [
      | inl h ↦ rw (some_limit, h) (take_one e _ 0 events (ground (arith, h, less, small)))
      | inr h ↦
          rw (some_limit, h)
            (take_one e _ (max_events - add64 d 1) events (ground (arith, h, less, small)))
    ]

pub left_none : (max_events decoded : ℕ) → left max_events decoded [] ≡ []
left_none max_events decoded =
    if_both (λ xs. xs ≡ []) (max_events == 0) (λ _. refl) (λ _. take_none (max_events - decoded))
  where
    take_none : (n : ℕ) → take {A = MarketDataEvent} n [] ≡ []
    take_none zero = refl
    take_none (suc n) = refl
