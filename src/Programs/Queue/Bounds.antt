-- ===== src/Programs/Queue/Bounds.antt =====
-- The numbers of the study of passive orders.
use market_order_book_engine.Base.{
  ℕ, suc, ◌+◌, ◌^◌, ◌≤◌, ◌<◌, ◌≡◌, ◌⊎◌, inl, inr, refl, ap, ◌∙◌, subst, List, [], ◌∷◌, Option, none,
  some, Bool, true, false, not, ltb, leb, ◌==◌, if_both, arith, length, length-append, add64, All,
  All-append, max,
}
use market_order_book_engine.Types.{Side, MarketDataEvent, LevelView}
use market_order_book_engine.Book.State.{Book}
use market_order_book_engine.Book.Events.{process_event}
use market_order_book_engine.Research.Float.{Float}
use market_order_book_engine.Research.QueueModel.{QueueModel, new_model, on_event, fully_filled}
use market_order_book_engine.Research.QueueModel.Kept.{on_event-size}
use market_order_book_engine.Programs.Queue.{
  Study, study, resolve, watch, emplace, touch_of, post, study_event, study_loop, residual,
  run_study,
}

module _ (f : Float) where
  open f use {Double}

  abbrev open_orders : Option (QueueModel f) → ℕ
  open_orders none = 0
  open_orders (some m) = 1

  -- An order that is watched has the size of the study.
  abbrev Sized : ℕ → Option (QueueModel f) → Type 0
  Sized size none = Unit
  Sized size (some m) = m.size ≡ size

  -- the waits that are possible
  abbrev pub IsWait : ℕ → ℕ → Type 0
  IsWait timeout n = (1 ≤ n) × (n ≤ max 1 timeout)

  -- The numbers of a study between two events, behind `n` events.
  record Counting (size timeout n : ℕ) (t : Study f) : Type 0 where
    posted : t.posted ≤ n
    full : t.full ≤ t.any
    any : t.any + open_orders t.active ≤ t.posted
    recorded : length t.events_to_full ≡ t.full
    waits : All (IsWait timeout) t.events_to_full
    running : open_orders t.active ≡ 0 ⊎ (t.events_since_post < max 1 timeout)
    sized : Sized size t.active

  module _ (size timeout : ℕ) (positive : 0 < size) (fits : timeout < 2 ^ 64) where
    later : {n k : ℕ} {t : Study f} → Counting size timeout n t → n ≤ k → Counting size timeout k t
    later v h = record {
      posted = omega (arith, v.posted, h);
      full = v.full;
      any = v.any;
      recorded = v.recorded;
      waits = v.waits;
      running = v.running;
      sized = v.sized;
    }

    -- an order of the study that ends, filled or not
    resolve-Counting :
        (n : ℕ) (t : Study f) (m : QueueModel f) (filled : Bool)
        → n < 2 ^ 64
        → t.posted ≤ n
        → t.full ≤ t.any
        → t.any + 1 ≤ t.posted
        → length t.events_to_full ≡ t.full
        → All (IsWait timeout) t.events_to_full
        → IsWait timeout t.events_since_post
        → ((filled ≡ true) → 0 < m.filled)
        → Counting size timeout n (resolve f t m filled)
    unfolding resolve
    resolve-Counting n t m true small posted full any recorded waits wait won =
        let some_filled : ltb 0 m.filled ≡ true = ground (arith, won refl) in
        rw some_filled record {
          posted = posted;
          full = omega (arith, full, any, posted, small);
          any = omega (arith, full, any, posted, small);
          recorded = omega (
            arith,
            recorded,
            full,
            any,
            posted,
            small,
            length-append t.events_to_full (t.events_since_post ∷ []),
          );
          waits = All-append (IsWait timeout) t.events_to_full _ waits (wait, tt);
          running = inl refl;
          sized = tt;
        }
    resolve-Counting n t m false small posted full any recorded waits wait won =
        if_both (λ (t' : Study f). Counting size timeout n (record t' { active = none }))
          (ltb 0 m.filled)
          (λ h. record {
            posted = posted;
            full = omega (arith, full, any, posted, small);
            any = omega (arith, full, any, posted, small);
            recorded = recorded;
            waits = waits;
            running = inl refl;
            sized = tt;
          })
          (λ h. record {
            posted = posted;
            full = full;
            any = omega (arith, any);
            recorded = recorded;
            waits = waits;
            running = inl refl;
            sized = tt;
          })

    watch-Counting :
        (n : ℕ) (e : MarketDataEvent) (t : Study f) (o : Option (QueueModel f))
        → n < 2 ^ 64
        → t.active ≡ o
        → Counting size timeout n t
        → Counting size timeout n (watch f timeout e t o)
    unfolding watch
    watch-Counting n e t none small same v = v
    watch-Counting n e t (some m) small same v =
        let m' = on_event f m e t.book in
        let kept : m'.size ≡ size = on_event-size f m e t.book ∙ subst (Sized size) same v.sized in
        let is_open : open_orders t.active ≡ 1 = ap open_orders same in
        let waiting : t.events_since_post < max 1 timeout = ground (arith, v.running, is_open) in
        let wait : IsWait timeout (add64 t.events_since_post 1) =
          (omega (arith, waiting, fits), omega (arith, waiting, fits)) in
        let some_any : t.any + 1 ≤ t.posted = omega (arith, v.any, is_open) in
        let t' = record t { active = some m'; events_since_post = add64 t.events_since_post 1 } in
        if_both (Counting size timeout n) (fully_filled f m')
          (λ h.
            resolve-Counting n t' m' true small v.posted v.full some_any v.recorded v.waits wait
              (λ _. ground (arith, h, kept, positive)))
          (λ _.
            if_both (Counting size timeout n) (leb timeout t'.events_since_post)
              (λ _.
                resolve-Counting n t' m' false small v.posted v.full some_any v.recorded v.waits
                  wait (λ h. absurd cc))
              (λ h. record {
                posted = v.posted;
                full = v.full;
                any = omega (arith, some_any);
                recorded = v.recorded;
                waits = v.waits;
                running = inr (ground (arith, h, wait));
                sized = kept;
              }))

    module _ (side : Side) (multiplier : Double) where
      post-Counting :
          (n : ℕ) (t : Study f)
          → n + 1 < 2 ^ 64
          → Counting size timeout n t
          → Counting size timeout (n + 1) (post f side size multiplier t t.active)
      unfolding post emplace new_model
      post-Counting n t small v = posted t.active refl
        where
          emplaced :
              (o : Option LevelView)
              → open_orders t.active ≡ 0
              → Counting size timeout (n + 1) (emplace f side size multiplier t o)
          emplaced none closed = later v (omega arith)
          emplaced (some top) closed = record {
            posted = omega (arith, v.posted, small);
            full = v.full;
            any = omega (arith, v.any, v.posted, small);
            recorded = v.recorded;
            waits = v.waits;
            running = inr (omega arith);
            sized = refl;
          }

          posted :
              (o : Option (QueueModel f))
              → t.active ≡ o
              → Counting size timeout (n + 1) (post f side size multiplier t o)
          posted none same = emplaced (touch_of f side t.book) (ap open_orders same)
          posted (some m) same = later v (omega arith)

      study_loop-Counting :
          (events : List MarketDataEvent) (locate n : ℕ) (t : Study f)
          → n + length events < 2 ^ 64
          → Counting size timeout n t
          → Counting size timeout
              (n + length events)
              (study_loop f events locate side size timeout multiplier t)
      unfolding study_loop study_event
      study_loop-Counting [] locate n t small v = later v (omega arith)
      study_loop-Counting (e ∷ events) locate n t small v =
          let t1 = watch f timeout e t t.active in
          let v1 = watch-Counting n e t t.active (omega (arith, small)) refl v in
          let v2 : Counting size timeout n (record t1 { book = (process_event t1.book e).0 }) =
            record {
              posted = v1.posted;
              full = v1.full;
              any = v1.any;
              recorded = v1.recorded;
              waits = v1.waits;
              running = v1.running;
              sized = v1.sized;
            } in
          let v3 =
            post-Counting n (record t1 { book = (process_event t1.book e).0 })
              (omega (arith, small)) v2 in
          if_both (Counting size timeout (n + suc (length events))) (not (e.symbol == locate))
            (λ _.
              later
                (study_loop-Counting events locate (n + 1) t (omega (arith, small))
                  (later v (omega arith)))
                (omega arith))
            (λ _.
              later (study_loop-Counting events locate (n + 1) _ (omega (arith, small)) v3)
                (omega arith))

  -- What the numbers of a study mean, behind `n` events.
  pub record Counts (timeout n : ℕ) (t : Study f) : Type 0 where
    pub posted : t.posted ≤ n
    pub any : t.any ≤ t.posted
    pub full : t.full ≤ t.any
    pub recorded : length t.events_to_full ≡ t.full
    pub waits : All (IsWait timeout) t.events_to_full

  residual-Counts :
      (size timeout n : ℕ) (t : Study f) (o : Option (QueueModel f))
      → n < 2 ^ 64
      → t.active ≡ o
      → Counting size timeout n t
      → Counts timeout n (residual f t o)
  unfolding residual
  residual-Counts size timeout n t none small same v = record {
    posted = v.posted;
    any = omega (arith, v.any);
    full = v.full;
    recorded = v.recorded;
    waits = v.waits;
  }
  residual-Counts size timeout n t (some m) small same v =
      let is_open : open_orders t.active ≡ 1 = ap open_orders same in
      if_both (Counts timeout n) (ltb 0 m.filled)
        (λ _. record {
          posted = v.posted;
          any = omega (arith, v.any, is_open, v.posted, small);
          full = omega (arith, v.full, v.any, is_open, v.posted, small);
          recorded = v.recorded;
          waits = v.waits;
        })
        (λ _. record {
          posted = v.posted;
          any = omega (arith, v.any);
          full = v.full;
          recorded = v.recorded;
          waits = v.waits;
        })

  -- In a study of a size above 0, at most one order is posted for an event, each order counts at most once
  -- as filled in part or whole, the orders filled in whole are among these, and their waits are recorded,
  -- each from 1 event to the timeout (or 1, for a timeout of 0).
  pub run_study-Counts :
      (events : List MarketDataEvent) (locate : ℕ) (side : Side) (size timeout : ℕ)
      (multiplier : Double) (b : Book)
      → 0 < size
      → timeout < 2 ^ 64
      → length events < 2 ^ 64
      → Counts timeout (length events) (run_study f events locate side size timeout multiplier b)
  unfolding run_study
  run_study-Counts events locate side size timeout multiplier b positive fits small =
      let start : Counting size timeout 0 (study f b) = record {
        posted = omega arith;
        full = omega arith;
        any = omega arith;
        recorded = refl;
        waits = tt;
        running = inl refl;
        sized = tt;
      } in
      let t = study_loop f events locate side size timeout multiplier (study f b) in
      let v =
        study_loop-Counting size timeout positive fits side multiplier events locate 0 (study f b)
          (omega (arith, small)) start in
      residual-Counts size timeout (length events) t t.active small refl
        (subst (λ k. Counting size timeout k t) (omega arith) v)
