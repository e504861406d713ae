-- ===== src/Programs/Queue.antt =====
-- src/ItchQueue.cpp: passive orders posted one after the other at the touch of one symbol, and how often
-- they would fill.
pub mod Bounds
mod Tests
use market_order_book_engine.Base.{
  ℕ, zero, suc, ◌+◌, ◌/◌, ◌^◌, ◌%◌, ℤ, List, [], ◌∷◌, ◌++◌, Option, none, some, Bool, true, false,
  not, ◌&&◌, ltb, leb, ◌==◌, add64, length, get_or, if◌then◌else◌,
}
use market_order_book_engine.Types.{Side, buy, sell, MarketDataEvent, LevelView}
use market_order_book_engine.Text.{Text, codes, equal}
use market_order_book_engine.Book.State.{Book}
use market_order_book_engine.Book.Events.{process_event}
use market_order_book_engine.Book.Views.{best_bid, best_ask, level_order_ids}
use market_order_book_engine.Research.Float.{Float}
use market_order_book_engine.Research.QueueModel.{QueueModel, new_model, on_event, fully_filled}
use market_order_book_engine.Programs.Arguments.{parse_size, arguments}

module _ (f : Float) where
  open f use {Double}

  -- The state of the loop.
  pub record Study : Type 0 where
    pub book : Book
    pub active : Option (QueueModel f)
    pub events_since_post : ℕ
    pub posted : ℕ
    pub full : ℕ
    pub any : ℕ
    pub events_to_full : List ℕ

  abbrev pub study : Book → Study
  study b = record {
    book = b;
    active = none;
    events_since_post = 0;
    posted = 0;
    full = 0;
    any = 0;
    events_to_full = [];
  }

  -- `if (active->filled() > 0) ++any;`
  abbrev pub count_any : Study → QueueModel f → Study
  count_any t m = if ltb 0 m.filled then record t { any = add64 t.any 1 } else t

  unfoldable pub resolve : Study → QueueModel f → Bool → Study
  resolve t m filled =
      let t' =
        if filled
        then record t {
          full = add64 t.full 1;
          events_to_full = t.events_to_full ++ (t.events_since_post ∷ []);
        }
        else t in
      record (count_any t' m) { active = none }

  -- the order that is posted, and the event before the book has it
  unfoldable pub watch : ℕ → MarketDataEvent → Study → Option (QueueModel f) → Study
  watch timeout e t none = t
  watch timeout e t (some m) =
      let m' = on_event f m e t.book in
      let t' = record t { active = some m'; events_since_post = add64 t.events_since_post 1 } in
      if fully_filled f m'
      then resolve t' m' true
      else if leb timeout t'.events_since_post
      then resolve t' m' false
      else t'

  -- a new order at the touch, where there is none
  unfoldable pub emplace : Side → ℕ → Double → Study → Option LevelView → Study
  emplace side size multiplier t none = t
  emplace side size multiplier t (some top) =
      let ids = level_order_ids t.book side top.price_ticks in
      record t {
        active = some (new_model f side top.price_ticks size top.total_quantity multiplier ids);
        events_since_post = 0;
        posted = add64 t.posted 1;
      }

  abbrev pub touch_of : Side → Book → Option LevelView
  touch_of buy b = best_bid b
  touch_of sell b = best_ask b

  unfoldable pub post : Side → ℕ → Double → Study → Option (QueueModel f) → Study
  post side size multiplier t none = emplace side size multiplier t (touch_of side t.book)
  post side size multiplier t (some m) = t

  unfoldable pub study_event : Side → ℕ → ℕ → Double → Study → MarketDataEvent → Study
  study_event side size timeout multiplier t e =
      let t1 = watch timeout e t t.active in
      let t2 = record t1 { book = (process_event t1.book e).0 } in
      post side size multiplier t2 t2.active

  unfoldable pub study_loop : List MarketDataEvent → ℕ → Side → ℕ → ℕ → Double → Study → Study
  study_loop [] locate side size timeout multiplier t = t
  study_loop (e ∷ events) locate side size timeout multiplier t =
      let later = study_loop events locate side size timeout multiplier in
      if not (e.symbol == locate)
      then later t
      else later (study_event side size timeout multiplier t e)

  -- the order that is left at the end
  unfoldable pub residual : Study → Option (QueueModel f) → Study
  residual t none = t
  residual t (some m) = count_any t m

  pub run_study : List MarketDataEvent → ℕ → Side → ℕ → ℕ → Double → Book → Study
  run_study events locate side size timeout multiplier b =
      let t = study_loop events locate side size timeout multiplier (study b) in residual t t.active

  pub record Options : Type 0 where
    pub mold : Bool
    pub have_locate : Bool
    pub locate : ℕ
    pub side : Side
    pub size : ℕ
    pub timeout : ℕ
    pub multiplier : Double
    pub capacity : ℕ

  abbrev pub defaults : Double → Options
  defaults one = record {
    mold = false;
    have_locate = false;
    locate = 0;
    side = buy;
    size = 100;
    timeout = 1000;
    multiplier = one;
    capacity = 2 ^ 18;
  }

  unfoldable pub flag : Text → Options → Option Options
  flag arg o = if equal arg (codes "--mold") then some (record o { mold = true }) else none

  -- `strtod` is the library's.
  unfoldable pub setting : (Text → Double) → Text → Text → Options → Option Options
  setting strtod arg value o =
      if equal arg (codes "--locate")
      then some (record o { locate = parse_size value 0 % 2 ^ 32; have_locate = true })
      else if equal arg (codes "--side")
      then some (record o { side = if equal value (codes "sell") then sell else buy })
      else if equal arg (codes "--size")
      then some (record o { size = parse_size value 100 })
      else if equal arg (codes "--timeout")
      then some (record o { timeout = parse_size value o.timeout })
      else if equal arg (codes "--multiplier")
      then some (record o { multiplier = strtod value })
      else if equal arg (codes "--capacity")
      then some (record o { capacity = parse_size value o.capacity })
      else none

  abbrev pub located : Option Options → Option Options
  located none = none
  located (some o) = if not o.have_locate then none else some o

  -- The arguments behind the path; none for the exits with code 2. `one` is 1.0.
  pub options : (Text → Double) → Double → List Text → Option Options
  options strtod one args = located (arguments flag (setting strtod) args (defaults one))

-- a number, entered in order
pub enter_sorted : ℕ → List ℕ → List ℕ
enter_sorted n [] = n ∷ []
enter_sorted n (x ∷ xs) = let rest = x ∷ enter_sorted n xs in if leb n x then n ∷ x ∷ xs else rest

-- `std::sort`
unfoldable pub sort : List ℕ → List ℕ
unfolding enter_sorted
sort [] = []
sort (n ∷ xs) = enter_sorted n (sort xs)

unfoldable pub median : List ℕ → ℕ
median xs = if length xs == 0 then 0 else get_or (sort xs) (length xs / 2) 0
