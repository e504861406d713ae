-- ===== src/Programs/Backtest.antt =====
-- src/ItchBacktest.cpp: the options of a backtest, and the backtest of the events of a capture.
use market_order_book_engine.Base.{
  ℕ, ◌^◌, ◌%◌, List, Option, none, some, Bool, true, false, not, if◌then◌else◌,
}
use market_order_book_engine.Types.{MarketDataEvent}
use market_order_book_engine.Text.{Text, codes, equal}
use market_order_book_engine.Research.Float.{Float}
use market_order_book_engine.Research.Backtest.{
  Config, Backtester, new_backtester, strategy_target, settle,
}
use market_order_book_engine.Research.Backtest.Ledger.{feed}
use market_order_book_engine.Programs.Arguments.{parse_size, arguments}

module _ (f : Float) where
  open f use {Double}

  pub record Options : Type 0 where
    pub mold : Bool
    pub have_locate : Bool
    pub locate : ℕ
    pub latency_ns : ℕ
    pub enter_threshold : Double
    pub exit_threshold : Double
    pub order_size : ℕ
    pub capacity : ℕ

  unfoldable pub flag : Text → Options → Option Options
  flag arg o = if equal arg (codes "--mold") then some (record o { mold = true }) else none

  -- `strtod` is the library's.
  unfoldable pub setting : (Text → Double) → Text → Text → Options → Option Options
  setting strtod arg value o =
      if equal arg (codes "--locate")
      then some (record o { locate = parse_size value 0 % 2 ^ 32; have_locate = true })
      else if equal arg (codes "--latency-ns")
      then some (record o { latency_ns = parse_size value 0 })
      else if equal arg (codes "--enter")
      then some (record o { enter_threshold = strtod value })
      else if equal arg (codes "--exit")
      then some (record o { exit_threshold = strtod value })
      else if equal arg (codes "--size")
      then some (record o { order_size = parse_size value 1 })
      else if equal arg (codes "--capacity")
      then some (record o { capacity = parse_size value o.capacity })
      else none

  -- The thresholds are 0.30 and 0.10.
  abbrev pub defaults : Double → Double → Options
  defaults enter exit = record {
    mold = false;
    have_locate = false;
    locate = 0;
    latency_ns = 0;
    enter_threshold = enter;
    exit_threshold = exit;
    order_size = 1;
    capacity = 2 ^ 18;
  }

  abbrev pub located : Option Options → Option Options
  located none = none
  located (some o) = if not o.have_locate then none else some o

  -- The arguments behind the path; none for the exits with code 2.
  pub options : (Text → Double) → Double → Double → List Text → Option Options
  options strtod enter exit args =
      located (arguments flag (setting strtod) args (defaults enter exit))

  abbrev pub config_of : Options → Config
  config_of o = record {
    locate = o.locate;
    latency_ns = o.latency_ns;
    order_size = o.order_size;
    target = strategy_target f o.enter_threshold o.exit_threshold;
  }

  abbrev pub finished : List MarketDataEvent → Option Backtester → Option Backtester
  finished events none = none
  finished events (some t) = some (settle (feed t events))

  -- None for the exception of the book's constructor.
  pub run_backtest : Options → List MarketDataEvent → Option Backtester
  run_backtest o events = finished events (new_backtester (config_of o) o.capacity)
