-- ===== src/Research/Backtest/Flat.antt =====
-- The closing trade of a backtest.
use market_order_book_engine.Base.{
  ℕ, ◌<◌, ◌^◌, ℤ, pos, negsuc, ◌+ℤ◌, ◌-ℤ◌, to_i64, ltb_ℤ, eqb_ℤ, eqb_ℤ_iff, ◌≡◌, refl, ◌∙◌, some,
  if◌then◌else◌, if_both, arith, suc, zero,
}
use market_order_book_engine.Types.{Side, buy, sell, LevelView}
use market_order_book_engine.Research.Backtest.{
  Backtester, signed_by, touch, fill_at, execute_crossing, drain_loop, settle, llabs,
}

-- the side of the order that closes a position
abbrev pub closing_side : ℤ → Side
closing_side p = if ltb_ℤ (pos 0) p then sell else buy

close : (p : ℤ) → llabs p < 2 ^ 63 → signed_by (closing_side p) p (to_i64 (llabs p)) ≡ pos 0
unfolding to_i64 ◌+ℤ◌ ◌-ℤ◌
close (pos zero) h = ground arith
close (pos (suc n)) h = ground arith
close (negsuc n) h = ground arith

execute_crossing-position :
    (t : Backtester) (side : Side) (quantity now_ns : ℕ) (level : LevelView)
    → touch side t.book ≡ some level
    → (execute_crossing t side quantity now_ns).position
      ≡ signed_by side t.position (to_i64 quantity)
unfolding execute_crossing fill_at
execute_crossing-position t side quantity now_ns level e = rw (e, execute_crossing) refl

-- If, after the pending orders, the book has a price on the side that a closing order crosses, and the
-- position is of less than 2 ^ 63 units, then the settlement leaves no position.
pub settle-flat :
    (t : Backtester) (level : LevelView)
    → llabs (drain_loop t.pending t).position < 2 ^ 63
    → touch (closing_side (drain_loop t.pending t).position) (drain_loop t.pending t).book
      ≡ some level
    → (settle t).position ≡ pos 0
unfolding settle
settle-flat t level small e =
    let t1 = drain_loop t.pending t in
    if_both (λ (s : Backtester). s.position ≡ pos 0) (eqb_ℤ t1.position (pos 0))
      (λ b. (eqb_ℤ_iff t1.position (pos 0)).0 b)
      λ b.
        execute_crossing-position t1 (closing_side t1.position) (llabs t1.position) t1.last_ts level
          e
        ∙ close t1.position small
