-- ===== src/Book/Ladder/Tests.antt =====
-- A small ladder, built level by level, and the theorems on it.
use market_order_book_engine.Base.{ℕ, ◌≡◌, refl, pos, [], ◌∷◌, inl, inr, arith, set, get_or}
use market_order_book_engine.Types.{buy}
use market_order_book_engine.Book.State.{Book, Level, fresh_level}
use market_order_book_engine.Book.Ladder.{
  ladder_push, ladder_remove, ladder_top, ladder_sift_up, sift_up_loop, ladder_before, swap_entries,
}
use market_order_book_engine.Book.Ladder.Frame.{Frame}
use market_order_book_engine.Book.Ladder.Swap.{Holds}
use market_order_book_engine.Book.Ladder.Write.{HasLadder}
use market_order_book_engine.Book.Ladder.Push.{Pushed, ladder_push-Pushed}
use market_order_book_engine.Book.Ladder.Remove.{Removed, ladder_remove-Removed}

abbrev level_of : ℕ → Level
level_of price = record fresh_level { price = pos price }

-- bid levels at 10, 12 and 11, none of them in the heap
abbrev three_levels : Book
three_levels = record {
  orders = [];
  levels = level_of 10 ∷ level_of 12 ∷ level_of 11 ∷ [];
  order_lookup = [];
  level_lookup = [];
  bid_heap = 0 ∷ 0 ∷ 0 ∷ [];
  ask_heap = 0 ∷ 0 ∷ 0 ∷ [];
  bid_heap_size = 0;
  ask_heap_size = 0;
  free_order = 0;
  free_level = 0;
  active_orders = 0;
  next_priority = 0;
  fill_sequence = 0;
}

empty_HasLadder : HasLadder buy three_levels
empty_HasLadder = record {
  place = record {
    fits = ground arith;
    small = ground arith;
    inside = λ i h. absurd (omega (arith, h));
    placed = λ i h. absurd (omega (arith, h));
  };
  prices = λ l. refl;
  ordered = λ c p h. absurd (omega (arith, h));
}

not_held : (l : ℕ) → ¬ (Holds buy three_levels l)
not_held l (i, h, e) = omega (arith, h)

first :
    Pushed buy 0 three_levels (ladder_push buy three_levels 0)
    × Frame three_levels (ladder_push buy three_levels 0)
first =
    ladder_push-Pushed buy three_levels 0 empty_HasLadder (ground arith) (ground arith) (not_held 0)

one_held : ¬ (Holds buy (ladder_push buy three_levels 0) 1)
one_held h = elim ((first.0.holds 1).0 h) [ inl k ↦ not_held 1 k | inr e ↦ omega (arith, e) ]

-- the level at 12 goes ahead of the one at 10
abbrev two_held : Book
two_held = ladder_push buy (ladder_push buy three_levels 0) 1

ladder_push-Pushed_example :
    Pushed buy 1 (ladder_push buy three_levels 0) two_held
    × Frame (ladder_push buy three_levels 0) two_held
unfolding ladder_push ladder_sift_up sift_up_loop ladder_before swap_entries set get_or
ladder_push-Pushed_example =
    ladder_push-Pushed buy (ladder_push buy three_levels 0) 1 first.0.ladder (ground arith)
      (ground arith) one_held

top_of_two : ladder_top buy two_held ≡ 1
unfolding ladder_top ladder_push ladder_sift_up sift_up_loop ladder_before swap_entries set get_or
top_of_two = refl

-- the level at the top leaves
ladder_remove-Removed_example :
    Removed buy 1 two_held (ladder_remove buy two_held 1)
    × Frame two_held (ladder_remove buy two_held 1)
ladder_remove-Removed_example =
    ladder_remove-Removed buy two_held 1 ladder_push-Pushed_example.0.ladder
      ((ladder_push-Pushed_example.0.holds 1).1 (inr refl))
