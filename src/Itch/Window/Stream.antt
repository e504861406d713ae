-- ===== src/Itch/Window/Stream.antt =====
-- The read window shows its stream: whatever it moves, grows or reads, the bytes that have not been
-- taken stay the same.
use market_order_book_engine.Base.{
  ℕ, zero, suc, ◌+◌, ◌-◌, ◌≤◌, ◌<◌, ◌≡◌, refl, sym, ap, ◌∙◌, ◌++◌, Bool, true, false, ◌⊎◌, inl, inr,
  arith, length, take, drop, replicate, leb, ltb, not, ◌&&◌, Bool-cases, if_both, length-append,
  length-take, length-drop, length-replicate, take-eq_of_le, take-append_left,
}
use market_order_book_engine.Itch.Window.{
  Window, available, resize, compact, read_more, fill_loop, refill, ensure,
}
use market_order_book_engine.Itch.Window.Moves.{
  unread, IsWindow, AtFront, AtFront-IsWindow, Shows, compact-Shows, front_unread,
  read_more-Reading,
}

Shows-refl : {w : Window} → AtFront w → Shows w w
Shows-refl v = record { at_front = v; same = refl }

Shows-trans : {a b c : Window} → Shows a b → Shows b c → Shows a c
Shows-trans p q = record { at_front = q.at_front; same = q.same ∙ p.same }

-- The loop ends with the bytes there, or at the end of the stream.
record Filled (n : ℕ) (w w' : Window) : Type 0 where
  shows : Shows w w'
  done : (n ≤ w'.size) ⊎ (w'.eof ≡ true)

fill_loop-Filled :
    (rounds n : ℕ) (w : Window)
    → AtFront w
    → n ≤ length w.buffer
    → (w.eof ≡ true) ⊎ (length w.input < rounds)
    → Filled n w (fill_loop rounds n w)
unfolding fill_loop
fill_loop-Filled zero n w v h (inl e) = record { shows = Shows-refl v; done = inr e }
fill_loop-Filled zero n w v h (inr e) = absurd (omega arith)
fill_loop-Filled (suc rounds) n w v h fuel = elim (Bool-cases (ltb w.size n && not w.eof)) [
  | inr b ↦ rw b (record { shows = Shows-refl v; done = ground arith })
  | inl b ↦
      let step = read_more-Reading w v (ground arith) in
      let rest =
        fill_loop-Filled rounds n (read_more w) step.shows.at_front (omega (arith, step.room))
          (ground (arith, step.less)) in
      rw b (record { shows = Shows-trans step.shows rest.shows; done = rest.done })
]

-- The buffer grows when a message is longer than it is.
grow_Shows :
    (w : Window) (n : ℕ)
    → AtFront w
    → length w.buffer < n
    → Shows w (record w { buffer = resize w.buffer n }) × (n ≤ length (resize w.buffer n))
unfolding resize
grow_Shows w n v h =
    let more = replicate (n - length w.buffer) 0 in
    let w' : Window = record w { buffer = w.buffer ++ more } in
    let l : length (w.buffer ++ more) ≡ n =
      omega
        (arith, length-append w.buffer more, length-replicate {A = ℕ} (n - length w.buffer) 0) in
    let shown : unread w' ≡ unread w =
      front_unread w' v.front
      ∙ ap (λ xs. xs ++ w.input) (take-append_left w.size w.buffer more v.fits)
      ∙ sym (front_unread w v.front) in
    rw (take-eq_of_le n w.buffer (omega arith)) (
      record {
        at_front = record { front = v.front; fits = omega (arith, l, v.fits); drained = v.drained };
        same = shown;
      },
      omega (arith, l),
    )

-- What `ensure w n` gives: a window with the same unread bytes, and whether there are `n` of them,
-- which then are in the buffer.
pub record Ensured (w : Window) (n : ℕ) (r : Bool × Window) : Type 0 where
  pub window : IsWindow r.1
  pub same : unread r.1 ≡ unread w
  pub there : r.0 ≡ true → n ≤ available r.1
  pub short : r.0 ≡ false → length (unread r.1) < n

filled_Ensured :
    (w w' : Window) (n : ℕ)
    → unread w' ≡ unread w
    → AtFront w'
    → (n ≤ w'.size) ⊎ (w'.eof ≡ true)
    → Ensured w n (leb n (available w'), w')
filled_Ensured w w' n same v done = record {
  window = AtFront-IsWindow v;
  same = same;
  there = λ e. ground arith;
  short = λ e.
      let ended : w'.eof ≡ true = ground (arith, v.front, done) in
      ground (
        arith,
        ap length (front_unread w' v.front),
        length-append (take w'.size w'.buffer) w'.input,
        ap length (v.drained ended),
        length-take w'.size w'.buffer,
        v.fits,
        v.front,
      );
}

refill-Ensured :
    (w : Window) (n : ℕ) → IsWindow w → Ensured w n (leb n (available (refill w n)), refill w n)
unfolding refill
refill-Ensured w n v =
    let w1 = compact w in
    let moved = compact-Shows w v in
    elim (Bool-cases (ltb (length w1.buffer) n)) [
      | inl d ↦
          let w2 : Window = record w1 { buffer = resize w1.buffer n } in
          let grown = grow_Shows w1 n moved.at_front (ground arith) in
          let full =
            fill_loop-Filled (length w2.input + 2) n w2 grown.0.at_front grown.1
              (inr (omega arith)) in
          rw d (
            filled_Ensured w _ n (full.shows.same ∙ grown.0.same ∙ moved.same) full.shows.at_front
              full.done)
      | inr d ↦
          let full =
            fill_loop-Filled (length w1.input + 2) n w1 moved.at_front (ground arith)
              (inr (omega arith)) in
          rw d (filled_Ensured w _ n (full.shows.same ∙ moved.same) full.shows.at_front full.done)
    ]

pub length-unread : (w : Window) → IsWindow w → length (unread w) ≡ available w + length w.input
length-unread w v = omega (
  arith,
  length-append (take (available w) (drop w.pos w.buffer)) w.input,
  length-take (available w) (drop w.pos w.buffer),
  length-drop w.pos w.buffer,
  v.fits,
  v.ordered,
)

unread_at_end : (w : Window) → IsWindow w → w.eof ≡ true → length (unread w) ≡ available w
unread_at_end w v e = omega (arith, length-unread w v, ap length (v.drained e))

-- From a window in order, whatever it moves, grows or reads, `ensure` loses no byte of the stream and makes none up: it
-- answers true exactly if `n` unread bytes are left, and then has them in the buffer.
pub ensure-Ensured : (w : Window) (n : ℕ) → IsWindow w → Ensured w n (ensure w n)
unfolding ensure
ensure-Ensured w n v =
    if_both (Ensured w n) (leb n (available w))
      (λ b. record {
        window = v;
        same = refl;
        there = λ e. ground arith;
        short = λ e. ground arith;
      })
      λ b.
        if_both (Ensured w n) w.eof
          (λ c. record {
            window = v;
            same = refl;
            there = λ e. ground arith;
            short = λ e. ground (arith, unread_at_end w v c);
          })
          λ c. refill-Ensured w n v

-- Bytes are taken from the window by moving its position.
pub take_off :
    (w : Window) (n : ℕ)
    → IsWindow w
    → n ≤ available w
    → IsWindow (record w { pos = w.pos + n })
      × (length (unread (record w { pos = w.pos + n })) + n ≡ length (unread w))
take_off w n v h =
    let v' : IsWindow (record w { pos = w.pos + n }) = record {
      ordered = omega (arith, v.ordered, h);
      fits = v.fits;
      drained = v.drained;
    } in
    (
      v',
      omega
          (arith, length-unread (record w { pos = w.pos + n }) v', length-unread w v, v.ordered, h),
    )
