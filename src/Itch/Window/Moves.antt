-- ===== src/Itch/Window/Moves.antt =====
-- The bytes that a window shows stay the same when it is compacted and when it reads.
use market_order_book_engine.Base.{
  ℕ, ◌+◌, ◌-◌, ◌≤◌, ◌<◌, ◌≡◌, refl, sym, ap, ◌∙◌, [], ◌∷◌, ◌++◌, true, false, ◌⊎◌, inl, inr, arith,
  length, take, drop, min, ltb, ◌==◌, Bool-cases, length-append, length-take, length-drop,
  take_append_eq, append_assoc, take-drop,
}
use market_order_book_engine.Itch.Bytes.{Bytes}
use market_order_book_engine.Itch.Window.{Window, available, whole, compact, read_more}

-- The bytes that have not been taken: those in the buffer, then those of the stream.
abbrev pub unread : Window → Bytes
unread w = take (available w) (drop w.pos w.buffer) ++ w.input

pub record IsWindow (w : Window) : Type 0 where
  pub ordered : w.pos ≤ w.size
  pub fits : w.size ≤ length w.buffer
  pub drained : w.eof ≡ true → w.input ≡ []

pub whole-IsWindow : (bytes : Bytes) → IsWindow (whole bytes)
unfolding whole
whole-IsWindow bytes = record { ordered = omega arith; fits = omega arith; drained = λ e. refl }

-- A window that has been compacted keeps its unread bytes at the front.
pub record AtFront (w : Window) : Type 0 where
  pub front : w.pos ≡ 0
  pub fits : w.size ≤ length w.buffer
  pub drained : w.eof ≡ true → w.input ≡ []

pub AtFront-IsWindow : {w : Window} → AtFront w → IsWindow w
AtFront-IsWindow v = record { ordered = omega (arith, v.front); fits = v.fits; drained = v.drained }

-- `w'` shows what `w` shows.
pub record Shows (w w' : Window) : Type 0 where
  pub at_front : AtFront w'
  pub same : unread w' ≡ unread w

pub front_unread : (w : Window) → w.pos ≡ 0 → unread w ≡ take w.size w.buffer ++ w.input
front_unread w e = let n : w.size - w.pos ≡ w.size = omega (arith, e) in rw n (rw e refl)

pub compact-Shows : (w : Window) → IsWindow w → Shows w (compact w)
unfolding compact
compact-Shows w v = elim (Bool-cases (ltb 0 w.pos)) [
  | inr b ↦ rw b (record {
    at_front = record { front = ground arith; fits = v.fits; drained = v.drained };
    same = refl;
  })
  | inl b ↦
      let kept = take (available w) (drop w.pos w.buffer) in
      let rest = drop (available w) w.buffer in
      let n : length kept ≡ available w = ground (
        arith,
        length-take (available w) (drop w.pos w.buffer),
        length-drop w.pos w.buffer,
        v.ordered,
        v.fits,
      ) in
      let w' : Window = record w { buffer = kept ++ rest; pos = 0; size = available w } in
      rw b (record {
        at_front = record {
          front = refl;
          fits = omega (arith, n, length-append kept rest);
          drained = v.drained;
        };
        same =
            front_unread w' refl
            ∙ ap (λ xs. xs ++ w.input) (take_append_eq (available w) kept rest n);
      })
]

-- what is read goes behind the bytes at the front
splice :
    (n got : ℕ) (buffer input : Bytes)
    → n ≤ length buffer
    → got ≤ length input
    → take (n + got) (take n buffer ++ (take got input ++ drop (n + got) buffer)) ++ drop got input
      ≡ take n buffer ++ input
splice n got buffer input h k =
    let xs = take n buffer ++ take got input in
    let rest = drop (n + got) buffer in
    let size : length xs ≡ n + got = omega (
      arith,
      length-append (take n buffer) (take got input),
      length-take n buffer,
      length-take got input,
    ) in
    rw
      (
        ← append_assoc (take n buffer) (take got input) rest,
        take_append_eq (n + got) xs rest size,
        append_assoc (take n buffer) (take got input) (drop got input),
        take-drop got input,
      )
      refl

length-splice :
    (n got : ℕ) (buffer input : Bytes)
    → n + got ≤ length buffer
    → got ≤ length input
    → length (take n buffer ++ (take got input ++ drop (n + got) buffer)) ≡ length buffer
length-splice n got buffer input h k = omega (
  arith,
  length-append (take n buffer) (take got input ++ drop (n + got) buffer),
  length-append (take got input) (drop (n + got) buffer),
  length-take n buffer,
  length-take got input,
  length-drop (n + got) buffer,
)

nil_of_empty : (xs : Bytes) → length xs ≡ 0 → xs ≡ []
nil_of_empty [] h = refl
nil_of_empty (x ∷ xs) h = absurd (omega arith)

-- A read, when there is room: at the end of the stream it marks the end, before it takes bytes.
pub record Reading (w w' : Window) : Type 0 where
  pub shows : Shows w w'
  pub room : length w'.buffer ≡ length w.buffer
  pub less : (w'.eof ≡ true) ⊎ (length w'.input < length w.input)

pub read_more-Reading :
    (w : Window) → AtFront w → w.size < length w.buffer → Reading w (read_more w)
unfolding read_more
read_more-Reading w v room =
    let got = min (length w.buffer - w.size) (length w.input) in
    let full : (w.size == length w.buffer) ≡ false = ground arith in
    let e = front_unread w v.front in
    elim (Bool-cases (got == 0)) [
      | inl b ↦
          rw (full, b)
            (record {
              shows = record {
                at_front = record {
                  front = v.front;
                  fits = v.fits;
                  drained = λ h. nil_of_empty w.input (ground arith);
                };
                same = refl;
              };
              room = refl;
              less = inl refl;
            })
      | inr b ↦
          let w' : Window = record w {
            buffer = take w.size w.buffer ++ (take got w.input ++ drop (w.size + got) w.buffer);
            input = drop got w.input;
            size = w.size + got;
          } in
          let l = length-splice w.size got w.buffer w.input (omega arith) (omega arith) in
          rw (full, b)
            (record {
              shows = record {
                at_front = record {
                  front = v.front;
                  fits = omega (arith, l);
                  drained = λ h. absurd (ground (arith, ap length (v.drained h)));
                };
                same =
                    front_unread w' v.front
                    ∙ splice w.size got w.buffer w.input v.fits (omega arith)
                    ∙ sym e;
              };
              room = l;
              less = inr (ground (arith, length-drop got w.input));
            })
    ]
