-- ===== src/Itch/File/Ends.antt =====
-- `next` of the file connector ends: with an event, at the end of the stream or in a failure.
use market_order_book_engine.Base.{
  ℕ, zero, suc, ◌+◌, ◌≤◌, ◌<◌, ◌≡◌, refl, ap, ◌∙◌, Option, some, not, arith, length, take, drop,
  ◌==◌, if_both,
}
use market_order_book_engine.Itch.Bytes.Reads.{read_be16-Reads, slice-Reads}
use market_order_book_engine.Itch.Decoder.{DecodeResult, event, skipped, malformed}
use market_order_book_engine.Itch.Decoder.Safety.{decode_message-Reads}
use market_order_book_engine.Itch.Window.{available, ensure}
use market_order_book_engine.Itch.Window.Moves.{unread, IsWindow}
use market_order_book_engine.Itch.Window.Stream.{ensure-Ensured, take_off}
use market_order_book_engine.Itch.File.{
  Connector, Round, delivered, ended, again, deliver, body, next_round, next,
}

-- the bytes that the connector has not taken
abbrev pub left : Connector → ℕ
left c = length (unread c.window)

-- What a round leaves: a good window, with fewer bytes if the connector goes on.
abbrev pub Leaves : Connector → Round → Type 0
Leaves c (delivered e c') = IsWindow c'.window × (left c' < left c)
Leaves c (ended c') = IsWindow c'.window
Leaves c (again c') = IsWindow c'.window × (left c' < left c)

abbrev Fine : Connector → Option Round → Type 0
Fine c o = (r : Round) × (o ≡ some r) × Leaves c r

deliver-Leaves :
    (c0 c : Connector) (n : ℕ) (result : DecodeResult)
    → IsWindow c.window
    → 2 + n ≤ available c.window
    → left c ≡ left c0
    → Leaves c0 (deliver c n result)
unfolding deliver
deliver-Leaves c0 c n malformed v h e = (take_off c.window (2 + n) v h).0
deliver-Leaves c0 c n skipped v h e =
    let (v', l) = take_off c.window (2 + n) v h in (v', omega (arith, l, e))
deliver-Leaves c0 c n (event x) v h e =
    let (v', l) = take_off c.window (2 + n) v h in (v', omega (arith, l, e))

body-Fine : (c0 c : Connector) (n : ℕ) → IsWindow c.window → left c ≡ left c0 → Fine c0 (body c n)
unfolding body
body-Fine c0 c n v e =
    let w = (ensure c.window (2 + n)).1 in
    let got = ensure-Ensured c.window (2 + n) v in
    if_both (Fine c0) (n == 0) (λ b. (_, refl, v))
      λ b.
        if_both (Fine c0) (not (ensure c.window (2 + n)).0) (λ d. (_, refl, got.window))
          λ d.
            let (r, decoded) = decode_message-Reads (take n (drop (w.pos + 2) w.buffer)) in
            let there : 2 + n ≤ available w = ground (arith, got.there) in
            let inside =
              slice-Reads w.buffer (w.pos + 2) n
                (omega (arith, there, got.window.fits, got.window.ordered)) in
            (
              deliver (record c { window = w }) n r,
              rw (inside, decoded) refl,
              deliver-Leaves c0 (record c { window = w }) n r got.window there
                  (ap length got.same ∙ e),
            )

next_round-Fine : (c : Connector) → IsWindow c.window → Fine c (next_round c)
unfolding next_round
next_round-Fine c v =
    let w = (ensure c.window 2).1 in
    let got = ensure-Ensured c.window 2 v in
    let c1 : Connector = record c { window = w } in
    if_both (Fine c) (not (ensure c.window 2).0)
      (λ b. (
        _,
        refl,
        if_both (λ (c' : Connector). IsWindow c'.window) (available w == 0) (λ d. got.window)
            λ d. got.window,
      ))
      λ b.
        let (n, e) =
          read_be16-Reads w.buffer w.pos
            (omega (arith, got.window.fits, got.window.ordered, got.there (ground arith))) in
        rw e (body-Fine c c1 n got.window (ap length got.same))

-- `next` has come to an end in a window in order: it does not ask for another round.
abbrev pub Ends : Round → Type 0
Ends (delivered e c) = IsWindow c.window
Ends (ended c) = IsWindow c.window
Ends (again c) = ⊥

-- From a window in order, with more rounds than bytes are left, `next` reads none out of range and comes to an end: it
-- delivers an event or answers false, and leaves a window in order.
pub next-Ends :
    (rounds : ℕ) (c : Connector)
    → IsWindow c.window
    → length (unread c.window) < rounds
    → (r : Round) × (next rounds c ≡ some r) × Ends r
unfolding next
next-Ends zero c v h = absurd (omega arith)
next-Ends (suc rounds) c v h =
    let (r, e, l) = next_round-Fine c v in rw e (go (λ c' v' h'. next-Ends rounds c' v' h') r l)
  where
    go :
        ((c' : Connector)
          → IsWindow c'.window
          → left c' < rounds
          → (r : Round) × (next rounds c' ≡ some r) × Ends r)
        → (r : Round) → Leaves c r
        → (r' : Round) × ((elim r [
          | delivered e c' ↦ some (delivered e c')
          | ended c' ↦ some (ended c')
          | again c' ↦ next rounds c'
        ])
            ≡ some r')
          × Ends r'
    go more (delivered e c') l = (delivered e c', refl, l.0)
    go more (ended c') l = (ended c', refl, l)
    go more (again c') l = more c' l.0 (omega (arith, l.1, h))
