-- ===== src/Itch/Datagrams/Taken.antt =====
-- What the file of datagrams gives.
use market_order_book_engine.Base.{
  ℕ, zero, suc, ◌+◌, ◌-◌, ◌≡◌, ◌≤◌, ◌<◌, ◌⊎◌, inl, inr, refl, sym, ap, ◌∙◌, [], ◌∷◌, ◌++◌, Option,
  none, some, true, false, not, ◌||◌, ltb, min, ◌==◌, length, take, drop, replicate, arith, if_both,
  length-take, length-drop, length-append, length-replicate, take-drop, append_nil,
}
use market_order_book_engine.Itch.Bytes.{Bytes, read_be32}
use market_order_book_engine.Itch.Bytes.Reads.{read_be32-Reads}
use market_order_book_engine.Itch.Window.{resize}
use market_order_book_engine.Itch.Datagrams.{DatagramFile, read_body, next_datagram}

-- A datagram `d` is what stands behind its length at the front of the bytes, all of it; the bytes
-- behind it are left.
pub record IsDatagram (s : DatagramFile) (d : Bytes) (s' : DatagramFile) : Type 0 where
  pub framed : s.input ≡ take 4 s.input ++ (d ++ s'.input)
  pub long : read_be32 s.input 0 ≡ some (length d)
  pub good : s'.good ≡ s.good
  pub failed : s'.failed ≡ s.failed

-- The bytes end before the next datagram does: in its length, or behind it.
abbrev pub IsCut : Bytes → Type 0
IsCut input = (length input < 4) ⊎ ((n : ℕ) × (read_be32 input 0 ≡ some n) × (length input < 4 + n))

-- Without a datagram the source was closed before, or it is at the end of its bytes, or it fails on
-- bytes that are cut off.
abbrev pub IsOver : DatagramFile → DatagramFile → Type 0
IsOver s s' =
    (((s.failed || not s.good) ≡ true) × (s' ≡ s))
    ⊎ (((s.input ≡ []) × (s'.good ≡ false) × (s'.failed ≡ s.failed))
        ⊎ ((s'.failed ≡ true) × IsCut s.input))

abbrev pub Taken : DatagramFile → Option Bytes × DatagramFile → Type 0
Taken s (none, s') = IsOver s s'
Taken s (some d, s') = IsDatagram s d s'

abbrev Fine : DatagramFile → Option (Option Bytes × DatagramFile) → Type 0
Fine s o = (r : Option Bytes × DatagramFile) × (o ≡ some r) × Taken s r

length-resize : (buffer : Bytes) (n : ℕ) → length (resize buffer n) ≡ n
unfolding resize
length-resize buffer n = omega (
  arith,
  length-append (take n buffer) (replicate (n - length buffer) 0),
  length-take n buffer,
  length-replicate {A = ℕ} (n - length buffer) 0,
)

drop_all : (n : ℕ) (xs : Bytes) → length xs ≤ n → drop n xs ≡ []
drop_all zero [] h = refl
drop_all zero (x ∷ xs) h = absurd (omega (arith, h))
drop_all (suc n) [] h = refl
drop_all (suc n) (x ∷ xs) h = drop_all n xs (omega (arith, h))

none_left : (xs : Bytes) → length xs ≡ 0 → xs ≡ []
none_left [] h = refl
none_left (x ∷ xs) h = absurd (omega (arith, h))

-- all of a buffer is written
read_all :
    (n : ℕ) (buffer input : Bytes)
    → length buffer ≤ n
    → take n input ++ drop n buffer ≡ take n input
read_all n buffer input h =
    ap (λ r. take n input ++ r) (drop_all n buffer h) ∙ append_nil (take n input)

read_body-Taken :
    (s : DatagramFile) (n : ℕ)
    → 4 ≤ length s.input
    → read_be32 s.input 0 ≡ some n
    → Taken s (read_body s n)
unfolding read_body
read_body-Taken s n h e =
    let resized = resize s.buffer n in
    let input = drop 4 s.input in
    let got = min (length resized) (length input) in
    let size = length-resize s.buffer n in
    let more = length-drop 4 s.input in
    if_both (Taken s) (n == 0)
      (λ b. record {
        framed = sym (
            ap (λ d. take 4 s.input ++ (d ++ input)) (none_left resized (ground (arith, size, b)))
            ∙ take-drop 4 s.input);
        long = e ∙ ap some (sym size);
        good = refl;
        failed = refl;
      })
      λ b.
        if_both (Taken s) (not (got == n))
          (λ c. inr (inr (refl, inr (n, e, ground (arith, size, more, c)))))
          λ c.
            let all : got ≡ n = ground (arith, c) in
            let enough : n ≤ length input = ground (arith, size, c) in
            let whole = read_all got resized input (omega (arith, size, all)) in
            record {
              framed = sym (
                  ap (λ d. take 4 s.input ++ (d ++ drop got input)) whole
                  ∙ ap (λ i. take 4 s.input ++ i) (take-drop got input)
                  ∙ take-drop 4 s.input);
              long =
                  e
                  ∙ ap some
                      (sym (ap length whole ∙ omega (arith, length-take got input, all, enough)));
              good = refl;
              failed = refl;
            }

-- Reading a datagram never reads past the bytes of the file. It gives the bytes that stand behind the length at
-- the front, as many as it says, and leaves the ones behind them; or none, and then the source was closed
-- before and is as it was, or it had no bytes and is closed, or its bytes end in the length or the datagram and it fails.
pub next_datagram-Taken :
    (s : DatagramFile) → (r : Option Bytes × DatagramFile) × (next_datagram s ≡ some r) × Taken s r
unfolding next_datagram
next_datagram-Taken s =
    if_both (Fine s) (s.failed || not s.good) (λ b. (_, refl, inl (b, refl)))
      λ b.
        if_both (Fine s) (length s.input == 0)
          (λ c. (_, refl, inr (inl (none_left s.input (ground (arith, c)), refl, refl))))
          λ c.
            if_both (Fine s) (ltb (length s.input) 4)
              (λ d. (_, refl, inr (inr (refl, inl (ground (arith, d))))))
              λ d.
                let (n, e) = read_be32-Reads s.input 0 (ground arith) in
                (read_body s n, rw e refl, read_body-Taken s n (ground arith) e)
