-- ===== src/Csv/Lines.antt =====
-- The lines of a file, and what `next` makes of them.
use market_order_book_engine.Base.{
  ℕ, zero, suc, ◌+◌, ◌^◌, ◌%◌, ◌<◌, ◌≡◌, ◌⊎◌, inl, inr, refl, subst, if_both, ap, [], ◌∷◌, ◌++◌,
  Option, some, none, true, false, arith, length, length-append, add64,
}
use market_order_book_engine.Types.{MarketDataEvent}
use market_order_book_engine.Text.{Text, cut}
use market_order_book_engine.Text.Cut.{Lacks, IsCut, cut-IsCut}
use market_order_book_engine.Csv.{
  Result, ok, thrown, parse_csv_event, Connector, get_line, is_skipped, Answer, delivered, refused,
  ended, unfinished, answer, handle, next_loop, next,
}

-- What getline makes of a text: nothing of an empty one, else the line up to the line feed, or, where
-- there is none, the rest of the text.
abbrev pub IsLine : Text → Option (Text × Text) → Type 0
IsLine s none = s ≡ []
IsLine s (some (line, rest)) =
    (length rest < length s)
    × Lacks b'\n' line
    × ((s ≡ line ++ b'\n' ∷ rest) ⊎ ((s ≡ line) × (rest ≡ [])))

pub get_line-IsLine : (s : Text) → IsLine s (get_line s)
unfolding get_line
get_line-IsLine [] = refl
get_line-IsLine (c ∷ s) = found (cut b'\n' (c ∷ s)) (cut-IsCut b'\n' (c ∷ s))
  where
    found :
        (o : Option (Text × Text))
        → IsCut b'\n' (c ∷ s) o
        → IsLine (c ∷ s) (elim o as (λ o. Option (Text × Text)) [
          | none ↦ some (c ∷ s, [])
          | some split ↦ some split
        ])
    found none h = (omega arith, h, inr (refl, refl))
    found (some (line, rest)) (h, e) =
        (omega (arith, ap length e, length-append line (b'\n' ∷ rest)), h, inl e)

-- `n` lines are skipped from the text `s` on, which leaves the text `t`.
pub data Skipped : Text → ℕ → Text → Type 0 where
  no_line : {s : Text} → Skipped s 0 s
  one_more :
      {s rest t : Text} {line : Text} {n : ℕ}
      → get_line s ≡ some (line, rest)
      → is_skipped line ≡ true
      → Skipped rest n t
      → Skipped s (suc n) t

-- The line that `next` ends at, with its number.
pub record Stops (c : Connector) (text : Text) (c' : Connector) : Type 0 where
  pub skips : ℕ
  pub behind : Text
  pub skipped : Skipped c.input skips behind
  pub read : get_line behind ≡ some (text, c'.input)
  pub kept : is_skipped text ≡ false
  pub line : c'.line ≡ text
  pub number : c'.line_number ≡ add64 c.line_number (skips + 1)

-- What the answers mean.
abbrev pub Means : Connector → Answer × Connector → Type 0
Means c (delivered e, c') = (line : Text) × Stops c line c' × (parse_csv_event line ≡ ok e)
Means c (refused n why, c') =
    (line : Text) × Stops c line c' × (parse_csv_event line ≡ thrown why) × (n ≡ c'.line_number)
Means c (ended, c') =
    (n : ℕ) × Skipped c.input n []
    × (c'.input ≡ [])
    × (c'.line_number % 2 ^ 64 ≡ add64 c.line_number n)
Means c (unfinished, c') = ⊥

-- the connector with a line read
abbrev read_line : Connector → Text → Text → Connector
read_line c line rest = record c { input = rest; line = line; line_number = add64 c.line_number 1 }

module _ (c : Connector) (line rest : Text) (got : get_line c.input ≡ some (line, rest)) where
  -- a line that is skipped first
  module _ (skip : is_skipped line ≡ true) where
    skip_first-Stops :
        (text : Text) (c' : Connector) → Stops (read_line c line rest) text c' → Stops c text c'
    skip_first-Stops text c' s = record {
      skips = suc s.skips;
      behind = s.behind;
      skipped = one_more got skip s.skipped;
      read = s.read;
      kept = s.kept;
      line = s.line;
      number = omega (arith, s.number);
    }

    skip_first-Means : (r : Answer × Connector) → Means (read_line c line rest) r → Means c r
    skip_first-Means (delivered e, c') (text, s, p) = (text, skip_first-Stops text c' s, p)
    skip_first-Means (refused n why, c') (text, s, p, q) = (text, skip_first-Stops text c' s, p, q)
    skip_first-Means (ended, c') (n, s, e, k) = (suc n, one_more got skip s, e, omega (arith, k))
    skip_first-Means (unfinished, c') h = h

  -- a line that is a row
  row-Means :
      is_skipped line ≡ false
      → (m : Result MarketDataEvent) → parse_csv_event line ≡ m
      → Means c (answer m (read_line c line rest).line_number, read_line c line rest)
  row-Means keep m e =
      elim m
          as (λ m.
            parse_csv_event line ≡ m
            → Means c (answer m (read_line c line rest).line_number, read_line c line rest)) [
              | ok event ↦ λ e. (line, here, e)
              | thrown why ↦ λ e. (line, here, e, refl)
            ]
        e
    where
      here : Stops c line (read_line c line rest)
      here = record {
        skips = 0;
        behind = c.input;
        skipped = no_line;
        read = got;
        kept = keep;
        line = refl;
        number = refl;
      }

handle-Means :
    (c : Connector) (later : Connector → Answer × Connector) (o : Option (Text × Text))
    → get_line c.input ≡ o
    → IsLine c.input o
    → ((r : Connector) → length r.input < length c.input → Means r (later r))
    → Means c (handle c later o)
handle-Means c later none got l h = (0, subst (λ s. Skipped c.input 0 s) l no_line, l, omega arith)
handle-Means c later (some (line, rest)) got (less, l, s) h =
    if_both (Means c) (is_skipped line)
      (λ skip. skip_first-Means c line rest got skip _ (h (read_line c line rest) less))
      (λ keep. row-Means c line rest got keep (parse_csv_event line) refl)

next_loop-Means :
    (rounds : ℕ) (c : Connector) → length c.input < rounds → Means c (next_loop rounds c)
unfolding next_loop
next_loop-Means zero c h = absurd (omega (arith, h))
next_loop-Means (suc rounds) c h =
    handle-Means c (next_loop rounds) (get_line c.input) refl (get_line-IsLine c.input)
      (λ r less. next_loop-Means rounds r (omega (arith, h, less)))

-- `next` comes to an end. It passes over empty lines, comments and headings, and answers for the first
-- other line: with the event of the line, or with the exception that its parse threw under the number of
-- the line. At the end of the file it answers false. The number of the line counts every line read.
pub next-Means : (c : Connector) → Means c (next c)
unfolding next
next-Means c = next_loop-Means (suc (length c.input)) c (omega arith)
