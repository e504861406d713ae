-- ===== src/Book/Matching/Tests.antt =====
-- A book with three offers at two prices, and orders that meet them.
use market_order_book_engine.Base.{
  ℕ, ℤ, bit_and, Bool-cases, ap, ◌∙◌, zero, suc, ◌^◌, ◌<◌, ◌≡◌, ◌≢◌, ◌⊎◌, inl, inr, refl, subst,
  pos, List, [], ◌∷◌, All, arith, ◌==◌, if◌then◌else◌, get_or, true,
}
use market_order_book_engine.Base.Bits.{bit_and_mask}
use market_order_book_engine.Types.{
  Side, buy, sell, OrderRequest, limit, gtc, ioc, fok, RequestType, filled_complete, rejected_fok,
  applied, invalid_quantity,
}
use market_order_book_engine.Checksum.{checksum_mix}
use market_order_book_engine.Book.Table
use market_order_book_engine.Book.Table.{npos, occupied, tombstone}
use market_order_book_engine.Book.State.{
  level_hash, LevelKey, level_key, level_key_beq, level_key_beq_iff, Book, fresh_order, fresh_level,
  order_at, level_at,
}
use market_order_book_engine.Book.Ladder.Swap.{Holds}
use market_order_book_engine.Book.Ladder.Write.{HasLadder, price_of}
use market_order_book_engine.Book.Ladder.Order.{Behind, parent}
use market_order_book_engine.Book.Ladder.{heap_at}
use market_order_book_engine.Book.Links.{find_order_index, find_level_index, key_of}
use market_order_book_engine.Book.Links.Fifo.{IsQueue}
use market_order_book_engine.Book.Events.{cancel, trade, rest_order}
use market_order_book_engine.Book.Events.Placed.{IsReady, Added}
use market_order_book_engine.Book.Events.Added.{rest_order-Added}
use market_order_book_engine.Book.Links.Chain.{Lacks}
use market_order_book_engine.Book.Events.Takes.{Rests, trade-Takes}
use market_order_book_engine.Book.Matching.{match_order, submit}
use market_order_book_engine.Book.Matching.Fills.{total}
use market_order_book_engine.Book.Matching.Tiers.{match_tiers, tiers_of, Ranked, Among}
use market_order_book_engine.Book.Matching.Complete.{match_order-Done}
use market_order_book_engine.Book.Matching.Done.{Done}
use market_order_book_engine.Book.Matching.Kill.{submit-fok}
use market_order_book_engine.Book.Whole.{IsBook, Lodged, Stocked}
use market_order_book_engine.Book.Whole.Unlink.{Left}
use market_order_book_engine.Book.Whole.Reduce.{Reduced}

-- the order 2 at 100, the orders 0 and 1 at 101, and a free slot
abbrev offers : Book
offers = record {
  orders =
      record fresh_order {
        id = 7;
        price = pos 101;
        quantity = 4;
        level = 0;
        next = 1;
        side = sell;
        active = true;
      }
      ∷ record fresh_order {
        id = 8;
        price = pos 101;
        quantity = 6;
        level = 0;
        prev = 0;
        side = sell;
        active = true;
      }
      ∷ record fresh_order {
        id = 9;
        price = pos 100;
        quantity = 5;
        level = 1;
        side = sell;
        active = true;
      }
      ∷ fresh_order
      ∷ [];
  levels =
      record fresh_level {
        price = pos 101;
        total_quantity = 10;
        order_count = 2;
        head = 0;
        tail = 1;
        heap_pos = 1;
        side = sell;
        active = true;
      }
      ∷ record fresh_level {
        price = pos 100;
        total_quantity = 5;
        order_count = 1;
        head = 2;
        tail = 2;
        heap_pos = 0;
        side = sell;
        active = true;
      }
      ∷ [];
  order_lookup =
      record { key = 0; value = npos; state = tombstone }
      ∷ record { key = 8; value = 1; state = occupied }
      ∷ [];
  level_lookup = record { key = key_of sell (pos 101); value = 0; state = occupied } ∷ [];
  bid_heap = 0 ∷ 0 ∷ [];
  ask_heap = 1 ∷ 0 ∷ [];
  bid_heap_size = 0;
  ask_heap_size = 2;
  free_order = 3;
  free_level = npos;
  active_orders = 3;
  next_priority = 3;
  fill_sequence = 0;
}

abbrev queues : ℕ → List ℕ
queues k = if k == 0 then 0 ∷ 1 ∷ [] else 2 ∷ []

-- the levels of the ladders
held :
    (P : Side → ℕ → Type 0)
    → P sell 1
    → P sell 0
    → (side : Side) (l : ℕ) → Holds side offers l
    → P side l
unfolding get_or
held P one none buy l (i, h, e) = absurd (omega (arith, h))
held P one none sell l (zero, h, e) = subst (P sell) e one
held P one none sell l (suc zero, h, e) = subst (P sell) e none
held P one none sell l (suc (suc i), h, e) = absurd (omega (arith, h))

ladders : (side : Side) → HasLadder side offers
unfolding get_or
ladders buy = record {
  place = record {
    fits = omega arith;
    small = omega arith;
    inside = λ i h. absurd (omega (arith, h));
    placed = λ i h. absurd (omega (arith, h));
  };
  prices = λ l. refl;
  ordered = λ c p h. absurd (omega (arith, h));
}
ladders sell = record {
  place = record { fits = omega arith; small = omega arith; inside = inside; placed = placed };
  prices = λ l. refl;
  ordered = ordered;
}
  where
    inside : (i : ℕ) → i < 2 → get_or (1 ∷ 0 ∷ []) i 0 < 2
    inside zero h = omega arith
    inside (suc zero) h = omega arith
    inside (suc (suc i)) h = absurd (omega (arith, h))

    placed : (i : ℕ) → i < 2 → (level_at offers (get_or (1 ∷ 0 ∷ []) i 0)).heap_pos ≡ i
    placed zero h = refl
    placed (suc zero) h = refl
    placed (suc (suc i)) h = absurd (omega (arith, h))

    ordered :
        (c : ℕ)
        → 0 < c
        → c < 2
        → Behind sell
            (price_of offers (heap_at sell offers c))
            (price_of offers (heap_at sell offers (parent c)))
    ordered zero p h = absurd (omega (arith, p))
    ordered (suc zero) p h = ground arith
    ordered (suc (suc c)) p h = absurd (omega (arith, h))

queue_0 : IsQueue offers 0 (0 ∷ 1 ∷ [])
unfolding get_or
queue_0 = record {
  inside = omega arith;
  small = omega arith;
  linked = (omega arith, refl, refl, (omega arith, refl, refl, tt));
  distinct = ((ground arith, tt), (tt, tt));
  head = refl;
  tail = refl;
  count = refl;
  total = refl;
}

queue_1 : IsQueue offers 1 (2 ∷ [])
unfolding get_or
queue_1 = record {
  inside = omega arith;
  small = omega arith;
  linked = (omega arith, refl, refl, tt);
  distinct = (tt, tt);
  head = refl;
  tail = refl;
  count = refl;
  total = refl;
}

sample_order :
    (l x : ℕ)
    → (order_at offers x).level ≡ l
    → (order_at offers x).quantity < 2 ^ 64
    → (order_at offers x).active ≡ true
    → Lodged offers l x
sample_order l x e s a = record { level = e; quantity = s; active = a }

offers-IsBook : IsBook offers queues
unfolding get_or
offers-IsBook = record {
  room = omega arith;
  ladder = ladders;
  sided = held (λ side l. (level_at offers l).side ≡ side) refl refl;
  queue = held (λ side l. IsQueue offers l (queues l)) queue_1 queue_0;
  lodged =
      held (λ side l. All (Lodged offers l) (queues l))
        (sample_order 1 2 refl (omega arith) refl, tt)
        (sample_order 0 0 refl (omega arith) refl, (sample_order 0 1 refl (omega arith) refl, tt));
}

offers-Stocked : Stocked offers queues
offers-Stocked = held (λ side l. queues l ≢ []) (λ e. absurd (cc)) (λ e. absurd (cc))

high_held : Holds sell offers 0
unfolding get_or
high_held = (1, omega arith, refl)

low_held : Holds sell offers 1
unfolding get_or
low_held = (0, omega arith, refl)

offers-Ranked : Ranked sell offers (1 ∷ 0 ∷ [])
unfolding get_or
offers-Ranked = record {
  held = (low_held, (high_held, tt));
  all = λ k h. among sell k h refl;
  sorted = ((ground arith, tt), (tt, tt));
}
  where
    among : (side : Side) (k : ℕ) → Holds side offers k → side ≡ sell → Among k (1 ∷ 0 ∷ [])
    among side k h e = held (λ side k. Among k (1 ∷ 0 ∷ [])) (inl refl) (inr (inl refl)) side k h

abbrev taker : OrderRequest
taker = record {
  type = RequestType.new;
  id = 20;
  side = buy;
  order_type = limit;
  tif = ioc;
  price_ticks = pos 101;
  quantity = 7;
}

-- the best offer and a part of the first one at the next price
match_order-Done_example :
    Done buy queues
      (record { book = offers; remaining = 7; fills = [] })
      (match_order offers taker)
      (match_tiers taker 0 7 (tiers_of offers queues (1 ∷ 0 ∷ [])))
match_order-Done_example =
    match_order-Done offers taker queues (1 ∷ 0 ∷ []) offers-IsBook offers-Stocked offers-Ranked
      (omega arith)

abbrev killer : OrderRequest
killer = record taker { tif = fok; quantity = 12 }

submit-fok_example :
    (((submit offers killer).result ≡ filled_complete) × (total (submit offers killer).fills ≡ 12))
    ⊎ (((submit offers killer).result ≡ rejected_fok)
        × ((submit offers killer).book ≡ offers)
        × ((submit offers killer).fills ≡ []))
submit-fok_example =
    submit-fok offers killer queues (1 ∷ 0 ∷ []) offers-IsBook offers-Stocked offers-Ranked
      (omega arith) (omega arith) refl refl

-- all offers are bought, and more is wanted
abbrev buyer : OrderRequest
buyer = record taker { tif = gtc; quantity = 20 }

second-Rests : Rests offers queues 8 1 sell (0 ∷ []) []
unfolding find_order_index Table.find checksum_mix get_or
second-Rests = record { found = refl; there = ground arith; held = high_held; here = refl }

-- a part of the second order at 101
trade-Takes_example :
    ((6 < 2) × (trade offers 8 2 ≡ (offers, invalid_quantity)))
    ⊎ ((2 < 6) × Reduced 1 2 queues offers (trade offers 8 2).0 × ((trade offers 8 2).1 ≡ applied))
    ⊎ ((2 ≡ (order_at offers 1).quantity)
        × (trade offers 8 2 ≡ cancel offers 8)
        × Left sell 0 1 queues (0 ∷ []) offers (cancel offers 8).0
        × ((cancel offers 8).1 ≡ applied))
unfolding get_or
trade-Takes_example =
    trade-Takes offers queues 8 1 sell (0 ∷ []) [] 2 offers-IsBook second-Rests (omega arith)

-- the only level that is found
known :
    (side : Side) (price : ℤ)
    → (find_level_index offers side price ≡ npos)
      ⊎ (Holds side offers (find_level_index offers side price)
          × (price_of offers (find_level_index offers side price) ≡ price))
unfolding find_level_index Table.find get_or
known side price =
    let first : bit_and (level_hash (key_of side price)) 0 ≡ 0 =
      bit_and_mask 0 (level_hash (key_of side price)) ∙ omega arith in
    elim (Bool-cases (level_key_beq (key_of sell (pos 101)) (key_of side price))) [
      | inl e ↦
          let same : key_of sell (pos 101) ≡ key_of side price =
            (level_key_beq_iff (key_of sell (pos 101)) (key_of side price)).0 e in
          rw (first, e)
            (inr (
              subst (λ s. Holds s offers 0) (ap LevelKey.side same) high_held,
              ap LevelKey.price same,
            ))
      | inr e ↦ rw (first, e) (inl refl)
    ]

offers-IsReady : IsReady offers queues
unfolding get_or
offers-IsReady = record {
  small = omega arith;
  slot = inr (record {
    inside = omega arith;
    out = held (λ side l. Lacks 3 (queues l)) (ground arith, tt) (ground arith, (ground arith, tt));
  });
  vacant = inl refl;
  known = known;
}

-- a third order at 101
rest_order-Added_example :
    Added 30 sell
      (pos 101)
      5
      3
      queues
      offers
      (rest_order offers 30 sell (pos 101) 5).0
      (rest_order offers 30 sell (pos 101) 5).1
rest_order-Added_example =
    rest_order-Added offers queues 30 sell (pos 101) 5 offers-IsBook offers-Stocked offers-IsReady
      (omega arith)
