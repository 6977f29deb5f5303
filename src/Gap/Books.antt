-- ===== src/Gap/Books.antt =====
-- internal/datagap/books.go: synthetic books at the times of a grid that no book covers.
use poly_asian_data.Base.{
  ℕ, suc, ◌+◌, ◌≤◌, ◌≡◌, refl, ◌∙◌, String, Bool, true, false, ◌&&◌, ◌||◌, List, [], ◌∷◌, ◌++◌,
  Option, none, some, arith, ltb, leb, ◌==◌, if◌then◌else◌, length, get_elem?, length-append,
  Bool-cases, inl, inr,
}
use poly_asian_data.Float.Defs.{Float64, gt}
use poly_asian_data.Risk.{nought, text_or}
use poly_asian_data.Gap.{Opts, Mix, normalize, observed, hours, source_venue, source_synth_book}
use poly_asian_data.Gap.Search.{search}
use poly_asian_data.Gap.Prices.{no_mix, is_nil, before}

pub record BookPoint (F : Type 0) : Type 0 where
  pub time : ℕ
  pub best_bid : F
  pub best_ask : F
  pub total_bid_depth : F
  pub total_ask_depth : F
  pub source : String

-- The half spread and the depths of a synthetic book.
pub record Shape (F : Type 0) : Type 0 where
  pub half_spread : F
  pub bid_depth : F
  pub ask_depth : F

-- The variables of the loop over the grid.
pub record Books (F : Type 0) : Type 0 where
  pub out : List (BookPoint F)
  pub mix : Mix

abbrev is_later : {F : Type 0} → ℕ → Option (BookPoint F) → Bool
is_later t none = true
is_later t (some b) = ltb t b.time

-- `lastBook`: a search by halves, which presumes that the books stand in the order of their times.
unfoldable pub last_book : {F : Type 0} → List (BookPoint F) → ℕ → Option (BookPoint F)
last_book books t = before books (search (length books) (λ j. is_later t (get_elem? books j)))

abbrev is_within : {F : Type 0} → ℕ → ℕ → Option (BookPoint F) → Bool
is_within step t none = false
is_within step t (some b) = leb t (b.time + step)

unfoldable pub book_covers : {F : Type 0} → List (BookPoint F) → ℕ → ℕ → Bool
book_covers books t step = is_within (if leb step 0 then hours 1 else step) t (last_book books t)

module _ {F : Type 0} ⦃fl : Float64 F⦄ where
  open fl use {lit, add, sub, mul, div, lt, le}

  abbrev is_unusable : BookPoint F → Bool
  is_unusable b = b.time == 0 || le b.best_bid nought || le b.best_ask nought

  -- The first loop of `FillBooks`.
  unfoldable pub usable_books : List (BookPoint F) → List (BookPoint F)
  usable_books [] = []
  usable_books (b ∷ bs) =
      let rest = usable_books bs in
      if is_unusable b then rest else record b { source = text_or source_venue b.source } ∷ rest

  abbrev pub by_time : BookPoint F → BookPoint F → Bool
  by_time a b = ltb a.time b.time

  abbrev default_shape : Opts F → Shape F
  default_shape o =
      let half = div (div o.default_half_spread_bps (lit 10_000 0)) (lit 2 0) in
      record {
        half_spread = if le half nought then lit 25 4 else half;
        bid_depth = o.default_depth;
        ask_depth = o.default_depth;
      }

  -- The shape with what the last book gives of it.
  unfoldable pub reuse : Opts F → ℕ → Shape F → Option (BookPoint F) → Shape F
  reuse o t s none = s
  reuse o t s (some b) =
      let mid = div (add b.best_bid b.best_ask) (lit 2 0) in
      if leb t (b.time + o.book_reuse_max)
      then record {
        half_spread =
            if gt b.best_ask b.best_bid && gt b.best_bid nought && gt mid nought
            then div (sub b.best_ask b.best_bid) (lit 2 0)
            else s.half_spread;
        bid_depth = if gt b.total_bid_depth nought then b.total_bid_depth else s.bid_depth;
        ask_depth = if gt b.total_ask_depth nought then b.total_ask_depth else s.ask_depth;
      }
      else s

  unfoldable pub synth_book : Opts F → ℕ → F → Shape F → BookPoint F
  synth_book o t mid s =
      let low = sub mid s.half_spread in
      let high = add mid s.half_spread in
      let bid = if lt low o.price_floor then o.price_floor else low in
      let ask = if gt high o.price_ceil then o.price_ceil else high in
      record {
        time = t;
        best_bid = bid;
        best_ask = if le ask bid then add bid (mul (lit 2 0) o.price_floor) else ask;
        total_bid_depth = s.bid_depth;
        total_ask_depth = s.ask_depth;
        source = source_synth_book;
      }

  abbrev count_missing : Books F → Books F
  count_missing b = record b { mix = record (b.mix) { missing = b.mix.missing + 1 } }

  abbrev add_book : Opts F → ℕ → F → Books F → Books F
  add_book o t mid b = record {
    out = b.out ++ synth_book o t mid (reuse o t (default_shape o) (last_book b.out t)) ∷ [];
    mix = record (b.mix) { synth_book = b.mix.synth_book + 1 };
  }

  -- A time that no book covers, with its mid.
  unfoldable pub at_mid : Opts F → ℕ → Option F → Books F → Books F
  at_mid o t none b = count_missing b
  at_mid o t (some mid) b = if le mid nought then count_missing b else add_book o t mid b

  -- The loop over the grid, which looks for books among those that it has added at the end.
  unfoldable pub fill_times : Opts F → (ℕ → Option F) → List ℕ → Books F → Books F
  fill_times o mid_at [] b = b
  fill_times o mid_at (t ∷ ts) b =
      fill_times o mid_at ts
        (if book_covers b.out t o.grid_step then b else at_mid o t (mid_at t) b)

  module _
      (sort : (BookPoint F → BookPoint F → Bool) → List (BookPoint F) → List (BookPoint F)) where
    abbrev start_books : List (BookPoint F) → Books F
    start_books real =
        let bs = usable_books real in
        record { out = sort by_time bs; mix = record no_mix { venue = length bs } }

    abbrev sorted : Books F → Books F
    sorted b = record b { out = sort by_time b.out }

    -- `FillBooks`; `sort` is sort.Slice, and no function is a nil one.
    unfoldable pub fill_books :
        List (BookPoint F) → List ℕ → Option (ℕ → Option F) → Opts F → Books F
    fill_books real grid none opts = start_books real
    fill_books real grid (some mid_at) opts =
        if is_nil grid
        then start_books real
        else sorted (fill_times (normalize opts) mid_at grid (start_books real))

    -- What is counted of the books, with `n` times of the grid behind.
    record Counted (n v : ℕ) (b : Books F) : Type 0 where
      points : length b.out ≡ observed b.mix
      venues : b.mix.venue ≡ v
      times : b.mix.synth_book + b.mix.missing ≤ n

    at_mid-Counted :
        (o : Opts F) (t n v : ℕ) (mid : Option F) (b : Books F)
        → Counted n v b
        → Counted (n + 1) v (at_mid o t mid b)
    unfolding at_mid
    at_mid-Counted o t n v none b c = record {
      points = c.points;
      venues = c.venues;
      times = omega (arith, c.times);
    }
    at_mid-Counted o t n v (some mid) b c = elim (Bool-cases (le mid nought)) [
      | inl e ↦
          rw e (record { points = c.points; venues = c.venues; times = omega (arith, c.times) })
      | inr e ↦ rw e (record {
        points = omega (
          arith,
          c.points,
          length-append b.out
              (synth_book o t mid (reuse o t (default_shape o) (last_book b.out t)) ∷ []),
        );
        venues = c.venues;
        times = omega (arith, c.times);
      })
    ]

    fill_times-Counted :
        (o : Opts F) (mid_at : ℕ → Option F) (grid : List ℕ) (n v : ℕ) (b : Books F)
        → Counted n v b
        → Counted (n + length grid) v (fill_times o mid_at grid b)
    unfolding fill_times
    fill_times-Counted o mid_at [] n v b c = record {
      points = c.points;
      venues = c.venues;
      times = omega (arith, c.times);
    }
    fill_times-Counted o mid_at (t ∷ ts) n v b c =
        elim (Bool-cases (book_covers b.out t o.grid_step)) [
          | inl e ↦ rw e (shift (fill_times-Counted o mid_at ts n v b c))
          | inr e ↦ rw e (
              shift' (
                fill_times-Counted o mid_at ts (n + 1) v (at_mid o t (mid_at t) b)
                  (at_mid-Counted o t n v (mid_at t) b c)))
        ]
      where
        shift : {b : Books F} → Counted (n + length ts) v b → Counted (n + suc (length ts)) v b
        shift c = record { points = c.points; venues = c.venues; times = omega (arith, c.times) }

        shift' : {b : Books F} → Counted (n + 1 + length ts) v b → Counted (n + suc (length ts)) v b
        shift' c = record { points = c.points; venues = c.venues; times = omega (arith, c.times) }

    -- Where sorting keeps the number of books: the filled books are as many as are counted, the usable
    -- ones among the real books are the venue's, and no time of the grid is counted twice.
    pub fill_books-count :
        ((xs : List (BookPoint F)) → length (sort by_time xs) ≡ length xs)
        → (real : List (BookPoint F)) (grid : List ℕ) (mid_at : Option (ℕ → Option F))
          (opts : Opts F)
        → let b = fill_books real grid mid_at opts in
          (length b.out ≡ observed b.mix)
          × (b.mix.venue ≡ length (usable_books real))
          × (b.mix.synth_book + b.mix.missing ≤ length grid)
    unfolding fill_books
    fill_books-count same real grid none opts =
        let n = same (usable_books real) in (omega (arith, n), refl, omega arith)
    fill_books-count same real grid (some mid_at) opts =
        let n = same (usable_books real) in
        let start : Counted 0 (length (usable_books real)) (start_books real) = record {
          points = omega (arith, n);
          venues = refl;
          times = omega arith;
        } in
        let o = normalize opts in
        let c =
          fill_times-Counted o mid_at grid 0 (length (usable_books real)) (start_books real)
            start in
        elim (Bool-cases (is_nil grid)) [
          | inl e ↦ rw e (start.points, refl, omega arith)
          | inr e ↦ rw e (
            same (fill_times o mid_at grid (start_books real)).out ∙ c.points,
            c.venues,
            omega (arith, c.times),
          )
        ]
