-- ===== src/Gap/Bounds.antt =====
-- internal/datagap/prices.go: the prices of a filled series, and what is counted of it.
use poly_asian_data.Base.{
  ℕ, ◌+◌, ◌≡◌, refl, String, Bool, true, false, ◌&&◌, ◌||◌, List, [], ◌∷◌, ◌++◌, Option, none, some,
  arith, All, All-append, Bool-cases, inl, inr, length, keep, leb, ltb, get_elem?,
}
use poly_asian_data.Float.Defs.{Float64, IsOrdered, gt}
use poly_asian_data.Sort.{IsOrderly}
use poly_asian_data.Gap.{Opts, normalize, observed}
use poly_asian_data.Gap.Prices.{
  PricePoint, Filled, is_unusable, interpolate, is_nil, clamp_price, anchors_of, dedupe_from,
  dedupe_times, by_time, hold_left, hold_right, synth_between, synth_at, add_synth, fill_grid,
  has_venue_near, venue_first, clean, anchors, fill_prices, before, next_at,
}

module _ {F : Type 0} ⦃fl : Float64 F⦄ where
  open fl use {lt}

  -- Within the floor and the ceiling, where the ceiling is not below the floor.
  abbrev pub IsClamped : Opts F → F → Type 0
  IsClamped o p =
      lt o.price_ceil o.price_floor ≡ false
      → (lt p o.price_floor ≡ false) × (gt p o.price_ceil ≡ false)

  abbrev pub IsIn : Opts F → PricePoint F → Type 0
  IsIn o p = IsClamped o p.price

  -- What sort.Slice promises, as far as it is used: it keeps the elements and their number, and no
  -- element of the result comes before the one in front of it.
  pub record IsSort
      (sort : (PricePoint F → PricePoint F → Bool) → List (PricePoint F) → List (PricePoint F))
      : Type 1 where
    pub keeps :
        (less : PricePoint F → PricePoint F → Bool) (P : PricePoint F → Type 0)
        (xs : List (PricePoint F))
        → All P xs
        → All P (sort less xs)
    pub orders :
        (less : PricePoint F → PricePoint F → Bool)
        → ((x y : PricePoint F) → less x y ≡ true → less y x ≡ false)
        → (xs : List (PricePoint F)) → IsOrderly less (sort less xs)

  All-clean :
      (P : PricePoint F → Type 0) (skip : Option ℕ) (ps : List (PricePoint F))
      → All P ps
      → All P (clean skip ps)
  unfolding clean
  All-clean P skip [] h = tt
  All-clean P skip (p ∷ ps) h =
      ground
        (arith, All-clean P skip ps h.1, All-clean P none ps h.1, All-clean P (some p.time) ps h.1)

  All-dedupe_from :
      (P : PricePoint F → Type 0) (cur : PricePoint F) (ps : List (PricePoint F))
      → P cur
      → All P ps
      → All P (dedupe_from cur ps)
  unfolding dedupe_from
  All-dedupe_from P cur [] h a = (h, tt)
  All-dedupe_from P cur (p ∷ ps) h a = ground (arith, All-dedupe_from P p ps a.0 a.1)

  All-dedupe_times :
      (P : PricePoint F → Type 0) (ps : List (PricePoint F)) → All P ps → All P (dedupe_times ps)
  unfolding dedupe_times
  All-dedupe_times P [] a = tt
  All-dedupe_times P (p ∷ ps) a = All-dedupe_from P p ps a.0 a.1

  module _ (laws : IsOrdered F fl) (o : Opts F) where
    open laws use {lt_irrefl}

    clamp_price-IsClamped : (p : F) → IsClamped o (clamp_price o p)
    unfolding clamp_price
    clamp_price-IsClamped p = ground (arith, lt_irrefl o.price_floor, lt_irrefl o.price_ceil)

    All-anchors_of : (real : List (PricePoint F)) → All (IsIn o) (anchors_of o real)
    unfolding anchors_of
    All-anchors_of [] = tt
    All-anchors_of (p ∷ ps) = elim (Bool-cases (is_unusable p)) [
      | inl e ↦ rw e (All-anchors_of ps)
      | inr e ↦ rw e (clamp_price-IsClamped p.price, All-anchors_of ps)
    ]

    -- A synthetic price, if there is one, is clamped.
    abbrev IsGood : Option (F × String) → Type 0
    IsGood none = Unit
    IsGood (some s) = IsClamped o s.0

    hold_right-IsGood : (t : ℕ) (r : Option (PricePoint F)) → IsGood (hold_right o t r)
    hold_right-IsGood t none = tt
    hold_right-IsGood t (some r) = elim (Bool-cases (leb t r.time && leb r.time (t + o.hold_max))) [
      | inl e ↦ rw e (clamp_price-IsClamped r.price)
      | inr e ↦ rw e tt
    ]

    hold_left-IsGood : (t : ℕ) (l r : Option (PricePoint F)) → IsGood (hold_left o t l r)
    hold_left-IsGood t none r = hold_right-IsGood t r
    hold_left-IsGood t (some l) r =
        elim (Bool-cases (leb l.time t && leb t (l.time + o.hold_max))) [
          | inl e ↦ rw e (clamp_price-IsClamped l.price)
          | inr e ↦ rw e (hold_right-IsGood t r)
        ]

    synth_between-IsGood : (t : ℕ) (l r : Option (PricePoint F)) → IsGood (synth_between o t l r)
    unfolding synth_between
    synth_between-IsGood t none r = hold_left-IsGood t none r
    synth_between-IsGood t (some l) none = hold_left-IsGood t (some l) none
    synth_between-IsGood t (some l) (some r) =
        elim (Bool-cases (ltb l.time r.time && leb r.time (l.time + o.max_gap))) [
          | inl e ↦ rw e (clamp_price-IsClamped (interpolate l r t))
          | inr e ↦ rw e (hold_left-IsGood t (some l) (some r))
        ]

    synth_at-IsGood : (ps : List (PricePoint F)) (t : ℕ) → IsGood (synth_at o ps t)
    unfolding synth_at
    synth_at-IsGood ps t =
        synth_between-IsGood t (before ps (next_at ps t)) (get_elem? ps (next_at ps t))

    add_synth-IsIn :
        (t : ℕ) (s : Option (F × String)) (r : Filled F)
        → IsGood s
        → All (IsIn o) (r.0)
        → All (IsIn o) ((add_synth t s r).0)
    add_synth-IsIn t none r g h = h
    add_synth-IsIn t (some s) r g h = (g, h)

    fill_grid-IsIn :
        (ps : List (PricePoint F)) (grid : List ℕ) → All (IsIn o) ((fill_grid o ps grid).0)
    unfolding fill_grid
    fill_grid-IsIn ps [] = tt
    fill_grid-IsIn ps (t ∷ ts) = elim (Bool-cases (has_venue_near ps t o.grid_step)) [
      | inl e ↦ rw e (fill_grid-IsIn ps ts)
      | inr e ↦ rw e (
          add_synth-IsIn t (synth_at o ps t) (fill_grid o ps ts) (synth_at-IsGood ps t)
            (fill_grid-IsIn ps ts))
    ]

  module _ (laws : IsOrdered F fl)
      (sort : (PricePoint F → PricePoint F → Bool) → List (PricePoint F) → List (PricePoint F))
      (sorts : IsSort sort) where
    anchors-IsIn : (o : Opts F) (real : List (PricePoint F)) → All (IsIn o) (anchors sort o real)
    unfolding anchors
    anchors-IsIn o real =
        All-dedupe_times (IsIn o) (sort by_time (anchors_of o real))
          (sorts.keeps by_time (IsIn o) (anchors_of o real) (All-anchors_of laws o real))

    -- Every price of a filled series, of an anchor, interpolated or held, is within the floor and the
    -- ceiling of the normalized options, where the ceiling is not below the floor.
    pub fill_prices-IsIn :
        (real : List (PricePoint F)) (grid : List ℕ) (opts : Opts F)
        → All (IsIn (normalize opts)) ((fill_prices sort real grid opts).0)
    unfolding fill_prices
    fill_prices-IsIn real grid opts =
        let o = normalize opts in
        let ps = anchors sort o real in
        let good = anchors-IsIn o real in
        let found = (fill_grid o ps grid).0 in
        elim (Bool-cases (is_nil grid || is_nil ps)) [
          | inl e ↦ rw e good
          | inr e ↦ rw e (
              All-clean (IsIn o) none (sort venue_first (ps ++ found)) (
                sorts.keeps venue_first (IsIn o) (ps ++ found)
                  (All-append (IsIn o) ps found good (fill_grid-IsIn laws o ps grid))))
        ]

  add_synth-count :
      (t : ℕ) (s : Option (F × String)) (r : Filled F)
      → observed ((add_synth t s r).1) + ((add_synth t s r).1).missing
        ≡ 1 + observed (r.1) + (r.1).missing
  add_synth-count t none r = omega arith
  add_synth-count t (some (p, s)) r = ground arith

  fill_grid-count :
      (o : Opts F) (ps : List (PricePoint F)) (grid : List ℕ)
      → let m = (fill_grid o ps grid).1 in
        observed m + m.missing + length (keep (λ t. has_venue_near ps t o.grid_step) grid)
        ≡ length grid
  unfolding fill_grid
  fill_grid-count o ps [] = refl
  fill_grid-count o ps (t ∷ ts) =
      ground
        (arith, fill_grid-count o ps ts, add_synth-count t (synth_at o ps t) (fill_grid o ps ts))

  -- With anchors and a grid, every time of the grid is near an anchor, gets one synthetic point, or is
  -- counted as missing, and the counts of the points are those of the anchors and the synthetic ones.
  pub fill_prices_count :
      (sort : (PricePoint F → PricePoint F → Bool) → List (PricePoint F) → List (PricePoint F))
      (real : List (PricePoint F)) (grid : List ℕ) (opts : Opts F)
      → let o = normalize opts in
        let ps = anchors sort o real in
        let m = (fill_prices sort real grid opts).1 in
        is_nil grid || is_nil ps ≡ false
        → observed m + m.missing + length (keep (λ t. has_venue_near ps t o.grid_step) grid)
          ≡ length ps + length grid
  unfolding fill_prices
  fill_prices_count sort real grid opts h =
      let o = normalize opts in
      let ps = anchors sort o real in rw h (omega (arith, fill_grid-count o ps grid))
