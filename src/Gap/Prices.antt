-- ===== src/Gap/Prices.antt =====
-- internal/datagap/prices.go: the series of mids on a grid of times, with synthetic points in its gaps.
use poly_asian_data.Base.{
  ℕ, zero, suc, ◌+◌, ◌-◌, ◌/◌, ◌%◌, String, Bool, true, false, not, ◌&&◌, ◌||◌, List, [], ◌∷◌, ◌++◌,
  Option, none, some, ltb, leb, ◌==◌, str_eq, if◌then◌else◌, length, get_elem?,
}
use poly_asian_data.Float.Defs.{Float64, gt}
use poly_asian_data.Risk.{nought, unit, text_or}
use poly_asian_data.Gap.{
  Opts, Mix, normalize, add_mix, hours, source_venue, source_synth_interp, source_synth_hold,
}
use poly_asian_data.Gap.Search.{search}

pub record PricePoint (F : Type 0) : Type 0 where
  pub time : ℕ
  pub price : F
  pub source : String

abbrev pub minute : ℕ
minute = 60_000_000_000

-- The tolerance of `hasVenueNear`.
abbrev pub tolerance : ℕ → ℕ
tolerance step =
    let tol = if ltb 0 step && ltb (step / 4) minute then step / 4 else minute in
    if leb tol 0 then minute else tol

-- The loop of `BuildHourlyGrid`, on fuel: each round moves `t` on by the step.
unfoldable pub grid_from : ℕ → ℕ → ℕ → ℕ → List ℕ
grid_from zero step to t = []
grid_from (suc fuel) step to t =
    let rest = grid_from fuel step to (t + step) in if leb t to then t ∷ rest else []

-- With a positive step there are at most as many rounds as the division says, and one more.
unfoldable pub build_hourly_grid : ℕ → ℕ → ℕ → List ℕ
unfolding grid_from
build_hourly_grid from to step =
    let s = if leb step 0 then hours 1 else step in
    let start = from - from % s in
    if ltb start to then grid_from ((to - start) / s + 1) s to start else []

-- What `sort.Search` looks for.
abbrev pub is_after : {F : Type 0} → ℕ → Option (PricePoint F) → Bool
is_after t none = true
is_after t (some p) = ltb t p.time

-- The index of the first anchor behind `t`.
abbrev pub next_at : {F : Type 0} → List (PricePoint F) → ℕ → ℕ
next_at anchors t = search (length anchors) (λ j. is_after t (get_elem? anchors j))

-- The element in front of an index.
abbrev pub before : {A : Type 0} → List A → ℕ → Option A
before xs zero = none
before xs (suc i) = get_elem? xs i

abbrev pub no_mix : Mix
no_mix = record { venue = 0; synth_interp = 0; synth_hold = 0; synth_book = 0; missing = 0 }

-- The count of a synthetic point.
abbrev pub count_source : String → Mix
count_source src =
    if str_eq src source_synth_interp
    then record no_mix { synth_interp = 1 }
    else if str_eq src source_synth_hold
    then record no_mix { synth_hold = 1 }
    else record no_mix { venue = 1 }

abbrev pub Filled : Type 0 → Type 0
Filled F = List (PricePoint F) × Mix

abbrev pub is_nil : {A : Type 0} → List A → Bool
is_nil [] = true
is_nil (_ ∷ _) = false

module _ {F : Type 0} ⦃fl : Float64 F⦄ where
  open fl use {of_int, add, sub, mul, div, lt, le, eq}

  unfoldable pub clamp_price : Opts F → F → F
  clamp_price o p =
      if lt p o.price_floor then o.price_floor else if gt p o.price_ceil then o.price_ceil else p

  abbrev pub is_unusable : PricePoint F → Bool
  is_unusable p = p.time == 0 || le p.price nought || not (eq p.price p.price)

  -- The first loop of `FillPrices`.
  unfoldable pub anchors_of : Opts F → List (PricePoint F) → List (PricePoint F)
  anchors_of o [] = []
  anchors_of o (p ∷ ps) =
      let rest = anchors_of o ps in
      if is_unusable p
      then rest
      else record p { price = clamp_price o p.price; source = text_or source_venue p.source } ∷ rest

  abbrev pub by_time : PricePoint F → PricePoint F → Bool
  by_time a b = ltb a.time b.time

  -- The loop that keeps the last of the points of one time; `cur` is the last point kept.
  unfoldable pub dedupe_from : PricePoint F → List (PricePoint F) → List (PricePoint F)
  dedupe_from cur [] = cur ∷ []
  dedupe_from cur (a ∷ ps) =
      let rest = dedupe_from a ps in if a.time == cur.time then rest else cur ∷ rest

  unfoldable pub dedupe_times : List (PricePoint F) → List (PricePoint F)
  dedupe_times [] = []
  dedupe_times (a ∷ ps) = dedupe_from a ps

  abbrev pub is_near_left : ℕ → ℕ → Option (PricePoint F) → Bool
  is_near_left tol t none = false
  is_near_left tol t (some p) = leb p.time t && leb t (p.time + tol)

  abbrev pub is_near_right : ℕ → ℕ → Option (PricePoint F) → Bool
  is_near_right tol t none = false
  is_near_right tol t (some p) = leb t p.time && leb p.time (t + tol)

  unfoldable pub has_venue_near : List (PricePoint F) → ℕ → ℕ → Bool
  has_venue_near anchors t step =
      let k = next_at anchors t in
      is_near_left (tolerance step) t (before anchors k)
      || is_near_right (tolerance step) t (get_elem? anchors k)

  -- The price between two anchors.
  unfoldable pub interpolate : PricePoint F → PricePoint F → ℕ → F
  interpolate l r t =
      let frac = div (of_int (t - l.time)) (of_int (r.time - l.time)) in
      let low = if lt frac nought then nought else frac in
      let f = if gt low unit then unit else low in add l.price (mul f (sub r.price l.price))

  -- A hold of the right anchor.
  abbrev pub hold_right : Opts F → ℕ → Option (PricePoint F) → Option (F × String)
  hold_right o t none = none
  hold_right o t (some r) =
      if leb t r.time && leb r.time (t + o.hold_max)
      then some (clamp_price o r.price, source_synth_hold)
      else none

  -- A hold of the left anchor, or else of the right one.
  abbrev pub hold_left :
      Opts F → ℕ → Option (PricePoint F) → Option (PricePoint F) → Option (F × String)
  hold_left o t none right = hold_right o t right
  hold_left o t (some l) right =
      if leb l.time t && leb t (l.time + o.hold_max)
      then some (clamp_price o l.price, source_synth_hold)
      else hold_right o t right

  -- `synthAt`, on the anchors around the time.
  unfoldable pub synth_between :
      Opts F → ℕ → Option (PricePoint F) → Option (PricePoint F) → Option (F × String)
  synth_between o t (some l) (some r) =
      if ltb l.time r.time && leb r.time (l.time + o.max_gap)
      then some (clamp_price o (interpolate l r t), source_synth_interp)
      else hold_left o t (some l) (some r)
  synth_between o t (some l) none = hold_left o t (some l) none
  synth_between o t none right = hold_left o t none right

  unfoldable pub synth_at : Opts F → List (PricePoint F) → ℕ → Option (F × String)
  synth_at o anchors t =
      let k = next_at anchors t in synth_between o t (before anchors k) (get_elem? anchors k)

  -- A time of the grid, in front of the rest: its point, if there is one, and its count.
  abbrev pub add_synth : ℕ → Option (F × String) → Filled F → Filled F
  add_synth t none r = (r.0, add_mix (record no_mix { missing = 1 }) r.1)
  add_synth t (some s) r =
      (record { time = t; price = s.0; source = s.1 } ∷ r.0, add_mix (count_source s.1) r.1)

  -- The loop over the grid.
  unfoldable pub fill_grid : Opts F → List (PricePoint F) → List ℕ → Filled F
  fill_grid o anchors [] = ([], no_mix)
  fill_grid o anchors (t ∷ ts) =
      let rest = fill_grid o anchors ts in
      if has_venue_near anchors t o.grid_step then rest else add_synth t (synth_at o anchors t) rest

  abbrev is_venue : PricePoint F → Bool
  is_venue p = str_eq p.source source_venue

  -- The second comparison: at one time a venue point comes first.
  abbrev pub venue_first : PricePoint F → PricePoint F → Bool
  venue_first a b = if a.time == b.time then is_venue a && not (is_venue b) else ltb a.time b.time

  abbrev is_skipped : Option ℕ → PricePoint F → Bool
  is_skipped none p = false
  is_skipped (some t) p = p.time == t

  -- The next point has the same time; and it is a venue point.
  abbrev same_next : PricePoint F → List (PricePoint F) → Bool
  same_next p [] = false
  same_next p (q ∷ _) = p.time == q.time

  abbrev venue_next : List (PricePoint F) → Bool
  venue_next [] = false
  venue_next (q ∷ _) = is_venue q

  -- The loop that drops a synthetic point at the time of a venue point; `skip` is the time of the venue
  -- point whose followers it drops.
  unfoldable pub clean : Option ℕ → List (PricePoint F) → List (PricePoint F)
  clean skip [] = []
  clean skip (p ∷ ps) =
      let skipped = is_skipped skip p in
      let heads = same_next p ps && is_venue p in
      let rest = clean (if skipped then skip else if heads then some p.time else none) ps in
      if skipped || (same_next p ps && not (is_venue p) && venue_next ps) then rest else p ∷ rest

  module _
      (sort : (PricePoint F → PricePoint F → Bool)
        → List (PricePoint F)
        → List (PricePoint F)) where
    -- The anchors of `FillPrices`.
    unfoldable pub anchors : Opts F → List (PricePoint F) → List (PricePoint F)
    anchors o real = dedupe_times (sort by_time (anchors_of o real))

    -- `FillPrices`; `sort` is sort.Slice, which is not stable.
    unfoldable pub fill_prices : List (PricePoint F) → List ℕ → Opts F → Filled F
    fill_prices real grid opts =
        let o = normalize opts in
        let ps = anchors o real in
        let found = fill_grid o ps grid in
        let venue : Mix = record no_mix { venue = length ps } in
        if is_nil grid || is_nil ps
        then (ps, venue)
        else (clean none (sort venue_first (ps ++ found.0)), add_mix venue found.1)
