-- ===== src/Cost.antt =====
-- internal/edge/cost.go: the cost of an execution, and the capacity of a market.
use poly_asian_data.Base.{Bool, true, false, ◌&&◌, ◌||◌, List, [], ◌∷◌, if◌then◌else◌}
use poly_asian_data.Float.Defs.{Float64, gt}
use poly_asian_data.Risk.{nought}

pub record BookLevel (F : Type 0) : Type 0 where
  pub price : F
  pub size : F

pub record CostInput (F : Type 0) : Type 0 where
  pub best_bid : F
  pub best_ask : F
  pub bid_depth : F
  pub ask_depth : F
  pub levels : List (BookLevel F)
  pub size_usd : F
  pub taker_fee_bps : F
  pub neg_risk_fee_bps : F
  pub impact_cap_bps : F
  pub impact_coeff : F

pub record CostBreakdown (F : Type 0) : Type 0 where
  pub mid : F
  pub half_spread_bps : F
  pub fee_bps : F
  pub impact_bps : F
  pub neg_risk_fee_bps : F
  pub total_cost_bps : F
  pub capacity_usd : F
  pub has_book : Bool
  pub spread_invalid : Bool

-- The variables of the loop of `impactWalkBps`.
pub record Walk (F : Type 0) : Type 0 where
  pub remaining : F
  pub sum_px_size : F
  pub sum_size : F

module _ {F : Type 0} ⦃fl : Float64 F⦄ where
  open fl use {lit, add, sub, mul, div, sqrt, min, max, lt, le}

  abbrev pub bps : F
  bps = lit 10_000 0

  -- `if x <= 0 { x = d }`
  abbrev positive_or : F → F → F
  positive_or d x = if le x nought then d else x

  -- A level that the loop skips.
  abbrev is_skipped : F → BookLevel F → Bool
  is_skipped best_ask lv =
      le lv.price nought
      || le lv.size nought
      || (gt best_ask nought && lt (add lv.price (lit 1 12)) best_ask)

  abbrev take_level : BookLevel F → Walk F → Walk F
  take_level lv w =
      let take_usd = min w.remaining (mul lv.price lv.size) in
      let shares = div take_usd lv.price in
      record {
        remaining = sub w.remaining take_usd;
        sum_px_size = add w.sum_px_size (mul lv.price shares);
        sum_size = add w.sum_size shares;
      }

  unfoldable pub walk_levels : F → List (BookLevel F) → Walk F → Walk F
  walk_levels best_ask [] w = w
  walk_levels best_ask (lv ∷ lvs) w =
      let is_skip = is_skipped best_ask lv in
      let w' = take_level lv w in
      let rest = walk_levels best_ask lvs (if is_skip then w else w') in
      if is_skip then rest else if le w'.remaining (lit 1 9) then w' else rest

  unfoldable pub impact_walk_bps : F → F → List (BookLevel F) → F → F
  unfolding walk_levels
  impact_walk_bps mid best_ask levels size_usd =
      let w =
        walk_levels best_ask levels
          (record { remaining = size_usd; sum_px_size = nought; sum_size = nought }) in
      let vwap = div w.sum_px_size w.sum_size in
      if le mid nought || le size_usd nought
      then nought
      else if le w.sum_size nought
      then nought
      else div (mul bps (sub vwap mid)) mid

  -- `capacityUSD`
  unfoldable pub capacity_of : CostInput F → F → F → F → F
  capacity_of input mid cap_bps coeff =
      let visible = mul input.ask_depth mid in
      let depth = if lt visible (lit 1 0) then lit 1 0 else visible in
      let ratio = div cap_bps coeff in
      let size = mul (mul depth ratio) ratio in
      if le mid nought
      then nought
      else if le coeff nought
      then depth
      else if lt ratio nought
      then nought
      else if gt visible nought && gt size visible
      then visible
      else size

  abbrev is_nil : List (BookLevel F) → Bool
  is_nil [] = true
  is_nil (_ ∷ _) = false

  -- The breakdown of an input without a usable book.
  abbrev no_book : CostInput F → Bool → CostBreakdown F
  no_book input invalid =
      let fee = max nought input.taker_fee_bps in
      let neg = max nought input.neg_risk_fee_bps in
      record {
        mid = nought;
        half_spread_bps = nought;
        fee_bps = fee;
        impact_bps = nought;
        neg_risk_fee_bps = neg;
        total_cost_bps = add fee neg;
        capacity_usd = nought;
        has_book = false;
        spread_invalid = invalid;
      }

  abbrev pub impact_of : CostInput F → F → F → F → F
  impact_of input mid size coeff =
      let usd = mul input.ask_depth mid in
      let depth = if lt usd (lit 1 9) then lit 1 9 else usd in
      if is_nil input.levels
      then mul coeff (sqrt (div size depth))
      else impact_walk_bps mid input.best_ask input.levels size

  unfoldable pub compute_cost : CostInput F → CostBreakdown F
  compute_cost input =
      let fee = max nought input.taker_fee_bps in
      let neg = max nought input.neg_risk_fee_bps in
      let mid = div (add input.best_bid input.best_ask) (lit 2 0) in
      let half = div (mul bps (div (sub input.best_ask input.best_bid) (lit 2 0))) mid in
      let size = positive_or (lit 100 0) input.size_usd in
      let coeff = positive_or (lit 50 0) input.impact_coeff in
      let impact = impact_of input mid size coeff in
      if le input.best_bid nought || le input.best_ask nought || lt input.best_ask input.best_bid
      then no_book input (gt input.best_bid nought || gt input.best_ask nought)
      else if le mid nought
      then no_book input true
      else record {
        mid = mid;
        half_spread_bps = half;
        fee_bps = fee;
        impact_bps = impact;
        neg_risk_fee_bps = neg;
        total_cost_bps = add (add (add half fee) impact) neg;
        capacity_usd = capacity_of input mid (positive_or (lit 25 0) input.impact_cap_bps) coeff;
        has_book = true;
        spread_invalid = false;
      }
