-- ===== src/Edge.antt =====
-- internal/edge/features.go, weights.go and negrisk.go: the features of a market, the weights of a
-- strategy, and the residual of a group. math.Round and math.Log1p are parameters.
pub mod Fair
pub mod Families
pub mod Score
pub mod Idem
pub mod Board
use poly_asian_data.Base.{
  ℕ, ◌+◌, String, Bool, true, false, not, ◌&&◌, ◌||◌, List, [], ◌∷◌, ◌++◌, if◌then◌else◌, length,
  ltb,
}
use poly_asian_data.Base.Dict.{Dict}
use poly_asian_data.Float.Defs.{Float64, gt}
use poly_asian_data.Risk.{nought}

pub record Rounding (F : Type 0) : Type 0 where
  pub round : F → F
  pub log1p : F → F

pub record FeatureVector (F : Type 0) : Type 0 where
  pub condition_id : String
  pub token_id : String
  pub best_bid : F
  pub best_ask : F
  pub mid : F
  pub spread_bps : F
  pub imbalance : F
  pub bid_depth : F
  pub ask_depth : F
  pub book_age_sec : F
  pub abs_ret_1m : F
  pub abs_ret_5m : F
  pub abs_ret_1h : F
  pub one_day_abs : F
  pub oi : F
  pub doi_1h : F
  pub doi_24h : F
  pub ttr_hours : F
  pub age_days : F
  pub volume_24hr : F
  pub volume_proxy : F
  pub buy_ratio_5m : F
  pub neg_risk : Bool
  pub neg_risk_group_id : String
  pub neg_risk_residual_bps : F
  pub neg_risk_incomplete : Bool
  pub features_as_of_unix : ℕ
  pub feature_age_sec : F
  pub missing_book : Bool
  pub thin_book : Bool
  pub stale_features : Bool

pub record Weights (F : Type 0) : Type 0 where
  pub name : String
  pub w_vol : F
  pub w_oi : F
  pub w_imbalance : F
  pub w_ttr : F
  pub w_neg_risk : F
  pub w_flow : F
  pub w_activity : F
  pub default_taker_fee_bps : F
  pub impact_cap_bps : F
  pub impact_coeff : F
  pub probe_size_usd : F
  pub model_buffer_bps : F
  pub max_feature_age_sec : F
  pub max_book_age_sec : F
  pub wide_spread_bps : F
  pub min_depth_shares : F
  pub drop_missing_book : Bool
  pub stale_penalty_bps : F
  pub vol_scale : F
  pub vol_cap_bps : F
  pub oi_scale : F
  pub oi_cap_bps : F
  pub fv_enabled : Bool
  pub fv_min_confidence : F
  pub fv_min_other_legs : ℕ
  pub drop_extreme_price : Bool
  pub extreme_lo : F
  pub extreme_hi : F
  pub group_expand_cap : ℕ

pub record GroupLeg (F : Type 0) : Type 0 where
  pub condition_id : String
  pub mid : F

-- `if b { flags = append(flags, s) }`
abbrev pub flag_if : Bool → String → List String
flag_if true s = s ∷ []
flag_if false s = []

module _ {F : Type 0} ⦃fl : Float64 F⦄ where
  open fl use {lit, add, sub, mul, div, abs, lt, le, eq}

  abbrev pub default_weights : Weights F
  default_weights = record {
    name = "default";
    w_vol = lit 30 2;
    w_oi = lit 15 2;
    w_imbalance = lit 10 2;
    w_ttr = lit 15 2;
    w_neg_risk = lit 15 2;
    w_flow = lit 5 2;
    w_activity = lit 10 2;
    default_taker_fee_bps = nought;
    impact_cap_bps = lit 25 0;
    impact_coeff = lit 50 0;
    probe_size_usd = lit 100 0;
    model_buffer_bps = lit 20 0;
    max_feature_age_sec = lit 300 0;
    max_book_age_sec = lit 300 0;
    wide_spread_bps = lit 300 0;
    min_depth_shares = lit 10 0;
    drop_missing_book = false;
    stale_penalty_bps = lit 50 0;
    vol_scale = lit 1 0;
    vol_cap_bps = lit 500 0;
    oi_scale = lit 100 0;
    oi_cap_bps = lit 200 0;
    fv_enabled = true;
    fv_min_confidence = lit 4 1;
    fv_min_other_legs = 1;
    drop_extreme_price = true;
    extreme_lo = lit 5 2;
    extreme_hi = lit 95 2;
    group_expand_cap = 100;
  }

  -- `RiskFlags`
  unfoldable pub risk_flags : Weights F → FeatureVector F → List String
  risk_flags w f =
      flag_if f.missing_book "missing_book"
      ++ flag_if f.thin_book "thin_book"
      ++ flag_if f.stale_features "stale_features"
      ++ flag_if (gt f.spread_bps w.wide_spread_bps) "wide_spread"
      ++ flag_if (gt f.mid nought && (lt f.mid (lit 2 2) || gt f.mid (lit 98 2))) "extreme_price"
      ++ flag_if f.neg_risk_incomplete "neg_risk_incomplete_group"
      ++ flag_if (gt f.book_age_sec w.max_book_age_sec && gt w.max_book_age_sec nought) "stale_book"

  abbrev pub has_no_book : FeatureVector F → Bool
  has_no_book f = le f.best_bid nought || le f.best_ask nought || lt f.best_ask f.best_bid

  abbrev pub spread_of : FeatureVector F → F → F
  spread_of f mid =
      if gt mid nought
      then div (mul (lit 10_000 0) (sub f.best_ask f.best_bid)) mid
      else f.spread_bps

  abbrev pub imbalance_of : FeatureVector F → F → F
  imbalance_of f total =
      if gt total nought && eq f.imbalance nought then div f.bid_depth total else f.imbalance

  -- What a usable book gives.
  abbrev pub with_book : F → FeatureVector F → FeatureVector F
  with_book min_depth f =
      let mid = div (add f.best_bid f.best_ask) (lit 2 0) in
      let total = add f.bid_depth f.ask_depth in
      let least = if le min_depth nought then lit 10 0 else min_depth in
      record f {
        missing_book = false;
        mid = mid;
        spread_bps = spread_of f mid;
        imbalance = imbalance_of f total;
        thin_book = lt total least || f.thin_book;
      }

  -- `FillBookDerived`
  unfoldable pub fill_book_derived : F → FeatureVector F → FeatureVector F
  fill_book_derived min_depth f =
      if has_no_book f then record f { missing_book = true } else with_book min_depth f

  abbrev sum_from : F → List F → F
  sum_from acc [] = acc
  sum_from acc (m ∷ ms) = sum_from (add acc m) ms

  -- `NegRiskResidualBpsFromMids`
  unfoldable pub residual_from_mids : List F → F
  residual_from_mids mids =
      if ltb (length mids) 2
      then nought
      else mul (abs (sub (sum_from nought mids) (lit 1 0))) (lit 10_000 0)

  abbrev mids_of : List (GroupLeg F) → List F
  mids_of [] = []
  mids_of (leg ∷ legs) =
      let rest = mids_of legs in if gt leg.mid nought then leg.mid ∷ rest else rest

  -- `GroupResidual`
  unfoldable pub group_residual : List (GroupLeg F) → F × Bool
  unfolding residual_from_mids
  group_residual legs =
      let mids = mids_of legs in
      if ltb (length mids) 2 then (nought, true) else (residual_from_mids mids, false)

  module _ (r : Rounding F) where
    -- `round1` to `round5`, by the power of ten
    abbrev round_to : F → F → F
    round_to scale v = div (r.round (mul v scale)) scale

    -- `KeyFeatures`
    unfoldable pub key_features : FeatureVector F → Dict F
    key_features f =
        ("mid", round_to (lit 100_000 0) f.mid)
        ∷ ("spread_bps", round_to (lit 10 0) f.spread_bps)
        ∷ ("imbalance", round_to (lit 1000 0) f.imbalance)
        ∷ ("abs_ret_5m", round_to (lit 100_000 0) f.abs_ret_5m)
        ∷ ("one_day_abs", round_to (lit 100_000 0) f.one_day_abs)
        ∷ ("doi_1h", round_to (lit 100 0) f.doi_1h)
        ∷ ("ttr_hours", round_to (lit 100 0) f.ttr_hours)
        ∷ ("neg_risk_residual_bps", round_to (lit 10 0) f.neg_risk_residual_bps)
        ∷ ("volume_24hr", round_to (lit 10 0) f.volume_24hr)
        ∷ ("book_age_sec", round_to (lit 10 0) f.book_age_sec)
        ∷ ("feature_age_sec", round_to (lit 10 0) f.feature_age_sec)
        ∷ []
