-- ===== src/Edge/Score.antt =====
-- internal/edge/score.go: the score of a market, and the ranking.
use poly_asian_data.Base.{
  String, Bool, true, false, not, ◌&&◌, ◌||◌, List, [], ◌∷◌, Option, none, some, if◌then◌else◌,
  is_empty,
}
use poly_asian_data.Base.Dict.{Dict}
use poly_asian_data.Float.Defs.{Float64, gt}
use poly_asian_data.Risk.{nought}
use poly_asian_data.Cost.{BookLevel, CostBreakdown, compute_cost}
use poly_asian_data.Sort.{stable_sort}
use poly_asian_data.Edge.{
  FeatureVector, Weights, Rounding, default_weights, fill_book_derived, risk_flags, key_features,
}
use poly_asian_data.Edge.Families.{
  or_if_not_positive, vol_family, oi_family, imbalance_family, flow_family, ttr_family, urgency_of,
  strategy_tags_of,
}

pub record ScoreInput (F : Type 0) : Type 0 where
  pub features : FeatureVector F
  pub fair_value : Option F
  pub fv_source : String
  pub taker_fee_bps : F
  pub neg_risk_fee_bps : F
  pub levels : List (BookLevel F)

pub record ScoreResult (F : Type 0) : Type 0 where
  pub edge_bps : F
  pub opportunity_bps : F
  pub cost : CostBreakdown F
  pub model_edge_bps : Option F
  pub fair_value : Option F
  pub fv_source : String
  pub urgency : F
  pub risk_flags : List String
  pub strategy_tags : List String
  pub key_features : Dict F
  pub drop : Bool
  pub path : String

pub record Scored (F : Type 0) : Type 0 where
  pub input : ScoreInput F
  pub result : ScoreResult F

module _ {F : Type 0} ⦃fl : Float64 F⦄ where
  open fl use {lit, of_int, add, sub, mul, div, abs, min, max, lt, le, eq}

  abbrev pub weights_or_default : Weights F → Weights F
  weights_or_default w = if is_empty w.name then default_weights else w

  -- The features as `Score` reads them.
  unfoldable pub prepared : Weights F → FeatureVector F → FeatureVector F
  unfolding fill_book_derived
  prepared w f =
      let f' =
        if eq f.mid nought && not f.missing_book
        then fill_book_derived w.min_depth_shares f
        else f in
      if gt w.max_feature_age_sec nought && gt f'.feature_age_sec w.max_feature_age_sec
      then record f' { stale_features = true }
      else f'

  abbrev fee_of : F → F → F
  fee_of given default_fee =
      let fee = if lt given nought then nought else given in
      if eq fee nought && gt default_fee nought then default_fee else fee

  abbrev pub cost_of : Weights F → ScoreInput F → FeatureVector F → CostBreakdown F
  cost_of w input f = compute_cost (record {
    best_bid = f.best_bid;
    best_ask = f.best_ask;
    bid_depth = f.bid_depth;
    ask_depth = f.ask_depth;
    levels = input.levels;
    size_usd = w.probe_size_usd;
    taker_fee_bps = fee_of input.taker_fee_bps w.default_taker_fee_bps;
    neg_risk_fee_bps = input.neg_risk_fee_bps;
    impact_cap_bps = w.impact_cap_bps;
    impact_coeff = w.impact_coeff;
  })

  abbrev pub by_edge_bps : Scored F → Scored F → Bool
  by_edge_bps a b = gt a.result.edge_bps b.result.edge_bps

  module _ (r : Rounding F) where
    unfoldable pub activity_family : FeatureVector F → F
    activity_family f =
        let v = or_if_not_positive f.volume_24hr f.volume_proxy in
        if le v nought
        then nought
        else min (lit 100 0) (mul (div (r.log1p v) (r.log1p (lit 1_000_000 0))) (lit 100 0))

    -- `opportunityBps`
    unfoldable pub opportunity_of : FeatureVector F → Weights F → F
    unfolding vol_family oi_family ttr_family activity_family
    opportunity_of f w =
        let residual =
          if f.neg_risk_incomplete
          then nought
          else min w.oi_cap_bps (abs f.neg_risk_residual_bps) in
        add
          (add
            (add
              (add
                (add (add (mul w.w_vol (vol_family f w)) (mul w.w_oi (oi_family f w)))
                  (mul w.w_imbalance (imbalance_family f)))
                (mul w.w_ttr (ttr_family f)))
              (mul w.w_neg_risk residual))
            (mul w.w_flow (flow_family f)))
          (mul w.w_activity (activity_family f))

    abbrev pub blank_result : Weights F → ScoreInput F → FeatureVector F → ScoreResult F
    blank_result w input f = record {
      edge_bps = nought;
      opportunity_bps = nought;
      cost = cost_of w input f;
      model_edge_bps = none;
      fair_value = input.fair_value;
      fv_source = input.fv_source;
      urgency = urgency_of f;
      risk_flags = risk_flags w f;
      strategy_tags = strategy_tags_of f;
      key_features = key_features r f;
      drop = false;
      path = "";
    }

    -- The two paths of a market with a book.
    abbrev pub with_edge : Weights F → Option F → FeatureVector F → ScoreResult F → ScoreResult F
    with_edge w none f res =
        let opportunity = opportunity_of f w in
        record res {
          opportunity_bps = opportunity;
          edge_bps = sub opportunity res.cost.total_cost_bps;
          path = "proxy";
        }
    with_edge w (some fv) f res =
        let model_edge = mul (sub fv res.cost.mid) (lit 10_000 0) in
        let buffer = if lt w.model_buffer_bps nought then nought else w.model_buffer_bps in
        let net = sub (sub model_edge res.cost.total_cost_bps) buffer in
        record res {
          model_edge_bps = some net;
          edge_bps = net;
          opportunity_bps = model_edge;
          path = "fair_value";
        }

    abbrev pub without_book : Weights F → FeatureVector F → ScoreResult F → ScoreResult F
    without_book w f res =
        let opportunity = opportunity_of f w in
        record res {
          drop = w.drop_missing_book;
          opportunity_bps = opportunity;
          edge_bps = sub (sub opportunity res.cost.total_cost_bps) (lit 500 0);
          path = "proxy";
        }

    abbrev pub score_prepared : Weights F → ScoreInput F → FeatureVector F → ScoreResult F
    score_prepared w input f =
        let blank = blank_result w input f in
        let res = with_edge w input.fair_value f blank in
        if f.missing_book || not blank.cost.has_book
        then without_book w f blank
        else if f.stale_features
        then record res { edge_bps = sub res.edge_bps w.stale_penalty_bps }
        else res

    -- `Score`
    unfoldable pub score : ScoreInput F → Weights F → ScoreResult F
    unfolding prepared opportunity_of compute_cost
    score input given =
        let w = weights_or_default given in score_prepared w input (prepared w input.features)

    unfoldable pub scored_of : List (ScoreInput F) → Weights F → List (Scored F)
    scored_of [] w = []
    scored_of (input ∷ inputs) w =
        let res = score input w in
        let rest = scored_of inputs w in
        if res.drop then rest else record { input = input; result = res } ∷ rest

    -- `RankByEdge`
    unfoldable pub rank_by_edge : List (ScoreInput F) → Weights F → List (Scored F)
    unfolding scored_of
    rank_by_edge inputs w = stable_sort by_edge_bps (scored_of inputs w)
