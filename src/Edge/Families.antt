-- ===== src/Edge/Families.antt =====
-- internal/edge/score.go: the families of opportunity, the urgency and the tags.
use poly_asian_data.Base.{ℕ, String, ◌&&◌, ◌||◌, List, ◌∷◌, if◌then◌else◌}
use poly_asian_data.Float.Defs.{Float64, gt}
use poly_asian_data.Risk.{nought}
use poly_asian_data.Edge.{FeatureVector, Weights, flag_if}

module _ {F : Type 0} ⦃fl : Float64 F⦄ where
  open fl use {lit, of_int, add, sub, mul, div, abs, min, max, lt, le, eq}

  -- `if x <= 0 { x = d }`
  abbrev pub or_if_not_positive : F → F → F
  or_if_not_positive x d = if le x nought then d else x

  unfoldable pub vol_family : FeatureVector F → Weights F → F
  vol_family f w =
      let longer = if gt f.abs_ret_1m f.abs_ret_5m then f.abs_ret_1m else f.abs_ret_5m in
      let r = or_if_not_positive longer f.one_day_abs in
      let scale = or_if_not_positive w.vol_scale (lit 1 0) in
      let most = or_if_not_positive w.vol_cap_bps (lit 500 0) in
      min most (mul (mul (abs r) (lit 10_000 0)) scale)

  unfoldable pub oi_family : FeatureVector F → Weights F → F
  oi_family f w =
      let base = if lt (abs f.oi) (lit 1 0) then lit 1 0 else abs f.oi in
      let hourly = div (abs f.doi_1h) base in
      let rel =
        if gt (abs f.doi_24h) nought
        then max hourly (div (abs f.doi_24h) (mul base (lit 4 0)))
        else hourly in
      let scale = or_if_not_positive w.oi_scale (lit 100 0) in
      let most = or_if_not_positive w.oi_cap_bps (lit 200 0) in min most (mul rel scale)

  -- How far a share is from one half; for the imbalance and the flow.
  abbrev pub off_half : F → F
  off_half x = if le x nought then nought else mul (abs (sub x (lit 5 1))) (lit 200 0)

  abbrev pub imbalance_family : FeatureVector F → F
  imbalance_family f = off_half f.imbalance

  abbrev pub flow_family : FeatureVector F → F
  flow_family f = off_half f.buy_ratio_5m

  unfoldable pub ttr_family : FeatureVector F → F
  ttr_family f =
      if le f.ttr_hours nought
      then nought
      else if lt f.ttr_hours (lit 24 0)
      then lit 20 0
      else if lt f.ttr_hours (lit 96 0)
      then lit 60 0
      else if le f.ttr_hours (lit 504 0)
      then lit 100 0
      else if le f.ttr_hours (lit 1080 0)
      then lit 50 0
      else lit 25 0

  -- `SeriesActivityProxy`
  unfoldable pub series_activity_proxy : ℕ → F → F
  series_activity_proxy point_count path_act =
      add (mul (of_int point_count) (lit 1000 0)) (mul path_act (lit 100_000 0))

  unfoldable pub urgency_of : FeatureVector F → F
  urgency_of f =
      let by_time =
        if gt f.ttr_hours nought && lt f.ttr_hours (lit 72 0)
        then add nought (lit 4 1)
        else if le f.ttr_hours (lit 504 0)
        then add nought (lit 25 2)
        else nought in
      let by_path =
        if gt f.abs_ret_5m (lit 1 2) || gt f.abs_ret_1m (lit 5 3)
        then add by_time (lit 35 2)
        else by_time in
      let by_oi =
        if gt (abs f.doi_1h) nought
          && gt f.oi nought
          && gt (div (abs f.doi_1h) (max f.oi (lit 1 0))) (lit 5 2)
        then add by_path (lit 25 2)
        else by_path in
      if gt by_oi (lit 1 0) then lit 1 0 else by_oi

  unfoldable pub strategy_tags_of : FeatureVector F → List String
  strategy_tags_of f =
      (if f.neg_risk then "neg_risk_leg" else "standalone")
      ∷ flag_if (gt f.ttr_hours nought && lt f.ttr_hours (lit 6 0)) "near_resolution"
