-- ===== src/Tests/Edge.antt =====
-- internal/edge: two legs of a group, and a board of three candidates.
use mathlib.Core.List.{Perm, map}
use poly_asian_data.Base.{
  ℕ, ◌*◌, ◌/◌, ◌^◌, ◌≡◌, refl, arith, String, false, List, [], ◌∷◌, none, All, In, take,
}
use poly_asian_data.Float.FixedPoint.{Fixed, fixed_float, Fixed-IsOrdered}
use poly_asian_data.Sort.{IsOrderly}
use poly_asian_data.Edge.{FeatureVector, Weights, Rounding, default_weights}
use poly_asian_data.Edge.Fair.{FairValueInput, resolve, default_fv_chain_from_weights, nonzero_or}
use poly_asian_data.Edge.Fair.Bounds.{Resolved, resolve-Resolved}
use poly_asian_data.Edge.Score.{rank_by_edge, weights_or_default}
use poly_asian_data.Edge.Board.{
  BoardCandidate, BoardSelectResult, kept_rows, row_before, select_board,
}
use poly_asian_data.Edge.Board.Kept.{IsRowOf, IsPlaced, select_board-IsRowOf}
use poly_asian_data.Edge.Board.Agree.{raw_input, select_board-rank_by_edge}

abbrev cents : ℕ → Fixed
cents n = fixed_float.lit n 2

-- Rounding down; the logarithm is the identity here.
abbrev pub rounding : Rounding Fixed
rounding = record {
  round = λ x. record { up = x.up / 10 ^ 20 * 10 ^ 20; down = x.down / 10 ^ 20 * 10 ^ 20 };
  log1p = λ x. x;
}

abbrev pub quoted : String → ℕ → ℕ → FeatureVector Fixed
quoted id bid ask = record {
  condition_id = id;
  token_id = "";
  best_bid = cents bid;
  best_ask = cents ask;
  mid = cents 0;
  spread_bps = cents 0;
  imbalance = cents 0;
  bid_depth = cents 5000;
  ask_depth = cents 5000;
  book_age_sec = cents 0;
  abs_ret_1m = cents 0;
  abs_ret_5m = cents 1;
  abs_ret_1h = cents 0;
  one_day_abs = cents 0;
  oi = cents 0;
  doi_1h = cents 0;
  doi_24h = cents 0;
  ttr_hours = cents 4800;
  age_days = cents 0;
  volume_24hr = cents 0;
  volume_proxy = cents 0;
  buy_ratio_5m = cents 0;
  neg_risk = false;
  neg_risk_group_id = "";
  neg_risk_residual_bps = cents 0;
  neg_risk_incomplete = false;
  features_as_of_unix = 0;
  feature_age_sec = cents 0;
  missing_book = false;
  thin_book = false;
  stale_features = false;
}

abbrev leg_input : FairValueInput Fixed
leg_input = record {
  condition_id = "a";
  features = quoted "a" 39 41;
  group_mids = ("a", cents 40) ∷ ("b", cents 50) ∷ [];
  known_group_size = 0;
  neg_risk_fee_bips = cents 0;
  underlying = none;
  window_open = none;
}

resolve-Resolved_example :
    Resolved Fixed-IsOrdered default_weights leg_input
      (resolve (default_fv_chain_from_weights default_weights) leg_input)
resolve-Resolved_example = resolve-Resolved Fixed-IsOrdered default_weights leg_input

abbrev on_board : String → ℕ → ℕ → BoardCandidate Fixed
on_board id bid ask = record {
  features = quoted id bid ask;
  group_mids = [];
  known_group_size = 0;
  neg_risk_fee_bips = cents 0;
  taker_fee_bps = cents 0;
  tie_break = cents 0;
}

abbrev cands : List (BoardCandidate Fixed)
cands = on_board "a" 39 41 ∷ on_board "b" 48 52 ∷ on_board "c" 1 3 ∷ []

select_board-IsRowOf_example :
    let w = weights_or_default {F = Fixed} default_weights in
    (all : List (BoardSelectResult Fixed)) × Perm all (kept_rows rounding w cands)
    × IsOrderly row_before all
    × (select_board rounding cands default_weights 2 ≡ take (nonzero_or 50 2) all)
    × All (λ row. (c : BoardCandidate Fixed) × In c cands × IsRowOf rounding w c row) all
    × All (IsPlaced rounding w all) cands
select_board-IsRowOf_example = select_board-IsRowOf rounding Fixed-IsOrdered cands default_weights 2

abbrev plain_weights : Weights Fixed
plain_weights = record default_weights { fv_enabled = false; drop_extreme_price = false }

select_board-rank_by_edge_example :
    map (λ row. row.result) (select_board rounding cands plain_weights 3)
    ≡ map (λ s. s.result) (rank_by_edge rounding (map raw_input cands) plain_weights)
select_board-rank_by_edge_example =
    select_board-rank_by_edge rounding Fixed-IsOrdered plain_weights (cents 0) cands 3 refl refl
      (refl, (refl, (refl, tt))) (omega arith)
