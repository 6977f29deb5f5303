-- ===== src/Edge/Board.antt =====
-- internal/edge/board_select.go: SelectBoard, the policy of the board that the live scan and the offline
-- evaluation share.
pub mod Kept
pub mod Agree
use poly_asian_data.Base.{
  ℕ, ◌+◌, String, Bool, true, false, not, ◌&&◌, ◌||◌, List, [], ◌∷◌, Option, none, some, Option,
  ltb, if◌then◌else◌, length, take, ◌==◌,
}
use poly_asian_data.Base.Dict.{Dict}
use poly_asian_data.Float.Defs.{Float64, gt}
use poly_asian_data.Risk.{nought}
use poly_asian_data.Sort.{stable_sort}
use poly_asian_data.Edge.{FeatureVector, Weights, Rounding, fill_book_derived}
use poly_asian_data.Edge.Fair.{
  FairValueInput, FairValueOutput, default_fv_chain_from_weights, is_extreme_mid, resolve,
  nonzero_or,
}
use poly_asian_data.Edge.Score.{ScoreInput, ScoreResult, score, weights_or_default}

pub record BoardCandidate (F : Type 0) : Type 0 where
  pub features : FeatureVector F
  pub group_mids : Dict F
  pub known_group_size : ℕ
  pub neg_risk_fee_bips : F
  pub taker_fee_bps : F
  pub tie_break : F

pub record BoardSelectResult (F : Type 0) : Type 0 where
  pub candidate : BoardCandidate F
  pub result : ScoreResult F

module _ {F : Type 0} ⦃fl : Float64 F⦄ where
  open fl use {eq}

  -- The features of a candidate, with what its book gives.
  abbrev pub board_features : Weights F → BoardCandidate F → FeatureVector F
  board_features w c =
      if eq c.features.mid nought && not c.features.missing_book
      then fill_book_derived w.min_depth_shares c.features
      else c.features

  abbrev pub is_extreme : Weights F → FeatureVector F → Bool
  is_extreme w f =
      w.drop_extreme_price && not f.missing_book && is_extreme_mid f.mid w.extreme_lo w.extreme_hi

  abbrev pub plain_input : BoardCandidate F → FeatureVector F → ScoreInput F
  plain_input c f = record {
    features = f;
    fair_value = none;
    fv_source = "";
    taker_fee_bps = c.taker_fee_bps;
    neg_risk_fee_bps = c.neg_risk_fee_bips;
    levels = [];
  }

  abbrev pub with_quote : Option (FairValueOutput F) → ScoreInput F → ScoreInput F
  with_quote none input = input
  with_quote (some q) input = record input { fair_value = some q.fair_value; fv_source = q.source }

  abbrev pub fair_value_input : BoardCandidate F → FeatureVector F → FairValueInput F
  fair_value_input c f = record {
    condition_id = f.condition_id;
    features = f;
    group_mids = c.group_mids;
    known_group_size = nonzero_or (length c.group_mids) c.known_group_size;
    neg_risk_fee_bips = c.neg_risk_fee_bips;
    underlying = none;
    window_open = none;
  }

  unfoldable pub board_input : Weights F → BoardCandidate F → ScoreInput F
  board_input w c =
      let f = board_features w c in
      if w.fv_enabled
      then with_quote (resolve (default_fv_chain_from_weights w) (fair_value_input c f))
          (plain_input c f)
      else plain_input c f

  abbrev pub append_row :
      Option (BoardSelectResult F) → List (BoardSelectResult F) → List (BoardSelectResult F)
  append_row none rows = rows
  append_row (some row) rows = row ∷ rows

  abbrev pub row_before : BoardSelectResult F → BoardSelectResult F → Bool
  row_before a b =
      if eq a.result.edge_bps b.result.edge_bps
      then gt a.candidate.tie_break b.candidate.tie_break
      else gt a.result.edge_bps b.result.edge_bps

  module _ (r : Rounding F) where
    -- The row of a candidate, if it is kept.
    unfoldable pub board_row : Weights F → BoardCandidate F → Option (BoardSelectResult F)
    unfolding board_input
    board_row w c =
        let f = board_features w c in
        let res = score r (board_input w c) w in
        if is_extreme w f
        then none
        else if res.drop
        then none
        else some (record { candidate = record c { features = f }; result = res })

    unfoldable pub kept_rows : Weights F → List (BoardCandidate F) → List (BoardSelectResult F)
    unfolding board_row
    kept_rows w [] = []
    kept_rows w (c ∷ cs) = append_row (board_row w c) (kept_rows w cs)

    -- `SelectBoard`
    unfoldable pub select_board :
        List (BoardCandidate F) → Weights F → ℕ → List (BoardSelectResult F)
    unfolding kept_rows
    select_board cands given n =
        take (nonzero_or 50 n) (stable_sort row_before (kept_rows (weights_or_default given) cands))
