-- ===== src/Edgescan/Stage2/Build.antt =====
-- internal/edgescan/stage2.go: BuildEdgeBoard and its rows.
use poly_asian_data.Base.{
  ℕ, ◌+◌, ◌-◌, String, Bool, not, ◌&&◌, List, [], ◌∷◌, ◌++◌, Option, none, some, ltb, if◌then◌else◌,
  length, ◌==◌, str_eq, is_empty, is_some, keep,
}
use poly_asian_data.Base.Dict.{Dict, lookup, insert}
use poly_asian_data.Float.Defs.{Float64, gt}
use poly_asian_data.Risk.{nought}
use poly_asian_data.Edge.{Weights, Rounding}
use poly_asian_data.Edge.Fair.{nonzero_or, fv_source_neg_risk}
use poly_asian_data.Edge.Score.{ScoreResult, weights_or_default}
use poly_asian_data.Edge.Board.{BoardCandidate, BoardSelectResult, select_board, is_extreme}
use poly_asian_data.Edgescan.{Market, Candidate, ScoredCand, select_top_n}
use poly_asian_data.Edgescan.Stage2.{
  Calls, Stage1Result, EdgeBuildOptions, board_candidate, legs_by_group, residual_of,
  build_group_mid_index, sticky_map,
}

-- What the loop over the first stage collects.
pub record Collected (F : Type 0) : Type 0 where
  pub board_cands : List (BoardCandidate F)
  pub by_cond_feat : Dict (Candidate F)
  pub books_hit : ℕ
  pub extreme : ℕ

-- The fields of `db.EdgeBoardRow` that the score and the order give.
pub record EdgeBoardRow (F : Type 0) : Type 0 where
  pub condition_id : String
  pub category : String
  pub rank : ℕ
  pub score : F
  pub edge_bps : F
  pub cost_bps : F
  pub capacity_usd : F
  pub urgency : F
  pub risk_flags : List String
  pub strategy_tags : List String
  pub fair_value : Option F
  pub model_edge_bps : Option F
  pub fv_source : String
  pub neg_risk : Bool
  pub neg_risk_group_id : String
  pub related_legs : List String
  pub spread : F

pub record BoardBuildResult (F : Type 0) : Type 0 where
  pub rows : List (EdgeBoardRow F)
  pub stage1_count : ℕ
  pub pool_count : ℕ
  pub dropped_summary : Dict ℕ
  pub fv_hits : ℕ
  pub fv_coverage : F

module _ {F : Type 0} ⦃fl : Float64 F⦄ where
  open fl use {lit, of_int, mul, div}

  -- The members of a group, of `groupMemberIndex`, before they are sorted.
  abbrev members_in : String → Dict (Candidate F) → List String
  members_in group [] = []
  members_in group ((cond, c) ∷ cs) =
      let rest = members_in group cs in
      if str_eq c.neg_risk_group_id group then cond ∷ rest else rest

  -- `relatedLegs`, of the members in their order
  unfoldable pub related_legs_of :
      (List String → List String) → String → String → Dict (Candidate F) → List String
  related_legs_of sort_strings self group by_cond =
      if is_empty group
      then []
      else keep (λ id. not (str_eq id self)) (sort_strings (members_in group by_cond))

  abbrev row_spread : Market F → ScoreResult F → F
  row_spread m res =
      if res.cost.has_book && gt res.cost.mid nought
      then mul (div (mul res.cost.half_spread_bps (lit 2 0)) (lit 10_000 0)) res.cost.mid
      else m.spread

  abbrev row_flags : ScoreResult F → List String
  row_flags res =
      if str_eq res.path "fair_value" && str_eq res.fv_source fv_source_neg_risk
      then res.risk_flags ++ "fv_group_residual" ∷ []
      else res.risk_flags

  abbrev row_for :
      (List String → List String)
      → Dict (Candidate F)
      → ℕ
      → ScoredCand F
      → Market F
      → EdgeBoardRow F
  row_for sort_strings by_cond rank s m = record {
    condition_id = m.condition_id;
    category = s.c.category;
    rank = rank;
    score = s.act;
    edge_bps = s.res.edge_bps;
    cost_bps = s.res.cost.total_cost_bps;
    capacity_usd = s.res.cost.capacity_usd;
    urgency = s.res.urgency;
    risk_flags = row_flags s.res;
    strategy_tags = s.res.strategy_tags;
    fair_value = s.res.fair_value;
    model_edge_bps = s.res.model_edge_bps;
    fv_source = s.res.fv_source;
    neg_risk = s.c.neg_risk;
    neg_risk_group_id = s.c.neg_risk_group_id;
    related_legs = related_legs_of sort_strings m.condition_id s.c.neg_risk_group_id by_cond;
    spread = row_spread m s.res;
  }

  -- A nil market would panic; the candidates of the selection have one.
  abbrev pub append_board_row :
      (List String → List String)
      → Dict (Candidate F)
      → ℕ
      → ScoredCand F
      → Option (Market F)
      → List (EdgeBoardRow F)
      → List (EdgeBoardRow F)
  append_board_row sort_strings by_cond rank s none rows = rows
  append_board_row sort_strings by_cond rank s (some m) rows =
      row_for sort_strings by_cond rank s m ∷ rows

  -- `materializeRows`, from a rank on
  unfoldable pub materialize_rows :
      (List String → List String)
      → Dict (Candidate F)
      → ℕ
      → List (ScoredCand F)
      → List (EdgeBoardRow F)
  unfolding related_legs_of
  materialize_rows sort_strings by_cond rank [] = []
  materialize_rows sort_strings by_cond rank (s ∷ ss) =
      append_board_row sort_strings by_cond rank s s.c.market
        (materialize_rows sort_strings by_cond (rank + 1) ss)

  abbrev add_candidate :
      Weights F → BoardCandidate F → Candidate F → Market F → Collected F → Collected F
  add_candidate w b c m k = record {
    board_cands = k.board_cands ++ b ∷ [];
    by_cond_feat = insert m.condition_id c k.by_cond_feat;
    books_hit = if b.features.missing_book then k.books_hit else k.books_hit + 1;
    extreme = if is_extreme w b.features then k.extreme + 1 else k.extreme;
  }

  abbrev pub collect_one :
      Weights F
      → (Market F → BoardCandidate F)
      → Candidate F
      → Option (Market F)
      → Collected F
      → Collected F
  collect_one w make c none k = k
  collect_one w make c (some m) k = add_candidate w (make m) c m k

  unfoldable pub collect :
      Weights F
      → (Candidate F → Market F → BoardCandidate F)
      → List (Candidate F)
      → Collected F
      → Collected F
  collect w make [] k = k
  collect w make (c ∷ cs) k = collect w make cs (collect_one w (make c) c c.market k)

  abbrev pub append_scored :
      BoardSelectResult F → Option (Candidate F) → List (ScoredCand F) → List (ScoredCand F)
  append_scored row none ss = ss
  append_scored row (some c) ss =
      record { c = c; res = row.result; act = row.candidate.tie_break } ∷ ss

  -- The ranked rows, with the candidates that their conditions name.
  unfoldable pub scored_rows : Dict (Candidate F) → List (BoardSelectResult F) → List (ScoredCand F)
  scored_rows by_cond [] = []
  scored_rows by_cond (row ∷ rows) =
      append_scored row (lookup row.candidate.features.condition_id by_cond)
        (scored_rows by_cond rows)

  abbrev pub count_fair : List (ScoredCand F) → ℕ
  count_fair ss = length (keep (λ s. is_some s.res.fair_value) ss)

  abbrev pub nothing_collected : Collected F
  nothing_collected = record { board_cands = []; by_cond_feat = []; books_hit = 0; extreme = 0 }

  abbrev pub or_stage1 : List (Candidate F) → List (Candidate F) → List (Candidate F)
  or_stage1 [] cs = cs
  or_stage1 (e ∷ es) cs = e ∷ es

  module _ (r : Rounding F) (calls : Calls F) where
    -- What the loop over the candidates of the first stage has collected at its end.
    unfoldable pub collected : Stage1Result F → EdgeBuildOptions F → Collected F
    unfolding collect
    collected stage1 opts =
        let w = weights_or_default opts.weights in
        let enriched = or_stage1 opts.enrich_candidates stage1.candidates in
        let by_group = build_group_mid_index calls enriched opts.books [] in
        let residuals = residual_of calls (legs_by_group calls opts.books enriched []) in
        collect w (board_candidate calls opts stage1 w residuals by_group) stage1.candidates
          nothing_collected

    -- The ranked rows with their candidates, and what the cut leaves of them.
    unfoldable pub ranked_cands : Stage1Result F → EdgeBuildOptions F → List (ScoredCand F)
    unfolding collected
    ranked_cands stage1 opts =
        let k = collected stage1 opts in
        scored_rows k.by_cond_feat
          (select_board r k.board_cands (weights_or_default opts.weights) (length k.board_cands))

    unfoldable pub board_cut : Stage1Result F → EdgeBuildOptions F → List (ScoredCand F)
    unfolding ranked_cands
    board_cut stage1 opts =
        select_top_n (ranked_cands stage1 opts) (sticky_map opts.sticky_condition_ids [])
          (nonzero_or 50 opts.board_max_n)

    -- `BuildEdgeBoard`
    unfoldable pub build_edge_board : Stage1Result F → EdgeBuildOptions F → BoardBuildResult F
    unfolding board_cut
    build_edge_board stage1 opts =
        let k = collected stage1 opts in
        let n = length k.board_cands in
        let ranked = select_board r k.board_cands (weights_or_default opts.weights) n in
        let scored = ranked_cands stage1 opts in
        let board = board_cut stage1 opts in
        let dropped = insert "extreme_price" k.extreme stage1.dropped_summary in
        if k.books_hit == 0 && opts.publish_require_books
        then record {
          rows = [];
          stage1_count = stage1.stage1_count;
          pool_count = stage1.pool_count;
          dropped_summary =
              insert "missing_book" (length stage1.candidates)
                (insert "edge_drop" 0 (insert "board_cap" 0 dropped));
          fv_hits = 0;
          fv_coverage = nought;
        }
        else record {
          rows = materialize_rows calls.sort_strings stage1.by_cond 1 board;
          stage1_count = stage1.stage1_count;
          pool_count = stage1.pool_count;
          dropped_summary = insert "missing_book" (length stage1.candidates - k.books_hit) (
              insert "edge_drop" (n - length ranked)
                (insert "board_cap" (length scored - length board) dropped));
          fv_hits = count_fair scored;
          fv_coverage =
              if ltb 0 (length board)
              then div (of_int (count_fair board)) (of_int (length board))
              else nought;
        }
