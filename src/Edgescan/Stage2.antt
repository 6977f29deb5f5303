-- ===== src/Edgescan/Stage2.antt =====
-- internal/edgescan/stage2.go: BuildEdgeBoard, from the candidates of the first stage to the rows of the
-- board. Parsing the JSON list of token ids, sort.Strings, and the difference of two times in hours and in
-- seconds, and Unix are parameters.
pub mod Build
pub mod Gathered
pub mod Kept
pub mod Counts
use poly_asian_data.Base.{
  ℕ, ◌+◌, ◌-◌, ◌/◌, ◌^◌, ◌*◌, String, Bool, true, false, not, ◌&&◌, ◌||◌, List, [], ◌∷◌, ◌++◌,
  Option, none, some, leb, ltb, if◌then◌else◌, length, is_empty, str_eq, is_some, ◌==◌,
}
use poly_asian_data.Base.Dict.{Dict, lookup, insert}
use poly_asian_data.Float.Defs.{Float64, gt}
use poly_asian_data.Risk.{nought}
use poly_asian_data.Edge.{
  FeatureVector, Weights, Rounding, GroupLeg, fill_book_derived, group_residual, default_weights,
}
use poly_asian_data.Edge.Fair.{is_extreme_mid, nonzero_or}
use poly_asian_data.Edge.Score.{ScoreResult, weights_or_default}
use poly_asian_data.Edge.Board.{BoardCandidate, BoardSelectResult, select_board, is_extreme}
use poly_asian_data.Edgescan.{Market, Candidate, ScoredCand, condition_of, select_top_n}

-- The fields of `enrich.BookSnapshot` that are read.
pub record BookSnapshot (F : Type 0) : Type 0 where
  pub time : ℕ
  pub best_bid : F
  pub best_ask : F
  pub imbalance : F
  pub total_bid_depth : F
  pub total_ask_depth : F

-- What the code calls of other packages: `hours a b` and `seconds a b` are those of b.Sub(a).
pub record Calls (F : Type 0) : Type 0 where
  pub parse_token_ids : String → List String
  pub sort_strings : List String → List String
  pub hours : ℕ → ℕ → F
  pub seconds : ℕ → ℕ → F
  pub unix : ℕ → ℕ

pub record Stage1Result (F : Type 0) : Type 0 where
  pub candidates : List (Candidate F)
  pub pool_count : ℕ
  pub stage1_count : ℕ
  pub dropped_summary : Dict ℕ
  pub by_cond : Dict (Candidate F)

-- `now` stands for the field Now behind its default, the time of the call where it is zero.
pub record EdgeBuildOptions (F : Type 0) : Type 0 where
  pub board_max_n : ℕ
  pub sticky_condition_ids : List String
  pub now : ℕ
  pub weights : Weights F
  pub books : Dict (BookSnapshot F)
  pub oi : Dict F
  pub publish_require_books : Bool
  pub enrich_candidates : List (Candidate F)

-- `m[k]` of a map to bool, and of a map to float64
abbrev pub or_else : {A : Type 0} → A → Option A → A
or_else d none = d
or_else d (some a) = a

-- `stickyMap`
unfoldable pub sticky_map : List String → Dict Bool → Dict Bool
sticky_map [] m = m
sticky_map (id ∷ ids) m = sticky_map ids (if is_empty id then m else insert id true m)

module _ {F : Type 0} ⦃fl : Float64 F⦄ where
  open fl use {lit, of_int, add, mul, div, abs, lt, le, eq}

  -- `midFromBooks`
  abbrev mid_of_book : Option (BookSnapshot F) → Option F
  mid_of_book none = none
  mid_of_book (some b) =
      if le b.best_bid nought || le b.best_ask nought
      then none
      else some (div (add b.best_bid b.best_ask) (lit 2 0))

  unfoldable pub mid_from_books : List String → Dict (BookSnapshot F) → F
  mid_from_books [] books = nought
  mid_from_books (tid ∷ tids) books =
      let rest = mid_from_books tids books in or_else rest (mid_of_book (lookup tid books))

  -- `takerFeeBps`
  abbrev pub taker_fee_of : Market F → F
  taker_fee_of m =
      if ltb 0 m.taker_base_fee && leb m.taker_base_fee 500 then of_int m.taker_base_fee else nought

  -- The book that `featureFromCandidate` takes: that of the first token that has one.
  unfoldable pub first_book : List String → Dict (BookSnapshot F) → Option (String × BookSnapshot F)
  first_book [] books = none
  first_book (tid ∷ tids) books =
      let rest = first_book tids books in
      elim (lookup tid books) [ none ↦ rest | some b ↦ some (tid, b) ]

  abbrev pub not_negative : F → F
  not_negative x = if lt x nought then nought else x

  module _ (calls : Calls F) where
    -- `negRiskResiduals`: the legs of the groups, and what a group's legs leave
    abbrev add_leg_of :
        Dict (BookSnapshot F)
        → Candidate F
        → Option (Market F)
        → Dict (List (GroupLeg F))
        → Dict (List (GroupLeg F))
    add_leg_of books c none groups = groups
    add_leg_of books c (some m) groups =
        let mid = mid_from_books (calls.parse_token_ids m.clob_token_ids) books in
        if not c.neg_risk || is_empty c.neg_risk_group_id
        then groups
        else if gt mid nought
        then insert c.neg_risk_group_id
            (or_else [] (lookup c.neg_risk_group_id groups)
              ++ record { condition_id = m.condition_id; mid = mid } ∷ [])
            groups
        else groups

    unfoldable pub legs_by_group :
        Dict (BookSnapshot F)
        → List (Candidate F)
        → Dict (List (GroupLeg F))
        → Dict (List (GroupLeg F))
    unfolding mid_from_books
    legs_by_group books [] groups = groups
    legs_by_group books (c ∷ cs) groups =
        legs_by_group books cs (add_leg_of books c c.market groups)

    -- `residual[g]` and `incomplete[g]`
    abbrev pub residual_of : Dict (List (GroupLeg F)) → String → F × Bool
    residual_of groups g = elim (lookup g groups) [
      | none ↦ (nought, false)
      | some legs ↦ group_residual legs
    ]

    -- `BuildGroupMidIndex`
    abbrev add_mid :
        Dict (BookSnapshot F) → Candidate F → Option (Market F) → Dict (Dict F) → Dict (Dict F)
    add_mid books c none groups = groups
    add_mid books c (some m) groups =
        let mid = mid_from_books (calls.parse_token_ids m.clob_token_ids) books in
        if is_empty c.neg_risk_group_id || le mid nought
        then groups
        else insert c.neg_risk_group_id
            (insert m.condition_id mid (or_else [] (lookup c.neg_risk_group_id groups))) groups

    unfoldable pub build_group_mid_index :
        List (Candidate F) → Dict (BookSnapshot F) → Dict (Dict F) → Dict (Dict F)
    unfolding mid_from_books
    build_group_mid_index [] books groups = groups
    build_group_mid_index (c ∷ cs) books groups =
        build_group_mid_index cs books (add_mid books c c.market groups)

    abbrev hours_left : ℕ → Option ℕ → F
    hours_left now none = nought
    hours_left now (some end) = not_negative (calls.hours now end)

    abbrev age_in_days : ℕ → Option ℕ → F
    age_in_days now none = nought
    age_in_days now (some start) = div (calls.hours start now) (lit 24 0)

    -- The features before the book is read.
    abbrev pub market_features :
        EdgeBuildOptions F → (String → F × Bool) → Candidate F → Market F → FeatureVector F
    market_features opts residuals c m =
        let in_group = c.neg_risk && not (is_empty c.neg_risk_group_id) in
        let of_group = residuals c.neg_risk_group_id in
        record {
          condition_id = m.condition_id;
          token_id = "";
          best_bid = nought;
          best_ask = nought;
          mid = nought;
          spread_bps = nought;
          imbalance = nought;
          bid_depth = nought;
          ask_depth = nought;
          book_age_sec = nought;
          abs_ret_1m = nought;
          abs_ret_5m = nought;
          abs_ret_1h = nought;
          one_day_abs = abs m.one_day_price_change;
          oi = or_else nought (lookup m.condition_id opts.oi);
          doi_1h = nought;
          doi_24h = nought;
          ttr_hours = hours_left opts.now m.end_date;
          age_days = age_in_days opts.now m.start_date;
          volume_24hr = if eq m.volume_24hr_clob nought then m.volume_24hr else m.volume_24hr_clob;
          volume_proxy = nought;
          buy_ratio_5m = nought;
          neg_risk = c.neg_risk;
          neg_risk_group_id = c.neg_risk_group_id;
          neg_risk_residual_bps = if in_group then of_group.0 else nought;
          neg_risk_incomplete = in_group && of_group.1;
          features_as_of_unix = 0;
          feature_age_sec = nought;
          missing_book = false;
          thin_book = false;
          stale_features = false;
        }

    abbrev pub read_book :
        ℕ → F → Option (String × BookSnapshot F) → FeatureVector F → FeatureVector F
    read_book now min_depth none f = fill_book_derived min_depth (record f { missing_book = true })
    read_book now min_depth (some (tid, b)) f =
        let age = not_negative (calls.seconds b.time now) in
        fill_book_derived min_depth (record f {
          token_id = tid;
          best_bid = b.best_bid;
          best_ask = b.best_ask;
          bid_depth = b.total_bid_depth;
          ask_depth = b.total_ask_depth;
          imbalance = b.imbalance;
          book_age_sec = age;
          feature_age_sec = age;
          features_as_of_unix = calls.unix b.time;
        })

    -- `featureFromCandidate`
    unfoldable pub feature_from_candidate :
        EdgeBuildOptions F
        → Weights F
        → (String → F × Bool)
        → Candidate F
        → Market F
        → FeatureVector F
    unfolding first_book fill_book_derived
    feature_from_candidate opts w residuals c m =
        read_book opts.now w.min_depth_shares
          (first_book (calls.parse_token_ids m.clob_token_ids) opts.books)
          (market_features opts residuals c m)

  -- `GroupMidsFor`
  abbrev group_mids_for : Candidate F → Dict (Dict F) → Dict F
  group_mids_for c by_group =
      if is_empty c.neg_risk_group_id then [] else or_else [] (lookup c.neg_risk_group_id by_group)

  -- `GroupKnownSize`
  unfoldable pub group_known_size : Candidate F → Dict (Candidate F) → ℕ
  group_known_size c [] = 0
  group_known_size c ((id, o) ∷ os) =
      let rest = group_known_size c os in
      if is_empty c.neg_risk_group_id
      then 0
      else if str_eq o.neg_risk_group_id c.neg_risk_group_id
      then rest + 1
      else rest

  module _ (calls : Calls F) where
    abbrev pub board_candidate :
        EdgeBuildOptions F
        → Stage1Result F
        → Weights F
        → (String → F × Bool)
        → Dict (Dict F)
        → Candidate F
        → Market F
        → BoardCandidate F
    board_candidate opts stage1 w residuals by_group c m =
        let mids = group_mids_for c by_group in
        record {
          features = feature_from_candidate calls opts w residuals c m;
          group_mids = mids;
          known_group_size =
              (let known = group_known_size c stage1.by_cond in
                if ltb known (length mids) then length mids else known);
          neg_risk_fee_bips = of_int c.neg_risk_fee_bips;
          taker_fee_bps = taker_fee_of m;
          tie_break = m.computed_score;
        }
