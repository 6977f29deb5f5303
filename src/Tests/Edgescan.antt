-- ===== src/Tests/Edgescan.antt =====
-- internal/edgescan: the best two of three candidates, of which the last one is sticky; and a group of three legs.
use poly_asian_data.Base.{
  ℕ, ◌+◌, ◌≤◌, arith, ◌≡◌, refl, ◌⊎◌, String, Bool, true, false, List, [], ◌∷◌, none, some, map,
  length, All,
}
use poly_asian_data.Base.Dict.{Dict}
use poly_asian_data.Float.FixedPoint.{Fixed, fixed_float}
use poly_asian_data.Edge.{default_weights}
use poly_asian_data.Edge.Score.{ScoreResult, score}
use poly_asian_data.Tests.Edge.{rounding, quoted}
use poly_asian_data.Risk.Order.{count_from}
use poly_asian_data.Edgescan.Stage2.{Calls, Stage1Result, BookSnapshot, EdgeBuildOptions}
use poly_asian_data.Edgescan.Stage2.Build.{build_edge_board}
use poly_asian_data.Edgescan.Stage2.Counts.{count_of, build_edge_board-count}
use poly_asian_data.Edgescan.{Market, Candidate, ScoredCand, select_top_n, marked}
use poly_asian_data.Edgescan.Groups.{expand_group_candidates, add_firsts, add_groups, add_legs}
use poly_asian_data.Edgescan.Groups.Sound.{conditions}
use poly_asian_data.Edgescan.Sticky.{HasSticky, id_of, select_top_n-HasSticky}

abbrev cents : ℕ → Fixed
cents n = fixed_float.lit n 2

abbrev market_of : String → Market Fixed
market_of id = record {
  id = id;
  condition_id = id;
  question = "";
  clob_token_ids = id;
  end_date = none;
  start_date = none;
  volume_24hr = cents 0;
  volume_24hr_clob = cents 0;
  liquidity = "";
  liquidity_num = cents 0;
  liquidity_clob = cents 0;
  spread = cents 0;
  one_day_price_change = cents 5;
  taker_base_fee = 0;
  computed_score = cents 100;
}

abbrev leg : String → String → Candidate Fixed
leg id gid = record {
  market = some (market_of id);
  event_id = "";
  category = "";
  neg_risk = true;
  neg_risk_group_id = gid;
  neg_risk_fee_bips = 0;
}

abbrev a_score : ScoreResult Fixed
a_score =
    score rounding
      (record {
        features = quoted "a" 39 41;
        fair_value = none;
        fv_source = "";
        taker_fee_bps = cents 0;
        neg_risk_fee_bps = cents 0;
        levels = [];
      })
      default_weights

abbrev candidate : String → ℕ → ScoredCand Fixed
candidate id bps = record {
  c = leg id "";
  res = record a_score { edge_bps = fixed_float.lit bps 0 };
  act = fixed_float.lit 1 0;
}

abbrev scored : List (ScoredCand Fixed)
scored = candidate "a" 90 ∷ candidate "b" 80 ∷ candidate "c" 10 ∷ []

abbrev sticky : Dict Bool
sticky = ("c", true) ∷ []

select_top_n-HasSticky_example :
    let r = select_top_n scored sticky 2 in
    (length r ≤ 2) × (All (λ s. marked (id_of s) sticky ≡ true) r ⊎ HasSticky sticky scored r)
select_top_n-HasSticky_example = select_top_n-HasSticky scored sticky 2 (omega arith) (omega arith)

abbrev stage1 : List (Candidate Fixed)
stage1 = leg "a" "g" ∷ leg "a" "g" ∷ []

abbrev pool : List (Candidate Fixed)
pool = leg "a" "g" ∷ leg "b" "g" ∷ leg "c" "h" ∷ leg "d" "g" ∷ []

abbrev as_listed : List String → List String
as_listed gids = gids

two_legs : conditions (expand_group_candidates as_listed stage1 pool 2).cands ≡ "a" ∷ "b" ∷ "d" ∷ []
unfolding expand_group_candidates add_groups add_legs add_firsts
two_legs = refl

abbrev calls : Calls Fixed
calls = record {
  parse_token_ids = λ text. text ∷ [];
  sort_strings = λ ids. ids;
  hours = λ a b. cents 0;
  seconds = λ a b. cents 0;
  unix = λ t. t;
}

abbrev stage : Stage1Result Fixed
stage = record {
  candidates = leg "a" "g" ∷ leg "b" "g" ∷ leg "c" "" ∷ [];
  pool_count = 3;
  stage1_count = 3;
  dropped_summary = [];
  by_cond = [];
}

abbrev book_of : ℕ → ℕ → BookSnapshot Fixed
book_of bid ask = record {
  time = 0;
  best_bid = cents bid;
  best_ask = cents ask;
  imbalance = cents 50;
  total_bid_depth = cents 5000;
  total_ask_depth = cents 5000;
}

abbrev opts : EdgeBuildOptions Fixed
opts = record {
  board_max_n = 1;
  sticky_condition_ids = "b" ∷ [];
  now = 0;
  weights = default_weights;
  books = ("a", book_of 39 41) ∷ ("b", book_of 48 52) ∷ ("c", book_of 1 3) ∷ [];
  oi = [];
  publish_require_books = false;
  enrich_candidates = [];
}

build_edge_board-count_example :
    let b = build_edge_board rounding calls stage opts in
    (length b.rows ≤ 1)
    × (map (λ row. row.rank) b.rows ≡ count_from 1 (length b.rows))
    × (length b.rows + count_of rounding calls "board_cap" b + count_of rounding calls "edge_drop" b
        ≡ 3)
build_edge_board-count_example = build_edge_board-count rounding calls stage opts (ground arith)
