-- ===== src/Tests/Alloc.antt =====
-- internal/alloc: one board of three names, two of them for one condition.
use poly_asian_data.Base.{ℕ, String, false, List, [], ◌∷◌, none}
use poly_asian_data.Float.FixedPoint.{Fixed, fixed_float}
use poly_asian_data.Risk.{default_config}
use poly_asian_data.Alloc.{Name, Input, dedupe_key}

abbrev usd : ℕ → Fixed
usd n = fixed_float.lit n 0

abbrev named : String → String → ℕ → Name Fixed
named condition token edge = record {
  time = 9;
  condition_id = condition;
  token_id = token;
  market_id = "m";
  side = "BUY";
  edge_bps = usd edge;
  conviction = fixed_float.lit 5 1;
  urgency = usd 0;
  spread_bps = usd 20;
  mid = fixed_float.lit 5 1;
  cost_bps = usd 0;
  size_usd = usd 400;
  capacity_usd = usd 0;
  fv_source = "fair";
  score_path = "";
  horizon_sec = 60;
  strategy = "s";
  strategy_version_id = none;
}

abbrev board : List (Name Fixed)
board = named "c1" "t1" 90 ∷ named "c1" "t2" 150 ∷ named "c2" "t3" 40 ∷ []

abbrev key : Name Fixed → String
key = dedupe_key (λ t. "") (λ token stamp. token)

abbrev input : Input Fixed
input = record {
  names = board;
  risk = default_config;
  worth = record { min_edge_bps = usd 50; max_spread_bps = usd 100; require_fv = false };
  open_ids = "c9" ∷ [];
}
