-- ===== src/Signals.antt =====
-- internal/signals/types.go: the boarded names and live books from which paper signals are built.
pub mod Paper
pub mod Gates
pub mod Limits
pub mod Select
use poly_asian_data.Base.{ℕ, String, Bool, List, Option}
use poly_asian_data.Base.Dict.{Dict}
use poly_asian_data.Float.Defs.{Float64}
use poly_asian_data.Cost.{CostBreakdown}

-- The map Reason of a signal.
pub record SignalReason (F : Type 0) : Type 0 where
  pub gates : List String
  pub min_edge_bps : F
  pub net_edge_bps : F
  pub reissue : Bool
  pub debounce_sec : ℕ
  pub edge_already_net : Bool
  pub notes : String

-- The cost breakdown is kept whole. The maps of features and factors and the ages, which only describe
-- the book and the board, are left out.
pub record PaperSignal (F : Type 0) : Type 0 where
  pub time : ℕ
  pub signal_id : String
  pub event : String
  pub strategy : String
  pub strategy_version_id : Option ℕ
  pub board_run_id : String
  pub board_rank : ℕ
  pub mode : String
  pub condition_id : String
  pub market_id : String
  pub token_id : String
  pub outcome : String
  pub neg_risk : Bool
  pub neg_risk_group_id : String
  pub side : String
  pub action : String
  pub time_in_force : String
  pub edge_bps : F
  pub opportunity_bps : F
  pub model_edge_bps : Option F
  pub cost_bps : F
  pub cost_breakdown : CostBreakdown F
  pub fair_value : Option F
  pub fv_source : String
  pub score_path : String
  pub conviction : F
  pub horizon_sec : ℕ
  pub half_life_sec : ℕ
  pub urgency : F
  pub size_usd : F
  pub size_shares : F
  pub capacity_usd : F
  pub kelly_frac : Option F
  pub risk_flags : List String
  pub mid : F
  pub best_bid : F
  pub best_ask : F
  pub spread_bps : F
  pub imbalance : F
  pub bid_depth : F
  pub ask_depth : F
  pub last_trade_price : F
  pub tags : List String
  pub reason : SignalReason F

pub record BookSnap (F : Type 0) : Type 0 where
  pub best_bid : F
  pub best_ask : F
  pub mid : F
  pub last_trade_price : F
  pub imbalance : F
  pub bid_depth : F
  pub ask_depth : F
  pub updated_at : ℕ

pub record BoardSnap (F : Type 0) : Type 0 where
  pub condition_id : String
  pub market_id : String
  pub token_id : String
  pub rank : ℕ
  pub score : F
  pub edge_bps : Option F
  pub cost_bps : Option F
  pub capacity_usd : Option F
  pub urgency : Option F
  pub fair_value : Option F
  pub model_edge_bps : Option F
  pub fv_source : String
  pub neg_risk : Bool
  pub neg_risk_group_id : String
  pub strategy_tags : List String
  pub risk_flags : List String
  pub strategy_version_id : Option ℕ
  pub run_id : String

-- Durations are in nanoseconds; the code treats a negative one as 0.
pub record GateConfig (F : Type 0) : Type 0 where
  pub min_edge_bps : F
  pub max_spread_bps : F
  pub max_book_age : ℕ
  pub cooldown : ℕ
  pub reissue_delta_bps : F
  pub probe_size_usd : F
  pub capacity_frac : F
  pub max_notional_usd : F
  pub conviction_scale : F
  pub horizon_sec : ℕ
  pub half_life_sec : ℕ
  pub buffer_bps : F
  pub default_fee_bps : F

-- `DefaultGateConfig`
abbrev pub default_gate_config : {F : Type 0} → ⦃fl : Float64 F⦄ → GateConfig F
default_gate_config ⦃fl⦄ = record {
  min_edge_bps = fl.lit 25 0;
  max_spread_bps = fl.lit 500 0;
  max_book_age = 30_000_000_000;
  cooldown = 600_000_000_000;
  reissue_delta_bps = fl.lit 50 0;
  probe_size_usd = fl.lit 25 0;
  capacity_frac = fl.lit 1 1;
  max_notional_usd = fl.lit 500 0;
  conviction_scale = fl.lit 200 0;
  horizon_sec = 3600;
  half_life_sec = 1800;
  buffer_bps = fl.lit 0 0;
  default_fee_bps = fl.lit 0 0;
}

-- What an emitter remembers of the last signal of a condition.
pub record LastEmit (F : Type 0) : Type 0 where
  pub emitted_at : ℕ
  pub side : String
  pub edge_bps : F
  pub id : String

pub record Emitter (F : Type 0) : Type 0 where
  pub cfg : GateConfig F
  pub last : Dict (LastEmit F)
