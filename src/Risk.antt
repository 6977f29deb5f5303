-- ===== src/Risk.antt =====
-- internal/risk/config.go: the portfolio budget and risk policy, with its defaults.
pub mod Rank
pub mod Manager
pub mod Sizing
pub mod Accept
pub mod Halts
pub mod Policy
pub mod Order
use poly_asian_data.Base.{ℕ, String, Bool, ◌&&◌, ◌||◌, leb, is_empty, if◌then◌else◌, ltb}
use poly_asian_data.Float.Defs.{Float64, gt, ge}

-- An int field is a natural number: the code treats a negative one as it treats 0.
pub record Config (F : Type 0) : Type 0 where
  pub starting_equity_usd : F
  pub sizing_mode : String
  pub kelly_fraction : F
  pub kelly_p : F
  pub kelly_b : F
  pub vol_target_ann : F
  pub vol_lookback_periods : ℕ
  pub max_position_usd : F
  pub max_gross_usd : F
  pub max_positions : ℕ
  pub capacity_frac : F
  pub max_daily_drawdown_bps : F
  pub max_drawdown_bps : F
  pub daily_halt_policy : String
  pub min_size_usd : F
  pub opportunity_edge_weight : F
  pub opportunity_conviction_weight : F
  pub batch_window_ms : ℕ
  pub auction_enabled : Bool
  pub alloc_window_sec : ℕ
  pub auction_dedupe : String
  pub replace_delta : F

abbrev pub sizing_frac_kelly : String
sizing_frac_kelly = "frac_kelly"

abbrev pub sizing_vol_target : String
sizing_vol_target = "vol_target"

abbrev pub sizing_signal_size : String
sizing_signal_size = "signal_size"

abbrev pub count_or : ℕ → ℕ → ℕ
count_or d n = if leb n 0 then d else n

abbrev pub text_or : String → String → String
text_or d s = if is_empty s then d else s

module _ {F : Type 0} ⦃fl : Float64 F⦄ where
  open fl use {lit, lt, le}

  abbrev pub nought : F
  nought = lit 0 0

  abbrev pub unit : F
  unit = lit 1 0

  -- `DefaultConfig`
  abbrev pub default_config : Config F
  default_config = record {
    starting_equity_usd = lit 10_000 0;
    sizing_mode = sizing_frac_kelly;
    kelly_fraction = lit 25 2;
    kelly_p = lit 55 2;
    kelly_b = lit 1 0;
    vol_target_ann = lit 15 2;
    vol_lookback_periods = 24;
    max_position_usd = lit 500 0;
    max_gross_usd = lit 5_000 0;
    max_positions = 20;
    capacity_frac = lit 1 1;
    max_daily_drawdown_bps = lit 300 0;
    max_drawdown_bps = lit 1000 0;
    daily_halt_policy = "reject_new";
    min_size_usd = lit 1 0;
    opportunity_edge_weight = lit 1 0;
    opportunity_conviction_weight = lit 1 0;
    batch_window_ms = 500;
    auction_enabled = Bool.false;
    alloc_window_sec = 60;
    auction_dedupe = "condition";
    replace_delta = lit 0 0;
  }

  -- `x <= 0` gives way to the default.
  abbrev pub positive_or : F → F → F
  positive_or d x = if le x nought then d else x

  abbrev pub weight_or : F → F → F
  weight_or d x = if lt x nought then d else x

  -- `Config.Normalize`
  unfoldable pub normalize : Config F → Config F
  normalize c = record c {
    starting_equity_usd = positive_or default_config.starting_equity_usd c.starting_equity_usd;
    sizing_mode = text_or default_config.sizing_mode c.sizing_mode;
    kelly_fraction =
        if le c.kelly_fraction nought || gt c.kelly_fraction unit
        then default_config.kelly_fraction
        else c.kelly_fraction;
    kelly_p =
        if le c.kelly_p nought || ge c.kelly_p unit then default_config.kelly_p else c.kelly_p;
    kelly_b = positive_or default_config.kelly_b c.kelly_b;
    vol_target_ann = positive_or default_config.vol_target_ann c.vol_target_ann;
    vol_lookback_periods = count_or default_config.vol_lookback_periods c.vol_lookback_periods;
    max_position_usd = positive_or default_config.max_position_usd c.max_position_usd;
    max_gross_usd = positive_or default_config.max_gross_usd c.max_gross_usd;
    max_positions = count_or default_config.max_positions c.max_positions;
    capacity_frac = positive_or default_config.capacity_frac c.capacity_frac;
    max_daily_drawdown_bps =
        positive_or default_config.max_daily_drawdown_bps c.max_daily_drawdown_bps;
    max_drawdown_bps = positive_or default_config.max_drawdown_bps c.max_drawdown_bps;
    min_size_usd = positive_or default_config.min_size_usd c.min_size_usd;
    daily_halt_policy = text_or default_config.daily_halt_policy c.daily_halt_policy;
    opportunity_edge_weight =
        weight_or default_config.opportunity_edge_weight c.opportunity_edge_weight;
    opportunity_conviction_weight =
        weight_or default_config.opportunity_conviction_weight c.opportunity_conviction_weight;
  }

  -- `Config.Valid`
  unfoldable pub valid : Config F → Bool
  valid c =
      gt c.starting_equity_usd nought
      && gt c.kelly_fraction nought
      && le c.kelly_fraction unit
      && gt c.max_position_usd nought
      && gt c.max_gross_usd nought
      && ltb 0 c.max_positions
