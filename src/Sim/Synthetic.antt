-- ===== src/Sim/Synthetic.antt =====
-- internal/signaleval/synthetic.go: the signals and prices of the synthetic run.
use poly_asian_data.Base.{ℕ, ◌+◌, ◌*◌, String, List, [], ◌∷◌, none}
use poly_asian_data.Float.Defs.{Float64}
use poly_asian_data.Risk.{Config, default_config, sizing_signal_size}
use poly_asian_data.Sim.{SignalIn, PricePoint, PriceIndex}

-- 2026-06-01 12:00 UTC, in nanoseconds since the zero time.
abbrev pub t0 : ℕ
t0 = 63_915_912_000_000_000_000

abbrev hours : ℕ → ℕ
hours n = t0 + n * 3_600_000_000_000

module _ {F : Type 0} ⦃fl : Float64 F⦄ where
  open fl use {lit, neg}

  abbrev pub synthetic_signal :
      ℕ → String → String → String → String → F → F → F → F → F → SignalIn F
  synthetic_signal at id cond tok side edge conv size cost mid = record {
    time = at;
    signal_id = id;
    strategy = "default";
    strategy_version_id = none;
    condition_id = cond;
    token_id = tok;
    market_id = "";
    side = side;
    action = "";
    edge_bps = edge;
    conviction = conv;
    urgency = lit 0 0;
    size_usd = size;
    capacity_usd = lit 50_000 0;
    cost_bps = cost;
    mid = mid;
    horizon_sec = 3600;
    kelly_frac = none;
    spread_bps = lit 0 0;
    fv_source = "";
    score_path = "";
  }

  -- The signals of `SyntheticFixture`.
  abbrev pub synthetic_signals : List (SignalIn F)
  synthetic_signals =
      synthetic_signal t0 "11111111-1111-4111-8111-111111111101" "cond_high" "tok_high" "BUY"
        (lit 400 0) (lit 9 1) (lit 100 0) (lit 20 0) (lit 40 2)
      ∷ synthetic_signal t0 "11111111-1111-4111-8111-111111111102" "cond_low" "tok_low" "BUY"
          (lit 20 0) (lit 4 1) (lit 100 0) (lit 20 0) (lit 50 2)
      ∷ synthetic_signal (hours 2) "11111111-1111-4111-8111-111111111103" "cond_mid" "tok_mid" "BUY"
          (lit 150 0) (lit 7 1) (lit 80 0) (lit 15 0) (lit 55 2)
      ∷ synthetic_signal (hours 5) "11111111-1111-4111-8111-111111111104" "cond_sell" "tok_sell"
          "SELL" (neg (lit 120 0)) (lit 6 1) (lit 60 0) (lit 15 0) (lit 60 2)
      ∷ []

  abbrev point : ℕ → F → PricePoint F
  point at mid = record { time = at; mid = mid }

  -- The prices of `SyntheticFixture`.
  abbrev pub synthetic_prices : PriceIndex F
  synthetic_prices =
      (
        "tok_high",
        point t0 (lit 40 2) ∷ point (hours 1) (lit 48 2) ∷ point (hours 2) (lit 50 2) ∷ [],
      )
      ∷ ("tok_low", point t0 (lit 50 2) ∷ point (hours 1) (lit 50 2) ∷ [])
      ∷ ("tok_mid", point (hours 2) (lit 55 2) ∷ point (hours 3) (lit 58 2) ∷ [])
      ∷ ("tok_sell", point (hours 5) (lit 60 2) ∷ point (hours 6) (lit 52 2) ∷ [])
      ∷ []

  -- `TightBudgetRisk`
  abbrev pub tight_budget_risk : Config F
  tight_budget_risk = record default_config {
    starting_equity_usd = lit 10_000 0;
    max_gross_usd = lit 100 0;
    max_position_usd = lit 100 0;
    min_size_usd = lit 50 0;
    sizing_mode = sizing_signal_size;
    batch_window_ms = 1000;
    max_daily_drawdown_bps = lit 5000 0;
    max_drawdown_bps = lit 10_000 0;
  }
