-- ===== src/Tests/Sim.antt =====
-- internal/signaleval: runs of the synthetic fixture.
use mathlib.Core.List.{Perm}
use poly_asian_data.Base.{
  if◌then◌else◌, str_eq, ℕ, String, arith, eq_iff, ◌+◌, ◌≡◌, refl, true, false, List, [], ◌∷◌, none,
  some, All,
}
use poly_asian_data.Base.Update.{last}
use poly_asian_data.Float.FixedPoint.{Fixed, fixed_float, Fixed-IsOrdered}
use poly_asian_data.Sort.{stable_sort}
use poly_asian_data.Risk.{normalize, nought}
use poly_asian_data.Risk.Manager.{new_manager, halted_dd}
use poly_asian_data.Sim.Equity.{resample_hourly, is_nil}
use poly_asian_data.Sim.Hourly.{
  IsHourly, first_hour, last_hour, IsHeld, first_or, sorted_timed, resample_hourly-IsHeld,
}
use poly_asian_data.Sim.{Trade, EquityPoint, SignalIn, WorthinessFilter}
use poly_asian_data.Sim.Ledger.{MapOrder}
use poly_asian_data.Base.Dict.{Dict, lookup, IsKeyed}
use poly_asian_data.Sim.Process.{Sim, process_one}
use poly_asian_data.Sim.Run.{SimConfig, Result, simulate, start_sim, earlier, n_rejected}
use poly_asian_data.Sim.Valid.{Valid, equity_of}
use poly_asian_data.Sim.Account.{Held, process_one-Held}
use poly_asian_data.Sim.Booked.{IsPriced, booked}
use poly_asian_data.Sim.Closed.{Flat}
use poly_asian_data.Sim.Results.{simulate_settles, simulate-Booked, start_sim-Held}
use poly_asian_data.Sim.Halted.{process_one-halted}
use poly_asian_data.Sim.Boards.{SnapshotRow}
use poly_asian_data.Sim.Synthetic.{
  synthetic_signals, synthetic_signal, synthetic_prices, tight_budget_risk, t0,
}

-- The order that visits the second entry first.
abbrev swap_first : Dict ℕ → Dict ℕ
swap_first ((k, v) ∷ (j, w) ∷ m) = (j, w) ∷ (k, v) ∷ m
swap_first m = m

swap_first-IsKeyed : (m : Dict ℕ) → IsKeyed m → IsKeyed (swap_first m)
swap_first-IsKeyed [] u = u
swap_first-IsKeyed (e ∷ []) u = u
swap_first-IsKeyed ((k, v) ∷ (j, w) ∷ m) u =
    let first : (if str_eq k j then some v else lookup j m) ≡ none =
      ground (arith, eq_iff k j, eq_iff j k) in
    let second : lookup k m ≡ none = ground arith in (first, (second, u.1.1))

lookup-swap_first : (m : Dict ℕ) (i : String) → IsKeyed m → lookup i (swap_first m) ≡ lookup i m
lookup-swap_first [] i u = refl
lookup-swap_first (e ∷ []) i u = refl
lookup-swap_first ((k, v) ∷ (j, w) ∷ m) i u =
    ground (arith, eq_iff k j, eq_iff j k, eq_iff k i, eq_iff j i)

instance abbrev swapped : MapOrder Fixed
swapped = record {
  entries = λ s. swap_first s.open_by_cond;
  keyed = λ s u. swap_first-IsKeyed s.open_by_cond u;
  same = λ s k u. lookup-swap_first s.open_by_cond k u;
}

abbrev config : SimConfig Fixed
config = record {
  risk = tight_budget_risk;
  default_horizon = 0;
  periods_per_year = fixed_float.lit 0 0;
}

abbrev sigs : List (SignalIn Fixed)
sigs = stable_sort earlier synthetic_signals

simulate_settles_example :
    (r : Result Fixed) × (simulate config 0 synthetic_signals synthetic_prices ≡ some r)
    × All (λ tr. tr.closed ≡ true) r.trades
    × (r.metrics.n_open ≡ 0)
    × (r.metrics.n_closed ≡ r.metrics.n_accepted)
    × (equity_of (last r.equity_curve) ≡ some r.metrics.ending_equity_usd)
simulate_settles_example =
    simulate_settles Fixed-IsOrdered config 0 synthetic_signals synthetic_prices

simulate-Booked_example :
    (r : Result Fixed) × (order : List (Trade Fixed)) × (simulate config 0 synthetic_signals
        synthetic_prices
      ≡ some r)
    × Perm order r.trades
    × (r.metrics.starting_equity_usd ≡ (normalize config.risk).starting_equity_usd)
    × (r.metrics.ending_equity_usd ≡ booked r.metrics.starting_equity_usd order)
    × All IsPriced order
simulate-Booked_example =
    simulate-Booked Fixed-IsOrdered config 0 synthetic_signals synthetic_prices

abbrev first_signal : SignalIn Fixed
first_signal =
    synthetic_signal t0 "s1" "cond_high" "tok_high" "BUY" (fixed_float.lit 400 0)
      (fixed_float.lit 9 1) (fixed_float.lit 100 0) (fixed_float.lit 20 0) (fixed_float.lit 40 2)

abbrev started : Sim Fixed
started = start_sim (normalize config.risk) sigs

process_one-Held_example :
    Held
      (normalize config.risk)
      1
      (process_one synthetic_prices 3_600_000_000_000 first_signal started)
process_one-Held_example =
    process_one-Held synthetic_prices Fixed-IsOrdered 3_600_000_000_000 (normalize config.risk)
      first_signal 0 started
      (start_sim-Held Fixed-IsOrdered config 0 synthetic_signals synthetic_prices)

-- A simulation that starts under a halt by drawdown.
abbrev halted : Sim Fixed
halted = record started {
  ledger = record (started.ledger) { mgr = record (started.ledger.mgr) { state = halted_dd } };
}

halted-Valid : Valid halted.ledger
unfolding start_sim new_manager
halted-Valid = record {
  keyed = tt;
  linked = λ k i e. cc;
  listed = λ i tr e c. cc;
  same = λ k. refl;
  marked = refl;
}

process_one-halted_example :
    let s' = process_one synthetic_prices 3_600_000_000_000 first_signal halted in
    Flat s'.ledger
    × (s'.ledger.mgr.state ≡ halted_dd)
    × (n_rejected s'.reject_reasons ≡ n_rejected halted.reject_reasons + 1)
process_one-halted_example =
    process_one-halted synthetic_prices 3_600_000_000_000 first_signal halted halted-Valid refl

abbrev rows : List (SnapshotRow Fixed)
rows =
    record {
      selected_at = t0;
      strategy = "default";
      condition_id = "c1";
      token_id = "t1";
      edge_bps = some (fixed_float.lit 90 0);
    }
    ∷ record {
      selected_at = t0;
      strategy = "default";
      condition_id = "c2";
      token_id = "t2";
      edge_bps = none;
    }
    ∷ []

abbrev no_filter : WorthinessFilter Fixed
no_filter = record { min_edge_bps = nought; max_spread_bps = nought; require_fv = true }

-- An equity curve with two points in its first hour.
abbrev curve : List (EquityPoint Fixed)
curve =
    record { time = t0; equity = fixed_float.lit 100 0 }
    ∷ record { time = t0 + 5; equity = fixed_float.lit 90 0 }
    ∷ record { time = t0 + 7_200_000_000_000; equity = fixed_float.lit 95 0 }
    ∷ []

has_times : is_nil (sorted_timed curve) ≡ false
unfolding stable_sort
has_times = refl

resample_hourly-IsHeld_example :
    let ps = sorted_timed curve in
    IsHourly (first_hour ps) (last_hour ps) (resample_hourly curve)
    × All (IsHeld (first_or nought ps) ps) (resample_hourly curve)
resample_hourly-IsHeld_example = resample_hourly-IsHeld nought curve has_times
