-- ===== src/Sim/Equity.antt =====
-- internal/signaleval/equity.go: drawdowns and hourly returns of an equity curve.
use mathlib.Core.List.{foldl}
use poly_asian_data.Base.{
  ℕ, zero, suc, ◌+◌, ◌-◌, ◌/◌, ◌%◌, String, Bool, true, false, not, ◌&&◌, ◌||◌, List, [], ◌∷◌,
  Option, none, some, ltb, leb, ◌==◌, if◌then◌else◌, length, keep,
}
use poly_asian_data.Base.Update.{last}
use poly_asian_data.Float.Defs.{Float64, gt}
use poly_asian_data.Sort.{stable_sort}
use poly_asian_data.Risk.{nought}
use poly_asian_data.Sim.{EquityPoint}

pub record EquityStats (F : Type 0) : Type 0 where
  pub sharpe : F
  pub sharpe_note : String
  pub mean_period_return : F
  pub period_return_stdev : F
  pub n_periods : ℕ
  pub max_drawdown_bps : F
  pub max_daily_drawdown_bps : F
  pub total_return_bps : F
  pub periods_per_year : F

-- The variables of the loop of the drawdown.
pub record Peak (F : Type 0) : Type 0 where
  pub peak : F
  pub max_dd : F

-- The first and the least equity of a day.
pub record DayAgg (F : Type 0) : Type 0 where
  pub day : ℕ
  pub first : F
  pub least : F

abbrev pub min_hours_for_sharpe : ℕ
min_hours_for_sharpe = 72

abbrev pub hour_ns : ℕ
hour_ns = 3_600_000_000_000

abbrev pub day_ns : ℕ
day_ns = 86_400_000_000_000

-- `Truncate(time.Hour)`
abbrev pub hour_of : ℕ → ℕ
hour_of t = t - t % hour_ns

abbrev pub at_time : {F : Type 0} → EquityPoint F → EquityPoint F → Bool
at_time a b = ltb a.time b.time

-- The time of the last point.
abbrev pub last_time : {F : Type 0} → ℕ → List (EquityPoint F) → ℕ
last_time t [] = t
last_time t (q ∷ qs) = last_time q.time qs

module _ {F : Type 0} ⦃fl : Float64 F⦄ where
  open fl use {lit, of_int, add, sub, mul, div, sqrt, abs, lt, le}

  -- `(a - b) / a * 10_000`
  abbrev fall_bps : F → F → F
  fall_bps a b = mul (div (sub a b) a) (lit 10_000 0)

  unfoldable pub next_peak : Peak F → EquityPoint F → Peak F
  next_peak w p =
      let peak = if gt p.equity w.peak then p.equity else w.peak in
      let dd = fall_bps peak p.equity in
      record { peak = peak; max_dd = if gt peak nought && gt dd w.max_dd then dd else w.max_dd }

  -- The points that have a time.
  abbrev pub timed : List (EquityPoint F) → List (EquityPoint F)
  timed ps = keep (λ p. not (p.time == 0)) ps

  -- The map from an hour to the last equity in it, the last write first.
  unfoldable pub by_hour : List (EquityPoint F) → List (ℕ × F) → List (ℕ × F)
  by_hour [] m = m
  by_hour (p ∷ ps) m = by_hour ps ((hour_of p.time, p.equity) ∷ m)

  -- The equity of an hour, or `d` when the map has none.
  unfoldable pub hour_or : F → ℕ → List (ℕ × F) → F
  hour_or d h [] = d
  hour_or d h ((k, e) ∷ m) = if k == h then e else hour_or d h m

  -- The loop over the hours, on fuel.
  unfoldable pub hours_from : ℕ → List (ℕ × F) → ℕ → ℕ → F → List (EquityPoint F)
  hours_from zero m end t last_eq = []
  hours_from (suc fuel) m end t last_eq =
      let e = hour_or last_eq t m in
      let rest = hours_from fuel m end (t + hour_ns) e in
      if leb t end then record { time = t; equity = e } ∷ rest else []

  -- The grid of points that have a time and are sorted.
  unfoldable pub hour_grid : List (EquityPoint F) → List (EquityPoint F)
  hour_grid [] = []
  hour_grid (p ∷ ps) =
      let start = hour_of p.time in
      let end = hour_of (last_time p.time ps) in
      if ltb end start
      then p ∷ ps
      else hours_from ((end - start) / hour_ns + 1) (by_hour (p ∷ ps) []) end start p.equity

  abbrev pub is_nil : List (EquityPoint F) → Bool
  is_nil [] = true
  is_nil (_ ∷ _) = false

  unfoldable pub resample_hourly : List (EquityPoint F) → List (EquityPoint F)
  resample_hourly points =
      let pts = stable_sort at_time points in
      if is_nil (timed pts) then pts else hour_grid (timed pts)

  -- The aggregate of a day with one more point.
  unfoldable pub add_day : ℕ → F → List (DayAgg F) → List (DayAgg F)
  add_day day e [] = record { day = day; first = e; least = e } ∷ []
  add_day day e (a ∷ days) =
      let rest = add_day day e days in
      if a.day == day then (if lt e a.least then record a { least = e } else a) ∷ days else a ∷ rest

  -- `maxDailyDrawdownBps`
  unfoldable pub max_daily_drawdown : List (EquityPoint F) → F
  max_daily_drawdown points =
      foldl
        (λ worst a.
          let dd = fall_bps a.first a.least in
          if gt a.first nought && gt dd worst then dd else worst)
        nought
        (foldl (λ days p. add_day (p.time - p.time % day_ns) p.equity days) [] (timed points))

  -- `meanStdev` of returns, which are not empty.
  unfoldable pub mean_stdev : List F → F × F
  mean_stdev rets =
      let n = of_int (length rets) in
      let mean = div (foldl add nought rets) n in
      let sumsq = foldl (λ s r. add s (mul (sub r mean) (sub r mean))) nought rets in
      if leb (length rets) 0
      then (nought, nought)
      else if ltb (length rets) 2
      then (mean, nought)
      else (mean, sqrt (div sumsq n))

  -- The hourly returns behind a point.
  unfoldable pub returns_from : F → List (EquityPoint F) → List F
  returns_from prev [] = []
  returns_from prev (p ∷ ps) =
      let rest = returns_from p.equity ps in
      if le prev nought then rest else div (sub p.equity prev) prev ∷ rest

  abbrev hourly_returns : List (EquityPoint F) → List F
  hourly_returns [] = []
  hourly_returns (p ∷ ps) = returns_from p.equity ps

  abbrev first_equity : List (EquityPoint F) → F
  first_equity [] = nought
  first_equity (p ∷ _) = p.equity

  abbrev last_equity : Option (EquityPoint F) → F
  last_equity none = nought
  last_equity (some p) = p.equity

  -- `ComputeEquityStats`
  unfoldable pub compute_equity_stats : List (EquityPoint F) → F → F → EquityStats F
  compute_equity_stats points starting periods =
      let ppy = if le periods nought then lit 8760 0 else periods in
      let hourly = resample_hourly points in
      let rets = hourly_returns hourly in
      let (mean, stdev) = mean_stdev rets in
      let floor = mul (abs mean) (lit 5 2) in
      let min_std = if gt (abs mean) nought && gt floor (lit 1 8) then floor else lit 1 8 in
      let empty : EquityStats F = record {
        sharpe = nought;
        sharpe_note = "insufficient_periods";
        mean_period_return = nought;
        period_return_stdev = nought;
        n_periods = 0;
        max_drawdown_bps = nought;
        max_daily_drawdown_bps = nought;
        total_return_bps = nought;
        periods_per_year = ppy;
      } in
      let drawn : EquityStats F = record empty {
        total_return_bps =
            mul (div (sub (last_equity (last points)) starting) starting) (lit 10_000 0);
        max_drawdown_bps =
            (foldl next_peak (record { peak = first_equity points; max_dd = nought })
              points).max_dd;
        max_daily_drawdown_bps = max_daily_drawdown points;
      } in
      let measured : EquityStats F = record drawn {
        n_periods = length rets;
        mean_period_return = mean;
        period_return_stdev = stdev;
      } in
      if le starting nought || is_nil points
      then empty
      else if ltb (length hourly) 2
      then drawn
      else if ltb (length rets) min_hours_for_sharpe
      then measured
      else if le stdev min_std
      then record measured { sharpe_note = "near_constant_path" }
      else record measured { sharpe_note = ""; sharpe = mul (div mean stdev) (sqrt ppy) }
