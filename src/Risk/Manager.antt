-- ===== src/Risk/Manager.antt =====
-- internal/risk/manager.go: the portfolio risk and sizing engine of paper trading.
use poly_asian_data.Base.{
  ℕ, ◌-◌, ◌%◌, String, Bool, true, false, ◌&&◌, ◌||◌, List, [], ◌∷◌, ◌++◌, Option, none, some, ltb,
  ◌==◌, if◌then◌else◌, length, drop,
}
use poly_asian_data.Base.Dict.{Dict, insert, delete}
use mathlib.Core.List.{foldl}
use poly_asian_data.Float.Defs.{Float64, gt, ge}
use poly_asian_data.Risk.{Config, nought, normalize}

-- The state labels OK, HALTED_DAY and HALTED_DD.
pub data State : Type 0 where
  ok halted_day halted_dd : State

pub data Reason : Type 0 where
  accepted day_halt dd_halt max_positions already_open max_gross size_zero invalid_signal : Reason

-- A time is in nanoseconds since the zero time, which is 0.
pub record SignalInput (F : Type 0) : Type 0 where
  pub time : ℕ
  pub condition_id : String
  pub side : String
  pub size_usd : F
  pub edge_bps : F
  pub conviction : F
  pub capacity_usd : F
  pub urgency : F
  pub kelly_frac : Option F

pub record Decision (F : Type 0) : Type 0 where
  pub accept : Bool
  pub size_usd : F
  pub reason : Reason
  pub kelly_frac : F
  pub scale : F
  pub opportunity_score : F

pub record Position (F : Type 0) : Type 0 where
  pub condition_id : String
  pub side : String
  pub size_usd : F
  pub shares : F
  pub entry_mid : F
  pub opened_at : ℕ
  pub signal_id : String

pub record Event : Type 0 where
  pub time : ℕ
  pub kind : String
  pub detail : String

pub record Manager (F : Type 0) : Type 0 where
  pub cfg : Config F
  pub equity : F
  pub peak_equity : F
  pub day_open_eq : F
  pub day_utc : ℕ
  pub state : State
  pub positions : Dict (Position F)
  pub period_returns : List F
  pub events : List Event

abbrev pub day_ns : ℕ
day_ns = 86_400_000_000_000

-- `t.UTC().Truncate(24 * time.Hour)`
abbrev pub day_of : ℕ → ℕ
day_of t = t - t % day_ns

abbrev pub is_halted_day : State → Bool
is_halted_day halted_day = true
is_halted_day _ = false

abbrev pub is_halted_dd : State → Bool
is_halted_dd halted_dd = true
is_halted_dd _ = false

abbrev pub max_period_returns : ℕ
max_period_returns = 500

module _ {F : Type 0} ⦃fl : Float64 F⦄ where
  open fl use {lit, add, sub, mul, div, abs, lt, le, eq}

  unfoldable pub new_manager : Config F → Manager F
  new_manager c =
      let cfg = normalize c in
      let eq0 = cfg.starting_equity_usd in
      record {
        cfg = cfg;
        equity = eq0;
        peak_equity = eq0;
        day_open_eq = eq0;
        day_utc = 0;
        state = ok;
        positions = [];
        period_returns = [];
        events = [];
      }

  unfoldable pub gross_exposure : Manager F → F
  gross_exposure m = foldl (λ g p. add g (abs (p.1).size_usd)) nought m.positions

  -- The roll to a later day, which also ends a daily halt.
  abbrev roll_to : Manager F → ℕ → ℕ → Manager F
  roll_to m day t =
      let rolled : Manager F = record m { day_utc = day; day_open_eq = m.equity } in
      if is_halted_day m.state
      then record rolled {
        state = ok;
        events = m.events ++ record { time = t; kind = "day_resume"; detail = "new UTC day" } ∷ [];
      }
      else rolled

  unfoldable pub maybe_roll_day : Manager F → ℕ → Manager F
  maybe_roll_day m t =
      let day = day_of t in
      if t == 0
      then m
      else if m.day_utc == 0
      then record m { day_utc = day; day_open_eq = m.equity }
      else if ltb m.day_utc day
      then roll_to m day t
      else m

  unfoldable pub drawdown_bps : Manager F → F
  drawdown_bps m =
      let dd = mul (div (sub m.peak_equity m.equity) m.peak_equity) (lit 10_000 0) in
      if le m.peak_equity nought then nought else if lt dd nought then nought else dd

  unfoldable pub daily_drawdown_bps : Manager F → F
  daily_drawdown_bps m =
      let dd = mul (div (sub m.day_open_eq m.equity) m.day_open_eq) (lit 10_000 0) in
      if le m.day_open_eq nought then nought else if lt dd nought then nought else dd

  abbrev halt : State → ℕ → String → String → Manager F → Manager F
  halt st at kind detail m = record m {
    state = st;
    events = m.events ++ record { time = at; kind = kind; detail = detail } ∷ [];
  }

  unfoldable pub check_halts : Manager F → ℕ → Manager F
  check_halts m at =
      let max_dd = m.cfg.max_drawdown_bps in
      let max_day = m.cfg.max_daily_drawdown_bps in
      if gt max_dd nought && ge (drawdown_bps m) max_dd
      then if is_halted_dd m.state
        then m
        else halt halted_dd at "halted_dd" "max_drawdown_bps breached" m
      else if gt max_day nought && ge (daily_drawdown_bps m) max_day
      then if is_halted_day m.state || is_halted_dd m.state
        then m
        else halt halted_day at "halted_day" "max_daily_drawdown_bps breached" m
      else m

  -- `ApplyPnL` up to the halt checks.
  unfoldable pub book_pnl : Manager F → F → ℕ → Manager F
  unfolding maybe_roll_day
  book_pnl m pnl at =
      let r = maybe_roll_day m at in
      let e = add r.equity pnl in
      record r { equity = e; peak_equity = if gt e r.peak_equity then e else r.peak_equity }

  unfoldable pub apply_pnl : Manager F → F → ℕ → Manager F
  unfolding book_pnl
  apply_pnl m pnl at = check_halts (book_pnl m pnl at) at

  unfoldable pub on_open : Manager F → Position F → Manager F
  on_open m p = record m { positions = insert p.condition_id p m.positions }

  unfoldable pub on_close : Manager F → String → F → ℕ → Manager F
  on_close m id pnl at = apply_pnl (record m { positions = delete id m.positions }) pnl at

  unfoldable pub record_period_return : Manager F → F → Manager F
  record_period_return m r =
      let rs = m.period_returns ++ r ∷ [] in
      record m {
        period_returns =
            if ltb max_period_returns (length rs)
            then drop (length rs - max_period_returns) rs
            else rs;
      }

  unfoldable pub should_flatten_all : Option (Manager F) → Bool
  should_flatten_all none = false
  should_flatten_all (some m) = is_halted_dd m.state
