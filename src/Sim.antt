-- ===== src/Sim.antt =====
-- internal/signaleval/types.go, fills.go and filter.go: the signals that the paper simulation reads,
-- the trades that it makes, and the prices at which they are filled.
pub mod Ledger
pub mod Process
pub mod Run
pub mod Valid
pub mod Closing
pub mod Offered
pub mod Opening
pub mod Account
pub mod Booked
pub mod Closed
pub mod Results
pub mod Halted
pub mod Boards
pub mod Synthetic
pub mod Equity
pub mod Hourly
use poly_asian_data.Base.{
  ℕ, ◌+◌, ◌*◌, String, Bool, true, false, not, ◌&&◌, ◌||◌, List, [], ◌∷◌, Option, none, some, ltb,
  leb, if◌then◌else◌, str_eq, is_empty, keep, take,
}
use poly_asian_data.Base.Dict.{Dict, lookup}
use poly_asian_data.Float.Defs.{Float64, gt}
use poly_asian_data.Risk.{nought}

-- A horizon is a number of seconds; the code treats a negative one as 0.
pub record SignalIn (F : Type 0) : Type 0 where
  pub time : ℕ
  pub signal_id : String
  pub strategy : String
  pub strategy_version_id : Option ℕ
  pub condition_id : String
  pub token_id : String
  pub market_id : String
  pub side : String
  pub action : String
  pub edge_bps : F
  pub conviction : F
  pub urgency : F
  pub size_usd : F
  pub capacity_usd : F
  pub cost_bps : F
  pub mid : F
  pub horizon_sec : ℕ
  pub kelly_frac : Option F
  pub spread_bps : F
  pub fv_source : String
  pub score_path : String

pub record PricePoint (F : Type 0) : Type 0 where
  pub time : ℕ
  pub mid : F

abbrev pub PriceIndex : Type 0 → Type 0
PriceIndex F = Dict (List (PricePoint F))

-- While a trade is open, `exit_time` is the planned exit.
pub record Trade (F : Type 0) : Type 0 where
  pub signal_id : String
  pub condition_id : String
  pub token_id : String
  pub side : String
  pub size_usd : F
  pub shares : F
  pub entry_time : ℕ
  pub entry_mid : F
  pub exit_time : ℕ
  pub exit_mid : F
  pub cost_usd : F
  pub pnl_usd : F
  pub closed : Bool
  pub edge_bps : F
  pub conviction : F

pub record EquityPoint (F : Type 0) : Type 0 where
  pub time : ℕ
  pub equity : F

-- The results of `EntryFill`.
pub record Fill (F : Type 0) : Type 0 where
  pub shares : F
  pub cost_usd : F
  pub entry_mid : F

pub record WorthinessFilter (F : Type 0) : Type 0 where
  pub min_edge_bps : F
  pub max_spread_bps : F
  pub require_fv : Bool

pub record SpotCheck (F : Type 0) : Type 0 where
  pub signal_id : String
  pub condition_id : String
  pub signal_mid : F
  pub series_mid : F
  pub cost_bps : F
  pub is_ok : Bool
  pub detail : String

module _ {F : Type 0} ⦃fl : Float64 F⦄ where
  open fl use {lit, sub, mul, div, neg, abs, lt, le}

  unfoldable pub entry_fill : String → F → F → F → Fill F
  entry_fill side size_usd mid cost_bps =
      if le mid nought || le size_usd nought
      then record { shares = nought; cost_usd = nought; entry_mid = mid }
      else record {
        shares = div size_usd mid;
        cost_usd = div (mul size_usd (abs cost_bps)) (lit 10_000 0);
        entry_mid = mid;
      }

  unfoldable pub realize_pnl : String → F → F → F → F → F
  realize_pnl side shares entry_mid exit_mid cost_usd =
      if le shares nought
      then neg cost_usd
      else if str_eq side "SELL"
      then sub (mul shares (sub entry_mid exit_mid)) cost_usd
      else sub (mul shares (sub exit_mid entry_mid)) cost_usd

  -- The loop of `MidAsOf`, with the mid found so far.
  unfoldable pub mid_from : ℕ → F → List (PricePoint F) → F
  mid_from t best [] = best
  mid_from t best (p ∷ ps) = let rest = mid_from t p.mid ps in if ltb t p.time then best else rest

  unfoldable pub mid_as_of : List (PricePoint F) → ℕ → F
  unfolding mid_from
  mid_as_of points t = mid_from t nought points

  -- `prices[id]`, which is empty for an ID that is missing.
  abbrev pub points_of : PriceIndex F → String → List (PricePoint F)
  points_of prices id = or_empty (lookup id prices)
    where
      or_empty : Option (List (PricePoint F)) → List (PricePoint F)
      or_empty none = []
      or_empty (some ps) = ps

  abbrev is_unset : WorthinessFilter F → Bool
  is_unset f = le f.min_edge_bps nought && le f.max_spread_bps nought && not f.require_fv

  -- What the loop of `ApplyWorthiness` lets pass.
  abbrev pub clears : WorthinessFilter F → SignalIn F → Bool
  clears f s =
      not (gt f.min_edge_bps nought && lt (abs s.edge_bps) f.min_edge_bps)
      && not (gt f.max_spread_bps nought && gt s.spread_bps f.max_spread_bps)
      && not (
          f.require_fv
          && (is_empty s.fv_source || str_eq s.fv_source "none" || str_eq s.score_path "proxy"))

  unfoldable pub apply_worthiness : List (SignalIn F) → WorthinessFilter F → List (SignalIn F)
  apply_worthiness sigs f = if is_unset f then sigs else keep (clears f) sigs

  -- `WorthinessFilter.Note`
  abbrev pub note : WorthinessFilter F → String
  note f =
      if is_unset f
      then ""
      else "worthiness_filter applied (replay); live emit still uses ws-listener gates"

  -- The relative difference of the two mids is below 5%.
  abbrev agrees : F → F → Bool
  agrees mid series = lt (div (abs (sub mid series)) series) (lit 5 2)

  -- The cases of the switch in `SpotCheckFills`.
  unfoldable pub spot_check : PriceIndex F → SignalIn F → SpotCheck F
  spot_check prices s =
      let series = mid_as_of (points_of prices s.token_id) s.time in
      let found : Bool → String → SpotCheck F = λ ok why. record {
        signal_id = s.signal_id;
        condition_id = s.condition_id;
        signal_mid = s.mid;
        series_mid = series;
        cost_bps = s.cost_bps;
        is_ok = ok;
        detail = why;
      } in
      if le s.mid nought && le series nought
      then found false "no mid on signal or series"
      else if le s.mid nought && gt series nought
      then found true "signal mid empty; series has mid (eval uses series)"
      else if le series nought
      then found true "no series point at T; eval uses signal mid"
      else if agrees s.mid series
      then found true ""
      else found false "signal mid vs series mid disagree >5%"

  unfoldable pub spot_check_fills : List (SignalIn F) → PriceIndex F → ℕ → List (SpotCheck F)
  spot_check_fills sigs prices n = check_each (take (if leb n 0 then 2 else n) sigs)
    where
      check_each : List (SignalIn F) → List (SpotCheck F)
      check_each [] = []
      check_each (s ∷ ss) = spot_check prices s ∷ check_each ss
