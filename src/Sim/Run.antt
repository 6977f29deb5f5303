-- ===== src/Sim/Run.antt =====
-- internal/signaleval/sim.go: `Simulate`, window by window, and what it counts at the end.
use mathlib.Core.List.{foldl}
use poly_asian_data.Base.{
  ℕ, ◌+◌, ◌*◌, Bool, true, false, not, ◌&&◌, ◌||◌, List, [], ◌∷◌, ◌++◌, Option, none, some, ltb,
  leb, if◌then◌else◌, length, keep, sum_by,
}
use poly_asian_data.Base.Dict.{Dict}
use poly_asian_data.Float.Defs.{Float64, gt, ge}
use poly_asian_data.Sort.{stable_sort}
use poly_asian_data.Risk.{Config, nought, normalize}
use poly_asian_data.Risk.Manager.{Event, new_manager}
use poly_asian_data.Sim.{SignalIn, Trade, EquityPoint, PriceIndex}
use poly_asian_data.Sim.Equity.{EquityStats, compute_equity_stats}
use poly_asian_data.Sim.Ledger.{MapOrder, Ledger, close_due, flatten_all, force_close}
use poly_asian_data.Sim.Process.{Sim, process_one, rank_and_process}

-- A duration is in nanoseconds; the code treats a negative one as 0.
pub record SimConfig (F : Type 0) : Type 0 where
  pub risk : Config F
  pub default_horizon : ℕ
  pub periods_per_year : F

pub record SelectionQuality (F : Type 0) : Type 0 where
  pub mean_abs_edge_accepted : F
  pub mean_abs_edge_rejected : F
  pub mean_conviction_accepted : F
  pub mean_conviction_rejected : F
  pub prefer_higher_edge : Bool

-- The metrics, those of the equity curve as its statistics.
pub record Metrics (F : Type 0) : Type 0 where
  pub n_signals : ℕ
  pub n_accepted : ℕ
  pub n_rejected_risk : ℕ
  pub n_closed : ℕ
  pub n_open : ℕ
  pub hit_rate : F
  pub total_pnl_usd : F
  pub avg_trade_pnl_usd : F
  pub turnover : F
  pub reject_reasons : Dict ℕ
  pub starting_equity_usd : F
  pub ending_equity_usd : F
  pub selection_quality : Option (SelectionQuality F)
  pub stats : EquityStats F

pub record Result (F : Type 0) : Type 0 where
  pub metrics : Metrics F
  pub trades : List (Trade F)
  pub risk_events : List Event
  pub equity_curve : List (EquityPoint F)
  pub risk_cfg : Config F

abbrev hour_ns : ℕ
hour_ns = 3_600_000_000_000

abbrev pub earlier : {F : Type 0} → SignalIn F → SignalIn F → Bool
earlier a b = ltb a.time b.time

abbrev pub n_rejected : Dict ℕ → ℕ
n_rejected reasons = sum_by (λ e. e.1) reasons

abbrev pub horizon_default : ℕ → ℕ
horizon_default ns = if leb ns 0 then hour_ns else ns

module _ {F : Type 0} ⦃fl : Float64 F⦄ where
  -- The batches that the loops over the sorted signals make: a batch takes what follows its first
  -- signal by at most `win`. `batch` is the one under way, which began at `start`.
  unfoldable pub windows_from :
      ℕ → ℕ → List (SignalIn F) → List (SignalIn F) → List (List (SignalIn F))
  windows_from win start batch [] = batch ∷ []
  windows_from win start batch (s ∷ ss) =
      let is_in = leb s.time (start + win) in
      let rest =
        windows_from win (if is_in then start else s.time)
          (if is_in then batch ++ s ∷ [] else s ∷ []) ss in
      if is_in then rest else batch ∷ rest

  unfoldable pub windows : ℕ → List (SignalIn F) → List (List (SignalIn F))
  windows win [] = []
  windows win (s ∷ ss) = windows_from win s.time (s ∷ []) ss

module _ {F : Type 0} ⦃fl : Float64 F⦄ ⦃walk : MapOrder F⦄ where
  -- `rankAndProcess` on each batch in turn.
  unfoldable pub process_windows :
      PriceIndex F → ℕ → Config F → Bool → List (List (SignalIn F)) → Sim F → Option (Sim F)
  process_windows prices default_ns cfg outrank_rest [] s = some s
  process_windows prices default_ns cfg outrank_rest (w ∷ ws) s =
      elim (rank_and_process prices default_ns cfg outrank_rest w s) [
        | none ↦ none
        | some s' ↦ process_windows prices default_ns cfg outrank_rest ws s'
      ]

  unfoldable pub process_each : PriceIndex F → ℕ → List (SignalIn F) → Sim F → Sim F
  process_each prices default_ns [] s = s
  process_each prices default_ns (sig ∷ sigs) s =
      process_each prices default_ns sigs (process_one prices default_ns sig s)

module _ {F : Type 0} ⦃fl : Float64 F⦄ where
  -- The windows of an auction and of a burst, in nanoseconds.
  abbrev pub alloc_window : Config F → ℕ
  alloc_window cfg =
      (if leb cfg.alloc_window_sec 0 then 60 else cfg.alloc_window_sec) * 1_000_000_000

  abbrev pub burst_window : Config F → ℕ
  burst_window cfg = cfg.batch_window_ms * 1_000_000

module _ {F : Type 0} ⦃fl : Float64 F⦄ ⦃walk : MapOrder F⦄ where
  -- The main loop, on sorted signals.
  unfoldable pub process_all :
      PriceIndex F → ℕ → Config F → List (SignalIn F) → Sim F → Option (Sim F)
  process_all prices default_ns cfg sigs s =
      if cfg.auction_enabled
      then process_windows prices default_ns cfg true (windows (alloc_window cfg) sigs) s
      else if leb (burst_window cfg) 0
      then some (process_each prices default_ns sigs s)
      else process_windows prices default_ns cfg false (windows (burst_window cfg) sigs) s

module _ {F : Type 0} ⦃fl : Float64 F⦄ where
  abbrev first_time : List (SignalIn F) → ℕ
  first_time [] = 0
  first_time (s ∷ _) = s.time

  -- The time of the last signal and the horizon, or the time of the call when there is none.
  unfoldable pub end_time : ℕ → ℕ → List (SignalIn F) → ℕ
  end_time now default_ns [] = now
  end_time now default_ns (s ∷ []) = s.time + default_ns
  end_time now default_ns (s ∷ s' ∷ ss) = end_time now default_ns (s' ∷ ss)

  unfoldable pub start_sim : Config F → List (SignalIn F) → Sim F
  start_sim cfg sigs =
      let m = new_manager cfg in
      record {
        ledger = record {
          mgr = m;
          trades = [];
          open_by_cond = [];
          curve = record { time = first_time sigs; equity = m.equity } ∷ [];
        };
        reject_reasons = [];
        accepted_edges = [];
        rejected_budget_edges = [];
        accepted_conv = [];
        rejected_budget_conv = [];
      }

module _ {F : Type 0} ⦃fl : Float64 F⦄ ⦃walk : MapOrder F⦄ where
  -- What `Simulate` closes at the end.
  unfoldable pub close_out : PriceIndex F → ℕ → Ledger F → Ledger F
  close_out prices end_t l =
      flatten_all prices end_t (force_close prices end_t (close_due prices end_t l))

module _ {F : Type 0} ⦃fl : Float64 F⦄ where
  open fl use {lit, of_int, add, sub, div, le}

  abbrev pub mean : List F → F
  mean [] = nought
  mean (x ∷ xs) = div (foldl add nought (x ∷ xs)) (of_int (length (x ∷ xs)))

  abbrev is_nil : List F → Bool
  is_nil [] = true
  is_nil (_ ∷ _) = false

  -- `buildSelectionQuality`
  unfoldable pub build_selection_quality :
      List F → List F → List F → List F → Option (SelectionQuality F)
  build_selection_quality acc_e rej_e acc_c rej_c =
      if is_nil acc_e && is_nil rej_e
      then none
      else some (record {
        mean_abs_edge_accepted = mean acc_e;
        mean_abs_edge_rejected = mean rej_e;
        mean_conviction_accepted = mean acc_c;
        mean_conviction_rejected = mean rej_c;
        prefer_higher_edge = is_nil rej_e || ge (mean acc_e) (sub (mean rej_e) (lit 1 9));
      })

  abbrev pub is_closed : Trade F → Bool
  is_closed tr = tr.closed

  abbrev is_hit : Trade F → Bool
  is_hit tr = tr.closed && gt tr.pnl_usd nought

  abbrev sum_of : (Trade F → F) → List (Trade F) → F
  sum_of f trs = foldl (λ a tr. add a (f tr)) nought trs

  unfoldable pub metrics_of : ℕ → F → EquityStats F → Sim F → Metrics F
  metrics_of n_signals start_eq stats s =
      let trs = s.ledger.trades in
      let closed = keep is_closed trs in
      let n = length closed in
      let average : F → F = λ x. if leb n 0 then nought else div x (of_int n) in
      record {
        n_signals = n_signals;
        n_accepted = length trs;
        n_rejected_risk = n_rejected s.reject_reasons;
        n_closed = n;
        n_open = length (keep (λ tr. not tr.closed) trs);
        hit_rate = average (of_int (length (keep is_hit trs)));
        total_pnl_usd = sub s.ledger.mgr.equity start_eq;
        avg_trade_pnl_usd = average (sum_of (λ tr. tr.pnl_usd) closed);
        turnover = div (sum_of (λ tr. tr.size_usd) trs) start_eq;
        reject_reasons = s.reject_reasons;
        starting_equity_usd = start_eq;
        ending_equity_usd = s.ledger.mgr.equity;
        selection_quality =
            build_selection_quality s.accepted_edges s.rejected_budget_edges s.accepted_conv
              s.rejected_budget_conv;
        stats = stats;
      }

module _ {F : Type 0} ⦃fl : Float64 F⦄ ⦃walk : MapOrder F⦄ where
  -- The end of `Simulate`, behind its main loop.
  unfoldable pub finish : PriceIndex F → ℕ → Config F → F → ℕ → F → Sim F → Result F
  finish prices end_t cfg ppy n_signals start_eq s =
      let l = close_out prices end_t s.ledger in
      let curve = l.curve ++ record { time = end_t; equity = l.mgr.equity } ∷ [] in
      let stats = compute_equity_stats curve start_eq ppy in
      record {
        metrics = metrics_of n_signals start_eq stats (record s { ledger = l });
        trades = l.trades;
        risk_events = l.mgr.events;
        equity_curve = curve;
        risk_cfg = cfg;
      }

module _ {F : Type 0} ⦃fl : Float64 F⦄ where
  open fl use {lit, le}

  -- The periods of a year, by default its hours.
  abbrev pub periods_default : F → F
  periods_default ppy = if le ppy nought then lit 8760 0 else ppy

module _ {F : Type 0} ⦃fl : Float64 F⦄ ⦃walk : MapOrder F⦄ where
  abbrev finish_some : PriceIndex F → ℕ → Config F → F → ℕ → F → Option (Sim F) → Option (Result F)
  finish_some prices end_t cfg ppy n start_eq none = none
  finish_some prices end_t cfg ppy n start_eq (some s) =
      some (finish prices end_t cfg ppy n start_eq s)

  -- `Simulate` at the time `now`, but for the hash of the policy.
  unfoldable pub simulate : SimConfig F → ℕ → List (SignalIn F) → PriceIndex F → Option (Result F)
  simulate cfg now signals prices =
      let rcfg = normalize cfg.risk in
      let default_ns = horizon_default cfg.default_horizon in
      let sigs = stable_sort earlier signals in
      let start = start_sim rcfg sigs in
      finish_some prices (end_time now default_ns sigs) rcfg (periods_default cfg.periods_per_year)
        (length sigs) start.ledger.mgr.equity (process_all prices default_ns rcfg sigs start)
