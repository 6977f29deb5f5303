-- ===== src/Sim/Process.antt =====
-- internal/signaleval/sim.go: one signal (`processOne`), and one batch of them (`rankAndProcess`).
use mathlib.Core.List.{map}
use poly_asian_data.Base.{
  ℕ, ◌+◌, ◌*◌, String, Bool, true, false, not, ◌&&◌, ◌||◌, List, [], ◌∷◌, ◌++◌, Option, none, some,
  leb, if◌then◌else◌, get_elem?, length, is_empty, str_eq,
}
use poly_asian_data.Base.Dict.{Dict, insert, lookup}
use poly_asian_data.Float.Defs.{Float64, gt}
use poly_asian_data.Best.{keep_best}
use poly_asian_data.Risk.{Config, nought}
use poly_asian_data.Risk.Rank.{opportunity_score, build_rank_order}
use poly_asian_data.Risk.Manager.{
  State, ok, Reason, SignalInput, Decision, Position, Manager, gross_exposure, on_open,
}
use poly_asian_data.Risk.Accept.{accept}
use poly_asian_data.Sim.{SignalIn, Trade, Fill, PriceIndex, points_of, mid_as_of, entry_fill}
use poly_asian_data.Sim.Ledger.{MapOrder, Ledger, close_due, flatten_all}

-- The variables of `Simulate`.
pub record Sim (F : Type 0) : Type 0 where
  pub ledger : Ledger F
  pub reject_reasons : Dict ℕ
  pub accepted_edges : List F
  pub rejected_budget_edges : List F
  pub accepted_conv : List F
  pub rejected_budget_conv : List F

-- The texts of the reasons, which are the keys of the counts.
unfoldable pub reason_text : Reason → String
reason_text Reason.accepted = "ok"
reason_text Reason.day_halt = "halted_day"
reason_text Reason.dd_halt = "halted_dd"
reason_text Reason.max_positions = "max_positions"
reason_text Reason.already_open = "already_open"
reason_text Reason.max_gross = "max_gross"
reason_text Reason.size_zero = "size_zero"
reason_text Reason.invalid_signal = "invalid_signal"

abbrev is_budget : Reason → Bool
is_budget Reason.max_gross = true
is_budget Reason.max_positions = true
is_budget _ = false

abbrev count_at : Option ℕ → ℕ
count_at none = 0
count_at (some n) = n

-- `m[k]++`
unfoldable pub bump : String → Dict ℕ → Dict ℕ
bump k m = insert k (count_at (lookup k m) + 1) m

abbrev pub second_ns : ℕ
second_ns = 1_000_000_000

abbrev is_running : State → Bool
is_running ok = true
is_running _ = false

module _ {F : Type 0} ⦃fl : Float64 F⦄ where
  open fl use {abs, le}

  abbrev pub reject : String → Sim F → Sim F
  reject why s = record s { reject_reasons = bump why s.reject_reasons }

  abbrev pub reject_budget : SignalIn F → Sim F → Sim F
  reject_budget sig s = record s {
    rejected_budget_edges = s.rejected_budget_edges ++ abs sig.edge_bps ∷ [];
    rejected_budget_conv = s.rejected_budget_conv ++ sig.conviction ∷ [];
  }

  abbrev pub input_of : SignalIn F → SignalInput F
  input_of sig = record {
    time = sig.time;
    condition_id = sig.condition_id;
    side = sig.side;
    size_usd = sig.size_usd;
    edge_bps = sig.edge_bps;
    conviction = sig.conviction;
    capacity_usd = sig.capacity_usd;
    urgency = sig.urgency;
    kelly_frac = sig.kelly_frac;
  }

  abbrev pub horizon_of : ℕ → SignalIn F → ℕ
  horizon_of default_ns sig =
      if leb (sig.horizon_sec * second_ns) 0 then default_ns else sig.horizon_sec * second_ns

  -- The trade of an accepted signal; `exit_time` is the planned exit.
  unfoldable pub trade_of : ℕ → SignalIn F → F → Fill F → Trade F
  trade_of default_ns sig size fill = record {
    signal_id = sig.signal_id;
    condition_id = sig.condition_id;
    token_id = sig.token_id;
    side = sig.side;
    size_usd = size;
    shares = fill.shares;
    entry_time = sig.time;
    entry_mid = fill.entry_mid;
    exit_time = sig.time + horizon_of default_ns sig;
    exit_mid = nought;
    cost_usd = fill.cost_usd;
    pnl_usd = nought;
    closed = false;
    edge_bps = sig.edge_bps;
    conviction = sig.conviction;
  }

  abbrev pub position_of : SignalIn F → F → Fill F → Position F
  position_of sig size fill = record {
    condition_id = sig.condition_id;
    side = sig.side;
    size_usd = size;
    shares = fill.shares;
    entry_mid = fill.entry_mid;
    opened_at = sig.time;
    signal_id = sig.signal_id;
  }

  -- The ledger with the trade of the signal, which the manager opens.
  unfoldable pub open_trade : ℕ → SignalIn F → F → Fill F → Ledger F → Ledger F
  open_trade default_ns sig size fill l =
      let m = on_open l.mgr (position_of sig size fill) in
      record {
        mgr = m;
        trades = l.trades ++ trade_of default_ns sig size fill ∷ [];
        open_by_cond = insert sig.condition_id (length l.trades) l.open_by_cond;
        curve = l.curve ++ record { time = sig.time; equity = m.equity } ∷ [];
      }

  -- The mid of a signal, or the last price at its time.
  unfoldable pub mid_of : PriceIndex F → SignalIn F → F
  mid_of prices sig =
      if le sig.mid nought then mid_as_of (points_of prices sig.token_id) sig.time else sig.mid

  -- `processOne` behind the decision.
  unfoldable pub settle_decision : PriceIndex F → ℕ → SignalIn F → Decision F → Sim F → Sim F
  settle_decision prices default_ns sig d s =
      let mid = mid_of prices sig in
      let fill = entry_fill sig.side d.size_usd mid sig.cost_bps in
      if not d.accept
      then reject (reason_text d.reason) (if is_budget d.reason then reject_budget sig s else s)
      else if le mid nought
      then reject "no_mid" s
      else if le fill.shares nought
      then reject "size_zero" s
      else record s {
        ledger = open_trade default_ns sig d.size_usd fill s.ledger;
        accepted_edges = s.accepted_edges ++ abs sig.edge_bps ∷ [];
        accepted_conv = s.accepted_conv ++ sig.conviction ∷ [];
      }

module _ {F : Type 0} ⦃fl : Float64 F⦄ ⦃walk : MapOrder F⦄ where
  -- What `processOne` closes before it asks the manager.
  unfoldable pub close_first : PriceIndex F → ℕ → Ledger F → Ledger F
  close_first prices now l = flatten_all prices now (close_due prices now l)

  unfoldable pub process_one : PriceIndex F → ℕ → SignalIn F → Sim F → Sim F
  process_one prices default_ns sig s =
      let l = close_first prices sig.time s.ledger in
      let (m, d) = accept l.mgr (input_of sig) in
      settle_decision prices default_ns sig d (record s { ledger = record l { mgr = m } })

module _ {F : Type 0} ⦃fl : Float64 F⦄ where
  open fl use {sub, lt}

  unfoldable pub auction_budget_bound : Manager F → Bool
  auction_budget_bound m =
      if not (is_running m.state)
      then false
      else if leb m.cfg.max_positions (length m.positions)
      then true
      else lt (sub m.cfg.max_gross_usd (gross_exposure m)) m.cfg.min_size_usd

  abbrev pub dedupe_key : SignalIn F → String
  dedupe_key s = if is_empty s.condition_id then s.token_id else s.condition_id

  abbrev pub score_of : Config F → SignalIn F → F
  score_of cfg s = opportunity_score cfg s.edge_bps s.conviction s.urgency

  abbrev pub beats : Config F → SignalIn F → SignalIn F → Bool
  beats cfg s old = gt (score_of cfg s) (score_of cfg old)

  unfoldable pub dedupe_best_per_condition : Config F → List (SignalIn F) → List (SignalIn F)
  dedupe_best_per_condition cfg batch = keep_best (beats cfg) dedupe_key batch

  -- The batch is reduced to one signal of a condition.
  abbrev pub dedupes : Config F → Bool
  dedupes cfg =
      str_eq cfg.auction_dedupe "condition" || (cfg.auction_enabled && is_empty cfg.auction_dedupe)

  abbrev pub offered : Config F → List (SignalIn F) → List (SignalIn F)
  offered cfg batch = if dedupes cfg then dedupe_best_per_condition cfg batch else batch

  abbrev pub rank_order : Config F → List (SignalIn F) → List ℕ
  rank_order cfg batch =
      build_rank_order cfg (map (λ s. s.edge_bps) batch) (map (λ s. s.conviction) batch)
        (map (λ s. s.urgency) batch)

module _ {F : Type 0} ⦃fl : Float64 F⦄ ⦃walk : MapOrder F⦄ where
  -- A round of the loop over the rank order, on the signal at its index.
  unfoldable pub offer_one : PriceIndex F → ℕ → Bool → SignalIn F → Sim F → Sim F
  offer_one prices default_ns outrank_rest sig s =
      if outrank_rest && auction_budget_bound s.ledger.mgr
      then reject "outranked" (reject_budget sig s)
      else process_one prices default_ns sig s

  -- That loop. `none` is the panic of an index out of range.
  unfoldable pub offer_all :
      PriceIndex F → ℕ → Bool → List (SignalIn F) → List ℕ → Sim F → Option (Sim F)
  offer_all prices default_ns outrank_rest batch [] s = some s
  offer_all prices default_ns outrank_rest batch (i ∷ order) s = elim (get_elem? batch i) [
    | none ↦ none
    | some sig ↦
        offer_all prices default_ns outrank_rest batch order
          (offer_one prices default_ns outrank_rest sig s)
  ]

  -- `rankAndProcess`
  unfoldable pub rank_and_process :
      PriceIndex F → ℕ → Config F → Bool → List (SignalIn F) → Sim F → Option (Sim F)
  rank_and_process prices default_ns cfg outrank_rest [] s = some s
  rank_and_process prices default_ns cfg outrank_rest (b ∷ bs) s =
      let batch = offered cfg (b ∷ bs) in
      offer_all prices default_ns outrank_rest batch (rank_order cfg batch) s
