-- ===== src/Sim/Ledger.antt =====
-- internal/signaleval/sim.go: what the simulation holds open, and how it closes it.
use poly_asian_data.Base.{
  ◌≡◌, ℕ, String, Bool, true, false, not, ◌&&◌, List, [], ◌∷◌, ◌++◌, Option, none, some, ltb, ◌==◌,
  if◌then◌else◌, get_elem?,
}
use poly_asian_data.Base.Update.{set_at}
use poly_asian_data.Base.Dict.{Dict, delete, lookup, IsKeyed}
use poly_asian_data.Float.Defs.{Float64, gt}
use poly_asian_data.Risk.{nought}
use poly_asian_data.Risk.Manager.{Manager, on_close, record_period_return, should_flatten_all}
use poly_asian_data.Sim.{Trade, EquityPoint, PriceIndex, points_of, mid_as_of, realize_pnl}

-- The variables of `Simulate` that closing a trade changes: the manager, the slice of trades, the
-- index of the open trade of a condition, and the equity curve.
pub record Ledger (F : Type 0) : Type 0 where
  pub mgr : Manager F
  pub trades : List (Trade F)
  pub open_by_cond : Dict ℕ
  pub curve : List (EquityPoint F)

-- The order in which the loops over the map `openByCond` visit its entries, which Go leaves open: each
-- key once, with its value. The order is chosen anew for every ledger: a loop that closes a trade
-- changes the ledger, so that no two such loops of a run start from the same one.
pub record MapOrder (F : Type 0) : Type 0 where
  pub entries : Ledger F → Dict ℕ
  pub keyed : (s : Ledger F) → IsKeyed s.open_by_cond → IsKeyed (entries s)
  pub same :
      (s : Ledger F) (k : String)
      → IsKeyed s.open_by_cond
      → lookup k (entries s) ≡ lookup k s.open_by_cond

module _ {F : Type 0} ⦃fl : Float64 F⦄ where
  open fl use {div, le}

  -- The exit price of `closeTrade`.
  unfoldable pub exit_mid_of : PriceIndex F → Trade F → ℕ → F
  exit_mid_of prices tr at =
      let mid = mid_as_of (points_of prices tr.token_id) at in
      if le mid nought then tr.entry_mid else mid

  unfoldable pub pnl_of : PriceIndex F → Trade F → ℕ → F
  pnl_of prices tr at =
      realize_pnl tr.side tr.shares tr.entry_mid (exit_mid_of prices tr at) tr.cost_usd

  -- The trade that `closeTrade` leaves.
  unfoldable pub settled : PriceIndex F → Trade F → ℕ → Trade F
  settled prices tr at = record tr {
    exit_mid = exit_mid_of prices tr at;
    exit_time = at;
    pnl_usd = pnl_of prices tr at;
    closed = true;
  }

  -- The manager that `closeTrade` leaves.
  unfoldable pub book_close : Manager F → String → F → ℕ → Manager F
  book_close m id pnl at =
      let m' = on_close m id pnl at in
      if gt m.equity nought then record_period_return m' (div pnl m.equity) else m'

  -- `closeTrade` of the trade `tr` at index `i` of the slice.
  unfoldable pub close_trade : PriceIndex F → ℕ → Trade F → ℕ → Ledger F → Ledger F
  close_trade prices i tr at s =
      let m = book_close s.mgr tr.condition_id (pnl_of prices tr at) at in
      if tr.closed then s else record s {
        mgr = m;
        trades = set_at i (settled prices tr at) s.trades;
        curve = s.curve ++ record { time = at; equity = m.equity } ∷ [];
      }

  abbrev pub drop_open : String → Ledger F → Ledger F
  drop_open cond s = record s { open_by_cond = delete cond s.open_by_cond }

  -- A round of a loop over `openByCond` on the trade `tr` at index `i`, which may be closed: `due` is
  -- the time at which to close it, and `tidy` says whether the entry of a closed trade is deleted.
  unfoldable pub visit_entry :
      PriceIndex F → Bool → String → ℕ → Trade F → Ledger F → Bool → Option ℕ → Ledger F
  visit_entry prices tidy cond i tr s true due = if tidy then drop_open cond s else s
  visit_entry prices tidy cond i tr s false none = s
  visit_entry prices tidy cond i tr s false (some at) =
      drop_open cond (close_trade prices i tr at s)

  -- The round, on what stands at the index of the entry.
  unfoldable pub visit_trade :
      PriceIndex F
      → Bool
      → (Trade F → Option ℕ)
      → String
      → ℕ
      → Option (Trade F)
      → Ledger F
      → Ledger F
  visit_trade prices tidy plan cond i none s = s
  visit_trade prices tidy plan cond i (some tr) s =
      visit_entry prices tidy cond i tr s tr.closed (plan tr)

  -- The loop, over the entries that it starts with: a round deletes no entry but its own.
  unfoldable pub sweep : PriceIndex F → Bool → (Trade F → Option ℕ) → Dict ℕ → Ledger F → Ledger F
  sweep prices tidy plan [] s = s
  sweep prices tidy plan ((cond, i) ∷ entries) s =
      sweep prices tidy plan entries (visit_trade prices tidy plan cond i (get_elem? s.trades i) s)

  -- The planned exit of a trade, once `now` has reached it.
  abbrev pub due_at : ℕ → Trade F → Option ℕ
  due_at now tr =
      if not (tr.exit_time == 0) && not (ltb now tr.exit_time) then some tr.exit_time else none

module _ {F : Type 0} ⦃fl : Float64 F⦄ ⦃walk : MapOrder F⦄ where
  unfoldable pub close_due : PriceIndex F → ℕ → Ledger F → Ledger F
  close_due prices now s = sweep prices true (due_at now) (walk.entries s) s

  unfoldable pub flatten_all : PriceIndex F → ℕ → Ledger F → Ledger F
  flatten_all prices now s =
      if should_flatten_all (some s.mgr)
      then sweep prices true (λ tr. some now) (walk.entries s) s
      else s

  -- The loop at the end of `Simulate`, which leaves the entries of closed trades.
  unfoldable pub force_close : PriceIndex F → ℕ → Ledger F → Ledger F
  force_close prices end_t s = sweep prices false (λ tr. some end_t) (walk.entries s) s
