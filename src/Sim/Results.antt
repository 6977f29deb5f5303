-- ===== src/Sim/Results.antt =====
-- What `Simulate` promises of its result, and what a halt by drawdown does to the simulation.
use mathlib.Core.List.{Perm}
use mathlib.Core.List.Perm
use poly_asian_data.Base.{ℕ, ◌≡◌, refl, ap, subst, true, List, [], some, arith, length, All}
use poly_asian_data.Base.Update.{last, last-append}
use poly_asian_data.Float.Defs.{Float64, IsOrdered}
use poly_asian_data.Sort.{stable_sort}
use poly_asian_data.Risk.{Config, normalize}
use poly_asian_data.Risk.Manager.{new_manager}
use poly_asian_data.Risk.Halts.{perform_all}
use poly_asian_data.Sim.{SignalIn, Trade, PriceIndex}
use poly_asian_data.Sim.Ledger.{MapOrder}
use poly_asian_data.Sim.Process.{Sim}
use poly_asian_data.Sim.Run.{
  SimConfig, Result, earlier, end_time, start_sim, close_out, finish, metrics_of, horizon_default,
  periods_default, simulate,
}
use poly_asian_data.Sim.Valid.{equity_of}
use poly_asian_data.Sim.Offered.{total_offered, process_all_keeps}
use poly_asian_data.Sim.Account.{Held, process_one-Held, reject-Held}
use poly_asian_data.Sim.Booked.{
  Booked, IsPriced, booked, close_out-Booked, process_one-Booked, keep_whole,
}
use poly_asian_data.Sim.Closed.{keep_none, close_out-Flat}

module _ {F : Type 0} ⦃fl : Float64 F⦄ where
  module _ ⦃walk : MapOrder F⦄ (laws : IsOrdered F fl) (cfg : SimConfig F) (now : ℕ)
      (signals : List (SignalIn F)) (prices : PriceIndex F) where
    abbrev rcfg : Config F
    rcfg = normalize cfg.risk

    abbrev sigs : List (SignalIn F)
    sigs = stable_sort earlier signals

    abbrev default_ns : ℕ
    default_ns = horizon_default cfg.default_horizon

    abbrev end_t : ℕ
    end_t = end_time now default_ns sigs

    abbrev start_equity : F
    start_equity = (start_sim rcfg sigs).ledger.mgr.equity

    abbrev result_of : Sim F → Result F
    result_of s =
        finish prices end_t rcfg (periods_default cfg.periods_per_year) (length sigs) start_equity s

    -- The starting equity survives the second normalization, that of NewManager.
    start_equity_lem : start_equity ≡ rcfg.starting_equity_usd
    unfolding start_sim new_manager normalize
    start_equity_lem =
        ground (arith, laws.lit-lt 0 0 10_000 0, laws.lt-not-le (fl.lit 0 0) (fl.lit 10_000 0))

    pub start_sim-Held : Held rcfg 0 (start_sim rcfg sigs)
    unfolding start_sim new_manager perform_all
    start_sim-Held = record {
      valid = record {
        keyed = tt;
        linked = λ k i e. cc;
        listed = λ i tr e c. cc;
        same = λ k. refl;
        marked = refl;
      };
      reached = ([], refl);
      counted = refl;
    }

    -- Simulate does not index out of range, and what its main loop ends with is sound.
    simulate-Held :
        (s : Sim F) × (simulate cfg now signals prices ≡ some (result_of s))
        × Held rcfg (total_offered rcfg sigs) s
        × Booked start_equity s.ledger
    unfolding simulate start_sim
    simulate-Held =
        let (s, e, (h, b)) =
          process_all_keeps prices default_ns rcfg
            (λ n s. Held rcfg n s × Booked start_equity s.ledger)
            (λ sig n s h. (
              process_one-Held prices laws default_ns rcfg sig n s h.0,
              process_one-Booked start_equity prices default_ns sig s h.0.valid h.1,
            ))
            (λ sig n s h. (reject-Held rcfg sig n s h.0, h.1)) sigs 0 (start_sim rcfg sigs)
            (
              start_sim-Held,
              record { order = []; each_once = Perm.refl []; adds_up = refl; priced = tt },
            ) in
        (s, rw e refl, subst (λ n. Held rcfg n s) (omega arith) h, b)

    -- In whatever order the map of the open trades is walked, Simulate returns a result, in which every trade is closed: NOpen is 0 and NClosed is NAccepted;
    -- and the last point of the equity curve has the ending equity.
    pub simulate_settles :
        (r : Result F) × (simulate cfg now signals prices ≡ some r)
        × All (λ tr. tr.closed ≡ true) r.trades
        × (r.metrics.n_open ≡ 0)
        × (r.metrics.n_closed ≡ r.metrics.n_accepted)
        × (equity_of (last r.equity_curve) ≡ some r.metrics.ending_equity_usd)
    unfolding finish metrics_of
    simulate_settles =
        let (s, e, h, b) = simulate-Held in
        let l = close_out prices end_t s.ledger in
        let flat = close_out-Flat prices end_t s.ledger h.valid in
        let (none_open, all) = keep_none l.trades flat.trades_closed in
        (result_of s, e, flat.trades_closed, none_open, all, ap equity_of (last-append l.curve _))

    -- In whatever order the map of the open trades is walked, Simulate returns a result whose ending equity is the starting equity of the configuration and the
    -- PnLs of the trades, each added once, in some order; and the PnL of every trade is that of its
    -- shares, its two mids and its cost.
    pub simulate-Booked :
        (r : Result F) × (order : List (Trade F)) × (simulate cfg now signals prices ≡ some r)
        × Perm order r.trades
        × (r.metrics.starting_equity_usd ≡ rcfg.starting_equity_usd)
        × (r.metrics.ending_equity_usd ≡ booked r.metrics.starting_equity_usd order)
        × All IsPriced order
    unfolding finish metrics_of
    simulate-Booked =
        let (s, e, h, b) = simulate-Held in
        let c = close_out-Booked start_equity prices end_t s.ledger h.valid b in
        let flat = close_out-Flat prices end_t s.ledger h.valid in
        (
          result_of s,
          c.order,
          e,
          subst (Perm c.order) (keep_whole _ flat.trades_closed) c.each_once,
          start_equity_lem,
          c.adds_up,
          c.priced,
        )
