-- ===== src/Risk/Halts.antt =====
-- What every sequence of operations on a manager keeps: the halts, the peak, the bounds.
use poly_asian_data.Base.{
  ℕ, ◌-◌, ◌≤◌, ◌≡◌, inl, inr, String, false, ◌&&◌, List, [], ◌∷◌, ◌++◌, arith, length,
  length-append, length-drop_exact, if◌then◌else◌, Bool-cases,
}
use poly_asian_data.Base.Dict.{delete, length-insert, length-delete-le}
use poly_asian_data.Float.Defs.{Float64, gt, ge, IsOrdered}
use poly_asian_data.Risk.{nought, Config}
use poly_asian_data.Risk.Manager.{
  ok, halted_dd, SignalInput, Position, Manager, maybe_roll_day, check_halts, book_pnl, apply_pnl,
  on_open, on_close, record_period_return, max_period_returns, drawdown_bps, daily_drawdown_bps,
  new_manager,
}
use poly_asian_data.Risk.Accept.{accept, accept_frame, accept-halted_dd, accept-Granted}

-- What a client does with a manager: it offers a signal and opens the position if it is accepted,
-- asks for a decision only, closes a position, books a result, or records a period's return.
pub data Operation (F : Type 0) : Type 0 where
  offer : SignalInput F → Position F → Operation F
  ask : SignalInput F → Operation F
  close : String → F → ℕ → Operation F
  book : F → ℕ → Operation F
  period : F → Operation F

module _ {F : Type 0} ⦃fl : Float64 F⦄ where
  open fl use {lt}

  -- `Accept`, then `OnOpen` for the same condition if it is accepted.
  unfoldable pub take_offer : Manager F → SignalInput F → Position F → Manager F
  take_offer m sig p =
      let (m', d) = accept m sig in
      if d.accept then on_open m' (record p { condition_id = sig.condition_id }) else m'

  unfoldable pub perform : Manager F → Operation F → Manager F
  perform m (offer sig p) = take_offer m sig p
  perform m (ask sig) = (accept m sig).0
  perform m (close id pnl at) = on_close m id pnl at
  perform m (book pnl at) = apply_pnl m pnl at
  perform m (period r) = record_period_return m r

  unfoldable pub perform_all : Manager F → List (Operation F) → Manager F
  perform_all m [] = m
  perform_all m (o ∷ os) = perform_all (perform m o) os

  pub check_halts_frame :
      (m : Manager F) (at : ℕ)
      → ((check_halts m at).equity ≡ m.equity)
        × ((check_halts m at).peak_equity ≡ m.peak_equity)
        × ((check_halts m at).positions ≡ m.positions)
        × ((check_halts m at).cfg ≡ m.cfg)
        × ((check_halts m at).period_returns ≡ m.period_returns)
        × ((check_halts m at).day_open_eq ≡ m.day_open_eq)
        × (m.state ≡ halted_dd → (check_halts m at).state ≡ halted_dd)
  unfolding check_halts
  check_halts_frame m at = ground arith

  pub book_pnl_frame :
      (m : Manager F) (pnl : F) (at : ℕ)
      → ((book_pnl m pnl at).positions ≡ m.positions)
        × ((book_pnl m pnl at).cfg ≡ m.cfg)
        × ((book_pnl m pnl at).period_returns ≡ m.period_returns)
        × (m.state ≡ halted_dd → (book_pnl m pnl at).state ≡ halted_dd)
  unfolding book_pnl
  book_pnl_frame m pnl at = ground arith

  -- The limits that a manager that is not halted keeps to.
  pub record WithinLimits (m : Manager F) : Type 0 where
    pub drawdown :
        gt m.cfg.max_drawdown_bps nought && ge (drawdown_bps m) m.cfg.max_drawdown_bps ≡ false
    pub daily :
        gt m.cfg.max_daily_drawdown_bps nought
          && ge (daily_drawdown_bps m) m.cfg.max_daily_drawdown_bps
        ≡ false

  check_halts-WithinLimits :
      (m : Manager F) (at : ℕ) → (check_halts m at).state ≡ ok → WithinLimits (check_halts m at)
  unfolding check_halts drawdown_bps daily_drawdown_bps
  check_halts-WithinLimits m at h = ground arith

  -- A manager that is running after a result is booked is within both drawdown limits.
  pub apply_pnl-WithinLimits :
      (m : Manager F) (pnl : F) (at : ℕ)
      → (apply_pnl m pnl at).state ≡ ok
      → WithinLimits (apply_pnl m pnl at)
  unfolding apply_pnl
  apply_pnl-WithinLimits m pnl at h = check_halts-WithinLimits (book_pnl m pnl at) at h

  pub perform-halted_dd :
      (m : Manager F) (o : Operation F) → m.state ≡ halted_dd → (perform m o).state ≡ halted_dd
  unfolding perform take_offer on_open on_close apply_pnl record_period_return
  perform-halted_dd m (offer sig p) h = ground (arith, accept-halted_dd m sig h)
  perform-halted_dd m (ask sig) h = (accept-halted_dd m sig h).1
  perform-halted_dd m (close id pnl at) h =
      let m' : Manager F = record m { positions = delete id m.positions } in
      ground (arith, book_pnl_frame m' pnl at, check_halts_frame (book_pnl m' pnl at) at)
  perform-halted_dd m (book pnl at) h =
      ground (arith, book_pnl_frame m pnl at, check_halts_frame (book_pnl m pnl at) at)
  perform-halted_dd m (period r) h = h

  -- Once the drawdown halt is on, it stays on through every sequence of operations, and every signal
  -- offered after them is rejected.
  pub halted_dd_absorbs :
      (m : Manager F) (os : List (Operation F)) (sig : SignalInput F)
      → m.state ≡ halted_dd
      → ((perform_all m os).state ≡ halted_dd) × ((accept (perform_all m os) sig).1.accept ≡ false)
  unfolding perform_all
  halted_dd_absorbs m [] sig h = (h, (accept-halted_dd m sig h).0)
  halted_dd_absorbs m (o ∷ os) sig h =
      halted_dd_absorbs (perform m o) os sig (perform-halted_dd m o h)

  -- Never more positions than the limit, never more period returns than are kept, and never an
  -- equity above the recorded peak.
  pub record Bounded (m : Manager F) : Type 0 where
    pub slots : length m.positions ≤ m.cfg.max_positions
    pub returns : length m.period_returns ≤ max_period_returns
    pub peak : gt m.equity m.peak_equity ≡ false

  module _ (laws : IsOrdered F fl) where
    open laws use {lt_irrefl}

    book_pnl-peak :
        (m : Manager F) (pnl : F) (at : ℕ)
        → gt (book_pnl m pnl at).equity (book_pnl m pnl at).peak_equity ≡ false
    unfolding book_pnl
    book_pnl-peak m pnl at = ground (arith, lt_irrefl (fl.add (maybe_roll_day m at).equity pnl))

    apply_pnl-Bounded :
        (m : Manager F) (pnl : F) (at : ℕ) → Bounded m → Bounded (apply_pnl m pnl at)
    unfolding apply_pnl
    apply_pnl-Bounded m pnl at b = ground (
      arith,
      book_pnl_frame m pnl at,
      check_halts_frame (book_pnl m pnl at) at,
      book_pnl-peak m pnl at,
    )

    take_offer-Bounded :
        (m : Manager F) (sig : SignalInput F) (p : Position F)
        → Bounded m
        → Bounded (take_offer m sig p)
    unfolding take_offer on_open
    take_offer-Bounded m sig p b = elim (Bool-cases (accept m sig).1.accept) [
      | inl a ↦
          let g = accept-Granted laws m sig a in
          rw a (
            ground (
              arith,
              accept_frame m sig,
              g.slot_free,
              length-insert sig.condition_id (record p { condition_id = sig.condition_id })
                  (accept m sig).0.positions,
            ))
      | inr a ↦ rw a (ground (arith, accept_frame m sig))
    ]

    perform-Bounded : (m : Manager F) (o : Operation F) → Bounded m → Bounded (perform m o)
    unfolding perform on_close record_period_return
    perform-Bounded m (offer sig p) b = take_offer-Bounded m sig p b
    perform-Bounded m (ask sig) b = ground (arith, accept_frame m sig)
    perform-Bounded m (close id pnl at) b =
        apply_pnl-Bounded (record m { positions = delete id m.positions }) pnl at
          (ground (arith, length-delete-le id m.positions))
    perform-Bounded m (book pnl at) b = apply_pnl-Bounded m pnl at b
    perform-Bounded m (period r) b =
        let rs = m.period_returns ++ r ∷ [] in
        ground (
          arith,
          length-append m.period_returns (r ∷ []),
          length-drop_exact (length rs - max_period_returns) rs,
        )

    perform_all-Bounded :
        (m : Manager F) (os : List (Operation F)) → Bounded m → Bounded (perform_all m os)
    unfolding perform_all
    perform_all-Bounded m [] b = b
    perform_all-Bounded m (o ∷ os) b = perform_all-Bounded (perform m o) os (perform-Bounded m o b)

    -- From a new manager on, whatever is offered, closed, booked and recorded, in whatever order:
    -- open positions keep to MaxPositions, at most 500 period returns are kept, and the recorded
    -- peak is not below the equity.
    pub session-Bounded :
        (c : Config F) (os : List (Operation F)) → Bounded (perform_all (new_manager c) os)
    unfolding new_manager
    session-Bounded c os =
        perform_all-Bounded (new_manager c) os
          (record { slots = omega arith; returns = omega arith; peak = lt_irrefl _ })
