-- ===== src/Risk/Accept.antt =====
-- internal/risk/manager.go: `Accept`, and what an accepted decision guarantees.
use poly_asian_data.Base.{
  ◌≤◌, ◌<◌, ◌≡◌, refl, ◌⊎◌, Bool, true, false, not, ◌&&◌, ◌||◌, [], ◌∷◌, ◌++◌, arith, Bool-cases,
  inl, inr, leb, str_eq, is_empty, if◌then◌else◌, length,
}
use poly_asian_data.Base.Dict.{has}
use poly_asian_data.Float.Defs.{Float64, gt, IsOrdered}
use poly_asian_data.Risk.{nought, unit, Config}
use poly_asian_data.Risk.Rank.{opportunity_score}
use poly_asian_data.Risk.Manager.{
  ok, halted_day, halted_dd, Reason, SignalInput, Decision, Manager, is_halted_day, is_halted_dd,
  maybe_roll_day, gross_exposure, day_of,
}
use poly_asian_data.Risk.Sizing.{cap_size-position, cap_size-capacity, compute_size, raw_size}

module _ {F : Type 0} ⦃fl : Float64 F⦄ where
  open fl use {lit, sub, mul, lt, le}

  abbrev reject : Decision F → Reason → Decision F
  reject d why = record d { reason = why }

  -- A condition ID, and BUY or SELL.
  abbrev pub is_valid_signal : SignalInput F → Bool
  is_valid_signal sig =
      not (is_empty sig.condition_id) && (str_eq sig.side "BUY" || str_eq sig.side "SELL")

  -- `Accept` from the computed size on.
  unfoldable pub fit_size : Manager F → Decision F → F → Decision F
  fit_size m d size =
      let room = sub m.cfg.max_gross_usd (gross_exposure m) in
      let fitted = if gt size room then room else size in
      if lt size m.cfg.min_size_usd
      then reject d Reason.size_zero
      else if lt room m.cfg.min_size_usd
      then reject d Reason.max_gross
      else if lt fitted m.cfg.min_size_usd
      then reject d Reason.max_gross
      else record d { accept = true; size_usd = fitted }

  -- `Accept` behind the roll of the day.
  unfoldable pub decide : Manager F → SignalInput F → Decision F → Decision F
  decide m sig d =
      let s = compute_size m sig in
      if is_halted_dd m.state
      then reject d Reason.dd_halt
      else if is_halted_day m.state
      then reject d Reason.day_halt
      else if has sig.condition_id m.positions
      then reject d Reason.already_open
      else if leb m.cfg.max_positions (length m.positions)
      then reject d Reason.max_positions
      else fit_size m (record d { kelly_frac = s.1; scale = s.2 }) s.0

  abbrev pub first_decision : Config F → SignalInput F → Decision F
  first_decision cfg sig = record {
    accept = false;
    size_usd = nought;
    reason = Reason.accepted;
    kelly_frac = nought;
    scale = unit;
    opportunity_score = opportunity_score cfg sig.edge_bps sig.conviction sig.urgency;
  }

  -- `Accept` of a manager that is not nil, with the manager that it leaves.
  unfoldable pub accept : Manager F → SignalInput F → Manager F × Decision F
  accept m sig =
      let d = first_decision m.cfg sig in
      let r = maybe_roll_day m sig.time in
      if is_valid_signal sig then (r, decide r sig d) else (m, reject d Reason.invalid_signal)

  -- What an accepted decision says of the manager that decided. The limits on the size are the
  -- comparisons as Accept makes them, which are all false of a NaN: it accepts a size that is a NaN.
  pub record Granted (m : Manager F) (sig : SignalInput F) (size : F) : Type 0 where
    pub running : m.state ≡ ok
    pub signal_valid : is_valid_signal sig ≡ true
    pub not_open : has sig.condition_id m.positions ≡ false
    pub slot_free : length m.positions < m.cfg.max_positions
    pub not_small : lt size m.cfg.min_size_usd ≡ false
    pub within_room : gt size (sub m.cfg.max_gross_usd (gross_exposure m)) ≡ false
    pub within_position : gt size m.cfg.max_position_usd ≡ false
    pub within_capacity :
        gt sig.capacity_usd nought ≡ true
        → gt m.cfg.capacity_frac nought ≡ true
        → gt size (mul sig.capacity_usd m.cfg.capacity_frac) ≡ false

  module _ (laws : IsOrdered F fl) where
    open laws use {lt_irrefl, lt_trans}

    fit_size-bounds :
        (m : Manager F) (d : Decision F) (size b : F)
        → gt size b ≡ false
        → (fit_size m d size).accept ≡ true
        → d.accept ≡ false
        → (lt (fit_size m d size).size_usd m.cfg.min_size_usd ≡ false)
          × (gt (fit_size m d size).size_usd (sub m.cfg.max_gross_usd (gross_exposure m)) ≡ false)
          × (gt (fit_size m d size).size_usd b ≡ false)
    unfolding fit_size
    fit_size-bounds m d size b h a n =
        let room = sub m.cfg.max_gross_usd (gross_exposure m) in
        ground (arith, lt_irrefl room, lt_trans b room size)

    -- The decision with which `decide` goes on to the computed size.
    abbrev sized : Manager F → SignalInput F → Decision F → Decision F
    sized m sig d =
        let s = compute_size m sig in fit_size m (record d { kelly_frac = s.1; scale = s.2 }) s.0

    decide_accepted :
        (m : Manager F) (sig : SignalInput F) (d : Decision F)
        → d.accept ≡ false
        → (decide m sig d).accept ≡ true
        → (m.state ≡ ok)
          × (has sig.condition_id m.positions ≡ false)
          × (length m.positions < m.cfg.max_positions)
          × (decide m sig d ≡ sized m sig d)
    unfolding decide
    decide_accepted m sig d n h = ground arith

    sized-Granted :
        (m : Manager F) (sig : SignalInput F) (d : Decision F) (b : F)
        → gt (compute_size m sig).0 b ≡ false
        → d.accept ≡ false
        → (sized m sig d).accept ≡ true
        → (lt (sized m sig d).size_usd m.cfg.min_size_usd ≡ false)
          × (gt (sized m sig d).size_usd (sub m.cfg.max_gross_usd (gross_exposure m)) ≡ false)
          × (gt (sized m sig d).size_usd b ≡ false)
    sized-Granted m sig d b h n a =
        let s = compute_size m sig in
        fit_size-bounds m (record d { kelly_frac = s.1; scale = s.2 }) s.0 b h a n

    decide-Granted :
        (m : Manager F) (sig : SignalInput F) (d : Decision F)
        → is_valid_signal sig ≡ true
        → d.accept ≡ false
        → (decide m sig d).accept ≡ true
        → Granted m sig (decide m sig d).size_usd
    unfolding compute_size
    decide-Granted m sig d v n h =
        let (running, free, slot, e) = decide_accepted m sig d n h in
        let a : (sized m sig d).accept ≡ true = rw e at h in
        let bound =
          λ (b : F) (q : gt (compute_size m sig).0 b ≡ false). sized-Granted m sig d b q n a in
        let raw = (raw_size m sig).0 in
        let position = bound m.cfg.max_position_usd (cap_size-position laws m.cfg sig raw) in
        rw e (record {
          running = running;
          signal_valid = v;
          not_open = free;
          slot_free = slot;
          not_small = position.0;
          within_room = position.1;
          within_position = position.2;
          within_capacity = λ p q.
              (bound (mul sig.capacity_usd m.cfg.capacity_frac)
                (cap_size-capacity laws m.cfg sig raw p q)).2;
        })

    -- An accepted signal is valid and for a condition that is not open; the manager is not halted and
    -- has a free slot; and the size does not compare less than the minimum, nor greater than the
    -- position limit, the room under the gross limit or, where both factors are positive, the share of
    -- the capacity.
    pub accept-Granted :
        (m : Manager F) (sig : SignalInput F)
        → (accept m sig).1.accept ≡ true
        → Granted (accept m sig).0 sig (accept m sig).1.size_usd
    unfolding accept
    accept-Granted m sig h = elim (Bool-cases (is_valid_signal sig)) [
      | inl v ↦ rw v (
          decide-Granted (maybe_roll_day m sig.time) sig (first_decision m.cfg sig) v refl
            (rw v at h))
      | inr v ↦ cc (rw v at h)
    ]

  -- Accept changes of the manager only the day, its opening equity and, by ending a daily halt, the
  -- state, with an event for that.
  pub accept_frame :
      (m : Manager F) (sig : SignalInput F)
      → ((accept m sig).0.equity ≡ m.equity)
        × ((accept m sig).0.peak_equity ≡ m.peak_equity)
        × ((accept m sig).0.positions ≡ m.positions)
        × ((accept m sig).0.cfg ≡ m.cfg)
        × ((accept m sig).0.period_returns ≡ m.period_returns)
        × (((accept m sig).0.state ≡ m.state)
            ⊎ ((m.state ≡ halted_day) × ((accept m sig).0.state ≡ ok)))
  unfolding accept maybe_roll_day
  accept_frame m sig = ground arith

  -- While the drawdown halt is on, every signal is rejected and the halt stays.
  pub accept-halted_dd :
      (m : Manager F) (sig : SignalInput F)
      → m.state ≡ halted_dd
      → ((accept m sig).1.accept ≡ false) × ((accept m sig).0.state ≡ halted_dd)
  unfolding accept decide maybe_roll_day
  accept-halted_dd m sig h = ground arith

  -- A daily halt rejects every signal with a time on the halted day or before it; a valid signal on
  -- a later day ends the halt, opens that day at the present equity and leaves a `day_resume` event.
  pub accept-halted_day :
      (m : Manager F) (sig : SignalInput F)
      → m.state ≡ halted_day
      → (0 < m.day_utc)
      → (day_of sig.time ≤ m.day_utc → (accept m sig).1.accept ≡ false)
        × (is_valid_signal sig ≡ true
            → m.day_utc < day_of sig.time
            → ((accept m sig).0.state ≡ ok)
              × ((accept m sig).0.day_utc ≡ day_of sig.time)
              × ((accept m sig).0.day_open_eq ≡ m.equity)
              × ((accept m sig).0.events
                  ≡ m.events
                    ++ record { time = sig.time; kind = "day_resume"; detail = "new UTC day" }
                      ∷ []))
  unfolding accept decide maybe_roll_day
  accept-halted_day m sig h p = ground arith
