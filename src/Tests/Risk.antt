-- ===== src/Tests/Risk.antt =====
-- internal/risk: runs of the manager on fixed-point numbers, with the default policy.
use poly_asian_data.Base.{ℕ, ◌+◌, ◌*◌, ◌<◌, ◌≡◌, refl, true, false, List, [], ◌∷◌, none, arith}
use poly_asian_data.Float.FixedPoint.{Fixed, fixed_float, Fixed-IsOrdered}
use poly_asian_data.Risk.{Config, default_config, normalize}
use poly_asian_data.Risk.Sizing.{compute_size, raw_size, cap_size, lesser_if}
use poly_asian_data.Risk.Rank.{opportunity_score, Rankable}
use poly_asian_data.Risk.Manager.{
  ok, halted_day, halted_dd, SignalInput, Position, Manager, new_manager, apply_pnl, day_ns,
  book_pnl, check_halts, maybe_roll_day, drawdown_bps, daily_drawdown_bps, gross_exposure,
}
use poly_asian_data.Risk.Accept.{accept, decide, fit_size, Granted, accept-Granted}
use poly_asian_data.Risk.Halts.{
  Operation, offer, close, book, period, perform_all, Bounded, halted_dd_absorbs, session-Bounded,
}

abbrev usd : ℕ → Fixed
usd n = fixed_float.lit n 0

abbrev policy : Config Fixed
policy = default_config

abbrev signal : SignalInput Fixed
signal = record {
  time = 3 * day_ns + 5;
  condition_id = "0xa1";
  side = "BUY";
  size_usd = usd 100;
  edge_bps = usd 200;
  conviction = fixed_float.lit 8 1;
  capacity_usd = usd 10000;
  urgency = usd 1;
  kelly_frac = none;
}

abbrev position : Position Fixed
position = record {
  condition_id = "0xa1";
  side = "BUY";
  size_usd = usd 100;
  shares = usd 200;
  entry_mid = fixed_float.lit 5 1;
  opened_at = 3 * day_ns + 5;
  signal_id = "s1";
}

abbrev fresh : Manager Fixed
fresh = new_manager policy

-- A loss of 20% of the equity.
abbrev halted : Manager Fixed
halted = apply_pnl fresh (fixed_float.neg (usd 2000)) (3 * day_ns + 9)

-- A loss of 5% of the equity.
abbrev paused : Manager Fixed
paused = apply_pnl fresh (fixed_float.neg (usd 500)) (3 * day_ns + 9)

signal_accepted : (accept fresh signal).1.accept ≡ true
unfolding new_manager accept decide maybe_roll_day fit_size normalize opportunity_score
    gross_exposure compute_size raw_size cap_size lesser_if
signal_accepted = refl

halted_state : halted.state ≡ halted_dd
unfolding new_manager apply_pnl book_pnl check_halts maybe_roll_day normalize drawdown_bps
halted_state = refl

paused_state : paused.state ≡ halted_day
unfolding new_manager apply_pnl book_pnl check_halts maybe_roll_day normalize drawdown_bps
    daily_drawdown_bps
paused_state = refl

accept-Granted_example : Granted (accept fresh signal).0 signal (accept fresh signal).1.size_usd
accept-Granted_example = accept-Granted Fixed-IsOrdered fresh signal signal_accepted

paused_day : 0 < paused.day_utc
unfolding new_manager apply_pnl book_pnl check_halts maybe_roll_day normalize drawdown_bps
    daily_drawdown_bps
paused_day = omega arith

abbrev session : List (Operation Fixed)
session =
    offer signal position
    ∷ close "0xa1" (usd 3) (3 * day_ns + 7)
    ∷ book (usd 1) (4 * day_ns)
    ∷ period (usd 0)
    ∷ []

halted_dd_absorbs_example :
    ((perform_all halted session).state ≡ halted_dd)
    × ((accept (perform_all halted session) signal).1.accept ≡ false)
halted_dd_absorbs_example = halted_dd_absorbs halted session signal halted_state

session-Bounded_example : Bounded (perform_all (new_manager policy) session)
session-Bounded_example = session-Bounded Fixed-IsOrdered policy session

small_loss : (apply_pnl fresh (fixed_float.neg (usd 10)) 9).state ≡ ok
unfolding new_manager apply_pnl book_pnl check_halts maybe_roll_day normalize drawdown_bps
    daily_drawdown_bps
small_loss = refl

abbrev reckless : Config Fixed
reckless = record policy { kelly_fraction = usd 7; max_positions = 0; max_gross_usd = usd 0 }

abbrev candidate : ℕ → ℕ → Rankable Fixed
candidate i s = record {
  index = i;
  edge_bps = usd s;
  conviction = usd 0;
  urgency = usd 0;
  score = usd s;
}
