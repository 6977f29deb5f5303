-- ===== src/Risk/Sizing.antt =====
-- internal/risk/manager.go: `computeSize` and `volScale`.
use mathlib.Core.List.{foldl}
use poly_asian_data.Base.{
  ◌-◌, Bool, not, ◌&&◌, ◌||◌, List, Option, none, some, ltb, leb, str_eq, if◌then◌else◌, length,
  drop, ◌≡◌, true, false, arith,
}
use poly_asian_data.Float.Defs.{Float64, gt, IsOrdered}
use poly_asian_data.Risk.{
  Config, nought, unit, sizing_signal_size, sizing_vol_target, sizing_frac_kelly,
}
use poly_asian_data.Risk.Rank.{clamp_unit}
use poly_asian_data.Risk.Manager.{Manager, SignalInput}

module _ {F : Type 0} ⦃fl : Float64 F⦄ where
  open fl use {lit, of_int, add, sub, mul, div, sqrt, min, lt, le, eq}

  mean_of : List F → F
  mean_of rets = div (foldl add nought rets) (of_int (length rets))

  -- The square root of the mean squared deviation.
  stdev_of : List F → F
  unfolding mean_of
  stdev_of rets =
      let mean = mean_of rets in
      sqrt (
        div (foldl (λ s r. add s (mul (sub r mean) (sub r mean))) nought rets)
          (of_int (length rets)))

  unfoldable pub vol_scale : Manager F → F
  unfolding stdev_of
  vol_scale m =
      let n = m.cfg.vol_lookback_periods in
      let all = m.period_returns in
      let rets = if ltb n (length all) then drop (length all - n) all else all in
      let stdev = stdev_of rets in
      let s = div (div m.cfg.vol_target_ann (sqrt (lit 252 0))) stdev in
      let top = if gt s (lit 3 0) then lit 3 0 else s in
      if leb n 1 || ltb (length all) 2
      then unit
      else if lt stdev (lit 1 12)
      then unit
      else if lt top (lit 1 1)
      then lit 1 1
      else top

  -- The conviction that sizing uses.
  abbrev sizing_conviction : F → F
  sizing_conviction x = let c = clamp_unit x in if eq c nought then lit 5 1 else c

  -- `0.25 + 0.75*conv`
  abbrev conviction_factor : F → F
  conviction_factor c = add (lit 25 2) (mul (lit 75 2) c)

  kelly_of : Manager F → SignalInput F → F → F
  kelly_of m sig conv =
      let p = m.cfg.kelly_p in
      let f = div (sub (mul p m.cfg.kelly_b) (sub unit p)) m.cfg.kelly_b in
      let kelly = mul (mul m.cfg.kelly_fraction (if lt f nought then nought else f)) conv in
      advised sig.kelly_frac kelly
    where
      advised : Option F → F → F
      advised none k = k
      advised (some a) k =
          let cap = mul m.cfg.kelly_fraction a in if gt a nought then min k cap else k

  -- The size before the caps, the Kelly fraction and the scale, by sizing mode.
  unfoldable pub raw_size : Manager F → SignalInput F → F × F × F
  unfolding kelly_of
  raw_size m sig =
      let conv = sizing_conviction sig.conviction in
      let kelly = kelly_of m sig conv in
      let scale = vol_scale m in
      let fixed = if le sig.size_usd nought then m.cfg.min_size_usd else sig.size_usd in
      let target =
        if le sig.size_usd nought then mul m.cfg.max_position_usd (lit 1 1) else sig.size_usd in
      if str_eq m.cfg.sizing_mode sizing_signal_size
      then (mul fixed (conviction_factor conv), nought, unit)
      else if str_eq m.cfg.sizing_mode sizing_vol_target
      then (mul (mul target scale) (conviction_factor conv), nought, scale)
      else (mul m.equity kelly, kelly, unit)

  -- `if size > cap { size = cap }`, under a test
  unfoldable pub lesser_if : Bool → F → F → F
  lesser_if test x cap = if test && gt x cap then cap else x

  -- The caps by position, capacity and requested size, in the order of `computeSize`.
  unfoldable pub cap_size : Config F → SignalInput F → F → F
  cap_size cfg sig size =
      let by_position = lesser_if true size cfg.max_position_usd in
      let by_capacity =
        lesser_if (gt sig.capacity_usd nought && gt cfg.capacity_frac nought) by_position
          (mul sig.capacity_usd cfg.capacity_frac) in
      lesser_if (gt sig.size_usd nought && not (str_eq cfg.sizing_mode sizing_frac_kelly))
        by_capacity sig.size_usd

  unfoldable pub compute_size : Manager F → SignalInput F → F × F × F
  compute_size m sig = let raw = raw_size m sig in (cap_size m.cfg sig raw.0, raw.1, raw.2)

  module _ (laws : IsOrdered F fl) where
    open laws use {lt_irrefl, lt_trans}

    -- Taking the smaller of two keeps every bound from above, and adds one.
    pub lesser_if-cap : (x cap : F) → gt (lesser_if true x cap) cap ≡ false
    unfolding lesser_if
    lesser_if-cap x cap = ground (arith, lt_irrefl cap)

    pub lesser_if_keeps :
        (test : Bool) (x cap b : F) → gt x b ≡ false → gt (lesser_if test x cap) b ≡ false
    unfolding lesser_if
    lesser_if_keeps test x cap b h = ground (arith, lt_trans b cap x)

    pub cap_size-position :
        (cfg : Config F) (sig : SignalInput F) (size : F)
        → gt (cap_size cfg sig size) cfg.max_position_usd ≡ false
    unfolding cap_size
    cap_size-position cfg sig size =
        lesser_if_keeps _ _ _ _ (lesser_if_keeps _ _ _ _ (lesser_if-cap size cfg.max_position_usd))

    pub cap_size-capacity :
        (cfg : Config F) (sig : SignalInput F) (size : F)
        → gt sig.capacity_usd nought ≡ true
        → gt cfg.capacity_frac nought ≡ true
        → gt (cap_size cfg sig size) (mul sig.capacity_usd cfg.capacity_frac) ≡ false
    unfolding cap_size
    cap_size-capacity cfg sig size p q =
        lesser_if_keeps _ _ _ _
          (rw (p, q) (lesser_if-cap _ (mul sig.capacity_usd cfg.capacity_frac)))
