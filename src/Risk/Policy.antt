-- ===== src/Risk/Policy.antt =====
-- internal/risk/config.go: what Normalize guarantees.
use poly_asian_data.Base.{
  ℕ, ◌^◌, ◌≤◌, ◌<◌, ◌≡◌, refl, true, false, ◌||◌, arith, if◌then◌else◌, String, is_empty,
}
use poly_asian_data.Float.Defs.{Float64, gt, ge, IsNum, IsOrdered}
use poly_asian_data.Risk.{
  Config, nought, unit, default_config, positive_or, weight_or, text_or, count_or, normalize, valid,
}

text_or_idem : (d s : String) → is_empty d ≡ false → text_or d (text_or d s) ≡ text_or d s
text_or_idem d s h = ground arith

count_or_idem : (d n : ℕ) → 0 < d → count_or d (count_or d n) ≡ count_or d n
count_or_idem d n h = ground arith

module _ {F : Type 0} ⦃fl : Float64 F⦄ (laws : IsOrdered F fl) where
  open fl use {lit, lt, le, eq}
  open laws use {lt_irrefl, lt_trans, le-eq-not-lt, lit-num, lit-lt}

  -- A literal with a digit that is not 0 is above 0.
  lit-pos : (m k : ℕ) → 0 < m → m < 10 ^ 15 → k ≤ 20 → lt nought (lit m k) ≡ true
  lit-pos m k p h hk = lit-lt 0 0 m k (omega arith) (omega arith) h hk (omega arith)

  lit-not-le : (m k : ℕ) → 0 < m → m < 10 ^ 15 → k ≤ 20 → le (lit m k) nought ≡ false
  lit-not-le m k p h hk = ground (
    arith,
    le-eq-not-lt (lit m k) nought (lit-num m k h hk) (lit-num 0 0 (omega arith) (omega arith)),
    lit-pos m k p h hk,
  )

  positive_or-pos : (d x : F) → lt nought d ≡ true → IsNum x → lt nought (positive_or d x) ≡ true
  positive_or-pos d x p n =
      ground (arith, le-eq-not-lt x nought n (lit-num 0 0 (omega arith) (omega arith)))

  positive_or_idem :
      (d x : F) → le d nought ≡ false → positive_or d (positive_or d x) ≡ positive_or d x
  positive_or_idem d x h = ground arith

  -- The Kelly fraction that Normalize leaves lies above 0 and at most at 1.
  kelly_in_range :
      (c : Config F)
      → IsNum c.kelly_fraction
      → (lt nought (normalize c).kelly_fraction ≡ true)
        × (le (normalize c).kelly_fraction unit ≡ true)
  unfolding normalize
  kelly_in_range c n = ground (
    arith,
    lit-pos 25 2,
    lit-num 25 2,
    lit-num 1 0,
    lit-num 0 0,
    lit-lt 25 2 1 0,
    le-eq-not-lt c.kelly_fraction nought n,
    le-eq-not-lt c.kelly_fraction unit n,
    le-eq-not-lt (lit 25 2) unit,
    lt_trans unit (lit 25 2) unit,
    lt_irrefl unit,
  )

  -- If none of the four amounts that Valid reads is NaN, Normalize makes the configuration valid.
  pub normalize-valid :
      (c : Config F)
      → IsNum c.starting_equity_usd
      → IsNum c.kelly_fraction
      → IsNum c.max_position_usd
      → IsNum c.max_gross_usd
      → valid (normalize c) ≡ true
  unfolding valid normalize
  normalize-valid c s k p g = ground (
    arith,
    kelly_in_range c k,
    positive_or-pos default_config.starting_equity_usd c.starting_equity_usd
        (lit-pos 10_000 0 (omega arith) (omega arith) (omega arith)) s,
    positive_or-pos default_config.max_position_usd c.max_position_usd
        (lit-pos 500 0 (omega arith) (omega arith) (omega arith)) p,
    positive_or-pos default_config.max_gross_usd c.max_gross_usd
        (lit-pos 5_000 0 (omega arith) (omega arith) (omega arith)) g,
  )

  settled :
      (m k : ℕ) (x : F)
      → 0 < m
      → m < 10 ^ 15
      → k ≤ 20
      → positive_or (lit m k) (positive_or (lit m k) x) ≡ positive_or (lit m k) x
  settled m k x p h hk = positive_or_idem (lit m k) x (lit-not-le m k p h hk)

  lit-below-unit : (m : ℕ) → m < 100 → lt (lit m 2) unit ≡ true
  lit-below-unit m h =
      lit-lt m 2 1 0 (omega arith) (omega arith) (omega arith) (omega arith) (omega arith)

  weight_or_idem : (x : F) → weight_or unit (weight_or unit x) ≡ weight_or unit x
  weight_or_idem x = ground (
    arith,
    lt_trans unit nought unit,
    lt_irrefl unit,
    lit-pos 1 0 (omega arith) (omega arith) (omega arith),
  )

  fraction_idem :
      (x : F) → let f = λ (y : F). if le y nought || gt y unit then lit 25 2 else y in f (f x) ≡ f x
  fraction_idem x = ground (
    arith,
    lit-not-le 25 2 (omega arith) (omega arith) (omega arith),
    lit-below-unit 25 (omega arith),
    lt_trans unit (lit 25 2) unit,
    lt_irrefl unit,
  )

  chance_idem :
      (x : F) → let f = λ (y : F). if le y nought || ge y unit then lit 55 2 else y in f (f x) ≡ f x
  chance_idem x = ground (
    arith,
    lit-not-le 55 2 (omega arith) (omega arith) (omega arith),
    lit-below-unit 55 (omega arith),
    le-eq-not-lt unit (lit 55 2) (lit-num 1 0 (omega arith) (omega arith))
        (lit-num 55 2 (omega arith) (omega arith)),
  )

  -- Normalize is idempotent, NaN fields included.
  pub normalize_idem : (c : Config F) → normalize (normalize c) ≡ normalize c
  unfolding normalize
  normalize_idem c = λ i. record (normalize c) {
    starting_equity_usd =
        settled 10000 0 c.starting_equity_usd (omega arith) (omega arith) (omega arith) i;
    kelly_b = settled 1 0 c.kelly_b (omega arith) (omega arith) (omega arith) i;
    vol_target_ann = settled 15 2 c.vol_target_ann (omega arith) (omega arith) (omega arith) i;
    max_position_usd = settled 500 0 c.max_position_usd (omega arith) (omega arith) (omega arith) i;
    max_gross_usd = settled 5000 0 c.max_gross_usd (omega arith) (omega arith) (omega arith) i;
    capacity_frac = settled 1 1 c.capacity_frac (omega arith) (omega arith) (omega arith) i;
    max_daily_drawdown_bps =
        settled 300 0 c.max_daily_drawdown_bps (omega arith) (omega arith) (omega arith) i;
    max_drawdown_bps =
        settled 1000 0 c.max_drawdown_bps (omega arith) (omega arith) (omega arith) i;
    min_size_usd = settled 1 0 c.min_size_usd (omega arith) (omega arith) (omega arith) i;
    sizing_mode = text_or_idem "frac_kelly" c.sizing_mode refl i;
    daily_halt_policy = text_or_idem "reject_new" c.daily_halt_policy refl i;
    vol_lookback_periods = count_or_idem 24 c.vol_lookback_periods (omega arith) i;
    max_positions = count_or_idem 20 c.max_positions (omega arith) i;
    opportunity_edge_weight = weight_or_idem c.opportunity_edge_weight i;
    opportunity_conviction_weight = weight_or_idem c.opportunity_conviction_weight i;
    kelly_fraction = fraction_idem c.kelly_fraction i;
    kelly_p = chance_idem c.kelly_p i;
  }
