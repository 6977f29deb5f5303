-- ===== src/Gap.antt =====
-- internal/datagap/opts.go and stats.go: how gaps in price and book history are filled, and how much
-- of it is synthetic.
pub mod Search
pub mod Signs
pub mod Prices
pub mod Bounds
pub mod Between
pub mod Grid
pub mod Books
use poly_asian_data.Base.{ℕ, ◌+◌, ◌*◌, String, Bool, ◌||◌, if◌then◌else◌, is_empty, leb, ltb, ◌==◌}
use poly_asian_data.Float.Defs.{Float64, gt, ge}
use poly_asian_data.Risk.{nought, positive_or}

abbrev pub source_venue : String
source_venue = "venue"

abbrev pub source_synth_interp : String
source_synth_interp = "synth_interp"

abbrev pub source_synth_hold : String
source_synth_hold = "synth_hold"

abbrev pub source_synth_book : String
source_synth_book = "synth_book_from_mid"

-- Durations are in nanoseconds; the code treats a negative one as 0.
pub record Opts (F : Type 0) : Type 0 where
  pub max_gap : ℕ
  pub hold_max : ℕ
  pub grid_step : ℕ
  pub price_floor : F
  pub price_ceil : F
  pub default_half_spread_bps : F
  pub book_reuse_max : ℕ
  pub default_depth : F

-- The counts of points by source.
pub record Mix : Type 0 where
  pub venue : ℕ
  pub synth_interp : ℕ
  pub synth_hold : ℕ
  pub synth_book : ℕ
  pub missing : ℕ

pub record Report (F : Type 0) : Type 0 where
  pub price_mix : Mix
  pub book_mix : Mix
  pub synth_price_share : F
  pub synth_book_share : F
  pub fill_mode : String
  pub significant : Bool
  pub block_promote : Bool

abbrev pub hours : ℕ → ℕ
hours n = n * 3_600_000_000_000

abbrev duration_or : ℕ → ℕ → ℕ
duration_or d n = if leb n 0 then d else n

abbrev pub observed : Mix → ℕ
observed m = m.venue + m.synth_interp + m.synth_hold + m.synth_book

-- `Mix.Add`
abbrev pub add_mix : Mix → Mix → Mix
add_mix m o = record {
  venue = m.venue + o.venue;
  synth_interp = m.synth_interp + o.synth_interp;
  synth_hold = m.synth_hold + o.synth_hold;
  synth_book = m.synth_book + o.synth_book;
  missing = m.missing + o.missing;
}

module _ {F : Type 0} ⦃fl : Float64 F⦄ where
  open fl use {lit, of_int, div, lt, le}

  abbrev pub default_opts : Opts F
  default_opts = record {
    max_gap = hours 48;
    hold_max = hours 6;
    grid_step = hours 1;
    price_floor = lit 1 3;
    price_ceil = lit 999 3;
    default_half_spread_bps = lit 50 0;
    book_reuse_max = hours 24;
    default_depth = lit 100 0;
  }

  -- `Opts.Normalize`
  unfoldable pub normalize : Opts F → Opts F
  normalize o = record {
    max_gap = duration_or default_opts.max_gap o.max_gap;
    hold_max = duration_or default_opts.hold_max o.hold_max;
    grid_step = duration_or default_opts.grid_step o.grid_step;
    price_floor = positive_or default_opts.price_floor o.price_floor;
    price_ceil = positive_or default_opts.price_ceil o.price_ceil;
    default_half_spread_bps =
        positive_or default_opts.default_half_spread_bps o.default_half_spread_bps;
    book_reuse_max = duration_or default_opts.book_reuse_max o.book_reuse_max;
    default_depth = positive_or default_opts.default_depth o.default_depth;
  }

  unfoldable pub synth_share : Mix → F
  synth_share m =
      let synth = m.synth_interp + m.synth_hold + m.synth_book in
      if observed m == 0 then nought else div (of_int synth) (of_int (observed m))

  unfoldable pub venue_share : Mix → F
  venue_share m = if observed m == 0 then nought else div (of_int m.venue) (of_int (observed m))

  -- `Report.Finalize`, but for the text of its warning.
  unfoldable pub finalize : Report F → F → F → Report F
  finalize r max_promote_share significant_share =
      let max_promote = if lt max_promote_share nought then lit 5 2 else max_promote_share in
      let significant = if le significant_share nought then lit 20 2 else significant_share in
      let price = synth_share r.price_mix in
      let book = synth_share r.book_mix in
      let has_synth =
        ltb 0 (r.price_mix.synth_interp + r.price_mix.synth_hold + r.book_mix.synth_book) in
      let max_synth = if gt book price then book else price in
      record r {
        synth_price_share = price;
        synth_book_share = book;
        fill_mode =
            if is_empty r.fill_mode
            then if has_synth then "real_plus_synth" else "venue_only"
            else r.fill_mode;
        significant = ge max_synth significant;
        block_promote = gt price max_promote || gt book max_promote;
      }
