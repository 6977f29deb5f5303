-- ===== src/Market.antt =====
-- internal/ws/market: the state that the market channel of the CLOB keeps in memory.
-- types.go: levels, books, events and subscription changes.
pub mod Book
pub mod Flush
pub mod Stored
pub mod Top
pub mod Flushing
pub mod Race
pub mod Resolve
pub mod Subscribe
pub mod Counters
use poly_asian_data.Base.{ℕ, String, Bool, ◌&&◌, ◌||◌, List, Option, none, some, if◌then◌else◌}
use poly_asian_data.Base.Dict.{Dict}
use poly_asian_data.Float.Defs.{Float64, gt, ge}
use poly_asian_data.Risk.{nought}

abbrev pub event_book : String
event_book = "book"

abbrev pub event_price_change : String
event_price_change = "price_change"

abbrev pub event_best_bid_ask : String
event_best_bid_ask = "best_bid_ask"

abbrev pub event_last_trade_price : String
event_last_trade_price = "last_trade_price"

abbrev pub event_tick_size_change : String
event_tick_size_change = "tick_size_change"

abbrev pub event_new_market : String
event_new_market = "new_market"

abbrev pub event_market_resolved : String
event_market_resolved = "market_resolved"

pub record Level (F : Type 0) : Type 0 where
  pub price : F
  pub size : F

-- `bids` and `asks` are maps from the text of a price to the size.
pub record BookState (F : Type 0) : Type 0 where
  pub token_id : String
  pub market_id : String
  pub bids : Dict F
  pub asks : Dict F
  pub best_bid : F
  pub best_ask : F
  pub last_trade_price : F
  pub imbalance : F
  pub bid_depth : F
  pub ask_depth : F
  pub updated_at : ℕ
  pub dirty : Bool
  pub last_flush_mid : F
  pub last_flush_bb : F
  pub last_flush_ba : F
  pub last_snap_mid : F
  pub last_snap_bb : F
  pub last_snap_ba : F

pub record PriceChangeLeg (F : Type 0) : Type 0 where
  pub asset_id : String
  pub price : F
  pub size : F
  pub side : String
  pub best_bid : F
  pub best_ask : F

-- `kind` is the field Type; a timestamp of 0 is the zero time.
pub record ParsedEvent (F : Type 0) : Type 0 where
  pub kind : String
  pub asset_id : String
  pub market_id : String
  pub timestamp : ℕ
  pub bids : List (Level F)
  pub asks : List (Level F)
  pub price : F
  pub size : F
  pub side : String
  pub best_bid : F
  pub best_ask : F
  pub last_trade_price : F
  pub price_changes : List (PriceChangeLeg F)

pub record SubDiff : Type 0 where
  pub subscribe : List String
  pub unsubscribe : List String

module _ {F : Type 0} ⦃fl : Float64 F⦄ where
  open fl use {lit, add, sub, div, lt, le}

  -- `BookState.Mid` of a book that is not nil
  unfoldable pub mid : BookState F → F
  mid b =
      if le b.best_bid nought || le b.best_ask nought || lt b.best_ask b.best_bid
      then nought
      else div (add b.best_bid b.best_ask) (lit 2 0)

  -- `BookState.Spread`
  unfoldable pub spread : BookState F → F
  spread b =
      if le b.best_bid nought || le b.best_ask nought then nought else sub b.best_ask b.best_bid

  -- `BookState.ValidBook`
  unfoldable pub valid_book : Option (BookState F) → Bool
  valid_book none = Bool.false
  valid_book (some b) = gt b.best_bid nought && gt b.best_ask nought && ge b.best_ask b.best_bid
