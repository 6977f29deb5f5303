-- ===== src/Market/Book.antt =====
-- internal/ws/market/book.go: the books per token, and what an event does to them.
use poly_asian_data.Base.{
  ℕ, String, Bool, true, false, not, ◌&&◌, ◌||◌, List, [], ◌∷◌, Option, none, some, ◌==◌, str_eq,
  is_empty, if◌then◌else◌,
}
use mathlib.Core.List.{foldl}
use poly_asian_data.Base.Dict.{Dict, lookup, insert, delete}
use poly_asian_data.Float.Defs.{Float64, gt, ge}
use poly_asian_data.Risk.{nought}
use poly_asian_data.Market.{
  Level, BookState, ParsedEvent, PriceChangeLeg, mid, event_book, event_price_change,
  event_best_bid_ask, event_last_trade_price,
}

pub record BookStore (F : Type 0) : Type 0 where
  pub books : Dict (BookState F)
  pub epsilon : F

-- The texts of prices: `print` is `priceKey` and `parse` is `parsePriceKey`.
pub record PriceText (F : Type 0) : Type 0 where
  pub print : F → String
  pub parse : String → F

module _ {F : Type 0} ⦃fl : Float64 F⦄ where
  open fl use {lit, add, sub, div, abs, lt, le, eq}

  unfoldable pub new_book_store : BookStore F
  new_book_store = record { books = []; epsilon = lit 5 5 }

  abbrev pub empty_book : String → BookState F
  empty_book id = record {
    token_id = id;
    market_id = "";
    bids = [];
    asks = [];
    best_bid = nought;
    best_ask = nought;
    last_trade_price = nought;
    imbalance = nought;
    bid_depth = nought;
    ask_depth = nought;
    updated_at = 0;
    dirty = false;
    last_flush_mid = nought;
    last_flush_bb = nought;
    last_flush_ba = nought;
    last_snap_mid = nought;
    last_snap_bb = nought;
    last_snap_ba = nought;
  }

  -- `ensureLocked`; the new book enters the store when the caller writes it back.
  unfoldable pub ensure : BookStore F → String → BookState F
  ensure s id = or_empty (lookup id s.books)
    where
      or_empty : Option (BookState F) → BookState F
      or_empty none = empty_book id
      or_empty (some b) = b

  -- The write through the pointer that `ensureLocked` returned.
  abbrev pub put : BookStore F → String → BookState F → BookStore F
  put s id b = record s { books = insert id b s.books }

  unfoldable pub depth : Dict F → F
  depth m = foldl (λ d e. add d e.1) nought m

  unfoldable pub recompute_depth : BookState F → BookState F
  recompute_depth b =
      let bid_d = depth b.bids in
      let ask_d = depth b.asks in
      let tot = add bid_d ask_d in
      record b {
        bid_depth = bid_d;
        ask_depth = ask_d;
        imbalance = if gt tot nought then div (sub bid_d ask_d) tot else nought;
      }

  -- The loop over the bids in `recomputeTop`.
  unfoldable pub top_bid : PriceText F → F → Dict F → F
  top_bid text best [] = best
  top_bid text best ((k, sz) ∷ m) =
      let p = text.parse k in
      top_bid text (if le sz nought then best else if gt p best then p else best) m

  -- The loop over the asks: `first` is firstAsk.
  unfoldable pub top_ask : PriceText F → Bool → F → Dict F → F
  top_ask text first best [] = best
  top_ask text first best ((k, sz) ∷ m) =
      let p = text.parse k in
      let is_better = not (le sz nought) && (first || lt p best) in
      top_ask text (first && not is_better) (if is_better then p else best) m

  unfoldable pub recompute_top : PriceText F → BookState F → BookState F
  recompute_top text b = recompute_depth (record b {
    best_bid = top_bid text nought b.bids;
    best_ask = top_ask text true nought b.asks;
  })

  -- The levels of a snapshot with a positive price and size, as a map.
  unfoldable pub fill_side : PriceText F → List (Level F) → Dict F → Dict F
  fill_side text [] m = m
  fill_side text (l ∷ ls) m =
      fill_side text ls
        (if gt l.price nought && gt l.size nought then insert (text.print l.price) l.size m else m)

  -- One level of a price change on one side.
  unfoldable pub set_level : PriceText F → F → F → Dict F → Dict F
  set_level text price size m =
      if le size nought
      then delete (text.print price) m
      else if gt price nought
      then insert (text.print price) size m
      else m

  -- The time of an event, `now` for the zero time.
  abbrev pub stamp : ParsedEvent F → ℕ → ℕ
  stamp ev now = if ev.timestamp == 0 then now else ev.timestamp

  abbrev pub first_market : BookState F → ParsedEvent F → String
  first_market b ev = if is_empty b.market_id then ev.market_id else b.market_id

  unfoldable pub changed_enough : F → BookState F → Bool
  changed_enough eps b =
      (eq b.last_flush_mid nought && eq b.last_flush_bb nought)
      || ge (abs (sub (mid b) b.last_flush_mid)) eps
      || ge (abs (sub b.best_bid b.last_flush_bb)) eps
      || ge (abs (sub b.best_ask b.last_flush_ba)) eps

  -- `applyBook` on the book.
  unfoldable pub book_of : PriceText F → ParsedEvent F → ℕ → BookState F → BookState F
  book_of text ev now b =
      let filled = record b {
        market_id = ev.market_id;
        bids = fill_side text ev.bids [];
        asks = fill_side text ev.asks [];
      } in
      record (recompute_top text filled) { updated_at = stamp ev now; dirty = true }

  -- `applyPriceChange` up to the last test.
  unfoldable pub change_of : PriceText F → ParsedEvent F → ℕ → BookState F → BookState F
  change_of text ev now b =
      let is_buy = str_eq ev.side "BUY" in
      let is_sell = not is_buy && str_eq ev.side "SELL" in
      let set = record b {
        market_id = first_market b ev;
        bids = if is_buy then set_level text ev.price ev.size b.bids else b.bids;
        asks = if is_sell then set_level text ev.price ev.size b.asks else b.asks;
      } in
      let told = record set {
        best_bid = if gt ev.best_bid nought then ev.best_bid else b.best_bid;
        best_ask = if gt ev.best_ask nought then ev.best_ask else b.best_ask;
      } in
      let topped =
        if gt ev.best_bid nought || gt ev.best_ask nought
        then recompute_depth told
        else recompute_top text set in
      record topped { updated_at = stamp ev now }

  -- `applyBBA` up to the test.
  unfoldable pub bba_of : ParsedEvent F → ℕ → BookState F → BookState F
  bba_of ev now b = record b {
    market_id = first_market b ev;
    best_bid = if gt ev.best_bid nought then ev.best_bid else b.best_bid;
    best_ask = if gt ev.best_ask nought then ev.best_ask else b.best_ask;
    updated_at = stamp ev now;
  }

  unfoldable pub trade_of : ParsedEvent F → ℕ → BookState F → BookState F
  trade_of ev now b = record b {
    market_id = first_market b ev;
    last_trade_price =
        if gt ev.last_trade_price nought then ev.last_trade_price else b.last_trade_price;
    updated_at = stamp ev now;
    dirty = true;
  }

  -- What the handler of an event does to the book of its asset, and what it returns.
  unfoldable pub handle : PriceText F → F → ParsedEvent F → ℕ → BookState F → BookState F × Bool
  handle text eps ev now b =
      let changed = change_of text ev now b in
      let quoted = bba_of ev now b in
      let is_moved =
        ge (abs (sub (mid quoted) (mid b))) eps
        || ge (abs (sub quoted.best_bid quoted.last_flush_bb)) eps in
      if str_eq ev.kind event_book
      then (book_of text ev now b, true)
      else if str_eq ev.kind event_price_change
      then if changed_enough eps changed
        then (record changed { dirty = true }, true)
        else (changed, changed.dirty)
      else if str_eq ev.kind event_best_bid_ask
      then if is_moved then (record quoted { dirty = true }, true) else (quoted, false)
      else (trade_of ev now b, true)

  abbrev is_none_of : List (PriceChangeLeg F) → Bool
  is_none_of [] = true
  is_none_of (_ ∷ _) = false

  -- The events that `Apply` hands to a handler which does not return at once: the four kinds, with
  -- an asset; a price change with legs is skipped.
  abbrev pub is_handled : ParsedEvent F → Bool
  is_handled ev =
      not (is_empty ev.asset_id)
      && (str_eq ev.kind event_book
          || (str_eq ev.kind event_price_change && is_none_of ev.price_changes)
          || str_eq ev.kind event_best_bid_ask
          || str_eq ev.kind event_last_trade_price)

  -- `Apply` on a store that is not nil, at the time `now`.
  unfoldable pub apply : PriceText F → BookStore F → ParsedEvent F → ℕ → BookStore F × Bool
  unfolding handle
  apply text s ev now =
      let r = handle text s.epsilon ev now (ensure s ev.asset_id) in
      if is_handled ev then (put s ev.asset_id r.0, r.1) else (s, false)
