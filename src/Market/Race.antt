-- ===== src/Market/Race.antt =====
-- internal/ws/market/book.go: which book an event changes, and what an event loses that arrives
-- while a batch is written.
use poly_asian_data.Base.{
  ℕ, ◌≡◌, refl, inl, inr, String, true, false, ◌&&◌, some, if◌then◌else◌, str_eq, eq_iff, All-In,
  In, Bool-cases,
}
use poly_asian_data.Base.Dict.{lookup, lookup-insert}
use poly_asian_data.Float.Defs.{Float64, gt}
use poly_asian_data.Risk.{nought}
use poly_asian_data.Market.{BookState, ParsedEvent, event_last_trade_price}
use poly_asian_data.Market.Book.{BookStore, PriceText, ensure, apply, handle, trade_of, is_handled}
use poly_asian_data.Market.Flush.{peek_from, peek_dirty, flushed, mark_flushed, tokens_of}
use poly_asian_data.Market.Stored.{IsStored, IsStored-lookup}
use poly_asian_data.Market.Flushing.{
  mark_all-lookup, is_one_of-tokens_of, peek_from-AreDirty, IsCopy,
}

module _ {F : Type 0} ⦃fl : Float64 F⦄ where
  open fl use {lt, le}

  module _ (text : PriceText F) where
    handle-trade :
        (eps : F) (ev : ParsedEvent F) (now : ℕ) (b : BookState F)
        → ev.kind ≡ event_last_trade_price
        → (handle text eps ev now b).0 ≡ trade_of ev now b
    unfolding handle
    handle-trade eps ev now b kind = rw kind refl

    trade_of-price :
        (ev : ParsedEvent F) (now : ℕ) (b : BookState F)
        → gt ev.last_trade_price nought ≡ true
        → (trade_of ev now b).last_trade_price ≡ ev.last_trade_price
    unfolding trade_of
    trade_of-price ev now b price = rw price refl

    -- Apply of a handled event writes what its handler makes of the book of its asset, or of an empty
    -- book; an event that is not handled changes nothing; and no other book is ever touched.
    pub apply_frame :
        (s : BookStore F) (ev : ParsedEvent F) (now : ℕ) (k : String)
        → lookup k (apply text s ev now).0.books ≡ (
            if is_handled ev && str_eq ev.asset_id k
            then some (handle text s.epsilon ev now (ensure s ev.asset_id)).0
            else lookup k s.books)
    unfolding apply
    apply_frame s ev now k = elim (Bool-cases (is_handled ev)) [
      | inl e ↦ rw e (
          lookup-insert ev.asset_id k (handle text s.epsilon ev now (ensure s ev.asset_id)).0
            s.books)
      | inr e ↦ rw e refl
    ]

    -- A trade of a positive price that arrives between PeekDirty and MarkFlushed is not marked for a
    -- flush: in a well-formed store, where the batch has a copy of the trade's book, MarkFlushed leaves
    -- the book clean with the trade's price, while the copy is the book of before the trade.
    pub trade_lost :
        (s : BookStore F) (max_n : ℕ) (ev : ParsedEvent F) (now : ℕ) (old : BookState F)
        → IsStored s.books
        → In old (peek_dirty s max_n)
        → ev.kind ≡ event_last_trade_price
        → ev.asset_id ≡ old.token_id
        → gt ev.last_trade_price nought ≡ true
        → let marked = mark_flushed (apply text s ev now).0 (tokens_of (peek_dirty s max_n)) in
          (new : BookState F) × (lookup old.token_id marked.books ≡ some new)
          × (new.dirty ≡ false)
          × (new.last_trade_price ≡ ev.last_trade_price)
          × (lookup old.token_id s.books ≡ some old)
    unfolding peek_dirty mark_flushed
    trade_lost s max_n ev now old h i kind asset price =
        let batch = peek_from max_n 0 s.books in
        let copies = (peek_from-AreDirty max_n s.books 0 h).1 in
        let (found, dirty) = All-In (IsCopy s.books) old batch copies i in
        let named = (IsStored-lookup s.books old.token_id old h found).named in
        let handled : is_handled ev ≡ true = rw (kind, asset, named) refl in
        let e = apply_frame s ev now old.token_id in
        let m = mark_all-lookup (tokens_of batch) (apply text s ev now).0.books old.token_id in
        let b = ensure s ev.asset_id in
        let traded = handle-trade s.epsilon ev now b kind in
        let member = is_one_of-tokens_of old batch i in
        let self = (eq_iff ev.asset_id old.token_id).1 asset in
        let stored : lookup old.token_id (apply text s ev now).0.books ≡ some (trade_of ev now b) =
          rw (handled, self, traded) at e in
        (
          flushed (trade_of ev now b),
          rw (member, stored) at m,
          refl,
          trade_of-price ev now b price,
          found,
        )
