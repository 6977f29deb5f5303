-- ===== src/Tests/Market.antt =====
-- internal/ws/market: one book through a snapshot, a trade and a flush; resolutions; subscriptions.
use poly_asian_data.Base.{
  ℕ, ◌+◌, ◌≤◌, ◌<◌, ◌≡◌, refl, inl, String, true, false, not, ◌&&◌, ◌||◌, List, [], ◌∷◌, some,
  arith, if◌then◌else◌, All, In, length, str_eq,
}
use poly_asian_data.Base.Dict.{lookup}
use poly_asian_data.Float.FixedPoint.{Fixed, fixed_float, Fixed-IsOrdered}
use poly_asian_data.Market.{Level, BookState, ParsedEvent, event_book, event_last_trade_price}
use poly_asian_data.Market.Book.{
  BookStore, PriceText, new_book_store, empty_book, ensure, apply, recompute_top, recompute_depth,
  top_ask, book_of,
}
use poly_asian_data.Market.Flush.{peek_dirty, take_dirty, dirty_count, mark_flushed, tokens_of}
use poly_asian_data.Market.Stored.{
  Act, arrive, mark, take_snapshot, remove, act_all, IsStored, session-IsStored,
}
use poly_asian_data.Market.Top.{IsTop, recompute_top-IsTop}
use poly_asian_data.Market.Race.{trade_lost}
use poly_asian_data.Market.Flushing.{AreDirty, IsTakenOrLeft, is_one_of, IsCopy, take_dirty_lem}
use poly_asian_data.Market.Resolve.Queue.{again, take_all-again}
use poly_asian_data.Market.Resolve.{
  MarketResolution, ResolveQueue, enqueue_all, take_all, pending_count,
}
use poly_asian_data.Market.Subscribe.{diff_subscriptions, diff_subscriptions-reaches}

abbrev cents : ℕ → Fixed
cents n = fixed_float.lit n 2

-- Two prices have a text.
abbrev text : PriceText Fixed
text = record {
  print = λ p. if fixed_float.lt p (cents 50) then "0.48" else "0.52";
  parse = λ k. if str_eq k "0.48" then cents 48 else cents 52;
}

abbrev level : ℕ → ℕ → Level Fixed
level p n = record { price = cents p; size = fixed_float.lit n 0 }

abbrev event : String → ParsedEvent Fixed
event kind = record {
  kind = kind;
  asset_id = "t1";
  market_id = "m1";
  timestamp = 7;
  bids = level 48 10 ∷ [];
  asks = level 52 30 ∷ [];
  price = cents 0;
  size = cents 0;
  side = "";
  best_bid = cents 0;
  best_ask = cents 0;
  last_trade_price = cents 51;
  price_changes = [];
}

abbrev opening : List (Act Fixed)
opening = arrive (event event_book) 9 ∷ []

abbrev opened : BookStore Fixed
opened = act_all text new_book_store opening

abbrev session : List (Act Fixed)
session =
    arrive (event event_book) 9
    ∷ arrive (event event_last_trade_price) 9
    ∷ take_snapshot 0
    ∷ mark ("t1" ∷ [])
    ∷ remove ("t2" ∷ [])
    ∷ []

opened-IsStored : IsStored opened.books
opened-IsStored = session-IsStored text Fixed-IsOrdered opening

session-IsStored_example : IsStored (act_all text new_book_store session).books
session-IsStored_example = session-IsStored text Fixed-IsOrdered session

abbrev book : BookState Fixed
book = record (empty_book "t1") { bids = ("0.48", cents 9) ∷ []; asks = ("0.52", cents 4) ∷ [] }

recompute_top-IsTop_example : IsTop text (recompute_top text book)
recompute_top-IsTop_example = recompute_top-IsTop text Fixed-IsOrdered book

book_top : (recompute_top text book).best_ask ≡ cents 52
unfolding recompute_top recompute_depth top_ask
book_top = refl

abbrev quoted : BookState Fixed
quoted = record book { best_bid = cents 48; best_ask = cents 52 }

abbrev limit : ℕ
limit = 5

take_dirty_example :
    let r = take_dirty opened limit in
    (dirty_count r.0 + length r.1 ≡ dirty_count opened)
    × All (IsCopy opened.books) r.1
    × AreDirty opened.books (tokens_of r.1)
    × ((k : String) → IsTakenOrLeft opened.books r.0.books r.1 k)
    × (0 < limit → length r.1 ≤ limit)
    × (limit ≡ 0 → dirty_count r.0 ≡ 0)
take_dirty_example = take_dirty_lem opened limit opened-IsStored

abbrev old : BookState Fixed
old = book_of text (event event_book) 9 (empty_book "t1")

old_dirty : In old (peek_dirty opened 0)
unfolding peek_dirty act_all apply book_of new_book_store ensure recompute_top recompute_depth
old_dirty = inl refl

trade_lost_example :
    let store = apply text opened (event event_last_trade_price) 9 in
    let marked = mark_flushed store.0 (tokens_of (peek_dirty opened 0)) in
    (new : BookState Fixed) × (lookup old.token_id marked.books ≡ some new)
    × (new.dirty ≡ false)
    × (new.last_trade_price ≡ cents 51)
    × (lookup old.token_id opened.books ≡ some old)
unfolding book_of recompute_top recompute_depth
trade_lost_example =
    trade_lost text opened 0 (event event_last_trade_price) 9 old opened-IsStored old_dirty refl
      refl refl

abbrev resolution : String → ℕ → MarketResolution
resolution winner at = record {
  gamma_id = "12";
  condition_id = "0xa1";
  winning_asset_id = "t1";
  winning_outcome = winner;
  resolved_at = at;
  asset_ids = [];
}

abbrev arrivals : List (MarketResolution × ℕ)
arrivals = (resolution "Yes" 20, 99) ∷ (resolution "No" 10, 99) ∷ []

abbrev queue : ResolveQueue
queue = record { by_key = ("0xa1", resolution "Yes" 20) ∷ [] }

take_all-again_example :
    let (left, batch) = take_all queue in
    (pending_count left ≡ 0)
    × (length batch ≡ pending_count queue)
    × (enqueue_all left (again 50 batch) ≡ queue)
take_all-again_example =
    take_all-again queue 50 ((refl, tt), (record { own = refl; named = refl }, tt))
      (omega arith, tt)

abbrev current : List String
current = "t1" ∷ "" ∷ "t2" ∷ []

abbrev desired : List String
desired = "t2" ∷ "t3" ∷ []

diff_subscriptions-reaches_example :
    let d = diff_subscriptions current desired in
    ((is_one_of "t3" current && not (is_one_of "t3" d.unsubscribe)) || is_one_of "t3" d.subscribe
      ≡ is_one_of "t3" desired)
    × (is_one_of "t3" d.subscribe ≡ true → is_one_of "t3" current ≡ false)
    × (is_one_of "t3" d.unsubscribe ≡ true
        → (is_one_of "t3" current ≡ true) × (is_one_of "t3" desired ≡ false))
diff_subscriptions-reaches_example = diff_subscriptions-reaches current desired "t3" refl
