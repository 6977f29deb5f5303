-- ===== src/Market/Counters.antt =====
-- internal/ws/market/stats.go: the counters of messages.
use poly_asian_data.Base.{
  ℕ, ◌+◌, ◌%◌, ◌≡◌, refl, String, List, [], ◌∷◌, arith, if◌then◌else◌, str_eq,
}
use poly_asian_data.Market.{
  event_book, event_price_change, event_best_bid_ask, event_last_trade_price,
  event_tick_size_change, event_new_market, event_market_resolved,
}

-- The counters of `RuntimeStats`, each a uint64.
pub record RuntimeStats : Type 0 where
  pub msg_total : ℕ
  pub msg_book : ℕ
  pub msg_pc : ℕ
  pub msg_bba : ℕ
  pub msg_trade : ℕ
  pub msg_tick : ℕ
  pub msg_new_mkt : ℕ
  pub msg_resolve : ℕ
  pub msg_other : ℕ
  pub signals_total : ℕ
  pub db_feat_batch : ℕ
  pub db_feat_rows : ℕ
  pub db_snap_batch : ℕ
  pub db_snap_rows : ℕ
  pub resolve_queued : ℕ
  pub resolve_flushed : ℕ
  pub reconnects : ℕ

abbrev pub word : ℕ
word = 18_446_744_073_709_551_616

-- `Add(k)` on a uint64
abbrev pub add_to : ℕ → ℕ → ℕ
add_to n k = (n + k) % word

abbrev pub add_one : ℕ → ℕ
add_one n = add_to n 1

abbrev pub no_messages : RuntimeStats
no_messages = record {
  msg_total = 0;
  msg_book = 0;
  msg_pc = 0;
  msg_bba = 0;
  msg_trade = 0;
  msg_tick = 0;
  msg_new_mkt = 0;
  msg_resolve = 0;
  msg_other = 0;
  signals_total = 0;
  db_feat_batch = 0;
  db_feat_rows = 0;
  db_snap_batch = 0;
  db_snap_rows = 0;
  resolve_queued = 0;
  resolve_flushed = 0;
  reconnects = 0;
}

unfoldable pub observe_msg : RuntimeStats → String → RuntimeStats
observe_msg s kind =
    let t = record s { msg_total = add_one s.msg_total } in
    if str_eq kind event_book
    then record t { msg_book = add_one t.msg_book }
    else if str_eq kind event_price_change
    then record t { msg_pc = add_one t.msg_pc }
    else if str_eq kind event_best_bid_ask
    then record t { msg_bba = add_one t.msg_bba }
    else if str_eq kind event_last_trade_price
    then record t { msg_trade = add_one t.msg_trade }
    else if str_eq kind event_tick_size_change
    then record t { msg_tick = add_one t.msg_tick }
    else if str_eq kind event_new_market
    then record t { msg_new_mkt = add_one t.msg_new_mkt }
    else if str_eq kind event_market_resolved
    then record t { msg_resolve = add_one t.msg_resolve }
    else record t { msg_other = add_one t.msg_other }

-- An int argument is a natural number: a negative one is skipped, as 0 is.
unfoldable pub add_signals : RuntimeStats → ℕ → RuntimeStats
add_signals s n = record s { signals_total = add_to s.signals_total n }

unfoldable pub add_feat_flush : RuntimeStats → ℕ → RuntimeStats
add_feat_flush s rows = record s {
  db_feat_batch = add_one s.db_feat_batch;
  db_feat_rows = add_to s.db_feat_rows rows;
}

unfoldable pub add_snap_flush : RuntimeStats → ℕ → RuntimeStats
add_snap_flush s rows = record s {
  db_snap_batch = add_one s.db_snap_batch;
  db_snap_rows = add_to s.db_snap_rows rows;
}

unfoldable pub add_resolve_queued : RuntimeStats → ℕ → RuntimeStats
add_resolve_queued s n = record s { resolve_queued = add_to s.resolve_queued n }

unfoldable pub add_resolve_flushed : RuntimeStats → ℕ → RuntimeStats
add_resolve_flushed s n = record s { resolve_flushed = add_to s.resolve_flushed n }

unfoldable pub inc_reconnect : RuntimeStats → RuntimeStats
inc_reconnect s = record s { reconnects = add_one s.reconnects }

pub data Tick : Type 0 where
  message : String → Tick
  signals features snapshots queued resolved : ℕ → Tick
  reconnect : Tick

unfoldable pub tick : RuntimeStats → Tick → RuntimeStats
unfolding observe_msg add_signals add_feat_flush add_snap_flush add_resolve_queued
    add_resolve_flushed inc_reconnect
tick s (message kind) = observe_msg s kind
tick s (signals n) = add_signals s n
tick s (features n) = add_feat_flush s n
tick s (snapshots n) = add_snap_flush s n
tick s (queued n) = add_resolve_queued s n
tick s (resolved n) = add_resolve_flushed s n
tick s reconnect = inc_reconnect s

unfoldable pub tick_all : RuntimeStats → List Tick → RuntimeStats
unfolding tick
tick_all s [] = s
tick_all s (t ∷ ts) = tick_all (tick s t) ts

-- The sum of the counters by type.
abbrev pub by_type : RuntimeStats → ℕ
by_type s =
    s.msg_book + s.msg_pc + s.msg_bba + s.msg_trade + s.msg_tick + s.msg_new_mkt + s.msg_resolve
    + s.msg_other

observe_msg-balance :
    (s : RuntimeStats) (kind : String)
    → by_type s % word ≡ s.msg_total % word
    → by_type (observe_msg s kind) % word ≡ (observe_msg s kind).msg_total % word
unfolding observe_msg
observe_msg-balance s kind h = ground arith

tick-balance :
    (s : RuntimeStats) (t : Tick)
    → by_type s % word ≡ s.msg_total % word
    → by_type (tick s t) % word ≡ (tick s t).msg_total % word
unfolding tick add_signals add_feat_flush add_snap_flush add_resolve_queued add_resolve_flushed
    inc_reconnect
tick-balance s (message kind) h = observe_msg-balance s kind h
tick-balance s (signals n) h = h
tick-balance s (features n) h = h
tick-balance s (snapshots n) h = h
tick-balance s (queued n) h = h
tick-balance s (resolved n) h = h
tick-balance s reconnect h = h

tick_all-keeps :
    (s : RuntimeStats) (ts : List Tick)
    → by_type s % word ≡ s.msg_total % word
    → by_type (tick_all s ts) % word ≡ (tick_all s ts).msg_total % word
unfolding tick_all
tick_all-keeps s [] h = h
tick_all-keeps s (t ∷ ts) h = tick_all-keeps (tick s t) ts (tick-balance s t h)

-- From new counters on, whatever is counted in whatever order, the counters by event type add up to
-- the total of messages, modulo 2^64 where they wrap.
pub tick_all-balance :
    (ts : List Tick)
    → by_type (tick_all no_messages ts) % word ≡ (tick_all no_messages ts).msg_total % word
tick_all-balance ts = tick_all-keeps no_messages ts refl
