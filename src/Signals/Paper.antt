-- ===== src/Signals/Paper.antt =====
-- internal/signals/paper.go: the gates of a paper signal, its size, and the cooldown.
use poly_asian_data.Base.{
  is_some, ◌∷◌, ◌/◌, ℕ, ◌+◌, String, Bool, true, false, not, ◌&&◌, ◌||◌, [], Option, none, some,
  ltb, ◌==◌, if◌then◌else◌, str_eq, is_empty,
}
use poly_asian_data.Base.Dict.{lookup, insert}
use poly_asian_data.Float.Defs.{Float64, gt, ge}
use poly_asian_data.Risk.{nought, unit, text_or}
use poly_asian_data.Cost.{CostBreakdown, bps, compute_cost}
use poly_asian_data.Signals.{
  SignalReason, PaperSignal, BookSnap, BoardSnap, GateConfig, default_gate_config, LastEmit,
  Emitter,
}

-- The results of `opportunityBps`.
pub record Opportunity (F : Type 0) : Type 0 where
  pub opp : F
  pub model : Option F
  pub path : String
  pub fv_src : String
  pub fv : Option F
  pub already_net : Bool

abbrev pub side_buy : String
side_buy = "BUY"

abbrev pub side_sell : String
side_sell = "SELL"

module _ {F : Type 0} ⦃fl : Float64 F⦄ where
  open fl use {lit, add, sub, mul, div, neg, abs, lt, le}

  unfoldable pub new_emitter : GateConfig F → Emitter F
  new_emitter cfg = record {
    cfg = if le cfg.probe_size_usd nought then default_gate_config else cfg;
    last = [];
  }

  unfoldable pub book_ok : BookSnap F → Bool
  book_ok b = gt b.best_bid nought && gt b.best_ask nought && ge b.best_ask b.best_bid

  -- `opportunityBps` of a board without a usable fair value.
  abbrev net_opportunity : Option F → Option F → Opportunity F
  net_opportunity (some m) e = record {
    opp = m;
    model = some m;
    path = "model_edge";
    fv_src = "";
    fv = none;
    already_net = true;
  }
  net_opportunity none (some e) = record {
    opp = e;
    model = none;
    path = "board_edge";
    fv_src = "";
    fv = none;
    already_net = true;
  }
  net_opportunity none none = record {
    opp = nought;
    model = none;
    path = "none";
    fv_src = "";
    fv = none;
    already_net = false;
  }

  abbrev model_or : F → Option F → F
  model_or opp none = opp
  model_or opp (some m) = m

  abbrev residual : BoardSnap F → F → F → Opportunity F
  residual board mid v =
      let opp = mul (sub v mid) bps in
      record {
        opp = opp;
        model = some (model_or opp board.model_edge_bps);
        path = "fair_value";
        fv_src = text_or "board" board.fv_source;
        fv = some v;
        already_net = false;
      }

  abbrev opportunity_at : BoardSnap F → F → Option F → Opportunity F
  opportunity_at board mid none = net_opportunity board.model_edge_bps board.edge_bps
  opportunity_at board mid (some v) =
      if gt mid nought
      then residual board mid v
      else net_opportunity board.model_edge_bps board.edge_bps

  unfoldable pub opportunity_bps : BoardSnap F → F → Opportunity F
  opportunity_bps board mid = opportunity_at board mid board.fair_value

  abbrev pub mid_of : BookSnap F → F
  mid_of book =
      if le book.mid nought then div (add book.best_bid book.best_ask) (lit 2 0) else book.mid

  abbrev pub spread_of : BookSnap F → F
  spread_of book =
      let mid = mid_of book in
      if gt mid nought then div (mul bps (sub book.best_ask book.best_bid)) mid else nought

  abbrev pub cost_of : GateConfig F → BookSnap F → CostBreakdown F
  cost_of cfg book = compute_cost (record {
    best_bid = book.best_bid;
    best_ask = book.best_ask;
    bid_depth = book.bid_depth;
    ask_depth = book.ask_depth;
    levels = [];
    size_usd = cfg.probe_size_usd;
    taker_fee_bps = cfg.default_fee_bps;
    neg_risk_fee_bps = nought;
    impact_cap_bps = lit 25 0;
    impact_coeff = lit 50 0;
  })

  -- The book is older than the age gate allows.
  abbrev pub is_stale : GateConfig F → BookSnap F → ℕ → Bool
  is_stale cfg book now =
      ltb 0 cfg.max_book_age
      && not (book.updated_at == 0)
      && ltb (book.updated_at + cfg.max_book_age) now

  abbrev pub is_wide : GateConfig F → BookSnap F → Bool
  is_wide cfg book = gt cfg.max_spread_bps nought && gt (spread_of book) cfg.max_spread_bps

  -- The gates of `evaluate` in front of the edge, which do not depend on `applyGates`.
  unfoldable pub passes : GateConfig F → BoardSnap F → BookSnap F → ℕ → Bool
  passes cfg board book now =
      not (is_empty board.condition_id || is_empty board.token_id)
      && book_ok book
      && not (is_stale cfg book now)
      && not (is_wide cfg book)
      && (cost_of cfg book).has_book

  unfoldable pub signed_net : GateConfig F → BoardSnap F → BookSnap F → F
  signed_net cfg board book =
      let o = opportunity_bps board (mid_of book) in
      if o.already_net
      then sub o.opp cfg.buffer_bps
      else sub (sub o.opp (cost_of cfg book).total_cost_bps) cfg.buffer_bps

  unfoldable pub side_of : GateConfig F → Bool → F → Option String
  side_of cfg apply net =
      let min_e = if apply then cfg.min_edge_bps else nought in
      if gt net min_e
      then some side_buy
      else if lt net (neg min_e)
      then some side_sell
      else if apply
      then none
      else if ge net nought
      then some side_buy
      else some side_sell

  -- The test of the last signal of the condition in `evaluate`.
  abbrev pub is_debounced : GateConfig F → Option (LastEmit F) → String → F → ℕ → Bool
  is_debounced cfg none side abs_net now = false
  is_debounced cfg (some prev) side abs_net now =
      ltb 0 cfg.cooldown
      && str_eq prev.side side
      && ltb now (prev.emitted_at + cfg.cooldown)
      && lt (abs (sub abs_net (abs prev.edge_bps))) cfg.reissue_delta_bps

  unfoldable pub conviction_of : GateConfig F → F → F
  conviction_of cfg abs_net =
      let c = div abs_net cfg.conviction_scale in
      let top = if gt c unit then unit else c in if lt top nought then nought else top

  abbrev pub value_or : Option F → F
  value_or none = nought
  value_or (some x) = x

  unfoldable pub capacity_of : BoardSnap F → CostBreakdown F → F
  capacity_of board cost =
      let cap = value_or board.capacity_usd in
      if gt cost.capacity_usd nought && (le cap nought || lt cost.capacity_usd cap)
      then cost.capacity_usd
      else cap

  -- `if test && x > cap { x = cap }`
  abbrev pub cut_if : Bool → F → F → F
  cut_if test cap x = if test && gt x cap then cap else x

  unfoldable pub size_of : GateConfig F → F → F → F
  size_of cfg conviction cap =
      let scaled = mul cfg.probe_size_usd (add (lit 25 2) (mul (lit 75 2) conviction)) in
      let by_capacity =
        cut_if (gt cfg.capacity_frac nought && gt cap nought) (mul cap cfg.capacity_frac) scaled in
      cut_if (gt cfg.max_notional_usd nought) cfg.max_notional_usd by_capacity

  -- The map `reason` of `evaluate`.
  abbrev reason_of : GateConfig F → F → Bool → Bool → SignalReason F
  reason_of cfg net already_net reissue = record {
    gates = "on_board" ∷ "net_edge_gt_min" ∷ "book_fresh" ∷ "spread_ok" ∷ [];
    min_edge_bps = cfg.min_edge_bps;
    net_edge_bps = net;
    reissue = reissue;
    debounce_sec = cfg.cooldown / 1_000_000_000;
    edge_already_net = already_net;
    notes =
        if not already_net
        then "live residual after cost; paper only"
        else "board net edge at scan time; live cost observational; paper only";
  }

  -- The signal that `evaluate` builds; `id` is the result of `newSignalID`, and `reissue` is `hasPrev`.
  unfoldable pub build :
      GateConfig F → ℕ → String → BoardSnap F → BookSnap F → String → Bool → String → PaperSignal F
  build cfg now strategy board book id reissue side =
      let mid = mid_of book in
      let o = opportunity_bps board mid in
      let cost = cost_of cfg book in
      let net = signed_net cfg board book in
      let conviction = conviction_of cfg (abs net) in
      let cap = capacity_of board cost in
      let size = size_of cfg conviction cap in
      record {
        time = now;
        signal_id = id;
        event = "open";
        strategy = text_or "default" strategy;
        strategy_version_id = board.strategy_version_id;
        board_run_id = board.run_id;
        board_rank = board.rank;
        mode = "paper";
        condition_id = board.condition_id;
        market_id = board.market_id;
        token_id = board.token_id;
        outcome = "YES";
        neg_risk = board.neg_risk;
        neg_risk_group_id = board.neg_risk_group_id;
        side = side;
        action = "ENTER";
        time_in_force = "IOC_PAPER";
        edge_bps = net;
        opportunity_bps = o.opp;
        model_edge_bps = o.model;
        cost_bps = cost.total_cost_bps;
        cost_breakdown = cost;
        fair_value = o.fv;
        fv_source = o.fv_src;
        score_path = o.path;
        conviction = conviction;
        horizon_sec = cfg.horizon_sec;
        half_life_sec = cfg.half_life_sec;
        urgency = value_or board.urgency;
        size_usd = size;
        size_shares = if gt mid nought then div size mid else nought;
        capacity_usd = cap;
        kelly_frac = some (mul (lit 25 2) conviction);
        risk_flags = board.risk_flags;
        mid = mid;
        best_bid = book.best_bid;
        best_ask = book.best_ask;
        spread_bps = spread_of book;
        imbalance = book.imbalance;
        bid_depth = book.bid_depth;
        ask_depth = book.ask_depth;
        last_trade_price = book.last_trade_price;
        tags = board.strategy_tags;
        reason = reason_of cfg net o.already_net reissue;
      }

  -- `hasPrev`, which stays false where the gates do not apply.
  abbrev pub has_prev : Bool → Emitter F → String → Bool
  has_prev apply e condition_id = apply && is_some (lookup condition_id e.last)

  -- `evaluate` from the side on.
  abbrev pub emit :
      Emitter F
      → ℕ
      → String
      → BoardSnap F
      → BookSnap F
      → String
      → Bool
      → Option String
      → Option (PaperSignal F)
  emit e now strategy board book id apply none = none
  emit e now strategy board book id apply (some side) =
      let net = signed_net e.cfg board book in
      if apply && is_debounced e.cfg (lookup board.condition_id e.last) side (abs net) now
      then none
      else some (build e.cfg now strategy board book id (has_prev apply e board.condition_id) side)

  -- `evaluate` of an emitter that is not nil.
  unfoldable pub evaluate_with :
      Bool → Emitter F → ℕ → String → BoardSnap F → BookSnap F → String → Option (PaperSignal F)
  evaluate_with apply e now strategy board book id =
      if passes e.cfg board book now
      then emit e now strategy board book id apply
          (side_of e.cfg apply (signed_net e.cfg board book))
      else none

  unfoldable pub evaluate :
      Emitter F → ℕ → String → BoardSnap F → BookSnap F → String → Option (PaperSignal F)
  evaluate = evaluate_with true

  unfoldable pub candidate :
      Emitter F → ℕ → String → BoardSnap F → BookSnap F → String → Option (PaperSignal F)
  candidate = evaluate_with false

  -- `BlockedByCooldown` on what the emitter remembers of the condition.
  abbrev pub is_blocked : GateConfig F → Option (LastEmit F) → String → F → ℕ → Bool
  is_blocked cfg none side edge_bps now = false
  is_blocked cfg (some prev) side edge_bps now =
      if not (str_eq prev.side side)
      then false
      else if not (ltb now (prev.emitted_at + cfg.cooldown))
      then false
      else lt (abs (sub (abs edge_bps) (abs prev.edge_bps))) cfg.reissue_delta_bps

  unfoldable pub blocked_by_cooldown : Emitter F → String → String → F → ℕ → Bool
  blocked_by_cooldown e condition_id side edge_bps now =
      if is_empty condition_id
      then false
      else if not (ltb 0 e.cfg.cooldown)
      then false
      else is_blocked e.cfg (lookup condition_id e.last) side edge_bps now

  -- `Commit` of a signal that is not nil.
  unfoldable pub commit : Emitter F → PaperSignal F → Emitter F
  commit e sig = if is_empty sig.condition_id then e else record e {
    last =
        insert sig.condition_id
          (record {
            emitted_at = sig.time;
            side = sig.side;
            edge_bps = sig.edge_bps;
            id = sig.signal_id;
          })
          e.last;
  }
