-- ===== src/Tests/Signals.antt =====
-- internal/signals: a boarded name with a fair value above its book.
use mathlib.Core.List.{map}
use poly_asian_data.Base.{ℕ, ◌+◌, ◌≤◌, ◌≡◌, ◌≢◌, ◌⊎◌, refl, true, false, [], ◌∷◌, none, some, arith}
use poly_asian_data.Float.FixedPoint.{Fixed, fixed_float, Fixed-IsOrdered}
use poly_asian_data.Risk.{default_config}
use poly_asian_data.Alloc.{Input, Outcome, run}
use poly_asian_data.Signals.{PaperSignal, BookSnap, BoardSnap, Emitter, default_gate_config}
use poly_asian_data.Signals.Paper.{
  evaluate, candidate, evaluate_with, commit, build, passes, book_ok, signed_net, side_of,
  opportunity_bps,
}
use poly_asian_data.Cost.{compute_cost}
use poly_asian_data.Signals.Gates.{gate, evaluate_lem}
use poly_asian_data.Signals.Limits.{Limited, evaluate_with-Limited, evaluate-commit}
use poly_asian_data.Signals.Select.{names_of, select_taken, select_taken-run}

abbrev n : ℕ → Fixed
n k = fixed_float.lit k 0

abbrev cents : ℕ → Fixed
cents k = fixed_float.lit k 2

abbrev board : BoardSnap Fixed
board = record {
  condition_id = "c1";
  market_id = "m1";
  token_id = "t1";
  rank = 1;
  score = n 1;
  edge_bps = none;
  cost_bps = none;
  capacity_usd = some (n 1000);
  urgency = none;
  fair_value = some (cents 60);
  model_edge_bps = none;
  fv_source = "";
  neg_risk = false;
  neg_risk_group_id = "";
  strategy_tags = [];
  risk_flags = [];
  strategy_version_id = none;
  run_id = "r1";
}

abbrev book : BookSnap Fixed
book = record {
  best_bid = cents 49;
  best_ask = cents 50;
  mid = n 0;
  last_trade_price = cents 50;
  imbalance = n 0;
  bid_depth = n 5000;
  ask_depth = n 5000;
  updated_at = 1000;
}

abbrev emitter : Emitter Fixed
emitter = record { cfg = default_gate_config; last = [] }

abbrev sig : PaperSignal Fixed
sig = build default_gate_config 2000 "default" board book "id" false "BUY"

-- Evaluate emits that signal.
emitted : evaluate emitter 2000 "" board book "id" ≡ some sig
unfolding evaluate evaluate_with passes book_ok compute_cost signed_net side_of opportunity_bps
    build
emitted = refl

evaluate_lem_example :
    evaluate emitter 2000 "" board book "id"
    ≡ gate emitter 2000 (candidate emitter 2000 "" board book "id")
evaluate_lem_example = evaluate_lem Fixed-IsOrdered emitter 2000 "" board book "id" refl

evaluate_with-Limited_example : Limited default_gate_config 2000 book sig
unfolding evaluate
evaluate_with-Limited_example =
    evaluate_with-Limited Fixed-IsOrdered true emitter 2000 "" board book "id" sig emitted

-- The same name again, ten minutes later.
abbrev later : ℕ
later = 601_000_002_000

abbrev fresh_book : BookSnap Fixed
fresh_book = record book { updated_at = 601_000_000_000 }

abbrev again : PaperSignal Fixed
again = build default_gate_config later "default" board fresh_book "id2" true "BUY"

emitted_again : evaluate (commit emitter sig) later "" board fresh_book "id2" ≡ some again
unfolding evaluate evaluate_with passes book_ok compute_cost signed_net side_of opportunity_bps
    build commit
emitted_again = refl

evaluate-commit_example :
    (sig.side ≢ again.side)
    ⊎ (sig.time + emitter.cfg.cooldown ≤ later)
    ⊎ (fixed_float.lt
          (fixed_float.abs
            (fixed_float.sub (fixed_float.abs again.edge_bps) (fixed_float.abs sig.edge_bps)))
          emitter.cfg.reissue_delta_bps
        ≡ false)
unfolding build
evaluate-commit_example =
    evaluate-commit emitter sig later "" board fresh_book "id2" again refl refl (omega arith)
      emitted_again

abbrev input : Input Fixed
input = record {
  names = names_of (some sig ∷ none ∷ []);
  risk = default_config;
  worth = record { min_edge_bps = n 25; max_spread_bps = n 500; require_fv = true };
  open_ids = [];
}

select_taken-run_example :
    (o : Outcome Fixed) × (run (λ n. n.condition_id) input ≡ some o)
    × (map (λ s. s.condition_id) (select_taken (some sig ∷ none ∷ []) o)
        ≡ map (λ n. n.condition_id) o.taken)
select_taken-run_example = select_taken-run (λ n. n.condition_id) input (some sig ∷ none ∷ []) refl
