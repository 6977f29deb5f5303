-- ===== src/Tests/Strategy.antt =====
-- internal/strategyreg: two versions of one family, registered, promoted and rolled back.
use poly_asian_data.Base.{
  ℕ, ◌≡◌, refl, String, true, false, List, [], ◌∷◌, none, some, ◌⊎◌, inl, inr,
}
use poly_asian_data.Base.Dict.{lookup}
use poly_asian_data.Strategy.{
  Status, draft, StrategyVersion, StrategyActive, StoreError, no_rollback_target, Tables,
  ActivateOpts, get_strategy_version, activate, rollback, switch_to,
}
use poly_asian_data.Strategy.Registry.{
  SurfaceSummary, PromoteOpts, check_promote_gate, IsAllowed, promote, promote_opts, register,
  check_promote_gate_iff, promote-gated,
}
use poly_asian_data.Strategy.Live.{IsConsistent}
use poly_asian_data.Strategy.Session.{
  Command, add, push, no_tables, run_commands, run_command, session-IsConsistent,
}
use poly_asian_data.Strategy.Undo.{IsPromotion, rollback_once}

abbrev version : ℕ → String → StrategyVersion
version id hash = record {
  id = id;
  strategy = "alpha";
  status = draft;
  params = "{}";
  weights_hash = hash;
  source_path = "w.yaml";
  git_sha = "";
  note = "";
  created_at = 1;
  created_by = "operator";
}

abbrev surface : String → SurfaceSummary
surface hash = record {
  is_ok = true;
  promote_eligible = true;
  weights_hash = hash;
  run_id = "r1";
  strategy_name = "alpha";
  status = "";
}

-- The surfaces are named by their hashes.
abbrev load : String → StoreError ⊎ SurfaceSummary
load path = inr (surface path)

abbrev request : ℕ → String → PromoteOpts
request id path = record { version_id = id; surface_path = path; actor = ""; reason = "" }

abbrev set_up : List Command
set_up = add (version 1 "h1") false ∷ add (version 2 "h2") true ∷ push (request 1 "h1") 5 ∷ []

abbrev tables : Tables
tables = run_commands load no_tables set_up

session-IsConsistent_example : IsConsistent tables
session-IsConsistent_example = session-IsConsistent load set_up

check_promote_gate_iff_example :
    (check_promote_gate (surface "h1") "h1" "alpha" ≡ true → IsAllowed (surface "h1") "h1" "alpha")
    × (IsAllowed (surface "h1") "h1" "alpha"
        → check_promote_gate (surface "h1") "h1" "alpha" ≡ true)
check_promote_gate_iff_example = check_promote_gate_iff (surface "h1") "h1" "alpha"

promote-gated_example :
    ((e : StoreError) × (promote load tables (request 2 "h2") 6 ≡ (tables, inl e)))
    ⊎ ((v : StrategyVersion) × (s : SurfaceSummary) × (get_strategy_version tables.versions 2
          ≡ some v)
        × (load "h2" ≡ inr s)
        × IsAllowed s v.weights_hash v.strategy
        × (promote load tables (request 2 "h2") 6
            ≡ activate tables (promote_opts (request 2 "h2") v s) 6))
promote-gated_example = promote-gated load tables (request 2 "h2") 6

abbrev second : StrategyVersion
second = record (version 2 "h2") { status = Status.candidate }

abbrev opts : ActivateOpts
opts = promote_opts (request 2 "h2") second (surface "h2")

abbrev first_live : StrategyActive
first_live = record {
  strategy = "alpha";
  version_id = 1;
  promoted_at = 5;
  promoted_by = "operator";
  eval_run_id = "r1";
  prev_version_id = none;
}

second_promoted : IsPromotion tables opts 6 second first_live
unfolding run_commands run_command register promote activate switch_to check_promote_gate
second_promoted = record {
  consistent = session-IsConsistent load set_up;
  id_positive = refl;
  found = refl;
  over = refl;
  other = refl;
  old_positive = refl;
  keeps_prev = refl;
  has_name = refl;
}

rollback_once_example :
    let after = (rollback (activate tables opts 6).0 "alpha" "" "" 7).0 in
    (r : StrategyActive) × (lookup "alpha" after.live ≡ some r)
    × (r.version_id ≡ 1)
    × (rollback after "alpha" "" "" 8 ≡ (after, inl no_rollback_target))
rollback_once_example = rollback_once tables opts 6 second first_live "" "" 7 8 second_promoted
