-- ===== src/Strategy.antt =====
-- internal/db/strategy_versions.go and internal/strategyreg: versions of a strategy's weights, the
-- version that is live, and the gate in front of it. The three tables are the record Tables; each SQL
-- statement is the function on them that it says.
pub mod Registry
pub mod Live
pub mod Session
pub mod Undo
use poly_asian_data.Base.{
  ℕ, ◌+◌, String, Bool, true, false, not, ◌&&◌, ◌||◌, List, [], ◌∷◌, ◌++◌, Option, none, some, ◌⊎◌,
  inl, inr, ◌==◌, leb, str_eq, is_empty, if◌then◌else◌, map,
}
use poly_asian_data.Base.Dict.{Dict, lookup, insert}

pub data Status : Type 0 where
  draft candidate active retired : Status

abbrev pub is_active : Status → Bool
is_active active = true
is_active _ = false

pub record StrategyVersion : Type 0 where
  pub id : ℕ
  pub strategy : String
  pub status : Status
  pub params : String
  pub weights_hash : String
  pub source_path : String
  pub git_sha : String
  pub note : String
  pub created_at : ℕ
  pub created_by : String

pub record StrategyActive : Type 0 where
  pub strategy : String
  pub version_id : ℕ
  pub promoted_at : ℕ
  pub promoted_by : String
  pub eval_run_id : String
  pub prev_version_id : Option ℕ

pub record StrategyPromotion : Type 0 where
  pub strategy : String
  pub action : String
  pub from_version_id : Option ℕ
  pub to_version_id : Option ℕ
  pub eval_run_id : String
  pub weights_hash : String
  pub promote_eligible : Option Bool
  pub reason : String
  pub actor : String
  pub created_at : ℕ

pub data StoreError : Type 0 where
  not_found no_active no_rollback_target id_required surface_required gate_rejected active_version
        id_taken :
      StoreError

-- The tables strategy_versions, strategy_active (by its key) and strategy_promotions.
pub record Tables : Type 0 where
  pub versions : List StrategyVersion
  pub live : Dict StrategyActive
  pub promotions : List StrategyPromotion

-- `GetStrategyVersion`
abbrev pub get_strategy_version : List StrategyVersion → ℕ → Option StrategyVersion
get_strategy_version [] id = none
get_strategy_version (v ∷ vs) id =
    let rest = get_strategy_version vs id in if v.id == id then some v else rest

-- UPDATE strategy_versions SET status WHERE id
abbrev pub set_status : Status → ℕ → List StrategyVersion → List StrategyVersion
set_status s id [] = []
set_status s id (v ∷ vs) =
    let rest = set_status s id vs in if v.id == id then record v { status = s } ∷ rest else v ∷ rest

-- The mass retirement: every active row of the family but `id`.
abbrev pub retire_others : String → ℕ → List StrategyVersion → List StrategyVersion
retire_others family id [] = []
retire_others family id (v ∷ vs) =
    let rest = retire_others family id vs in
    if str_eq v.strategy family && is_active v.status && not (v.id == id)
    then record v { status = retired } ∷ rest
    else v ∷ rest

abbrev pub name_or : String → String → String
name_or d s = if is_empty s then d else s

-- `GetStrategyActive`
abbrev pub get_strategy_active : Tables → String → Option StrategyActive
get_strategy_active t family = lookup (name_or "default" family) t.live

pub record ActivateOpts : Type 0 where
  pub version_id : ℕ
  pub actor : String
  pub eval_run_id : String
  pub weights_hash : String
  pub promote_eligible : Bool
  pub reason : String
  pub action : String
  pub clear_prev : Bool

-- What an operation returns, with the tables that it leaves.
abbrev pub Answer : Type 0
Answer = Tables × (StoreError ⊎ StrategyActive)

-- The live pointer's version.
abbrev pub current_id : Option StrategyActive → Option ℕ
current_id none = none
current_id (some a) = some a.version_id

abbrev is_same : Option ℕ → ℕ → Bool
is_same none id = false
is_same (some n) id = n == id

-- The row that the upsert of the live pointer writes.
abbrev pub live_row : ActivateOpts → ℕ → StrategyVersion → Option ℕ → StrategyActive
live_row opts now v from_id = record {
  strategy = v.strategy;
  version_id = opts.version_id;
  promoted_at = now;
  promoted_by = name_or "operator" opts.actor;
  eval_run_id = opts.eval_run_id;
  prev_version_id = if opts.clear_prev then none else from_id;
}

-- `ActivateStrategyVersion` of a version that is not the live one, from the mass retirement on.
unfoldable pub switch_to : Tables → ActivateOpts → ℕ → StrategyVersion → Option ℕ → Answer
switch_to t opts now v from_id =
    let row = live_row opts now v from_id in
    let audit : StrategyPromotion = record {
      strategy = v.strategy;
      action = name_or "promote" opts.action;
      from_version_id = from_id;
      to_version_id = some opts.version_id;
      eval_run_id = opts.eval_run_id;
      weights_hash = name_or v.weights_hash opts.weights_hash;
      promote_eligible = some opts.promote_eligible;
      reason = opts.reason;
      actor = name_or "operator" opts.actor;
      created_at = now;
    } in
    (
      record {
        versions =
            set_status active opts.version_id (retire_others v.strategy opts.version_id t.versions);
        live = insert v.strategy row t.live;
        promotions = t.promotions ++ audit ∷ [];
      },
      inr row,
    )

-- The branch of a version that is live already: its status is mended.
unfoldable pub keep_live : Tables → StrategyVersion → StrategyActive → Answer
keep_live t v a =
    let mended = set_status active v.id (retire_others v.strategy v.id t.versions) in
    (if is_active v.status then t else record t { versions = mended }, inr a)

-- `ActivateStrategyVersion` with the live pointer that it reads.
unfoldable pub activate_over :
    Tables → ActivateOpts → ℕ → StrategyVersion → Option StrategyActive → Answer
unfolding switch_to keep_live
activate_over t opts now v none = switch_to t opts now v none
activate_over t opts now v (some a) =
    if a.version_id == opts.version_id
    then keep_live t v a
    else switch_to t opts now v (some a.version_id)

abbrev pub activate_found : Tables → ActivateOpts → ℕ → Option StrategyVersion → Answer
activate_found t opts now none = (t, inl not_found)
activate_found t opts now (some v) = activate_over t opts now v (lookup v.strategy t.live)

-- `ActivateStrategyVersion` at the time `now`, when no statement of the transaction fails.
unfoldable pub activate : Tables → ActivateOpts → ℕ → Answer
unfolding activate_over
activate t opts now =
    if leb opts.version_id 0
    then (t, inl id_required)
    else activate_found t opts now (get_strategy_version t.versions opts.version_id)

-- What a rollback to `prev` asks of the activation.
abbrev pub rollback_opts : String → String → ℕ → ActivateOpts
rollback_opts actor reason prev = record {
  version_id = prev;
  actor = name_or "operator" actor;
  eval_run_id = "";
  weights_hash = "";
  promote_eligible = false;
  reason = reason;
  action = "rollback";
  clear_prev = true;
}

abbrev pub rollback_to : Tables → String → String → ℕ → Option StrategyActive → Answer
rollback_to t actor reason now none = (t, inl no_active)
rollback_to t actor reason now (some cur) = elim cur.prev_version_id [
  | none ↦ (t, inl no_rollback_target)
  | some prev ↦
      let back = activate t (rollback_opts actor reason prev) now in
      if leb prev 0 then (t, inl no_rollback_target) else back
]

-- `RollbackStrategyActive`
unfoldable pub rollback : Tables → String → String → String → ℕ → Answer
unfolding activate
rollback t family actor reason now = rollback_to t actor reason now (get_strategy_active t family)
