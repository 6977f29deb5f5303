-- ===== src/Strategy/Registry.antt =====
-- internal/strategyreg: registration, the promote gate, promotion and retirement.
use poly_asian_data.Base.{
  ℕ, ◌≡◌, ◌≢◌, refl, String, Bool, true, false, not, ◌&&◌, [], ◌∷◌, ◌++◌, Option, none, some, ◌⊎◌,
  inl, inr, arith, leb, str_eq, eq_iff, is_empty, if◌then◌else◌, Bool-cases, Option-cases,
}
use poly_asian_data.Strategy.{
  Status, draft, candidate, retired, is_active, StrategyVersion, StoreError, not_found,
  gate_rejected, id_required, surface_required, id_taken, active_version, Tables,
  get_strategy_version, set_status, ActivateOpts, Answer, activate, name_or,
}

pub record SurfaceSummary : Type 0 where
  pub is_ok : Bool
  pub promote_eligible : Bool
  pub weights_hash : String
  pub run_id : String
  pub strategy_name : String
  pub status : String

-- `CheckPromoteGate`: `true` where it returns nil; every error wraps ErrGateRejected.
unfoldable pub check_promote_gate : SurfaceSummary → String → String → Bool
check_promote_gate s version_hash version_strategy =
    if is_empty version_hash
    then false
    else if is_empty s.weights_hash
    then false
    else if not (str_eq s.weights_hash version_hash)
    then false
    else if not (is_empty s.strategy_name)
        && not (is_empty version_strategy)
        && not (str_eq s.strategy_name version_strategy)
    then false
    else if not s.is_ok
    then false
    else if not s.promote_eligible
    then false
    else true

pub record PromoteOpts : Type 0 where
  pub version_id : ℕ
  pub surface_path : String
  pub actor : String
  pub reason : String

-- What Promote asks of the activation.
abbrev pub promote_opts : PromoteOpts → StrategyVersion → SurfaceSummary → ActivateOpts
promote_opts opts v s = record {
  version_id = opts.version_id;
  actor = name_or "operator" opts.actor;
  eval_run_id = s.run_id;
  weights_hash = v.weights_hash;
  promote_eligible = true;
  reason = opts.reason;
  action = "promote";
  clear_prev = false;
}

abbrev promote_gated :
    Tables → PromoteOpts → ℕ → StrategyVersion → StoreError ⊎ SurfaceSummary → Answer
promote_gated t opts now v (inl e) = (t, inl e)
promote_gated t opts now v (inr s) =
    let done = activate t (promote_opts opts v s) now in
    if check_promote_gate s v.weights_hash v.strategy then done else (t, inl gate_rejected)

abbrev promote_found :
    (String → StoreError ⊎ SurfaceSummary)
    → Tables
    → PromoteOpts
    → ℕ
    → Option StrategyVersion
    → Answer
promote_found load t opts now none = (t, inl not_found)
promote_found load t opts now (some v) = promote_gated t opts now v (load opts.surface_path)

-- `Promote`; `load` is `LoadSurfaceSummary`, which reads and decodes a file.
unfoldable pub promote : (String → StoreError ⊎ SurfaceSummary) → Tables → PromoteOpts → ℕ → Answer
unfolding check_promote_gate
promote load t opts now =
    if leb opts.version_id 0
    then (t, inl id_required)
    else if is_empty opts.surface_path
    then (t, inl surface_required)
    else promote_found load t opts now (get_strategy_version t.versions opts.version_id)

-- `SetStrategyStatus` to `status` and the audit row, for a version that is not active: `Retire` and
-- `MarkCandidate`, when no statement fails.
abbrev relabel_found :
    Tables
    → Status
    → String
    → ℕ
    → String
    → String
    → ℕ
    → Option StrategyVersion
    → Tables × Option StoreError
relabel_found t status action id actor reason now none = (t, some not_found)
relabel_found t status action id actor reason now (some v) =
    if is_active v.status then (t, some active_version) else (
      record t {
        versions = set_status status id t.versions;
        promotions =
            t.promotions
            ++ record {
              strategy = v.strategy;
              action = action;
              from_version_id = none;
              to_version_id = some id;
              eval_run_id = "";
              weights_hash = v.weights_hash;
              promote_eligible = none;
              reason = reason;
              actor = name_or "operator" actor;
              created_at = now;
            }
              ∷ [];
      },
      none,
    )

-- What `Retire` and `MarkCandidate` share, when no other call comes between the read of the version, its
-- check, the write and the audit row, which the code does not put into one transaction.
unfoldable pub relabel :
    Tables → Status → String → ℕ → String → String → ℕ → Tables × Option StoreError
relabel t status action id actor reason now =
    relabel_found t status action id actor reason now (get_strategy_version t.versions id)

unfoldable pub retire : Tables → ℕ → String → String → ℕ → Tables × Option StoreError
unfolding relabel
retire t id actor reason now = relabel t retired "retire" id actor reason now

unfoldable pub mark_candidate : Tables → ℕ → String → String → ℕ → Tables × Option StoreError
unfolding relabel
mark_candidate t id actor reason now = relabel t candidate "candidate" id actor reason now

-- The row that `Register` inserts; `is_candidate` is the option Status.
abbrev pub new_row : StrategyVersion → Bool → StrategyVersion
new_row v is_candidate = record v { status = if is_candidate then candidate else draft }

abbrev register_fresh :
    Tables → StrategyVersion → Bool → Option StrategyVersion → Tables × Option StoreError
register_fresh t v is_candidate (some _) = (t, some id_taken)
register_fresh t v is_candidate none = (
  record t {
    versions = new_row v is_candidate ∷ t.versions;
    promotions =
        t.promotions
        ++ record {
          strategy = v.strategy;
          action = "register";
          from_version_id = none;
          to_version_id = some v.id;
          eval_run_id = "";
          weights_hash = v.weights_hash;
          promote_eligible = none;
          reason = v.note;
          actor = v.created_by;
          created_at = v.created_at;
        }
          ∷ [];
  },
  none,
)

-- `Register` from the insertion on, of a version of the read file with the next ID of the sequence.
-- An ID that is taken violates the primary key.
unfoldable pub register : Tables → StrategyVersion → Bool → Tables × Option StoreError
register t v is_candidate = register_fresh t v is_candidate (get_strategy_version t.versions v.id)

-- What the comment on CheckPromoteGate asks for, with the case that it leaves out: a version without
-- a strategy name.
abbrev pub IsAllowed : SurfaceSummary → String → String → Type 0
IsAllowed s version_hash version_strategy =
    (s.promote_eligible ≡ true)
    × (s.is_ok ≡ true)
    × (version_hash ≢ "")
    × (s.weights_hash ≡ version_hash)
    × ((s.strategy_name ≡ "") ⊎ ((version_strategy ≡ "") ⊎ (s.strategy_name ≡ version_strategy)))

-- The gate opens exactly for a surface that is eligible and ok, with the version's weights hash,
-- which is not empty, and with no strategy name or the version's, or for a version without a name.
pub check_promote_gate_iff :
    (s : SurfaceSummary) (version_hash version_strategy : String)
    → (check_promote_gate s version_hash version_strategy ≡ true
        → IsAllowed s version_hash version_strategy)
      × (IsAllowed s version_hash version_strategy
          → check_promote_gate s version_hash version_strategy ≡ true)
unfolding check_promote_gate
check_promote_gate_iff s h f = (
  λ e. ground (
    arith,
    eq_iff h "",
    eq_iff s.weights_hash "",
    eq_iff s.weights_hash h,
    eq_iff s.strategy_name "",
    eq_iff f "",
    eq_iff s.strategy_name f,
  ),
  λ a. ground (
    arith,
    eq_iff h "",
    eq_iff s.weights_hash "",
    eq_iff s.weights_hash h,
    eq_iff s.strategy_name "",
    eq_iff f "",
    eq_iff s.strategy_name f,
  ),
)

sum-cases :
    (x : StoreError ⊎ SurfaceSummary)
    → ((e : StoreError) × (x ≡ inl e)) ⊎ ((s : SurfaceSummary) × (x ≡ inr s))
sum-cases (inl e) = inl (e, refl)
sum-cases (inr s) = inr (s, refl)

-- Promote either fails and changes nothing, or it found the version, read a surface that passes the
-- gate for it, and is the activation of the version with the surface's run and the version's hash.
pub promote-gated :
    (load : String → StoreError ⊎ SurfaceSummary) (t : Tables) (opts : PromoteOpts) (now : ℕ)
    → ((e : StoreError) × (promote load t opts now ≡ (t, inl e)))
      ⊎ ((v : StrategyVersion) × (s : SurfaceSummary) × (get_strategy_version t.versions
              opts.version_id
            ≡ some v)
          × (load opts.surface_path ≡ inr s)
          × IsAllowed s v.weights_hash v.strategy
          × (promote load t opts now ≡ activate t (promote_opts opts v s) now))
unfolding promote
promote-gated load t opts now = elim (Bool-cases (leb opts.version_id 0)) [
  | inl z ↦ rw z (inl (_, refl))
  | inr z ↦ elim (Bool-cases (is_empty opts.surface_path)) [
    | inl p ↦ rw (z, p) (inl (_, refl))
    | inr p ↦ elim (Option-cases (get_strategy_version t.versions opts.version_id)) [
      | inl e ↦ rw (z, p, e) (inl (_, refl))
      | inr (v, e) ↦ elim (sum-cases (load opts.surface_path)) [
        | inl (err, l) ↦ rw (z, p, e, l) (inl (_, refl))
        | inr (s, l) ↦ elim (Bool-cases (check_promote_gate s v.weights_hash v.strategy)) [
          | inl g ↦
              let allowed = (check_promote_gate_iff s v.weights_hash v.strategy).0 g in
              inr (v, s, e, l, allowed, rw (z, p, e, l, g) refl)
          | inr g ↦ rw (z, p, e, l, g) (inl (_, refl))
        ]
      ]
    ]
  ]
]
