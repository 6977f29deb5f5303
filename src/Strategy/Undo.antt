-- ===== src/Strategy/Undo.antt =====
-- internal/db/strategy_versions.go: a rollback undoes a promotion, once.
use poly_asian_data.Base.{
  ℕ, ◌≡◌, refl, ◌∙◌, sym, ap, String, true, false, Option, none, some, inl, arith, leb, ◌==◌,
  is_empty, str_eq, eq_iff,
}
use poly_asian_data.Base.Dict.{lookup, lookup-insert_self}
use poly_asian_data.Strategy.{
  active, retired, is_active, StrategyVersion, StrategyActive, no_rollback_target, Tables, Answer,
  ActivateOpts, get_strategy_version, live_row, switch_to, activate, rollback, rollback_opts,
  retire_others,
}
use poly_asian_data.Strategy.Live.{
  IsConsistent, get-set_status, get-retire_others, retire_if, get-id,
}

-- A version is activated over the pointer to another one.
record IsSwitch (t : Tables) (opts : ActivateOpts) (v : StrategyVersion) (a : StrategyActive)
    : Type 0 where
  positive : leb opts.version_id 0 ≡ false
  found : get_strategy_version t.versions opts.version_id ≡ some v
  over : lookup v.strategy t.live ≡ some a
  other : a.version_id == opts.version_id ≡ false

activate_switches :
    (t : Tables) (opts : ActivateOpts) (now : ℕ) (v : StrategyVersion) (a : StrategyActive)
    → IsSwitch t opts v a
    → activate t opts now ≡ switch_to t opts now v (some a.version_id)
unfolding activate
activate_switches t opts now v a s = rw (s.positive, s.found, s.over, s.other) refl

-- The pointer behind a switch is the row that it writes.
switched-live :
    (t : Tables) (opts : ActivateOpts) (now : ℕ) (v : StrategyVersion) (from_id : Option ℕ)
    → lookup v.strategy (switch_to t opts now v from_id).0.live ≡ some (live_row opts now v from_id)
unfolding switch_to
switched-live t opts now v from_id =
    lookup-insert_self v.strategy (live_row opts now v from_id) t.live

-- A switch retires the active version of its family.
switched-retired :
    (t : Tables) (opts : ActivateOpts) (now : ℕ) (v u : StrategyVersion) (from_id : Option ℕ)
    (k : ℕ)
    → get_strategy_version t.versions k ≡ some u
    → u.strategy ≡ v.strategy
    → u.status ≡ active
    → k == opts.version_id ≡ false
    → get_strategy_version (switch_to t opts now v from_id).0.versions k
      ≡ some (record u { status = retired })
unfolding switch_to
switched-retired t opts now v u from_id k e fam act other =
    let id = opts.version_id in
    let vs = retire_others v.strategy id t.versions in
    let away : id == k ≡ false = ground arith in
    let uid : u.id ≡ k = get-id t.versions k u e in
    let not_it : u.id == id ≡ false = ground arith in
    let same : str_eq u.strategy v.strategy ≡ true = (eq_iff u.strategy v.strategy).1 fam in
    let live : is_active u.status ≡ true = rw act refl in
    get-set_status active id vs k
    ∙ rw away (
        get-retire_others v.strategy id t.versions k
        ∙ (ap (retire_if v.strategy id) e ∙ rw (same, live, not_it) refl))

-- A rollback over a pointer with a previous version is the activation of that version.
rollback_activates :
    (t : Tables) (family actor reason : String) (now prev : ℕ) (a : StrategyActive)
    → is_empty family ≡ false
    → lookup family t.live ≡ some a
    → a.prev_version_id ≡ some prev
    → leb prev 0 ≡ false
    → rollback t family actor reason now ≡ activate t (rollback_opts actor reason prev) now
unfolding rollback
rollback_activates t family actor reason now prev a n l p z = rw (n, l, p, z) refl

-- Without a previous version a rollback fails and changes nothing.
rollback_fails :
    (t : Tables) (family actor reason : String) (now : ℕ) (a : StrategyActive)
    → is_empty family ≡ false
    → lookup family t.live ≡ some a
    → a.prev_version_id ≡ none
    → rollback t family actor reason now ≡ (t, inl no_rollback_target)
unfolding rollback
rollback_fails t family actor reason now a n l p = rw (n, l, p) refl

module _ (t : Tables) (opts : ActivateOpts) (now : ℕ) (v : StrategyVersion)
    (a : StrategyActive) where
  -- A promotion of `v` over `a`, in a family with a name.
  pub record IsPromotion : Type 0 where
    pub consistent : IsConsistent t
    pub id_positive : leb opts.version_id 0 ≡ false
    pub found : get_strategy_version t.versions opts.version_id ≡ some v
    pub over : lookup v.strategy t.live ≡ some a
    pub other : a.version_id == opts.version_id ≡ false
    pub old_positive : leb a.version_id 0 ≡ false
    pub keeps_prev : opts.clear_prev ≡ false
    pub has_name : is_empty v.strategy ≡ false

  -- In consistent tables, a promotion over a live version and one rollback of the family make the
  -- version live that was so before; a second rollback then fails with ErrNoRollbackTarget and changes
  -- nothing.
  pub rollback_once :
      (actor reason : String) (at later : ℕ)
      → IsPromotion
      → let after = (rollback (activate t opts now).0 v.strategy actor reason at).0 in
        (r : StrategyActive) × (lookup v.strategy after.live ≡ some r)
        × (r.version_id ≡ a.version_id)
        × (rollback after v.strategy actor reason later ≡ (after, inl no_rollback_target))
  rollback_once actor reason at later h =
      let promoted =
        activate_switches t opts now v a
          (record { positive = h.id_positive; found = h.found; over = h.over; other = h.other }) in
      let t1 = (activate t opts now).0 in
      let row = live_row opts now v (some a.version_id) in
      let live1 : lookup v.strategy t1.live ≡ some row =
        ap (λ (x : Answer). lookup v.strategy (x.0).live) promoted
        ∙ switched-live t opts now v (some a.version_id) in
      let (u, found, fam, act) = h.consistent.pointed v.strategy a h.over in
      let gone : get_strategy_version t1.versions a.version_id
          ≡ some (record u { status = retired }) =
        ap (λ (x : Answer). get_strategy_version (x.0).versions a.version_id) promoted
        ∙ switched-retired t opts now v u (some a.version_id) a.version_id found fam act h.other in
      let prev : row.prev_version_id ≡ some a.version_id = rw h.keeps_prev refl in
      let ro = rollback_opts actor reason a.version_id in
      let u1 = record u { status = retired } in
      let undone : rollback t1 v.strategy actor reason at
          ≡ switch_to t1 ro at u1 (some row.version_id) =
        rollback_activates t1 v.strategy actor reason at a.version_id row h.has_name live1 prev
          h.old_positive
        ∙ activate_switches t1 ro at u1 row (record {
          positive = h.old_positive;
          found = gone;
          over = rw fam live1;
          other = ground (arith, h.other);
        }) in
      let back = live_row ro at u1 (some row.version_id) in
      let t2 = (rollback t1 v.strategy actor reason at).0 in
      let live2 : lookup v.strategy t2.live ≡ some back =
        ap (λ (x : Answer). lookup v.strategy (x.0).live) undone
        ∙ (ap (λ f. lookup f (switch_to t1 ro at u1 (some row.version_id)).0.live) (sym fam)
            ∙ switched-live t1 ro at u1 (some row.version_id)) in
      (
        back,
        live2,
        refl,
        rollback_fails t2 v.strategy actor reason later back h.has_name live2 refl,
      )
