-- ===== src/Strategy/Session.antt =====
-- internal/strategyreg: what every sequence of registry operations keeps.
use poly_asian_data.Base.{
  ℕ, ◌≡◌, refl, ◌∙◌, sym, ap, String, Bool, false, List, [], ◌∷◌, Option, none, some, ◌⊎◌, inl, inr,
  arith, ◌==◌, if◌then◌else◌, Bool-cases, Option-cases,
}
use poly_asian_data.Strategy.{
  Status, draft, candidate, active, retired, is_active, StrategyVersion, StoreError, Tables,
  get_strategy_version, set_status, rollback,
}
use poly_asian_data.Strategy.Registry.{
  SurfaceSummary, PromoteOpts, promote, promote-gated, promote_opts, relabel, retire,
  mark_candidate, register,
}
use poly_asian_data.Strategy.Live.{
  IsConsistent, get-set_status, activate-IsConsistent, rollback-IsConsistent,
}

abbrev pub no_tables : Tables
no_tables = record { versions = []; live = []; promotions = [] }

pub data Command : Type 0 where
  add : StrategyVersion → Bool → Command
  shadow : ℕ → String → String → ℕ → Command
  push : PromoteOpts → ℕ → Command
  back : String → String → String → ℕ → Command
  drop_out : ℕ → String → String → ℕ → Command

-- Two IDs of which one is of an active version and the other is not differ.
different :
    (vs : List StrategyVersion) (id k : ℕ) (v u : StrategyVersion)
    → get_strategy_version vs id ≡ some v
    → get_strategy_version vs k ≡ some u
    → is_active v.status ≡ false
    → u.status ≡ active
    → id == k ≡ false
different vs id k v u e f a act = elim (Bool-cases (id == k)) [
  | inr b ↦ b
  | inl b ↦
      let same : id ≡ k = ground arith in
      let uv : u ≡ v = let here = rw (← same) at f in cc in
      let st : v.status ≡ active = sym (ap (λ (x : StrategyVersion). x.status) uv) ∙ act in
      absurd (let bad = rw st at a in ground (arith, bad))
]

relabelled :
    (status : Status) (vs : List StrategyVersion) (id k : ℕ) (v u : StrategyVersion)
    → is_active status ≡ false
    → get_strategy_version vs id ≡ some v
    → get_strategy_version (set_status status id vs) k ≡ some u
    → u.status ≡ active
    → get_strategy_version vs k ≡ some u
relabelled status vs id k v u s e h act = elim (Bool-cases (id == k)) [
  | inr b ↦ let got = get-set_status status id vs k in sym (got ∙ rw b refl) ∙ h
  | inl b ↦
      let same : id ≡ k = ground arith in
      let there : get_strategy_version vs k ≡ some v = rw (← same) e in
      let set : get_strategy_version (set_status status id vs) k
          ≡ some (record v { status = status }) =
        get-set_status status id vs k ∙ rw (b, there) refl in
      let st : u.status ≡ status = ap status_of (sym h ∙ set) in
      absurd (
        let bad : is_active active ≡ false = ap is_active (sym act ∙ st) ∙ s in ground (arith, bad))
]
  where
    status_of : Option StrategyVersion → Status
    status_of none = active
    status_of (some x) = x.status

-- A change of status of a version that is not active, to one that is not active.
relabel-IsConsistent :
    (t : Tables) (status : Status) (action : String) (id : ℕ) (actor reason : String) (now : ℕ)
    → is_active status ≡ false
    → IsConsistent t
    → IsConsistent (relabel t status action id actor reason now).0
unfolding relabel
relabel-IsConsistent t status action id actor reason now s c =
    elim (Option-cases (get_strategy_version t.versions id)) [
      | inl e ↦ rw e c
      | inr (v, e) ↦ elim (Bool-cases (is_active v.status)) [
        | inl a ↦ rw (e, a) c
        | inr a ↦
            rw (e, a)
              (record {
                pointed = λ family p l.
                    let (u, found, fam, act) = c.pointed family p l in
                    (
                      u,
                      get-set_status status id t.versions p.version_id
                          ∙ (let b = different t.versions id p.version_id v u e found a act in
                              rw b found),
                      fam,
                      act,
                    );
                named =
                    λ k u h act. c.named k u (relabelled status t.versions id k v u s e h act) act;
              })
      ]
    ]

register-IsConsistent :
    (t : Tables) (v : StrategyVersion) (b : Bool) → IsConsistent t → IsConsistent (register t v b).0
unfolding register
register-IsConsistent t v b c = elim (Option-cases (get_strategy_version t.versions v.id)) [
  | inr (u, e) ↦ rw e c
  | inl e ↦ rw e (record {
    pointed = λ family p l.
        let (u, found, fam, act) = c.pointed family p l in
        let other : v.id == p.version_id ≡ false = elim (Bool-cases (v.id == p.version_id)) [
          | inr q ↦ q
          | inl q ↦
              let same : v.id ≡ p.version_id = ground arith in
              absurd (
                let clash = ap (get_strategy_version t.versions) same ∙ found in
                let bad = sym clash ∙ e in ground (arith, bad))
        ] in
        (u, rw other found, fam, act);
    named = λ k u h act. elim (Bool-cases (v.id == k)) [
      | inr q ↦ c.named k u (rw q at h) act
      | inl q ↦
          let new = rw q at h in
          let st : (if b then candidate else draft) ≡ active = ap status_of new ∙ act in
          absurd (ground (arith, st))
    ];
  })
]
  where
    status_of : Option StrategyVersion → Status
    status_of none = active
    status_of (some x) = x.status

module _ (load : String → StoreError ⊎ SurfaceSummary) where
  unfoldable pub run_command : Tables → Command → Tables
  run_command t (add v b) = (register t v b).0
  run_command t (shadow id actor reason now) = (mark_candidate t id actor reason now).0
  run_command t (push opts now) = (promote load t opts now).0
  run_command t (back family actor reason now) = (rollback t family actor reason now).0
  run_command t (drop_out id actor reason now) = (retire t id actor reason now).0

  unfoldable pub run_commands : Tables → List Command → Tables
  unfolding run_command
  run_commands t [] = t
  run_commands t (c ∷ cs) = run_commands (run_command t c) cs

  promote-IsConsistent :
      (t : Tables) (opts : PromoteOpts) (now : ℕ)
      → IsConsistent t
      → IsConsistent (promote load t opts now).0
  promote-IsConsistent t opts now c = elim (promote-gated load t opts now) [
    | inl (e, same) ↦ rw same c
    | inr (v, s, e, l, allowed, same) ↦
        rw same (activate-IsConsistent t (promote_opts opts v s) now c)
  ]

  run_command-IsConsistent :
      (t : Tables) (c : Command) → IsConsistent t → IsConsistent (run_command t c)
  unfolding run_command retire mark_candidate
  run_command-IsConsistent t (add v b) h = register-IsConsistent t v b h
  run_command-IsConsistent t (shadow id actor reason now) h =
      relabel-IsConsistent t candidate "candidate" id actor reason now refl h
  run_command-IsConsistent t (push opts now) h = promote-IsConsistent t opts now h
  run_command-IsConsistent t (back family actor reason now) h =
      rollback-IsConsistent t family actor reason now h
  run_command-IsConsistent t (drop_out id actor reason now) h =
      relabel-IsConsistent t retired "retire" id actor reason now refl h

  run_commands-IsConsistent :
      (t : Tables) (cs : List Command) → IsConsistent t → IsConsistent (run_commands t cs)
  unfolding run_commands
  run_commands-IsConsistent t [] h = h
  run_commands-IsConsistent t (c ∷ cs) h =
      run_commands-IsConsistent (run_command t c) cs (run_command-IsConsistent t c h)

  -- From empty tables on, whatever is registered, marked, promoted, rolled back and retired, in
  -- whatever order: each live pointer names a version of its family with the status active, and each
  -- active version is the one that its family's pointer names.
  pub session-IsConsistent : (cs : List Command) → IsConsistent (run_commands no_tables cs)
  session-IsConsistent cs =
      run_commands-IsConsistent no_tables cs
        (record { pointed = λ family a l. cc; named = λ k v h act. cc })
