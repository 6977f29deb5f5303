-- ===== src/Strategy/Live.antt =====
-- internal/db/strategy_versions.go: one live version per family, and a rollback that works once.
use poly_asian_data.Base.{
  ℕ, ◌≡◌, refl, sym, ◌∙◌, ap, inl, inr, String, true, false, not, ◌&&◌, List, [], ◌∷◌, Option, none,
  some, arith, if◌then◌else◌, ◌==◌, leb, str_eq, str_eq→eq, eq_iff, Bool-cases, Option-cases,
}
use poly_asian_data.Base.Dict.{lookup, insert, lookup-insert, lookup-insert_self}
use poly_asian_data.Strategy.{
  Status, active, retired, is_active, StrategyVersion, StrategyActive, Tables, get_strategy_version,
  set_status, retire_others, ActivateOpts, live_row, switch_to, keep_live, activate_over, activate,
  rollback, rollback_opts, get_strategy_active,
}

abbrev pub with_status : Status → Option StrategyVersion → Option StrategyVersion
with_status s none = none
with_status s (some v) = some (record v { status = s })

abbrev pub retire_if : String → ℕ → Option StrategyVersion → Option StrategyVersion
retire_if family id none = none
retire_if family id (some v) =
    if str_eq v.strategy family && is_active v.status && not (v.id == id)
    then some (record v { status = retired })
    else some v

pub get-set_status :
    (s : Status) (id : ℕ) (vs : List StrategyVersion) (k : ℕ)
    → get_strategy_version (set_status s id vs) k
      ≡ (if id == k then with_status s (get_strategy_version vs k) else get_strategy_version vs k)
get-set_status s id [] k = ground arith
get-set_status s id (v ∷ vs) k = ground (arith, get-set_status s id vs k)

pub get-retire_others :
    (family : String) (id : ℕ) (vs : List StrategyVersion) (k : ℕ)
    → get_strategy_version (retire_others family id vs) k
      ≡ retire_if family id (get_strategy_version vs k)
get-retire_others family id [] k = refl
get-retire_others family id (v ∷ vs) k = ground (arith, get-retire_others family id vs k)

pub get-id :
    (vs : List StrategyVersion) (k : ℕ) (v : StrategyVersion)
    → get_strategy_version vs k ≡ some v
    → v.id ≡ k
get-id [] k v e = cc
get-id (u ∷ vs) k v e = ground (arith, get-id vs k v)

-- Each live pointer is of a version of its family with the status active, and each active version is
-- the one that its family's pointer names.
pub record IsConsistent (t : Tables) : Type 0 where
  pub pointed :
      (family : String) (a : StrategyActive)
      → lookup family t.live ≡ some a
      → (v : StrategyVersion) × (get_strategy_version t.versions a.version_id ≡ some v)
        × (v.strategy ≡ family)
        × (v.status ≡ active)
  pub named :
      (k : ℕ) (v : StrategyVersion)
      → get_strategy_version t.versions k ≡ some v
      → v.status ≡ active
      → (a : StrategyActive) × (lookup v.strategy t.live ≡ some a) × (a.version_id ≡ k)

apart : (f g : String) → str_eq f g ≡ false → str_eq g f ≡ false
apart f g h = ground (arith, eq_iff f g, eq_iff g f)

-- A version that is active behind the mass retirement was so before, in another family.
retire_if-active :
    (family : String) (id : ℕ) (w u : StrategyVersion)
    → retire_if family id (some w) ≡ some u
    → u.status ≡ active
    → (w ≡ u) × (w.id == id ≡ false → str_eq w.strategy family ≡ false)
retire_if-active family id w u h act =
    elim (Bool-cases (str_eq w.strategy family && is_active w.status && not (w.id == id))) [
      | inl b ↦ absurd (let r = rw b at h in ground (arith, r))
      | inr b ↦
          let same : some w ≡ some u = rw b at h in
          let wu : w ≡ u = cc in
          let live : w.status ≡ active = ap (λ (x : StrategyVersion). x.status) wu ∙ act in
          (wu, λ n. ground (arith, rw (live, n) at b))
    ]

-- A version of another family is what it was.
switch_others :
    (t : Tables) (opts : ActivateOpts) (v u : StrategyVersion) (k : ℕ)
    → get_strategy_version t.versions opts.version_id ≡ some v
    → get_strategy_version t.versions k ≡ some u
    → str_eq u.strategy v.strategy ≡ false
    → get_strategy_version
        (set_status active opts.version_id (retire_others v.strategy opts.version_id t.versions))
        k
      ≡ some u
switch_others t opts v u k e found other =
    let id = opts.version_id in
    let vs = retire_others v.strategy id t.versions in
    let kept : get_strategy_version vs k ≡ some u =
      get-retire_others v.strategy id t.versions k
      ∙ ap (retire_if v.strategy id) found
      ∙ rw other refl in
    elim (Bool-cases (id == k)) [
      | inl b ↦
          let same : id ≡ k = ground arith in
          let uv : u ≡ v = let here = rw (← same) at found in cc in
          absurd (let clash = rw uv at other in ground (arith, clash, eq_iff v.strategy v.strategy))
      | inr b ↦ get-set_status active id vs k ∙ rw b kept
    ]

switch_to-pointed :
    (t : Tables) (opts : ActivateOpts) (now : ℕ) (v : StrategyVersion) (from_id : Option ℕ)
    → IsConsistent t
    → get_strategy_version t.versions opts.version_id ≡ some v
    → (family : String) (a : StrategyActive)
    → lookup family (switch_to t opts now v from_id).0.live ≡ some a
    → (u : StrategyVersion) × (get_strategy_version
          (switch_to t opts now v from_id).0.versions
          a.version_id
        ≡ some u)
      × (u.strategy ≡ family)
      × (u.status ≡ active)
unfolding switch_to
switch_to-pointed t opts now v from_id c e family a h =
    let id = opts.version_id in
    let vs = retire_others v.strategy id t.versions in
    let row = live_row opts now v from_id in
    let self = get-retire_others v.strategy id t.versions id in
    let own = get-id t.versions id v e in
    let looked = lookup-insert v.strategy family row t.live in
    elim (Bool-cases (str_eq v.strategy family)) [
      | inl same ↦
          let ar : row ≡ a = ground arith in
          (
            record v { status = active },
            ground (arith, get-set_status active id vs a.version_id),
            str_eq→eq v.strategy family same,
            refl,
          )
      | inr other ↦
          let old : lookup family t.live ≡ some a = ground arith in
          let (u, found, fam, act) = c.pointed family a old in
          (
            u,
            switch_others t opts v u a.version_id e found (rw fam (apart v.strategy family other)),
            fam,
            act,
          )
    ]

-- The version that is activated is not retired.
retire_self : (v : StrategyVersion) (id : ℕ) → v.id ≡ id → retire_if v.strategy id (some v) ≡ some v
retire_self v id h = let same : v.id == id ≡ true = ground arith in rw same (ground arith)

abbrev family_of : Option StrategyVersion → String
family_of none = ""
family_of (some v) = v.strategy

switch_to-named :
    (t : Tables) (opts : ActivateOpts) (now : ℕ) (v : StrategyVersion) (from_id : Option ℕ)
    → IsConsistent t
    → get_strategy_version t.versions opts.version_id ≡ some v
    → (k : ℕ) (u : StrategyVersion)
    → get_strategy_version (switch_to t opts now v from_id).0.versions k ≡ some u
    → u.status ≡ active
    → (a : StrategyActive) × (lookup u.strategy (switch_to t opts now v from_id).0.live ≡ some a)
      × (a.version_id ≡ k)
unfolding switch_to
switch_to-named t opts now v from_id c e k u h act =
    let id = opts.version_id in
    let vs = retire_others v.strategy id t.versions in
    let row = live_row opts now v from_id in
    let found = get-set_status active id vs k in
    let kept = get-retire_others v.strategy id t.versions k in
    elim (Bool-cases (id == k)) [
      | inl b ↦
          let same : id ≡ k = ground arith in
          let at_id : get_strategy_version t.versions k ≡ some v = rw (← same) e in
          let stays : get_strategy_version vs k ≡ some v =
            kept
            ∙ ap (retire_if v.strategy id) at_id
            ∙ retire_self v id (get-id t.versions id v e) in
          let set : get_strategy_version (set_status active id vs) k
              ≡ some (record v { status = active }) =
            found ∙ rw (b, stays) refl in
          let uv : some u ≡ some (record v { status = active }) = sym h ∙ set in
          let family : u.strategy ≡ v.strategy =
            ap (λ (o : Option StrategyVersion). family_of o) uv in
          (row, rw family (lookup-insert_self v.strategy row t.live), same)
      | inr b ↦
          let before : retire_if v.strategy id (get_strategy_version t.versions k) ≡ some u =
            sym kept ∙ sym (found ∙ rw b refl) ∙ h in
          elim (Option-cases (get_strategy_version t.versions k)) [
            | inl none_there ↦ absurd (let r = rw none_there at before in ground (arith, r))
            | inr (w, there) ↦
                let (wu, other) = retire_if-active v.strategy id w u (rw there at before) act in
                let wid : w.id ≡ k = get-id t.versions k w there in
                let far : w.id == id ≡ false = ground arith in
                let wact : w.status ≡ active = ap (λ (x : StrategyVersion). x.status) wu ∙ act in
                let (a, looked, is_k) = c.named k w there wact in
                let other' = apart w.strategy v.strategy (other far) in
                (
                  a,
                  ap (λ (x : StrategyVersion). lookup x.strategy (insert v.strategy row t.live))
                        (sym wu)
                      ∙ (lookup-insert v.strategy w.strategy row t.live ∙ rw other' looked),
                  is_k,
                )
          ]
    ]

-- The version that a pointer names is active, so there is nothing to mend.
keep_live-IsConsistent :
    (t : Tables) (v : StrategyVersion) (a : StrategyActive)
    → IsConsistent t
    → get_strategy_version t.versions a.version_id ≡ some v
    → lookup v.strategy t.live ≡ some a
    → IsConsistent (keep_live t v a).0
unfolding keep_live
keep_live-IsConsistent t v a c e l =
    let (u, found, fam, act) = c.pointed v.strategy a l in
    let uv : u ≡ v = cc in
    let live : v.status ≡ active = sym (ap (λ (x : StrategyVersion). x.status) uv) ∙ act in
    rw live c

activate_over-IsConsistent :
    (t : Tables) (opts : ActivateOpts) (now : ℕ) (v : StrategyVersion) (o : Option StrategyActive)
    → IsConsistent t
    → get_strategy_version t.versions opts.version_id ≡ some v
    → lookup v.strategy t.live ≡ o
    → IsConsistent (activate_over t opts now v o).0
unfolding activate_over
activate_over-IsConsistent t opts now v none c e l = record {
  pointed = switch_to-pointed t opts now v none c e;
  named = switch_to-named t opts now v none c e;
}
activate_over-IsConsistent t opts now v (some a) c e l =
    elim (Bool-cases (a.version_id == opts.version_id)) [
      | inl b ↦
          let same : opts.version_id ≡ a.version_id = ground arith in
          rw b (keep_live-IsConsistent t v a c (rw same at e) l)
      | inr b ↦ rw b (record {
        pointed = switch_to-pointed t opts now v (some a.version_id) c e;
        named = switch_to-named t opts now v (some a.version_id) c e;
      })
    ]

-- ActivateStrategyVersion keeps the tables consistent, whatever it is asked for.
pub activate-IsConsistent :
    (t : Tables) (opts : ActivateOpts) (now : ℕ)
    → IsConsistent t
    → IsConsistent (activate t opts now).0
unfolding activate
activate-IsConsistent t opts now c = elim (Bool-cases (leb opts.version_id 0)) [
  | inl z ↦ rw z c
  | inr z ↦ elim (Option-cases (get_strategy_version t.versions opts.version_id)) [
    | inl e ↦ rw (z, e) c
    | inr (v, e) ↦
        rw (z, e) (activate_over-IsConsistent t opts now v (lookup v.strategy t.live) c e refl)
  ]
]

pub rollback-IsConsistent :
    (t : Tables) (family actor reason : String) (now : ℕ)
    → IsConsistent t
    → IsConsistent (rollback t family actor reason now).0
unfolding rollback
rollback-IsConsistent t family actor reason now c =
    elim (Option-cases (get_strategy_active t family)) [
      | inl e ↦ rw e c
      | inr (a, e) ↦ elim (Option-cases a.prev_version_id) [
        | inl p ↦ rw (e, p) c
        | inr (prev, p) ↦ elim (Bool-cases (leb prev 0)) [
          | inl z ↦ rw (e, p, z) c
          | inr z ↦
              let back = activate-IsConsistent t (rollback_opts actor reason prev) now c in
              rw (e, p, z) (rw z at back)
        ]
      ]
    ]
