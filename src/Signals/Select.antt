-- ===== src/Signals/Select.antt =====
-- internal/signals/board_alloc.go: the names of paper signals, and the signals of the taken names.
use mathlib.Core.List.{map}
use poly_asian_data.Base.{
  ◌≡◌, refl, ap, sym, subst, ◌∙◌, String, true, List, [], ◌∷◌, Option, none, some, arith, All,
  All-map, In, inl, inr, str_eq, eq_iff, is_some, Bool-cases, Option-cases,
}
use poly_asian_data.Base.Dict.{Dict, lookup, insert, has, lookup-insert, lookup-insert_self}
use poly_asian_data.Float.Defs.{Float64}
use poly_asian_data.Alloc.{Name, Input, Outcome, run}
use poly_asian_data.Alloc.Laws.{run-Sound}
use poly_asian_data.Signals.{PaperSignal}

module _ {F : Type 0} where
  -- `NameFromPaper` of a signal that is not nil.
  unfoldable pub name_from_paper : PaperSignal F → Name F
  name_from_paper sig = record {
    time = sig.time;
    condition_id = sig.condition_id;
    token_id = sig.token_id;
    market_id = sig.market_id;
    side = sig.side;
    edge_bps = sig.edge_bps;
    conviction = sig.conviction;
    urgency = sig.urgency;
    spread_bps = sig.spread_bps;
    mid = sig.mid;
    cost_bps = sig.cost_bps;
    size_usd = sig.size_usd;
    capacity_usd = sig.capacity_usd;
    fv_source = sig.fv_source;
    score_path = sig.score_path;
    horizon_sec = sig.horizon_sec;
    strategy = sig.strategy;
    strategy_version_id = sig.strategy_version_id;
  }

  -- The first loop of `SelectTaken`: the last candidate of each condition. `none` is a nil candidate.
  unfoldable pub by_cond :
      List (Option (PaperSignal F)) → Dict (PaperSignal F) → Dict (PaperSignal F)
  by_cond [] m = m
  by_cond (none ∷ cs) m = by_cond cs m
  by_cond (some s ∷ cs) m = by_cond cs (insert s.condition_id s m)

  abbrev selected : Option (PaperSignal F) → List (PaperSignal F) → List (PaperSignal F)
  selected none rest = rest
  selected (some s) rest = record s { event = "open" } ∷ rest

  -- The second loop. The mark that it leaves in the map of reasons is not modelled.
  unfoldable pub pick_taken : Dict (PaperSignal F) → List (Name F) → List (PaperSignal F)
  pick_taken m [] = []
  pick_taken m (n ∷ ns) = selected (lookup n.condition_id m) (pick_taken m ns)

  unfoldable pub select_taken : List (Option (PaperSignal F)) → Outcome F → List (PaperSignal F)
  unfolding by_cond pick_taken
  select_taken cands res = pick_taken (by_cond cands []) res.taken

  -- The names of the candidates.
  abbrev pub names_of : List (Option (PaperSignal F)) → List (Name F)
  names_of [] = []
  names_of (none ∷ cs) = names_of cs
  names_of (some s ∷ cs) = name_from_paper s ∷ names_of cs

  -- Each signal stands at its own condition.
  abbrev IsOwn : Dict (PaperSignal F) → Type 0
  IsOwn m = (k : String) (s : PaperSignal F) → lookup k m ≡ some s → s.condition_id ≡ k

  insert-IsOwn :
      (s : PaperSignal F) (m : Dict (PaperSignal F)) → IsOwn m → IsOwn (insert s.condition_id s m)
  insert-IsOwn s m own k t e =
      let found = lookup-insert s.condition_id k s m in
      elim (Bool-cases (str_eq s.condition_id k)) [
        | inl q ↦
            let is : s ≡ t = cc (rw q at found, e) in
            ap (λ x. x.condition_id) (sym is) ∙ (eq_iff s.condition_id k).0 q
        | inr q ↦ own k t (sym (rw q at found) ∙ e)
      ]

  by_cond-IsOwn :
      (cs : List (Option (PaperSignal F))) (m : Dict (PaperSignal F))
      → IsOwn m
      → IsOwn (by_cond cs m)
  unfolding by_cond
  by_cond-IsOwn [] m own = own
  by_cond-IsOwn (none ∷ cs) m own = by_cond-IsOwn cs m own
  by_cond-IsOwn (some s ∷ cs) m own =
      by_cond-IsOwn cs (insert s.condition_id s m) (insert-IsOwn s m own)

  by_cond_keeps :
      (k : String) (cs : List (Option (PaperSignal F))) (m : Dict (PaperSignal F))
      → has k m ≡ true
      → has k (by_cond cs m) ≡ true
  unfolding by_cond
  by_cond_keeps k [] m h = h
  by_cond_keeps k (none ∷ cs) m h = by_cond_keeps k cs m h
  by_cond_keeps k (some s ∷ cs) m h =
      by_cond_keeps k cs (insert s.condition_id s m)
        (ground (arith, lookup-insert s.condition_id k s m))

  by_cond-has :
      (n : Name F) (cs : List (Option (PaperSignal F))) (m : Dict (PaperSignal F))
      → In n (names_of cs)
      → has n.condition_id (by_cond cs m) ≡ true
  unfolding by_cond name_from_paper
  by_cond-has n [] m h = absurd h
  by_cond-has n (none ∷ cs) m h = by_cond-has n cs m h
  by_cond-has n (some s ∷ cs) m (inl e) =
      let same : s.condition_id ≡ n.condition_id = ap (λ n. n.condition_id) (sym e) in
      by_cond_keeps n.condition_id cs (insert s.condition_id s m) (
        subst (λ k. has k (insert s.condition_id s m) ≡ true) same
          (ap is_some (lookup-insert_self s.condition_id s m)))
  by_cond-has n (some s ∷ cs) m (inr h) = by_cond-has n cs (insert s.condition_id s m) h

  pick_taken-conditions :
      (m : Dict (PaperSignal F)) (ns : List (Name F))
      → IsOwn m
      → All (λ n. has n.condition_id m ≡ true) ns
      → map (λ s. s.condition_id) (pick_taken m ns) ≡ map (λ n. n.condition_id) ns
  unfolding pick_taken
  pick_taken-conditions m [] own a = refl
  pick_taken-conditions m (n ∷ ns) own a = elim (Option-cases (lookup n.condition_id m)) [
    | inl e ↦ cc (e, a.0)
    | inr (s, e) ↦
        let rest = pick_taken-conditions m ns own a.1 in
        let here = own n.condition_id s e in
        ap (λ o. map (λ s. s.condition_id) (selected o (pick_taken m ns))) e
        ∙ ap (λ c. c ∷ map (λ s. s.condition_id) (pick_taken m ns)) here
        ∙ ap (λ l. n.condition_id ∷ l) rest
  ]

  -- Where the names of a board are those of candidates, SelectTaken gives one signal for each name that
  -- Run takes, of the name's condition and in the order of the names.
  pub select_taken-run :
      ⦃fl : Float64 F⦄ (key : Name F → String) (input : Input F)
      (cands : List (Option (PaperSignal F)))
      → input.names ≡ names_of cands
      → (o : Outcome F) × (run key input ≡ some o)
        × (map (λ s. s.condition_id) (select_taken cands o) ≡ map (λ n. n.condition_id) o.taken)
  unfolding select_taken
  select_taken-run key input cands same =
      let (o, e, sound) = run-Sound key input in
      let m = by_cond cands [] in
      let present =
        All-map _ (λ n. has n.condition_id m ≡ true) o.taken
          (λ n good. by_cond-has n cands [] (subst (In n) same good.0)) sound.good in
      (o, e, pick_taken-conditions m o.taken (by_cond-IsOwn cands [] (λ k s h. cc)) present)
