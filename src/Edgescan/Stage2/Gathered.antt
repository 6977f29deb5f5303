-- ===== src/Edgescan/Stage2/Gathered.antt =====
-- internal/edgescan/stage2.go: what the loop over the first stage collects names its candidates.
use poly_asian_data.Base.{
  ◌+◌, ◌≡◌, refl, sym, ap, subst, ◌∙◌, inl, inr, String, Bool, true, not, ◌&&◌, List, [], ◌∷◌,
  Option, none, some, if◌then◌else◌, length, length-append, arith, Bool-cases, All, All-map,
  All-append, is_some, keep, str_eq, eq_iff,
}
use poly_asian_data.Base.Dict.{lookup, lookup-insert}
use poly_asian_data.Float.Defs.{Float64}
use poly_asian_data.Risk.{nought}
use poly_asian_data.Edge.{FeatureVector, Weights, fill_book_derived, has_no_book, with_book}
use poly_asian_data.Edge.Board.{BoardCandidate, board_features}
use poly_asian_data.Edgescan.{Market, Candidate, condition_of}
use poly_asian_data.Edgescan.Stage2.Build.{Collected, collect_one, collect}

abbrev pub has_market : {F : Type 0} → Candidate F → Bool
has_market c = is_some c.market

module _ {F : Type 0} ⦃fl : Float64 F⦄ where
  open fl use {eq}

  pub fill_book_derived-condition_id :
      (d : F) (f : FeatureVector F) → (fill_book_derived d f).condition_id ≡ f.condition_id
  unfolding fill_book_derived
  fill_book_derived-condition_id d f = elim (Bool-cases (has_no_book f)) [
    | inl e ↦
        ap (λ b. (if b then record f { missing_book = true } else with_book d f).condition_id) e
    | inr e ↦
        ap (λ b. (if b then record f { missing_book = true } else with_book d f).condition_id) e
  ]

  pub board_features-condition_id :
      (w : Weights F) (c : BoardCandidate F)
      → (board_features w c).condition_id ≡ c.features.condition_id
  board_features-condition_id w c =
      let filled = fill_book_derived w.min_depth_shares c.features in
      elim (Bool-cases (eq c.features.mid nought && not c.features.missing_book)) [
        | inl e ↦
            ap (λ b. (if b then filled else c.features).condition_id) e
            ∙ fill_book_derived-condition_id w.min_depth_shares c.features
        | inr e ↦ ap (λ b. (if b then filled else c.features).condition_id) e
      ]

  pub condition_of_market :
      (c : Candidate F) (m : Market F) → c.market ≡ some m → condition_of c ≡ some m.condition_id
  condition_of_market c m e =
      ap (λ (o : Option (Market F)). elim o [ none ↦ none | some m ↦ some m.condition_id ]) e

  -- What is collected: a candidate for each condition, with a market of that condition.
  pub record IsCollected (k : Collected F) : Type 0 where
    pub named :
        (id : String) (c : Candidate F)
        → lookup id k.by_cond_feat ≡ some c
        → condition_of c ≡ some id
    pub found :
        All (λ b. is_some (lookup b.features.condition_id k.by_cond_feat) ≡ true) k.board_cands

  module _ (w : Weights F) (make : Candidate F → Market F → BoardCandidate F)
      (own : (c : Candidate F) (m : Market F)
        → (make c m).features.condition_id ≡ m.condition_id) where
    pub collect_one-IsCollected :
        (c : Candidate F) (o : Option (Market F)) (k : Collected F)
        → c.market ≡ o
        → IsCollected k
        → IsCollected (collect_one w (make c) c o k)
    collect_one-IsCollected c none k e i = i
    collect_one-IsCollected c (some m) k e i = record {
      named = λ id d h.
          let old = lookup id k.by_cond_feat in
          let step : (if str_eq m.condition_id id then some c else old) ≡ some d =
            sym (lookup-insert m.condition_id id c k.by_cond_feat) ∙ h in
          elim (Bool-cases (str_eq m.condition_id id)) [
            | inl s ↦
                let new : some c ≡ some d = ap (λ b. if b then some c else old) (sym s) ∙ step in
                let same : c ≡ d = cc in
                subst (λ d. condition_of d ≡ some id) same
                  (condition_of_market c m e ∙ ap some ((eq_iff m.condition_id id).0 s))
            | inr s ↦ i.named id d (ap (λ b. if b then some c else old) (sym s) ∙ step)
          ];
      found =
          All-append _ k.board_cands (make c m ∷ [])
            (All-map _ _ k.board_cands
              (λ b h.
                ground
                  (arith, lookup-insert m.condition_id b.features.condition_id c k.by_cond_feat))
              i.found)
            (
              ground (
                arith,
                own c m,
                lookup-insert m.condition_id (make c m).features.condition_id c k.by_cond_feat,
                eq_iff m.condition_id (make c m).features.condition_id,
              ),
              tt,
            );
    }

    pub collect-IsCollected :
        (cs : List (Candidate F)) (k : Collected F)
        → IsCollected k
        → IsCollected (collect w make cs k)
    unfolding collect
    collect-IsCollected [] k i = i
    collect-IsCollected (c ∷ cs) k i =
        collect-IsCollected cs (collect_one w (make c) c c.market k)
          (collect_one-IsCollected c c.market k refl i)

    pub length-collect_one :
        (c : Candidate F) (o : Option (Market F)) (k : Collected F)
        → length (collect_one w (make c) c o k).board_cands
          ≡ length k.board_cands + length (if is_some o then c ∷ [] else [])
    length-collect_one c none k = omega arith
    length-collect_one c (some m) k = omega (arith, length-append k.board_cands (make c m ∷ []))

    pub length-collect :
        (cs : List (Candidate F)) (k : Collected F)
        → length (collect w make cs k).board_cands
          ≡ length k.board_cands + length (keep has_market cs)
    unfolding collect
    length-collect [] k = omega arith
    length-collect (c ∷ cs) k = ground (
      arith,
      length-collect_one c c.market k,
      length-collect cs (collect_one w (make c) c c.market k),
    )

  pub has_market-condition :
      (c : Candidate F) (id : String) → condition_of c ≡ some id → has_market c ≡ true
  has_market-condition c id h = go c.market h
    where
      go :
          (o : Option (Market F))
          → ◌≡◌ {A = Option String}
              (elim o [ none ↦ none | some m ↦ some m.condition_id ])
              (some id)
          → is_some o ≡ true
      go none h = cc
      go (some m) h = refl
