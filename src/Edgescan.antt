-- ===== src/Edgescan.antt =====
-- internal/edgescan/select.go: the top candidates by edge, with the sticky ones kept.
pub mod Groups
pub mod Picks
pub mod Stage2
pub mod Sticky
use poly_asian_data.Base.{
  ℕ, zero, suc, ◌+◌, String, Bool, true, false, not, ◌&&◌, ◌||◌, List, [], ◌∷◌, ◌++◌, Option, none,
  some, leb, if◌then◌else◌, length,
}
use poly_asian_data.Base.Dict.{Dict, lookup, insert}
use poly_asian_data.Float.Defs.{Float64, gt}
use poly_asian_data.Sort.{stable_sort}
use poly_asian_data.Edge.Score.{ScoreResult}

-- The fields of `services.PlyMktMarket` that the scan reads; a zero time is `none`, other times are in
-- nanoseconds.
pub record Market (F : Type 0) : Type 0 where
  pub id : String
  pub condition_id : String
  pub question : String
  pub clob_token_ids : String
  pub end_date : Option ℕ
  pub start_date : Option ℕ
  pub volume_24hr : F
  pub volume_24hr_clob : F
  pub liquidity : String
  pub liquidity_num : F
  pub liquidity_clob : F
  pub spread : F
  pub one_day_price_change : F
  pub taker_base_fee : ℕ
  pub computed_score : F

-- `none` is a nil market.
pub record Candidate (F : Type 0) : Type 0 where
  pub market : Option (Market F)
  pub event_id : String
  pub category : String
  pub neg_risk : Bool
  pub neg_risk_group_id : String
  pub neg_risk_fee_bips : ℕ

pub record ScoredCand (F : Type 0) : Type 0 where
  pub c : Candidate F
  pub res : ScoreResult F
  pub act : F

abbrev pub condition_of : {F : Type 0} → Candidate F → Option String
condition_of c = elim c.market [ none ↦ none | some m ↦ some m.condition_id ]

-- `out` and `seen` of `selectTopNByEdge`.
pub record Picked (F : Type 0) : Type 0 where
  pub out : List (ScoredCand F)
  pub seen : Dict Bool

abbrev is_true : Option Bool → Bool
is_true none = false
is_true (some b) = b

-- `m[k]` of a map to bool.
abbrev pub marked : String → Dict Bool → Bool
marked k m = is_true (lookup k m)

-- A candidate that a loop takes, with its ID.
abbrev takes : {F : Type 0} → (String → Bool) → Picked F → Option String → Bool
takes wants p none = false
takes wants p (some id) = wants id && not (marked id p.seen)

abbrev pub id_or : Option String → String
id_or none = ""
id_or (some id) = id

abbrev pub take_one : {F : Type 0} → ScoredCand F → Picked F → Picked F
take_one s p = record {
  out = p.out ++ s ∷ [];
  seen = insert (id_or (condition_of s.c)) true p.seen;
}

-- One of the two loops: it takes the candidates whose ID is wanted and not seen, until there are `n`.
unfoldable pub pick : {F : Type 0} → (String → Bool) → ℕ → List (ScoredCand F) → Picked F → Picked F
pick wants n [] p = p
pick wants n (s ∷ ss) p =
    let takes_it = takes wants p (condition_of s.c) in
    let p' = if takes_it then take_one s p else p in
    let rest = pick wants n ss p' in if takes_it && leb n (length p'.out) then p' else rest

module _ {F : Type 0} ⦃fl : Float64 F⦄ where
  open fl use {eq}

  -- The comparison of `sortScoredByEdge`.
  abbrev pub by_edge : ScoredCand F → ScoredCand F → Bool
  by_edge a b =
      if eq a.res.edge_bps b.res.edge_bps then gt a.act b.act else gt a.res.edge_bps b.res.edge_bps

  abbrev pub nothing_picked : Picked F
  nothing_picked = record { out = []; seen = [] }

  -- What the first loop takes, and what both loops take, of which the second one does not run when the
  -- first one has filled the selection.
  unfoldable pub pick_both : List (ScoredCand F) → Dict Bool → ℕ → Picked F
  unfolding pick
  pick_both scored sticky n =
      let first = pick (λ id. marked id sticky) n scored nothing_picked in
      if leb n (length first.out) then first else pick (λ id. true) n scored first

  -- `selectTopNByEdge`
  unfoldable pub select_top_n : List (ScoredCand F) → Dict Bool → ℕ → List (ScoredCand F)
  select_top_n scored sticky n =
      if leb n 0 || leb (length scored) n
      then scored
      else stable_sort by_edge (pick_both scored sticky n).out
