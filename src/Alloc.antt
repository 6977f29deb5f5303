-- ===== src/Alloc.antt =====
-- internal/alloc/alloc.go: capital allocation over a whole board.

pub mod Laws
pub mod Dedupe
use poly_asian_data.Base.{
  ℕ, zero, suc, ◌+◌, String, Bool, true, false, not, ◌&&◌, ◌||◌, List, [], ◌∷◌, ◌++◌, Option, none,
  some, map, ltb, leb, ◌==◌, str_eq, is_empty, if◌then◌else◌, length, get_elem?, keep,
}
use poly_asian_data.Base.Dict.{Dict, lookup, insert, has}
use poly_asian_data.Float.Defs.{Float64, gt}
use poly_asian_data.Best.{keep_best}
use poly_asian_data.Risk.{Config, nought, normalize}
use poly_asian_data.Risk.Rank.{opportunity_score, build_rank_order}

pub data Reason : Type 0 where
  unworthy outranked already_open : Reason

pub record Name (F : Type 0) : Type 0 where
  pub time : ℕ
  pub condition_id : String
  pub token_id : String
  pub market_id : String
  pub side : String
  pub edge_bps : F
  pub conviction : F
  pub urgency : F
  pub spread_bps : F
  pub mid : F
  pub cost_bps : F
  pub size_usd : F
  pub capacity_usd : F
  pub fv_source : String
  pub score_path : String
  pub horizon_sec : ℕ
  pub strategy : String
  pub strategy_version_id : Option ℕ

pub record Worthiness (F : Type 0) : Type 0 where
  pub min_edge_bps : F
  pub max_spread_bps : F
  pub require_fv : Bool

pub record Rejected (F : Type 0) : Type 0 where
  pub name : Name F
  pub reason : Reason

-- `open_ids` is the field Open.
pub record Input (F : Type 0) : Type 0 where
  pub names : List (Name F)
  pub risk : Config F
  pub worth : Worthiness F
  pub open_ids : List String

pub record Outcome (F : Type 0) : Type 0 where
  pub taken : List (Name F)
  pub rejected : List (Rejected F)

-- The set of the open condition IDs, without the empty one.
abbrev pub open_set : List String → Dict Bool
open_set [] = []
open_set (id ∷ ids) = let rest = open_set ids in if is_empty id then rest else insert id true rest

pub record Limits (F : Type 0) : Type 0 where
  pub max_n : ℕ
  pub max_gross : F
  pub max_pos : F

-- The variables of the last loop of `Run`.
pub record Book (F : Type 0) : Type 0 where
  pub gross : F
  pub taken : List (Name F)
  pub rejected : List (Rejected F)

module _ {F : Type 0} ⦃fl : Float64 F⦄ where
  open fl use {lit, add, abs, lt, le}

  -- `unworthy`, whose only reason is ReasonUnworthy.
  unfoldable pub is_unworthy : Name F → Worthiness F → Bool
  is_unworthy n w =
      (gt w.min_edge_bps nought && lt (abs n.edge_bps) w.min_edge_bps)
      || (gt w.max_spread_bps nought && gt n.spread_bps w.max_spread_bps)
      || (w.require_fv
          && (is_empty n.fv_source || str_eq n.fv_source "none" || str_eq n.score_path "proxy"))

  -- The name has a condition, and the book holds it already.
  abbrev pub is_open : Dict Bool → Name F → Bool
  is_open opened n = not (is_empty n.condition_id) && has n.condition_id opened

  -- The first loop of `Run`: the eligible names, and the rejected ones.
  unfoldable pub screen :
      Worthiness F → Dict Bool → List (Name F) → List (Name F) × List (Rejected F)
  screen w opened [] = ([], [])
  screen w opened (n ∷ ns) =
      let rest = screen w opened ns in
      if is_unworthy n w
      then (rest.0, record { name = n; reason = unworthy } ∷ rest.1)
      else if is_open opened n
      then (rest.0, record { name = n; reason = already_open } ∷ rest.1)
      else (n ∷ rest.0, rest.1)

  abbrev pub score_of : Config F → Name F → F
  score_of cfg n = opportunity_score cfg n.edge_bps n.conviction n.urgency

  -- The key of `dedupeBest`; `stamp` is the text of a time (RFC 3339 with nanoseconds).
  abbrev pub dedupe_key : (ℕ → String) → (String → String → String) → Name F → String
  dedupe_key stamp join n =
      let id = if is_empty n.condition_id then n.token_id else n.condition_id in
      if is_empty id then join n.token_id (stamp n.time) else id

  -- `cur > old`
  abbrev pub beats : Config F → Name F → Name F → Bool
  beats cfg n old = gt (score_of cfg n) (score_of cfg old)

  unfoldable pub dedupe_best : Config F → (Name F → String) → List (Name F) → List (Name F)
  dedupe_best cfg key batch = keep_best (beats cfg) key batch

  -- The limits of the last loop of `Run`.
  abbrev pub limits_of : Config F → ℕ → Limits F
  limits_of cfg eligible = record {
    max_n = if leb cfg.max_positions 0 then eligible else cfg.max_positions;
    max_gross = cfg.max_gross_usd;
    max_pos = if le cfg.max_position_usd nought then lit 500 0 else cfg.max_position_usd;
  }

  -- The capital that a name asks for.
  abbrev pub ask : Limits F → Name F → F
  ask lim n = if le n.size_usd nought then lim.max_pos else n.size_usd

  unfoldable pub offer : Limits F → Book F → Name F → Book F
  offer lim b n =
      let outbid = record b {
        rejected = b.rejected ++ record { name = n; reason = outranked } ∷ [];
      } in
      let total = add b.gross (ask lim n) in
      if leb lim.max_n (length b.taken)
      then outbid
      else if gt lim.max_gross nought && gt total (add lim.max_gross (lit 1 9))
      then outbid
      else record b { taken = b.taken ++ n ∷ []; gross = total }

  -- The loop over the rank order. `none` is the panic of an index out of range.
  unfoldable pub allocate : Limits F → List (Name F) → List ℕ → Book F → Option (Book F)
  allocate lim eligible [] b = some b
  allocate lim eligible (i ∷ order) b = elim (get_elem? eligible i) [
    | none ↦ none
    | some n ↦ allocate lim eligible order (offer lim b n)
  ]

  abbrev pub rank_order : Config F → List (Name F) → List ℕ
  rank_order cfg eligible =
      build_rank_order cfg (map (λ n. n.edge_bps) eligible) (map (λ n. n.conviction) eligible)
        (map (λ n. n.urgency) eligible)

  abbrev outcome_of : Option (Book F) → Option (Outcome F)
  outcome_of none = none
  outcome_of (some b) = some (record { taken = b.taken; rejected = b.rejected })

  abbrev pub is_none_left : List (Name F) → Bool
  is_none_left [] = true
  is_none_left (_ ∷ _) = false

  -- `Run`, with the key of the names.
  unfoldable pub run : (Name F → String) → Input F → Option (Outcome F)
  run key input =
      let cfg = normalize input.risk in
      let screened = screen input.worth (open_set input.open_ids) input.names in
      let eligible = dedupe_best cfg key screened.0 in
      let start : Book F = record { gross = nought; taken = []; rejected = screened.1 } in
      if is_none_left eligible
      then some (record { taken = []; rejected = screened.1 })
      else outcome_of
          (allocate (limits_of cfg (length eligible)) eligible (rank_order cfg eligible) start)
