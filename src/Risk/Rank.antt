-- ===== src/Risk/Rank.antt =====
-- internal/risk/rank.go: the order in which candidates compete for a scarce budget.
use poly_asian_data.Base.{
  ℕ, ◌+◌, Bool, List, [], ◌∷◌, Option, none, some, map, ltb, get_elem?, if◌then◌else◌,
}
use poly_asian_data.Float.Defs.{Float64, gt}
use poly_asian_data.Sort.{stable_sort}
use poly_asian_data.Risk.{Config, nought, unit}

pub record Rankable (F : Type 0) : Type 0 where
  pub index : ℕ
  pub edge_bps : F
  pub conviction : F
  pub urgency : F
  pub score : F

module _ {F : Type 0} ⦃fl : Float64 F⦄ where
  open fl use {lit, add, mul, div, abs, lt, le, eq}

  -- A conviction clamped to the range from 0 to 1.
  abbrev pub clamp_unit : F → F
  clamp_unit x = let low = if lt x nought then nought else x in if gt low unit then unit else low

  -- `OpportunityScore`
  unfoldable pub opportunity_score : Config F → F → F → F → F
  opportunity_score cfg edge_bps conviction urgency =
      let ew =
        if le cfg.opportunity_edge_weight nought then unit else cfg.opportunity_edge_weight in
      let cw =
        if le cfg.opportunity_conviction_weight nought
        then unit
        else cfg.opportunity_conviction_weight in
      let score = add (mul ew (div (abs edge_bps) (lit 100 0))) (mul cw (clamp_unit conviction)) in
      if gt urgency nought then add score (mul (lit 1 1) urgency) else score

  -- The comparison that `SortByOpportunity` hands to the stable sort.
  abbrev pub ranks_before : Rankable F → Rankable F → Bool
  ranks_before a b = if eq a.score b.score then ltb a.index b.index else gt a.score b.score

  unfoldable pub sort_by_opportunity : List (Rankable F) → List (Rankable F)
  sort_by_opportunity items = stable_sort ranks_before items

  -- Element `i`, or 0 behind the end.
  abbrev value_at : List F → ℕ → F
  value_at xs i = value_or (get_elem? xs i)
    where
      value_or : Option F → F
      value_or none = nought
      value_or (some x) = x

  -- The items of the loop in `BuildRankOrder`, from index `i` on.
  unfoldable pub rank_items : Config F → List F → List F → List F → ℕ → List (Rankable F)
  rank_items cfg [] convictions urgencies i = []
  rank_items cfg (e ∷ edges) convictions urgencies i =
      let c = value_at convictions i in
      let u = value_at urgencies i in
      record {
        index = i;
        edge_bps = e;
        conviction = c;
        urgency = u;
        score = opportunity_score cfg e c u;
      }
      ∷ rank_items cfg edges convictions urgencies (i + 1)

  unfoldable pub build_rank_order : Config F → List F → List F → List F → List ℕ
  unfolding sort_by_opportunity rank_items
  build_rank_order cfg edges convictions urgencies =
      map (λ r. r.index) (sort_by_opportunity (rank_items cfg edges convictions urgencies 0))
