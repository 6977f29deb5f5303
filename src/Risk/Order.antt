-- ===== src/Risk/Order.antt =====
-- internal/risk/rank.go: the rank order is a permutation of the indices, best score first.
use mathlib.Core.List.{Perm, map}
use mathlib.Core.List.Perm
use poly_asian_data.Base.{
  ℕ, zero, suc, ◌+◌, ◌<◌, ◌≤◌, All, ◌≡◌, refl, true, false, List, [], ◌∷◌, arith, length, ap,
}
use poly_asian_data.Float.Defs.{Float64, IsOrdered}
use poly_asian_data.Sort.{
  stable_sort-perm, stable_sort-IsOrderly, IsOrderly, All-stable_sort, length-stable_sort,
}
use poly_asian_data.Risk.{Config}
use poly_asian_data.Risk.Rank.{
  Rankable, ranks_before, sort_by_opportunity, rank_items, build_rank_order,
}

-- The n numbers from i on.
abbrev pub count_from : ℕ → ℕ → List ℕ
count_from i zero = []
count_from i (suc n) = i ∷ count_from (i + 1) n

module _ {F : Type 0} ⦃fl : Float64 F⦄ where
  open fl use {lt, eq}

  rank_items-indices :
      (cfg : Config F) (es cs us : List F) (i : ℕ)
      → map (λ r. r.index) (rank_items cfg es cs us i) ≡ count_from i (length es)
  unfolding rank_items
  rank_items-indices cfg [] cs us i = refl
  rank_items-indices cfg (e ∷ es) cs us i =
      ap (λ (l : List ℕ). i ∷ l) (rank_items-indices cfg es cs us (i + 1))

  -- BuildRankOrder returns each index of the edges once.
  pub build_rank_order-perm :
      (cfg : Config F) (es cs us : List F)
      → Perm (build_rank_order cfg es cs us) (count_from 0 (length es))
  unfolding build_rank_order sort_by_opportunity
  build_rank_order-perm cfg es cs us =
      let items = rank_items cfg es cs us 0 in
      rw (← rank_items-indices cfg es cs us 0)
        (Perm.map (λ r. r.index) (stable_sort-perm ranks_before items))

  -- Every rank is an index below the number of candidates.
  rank_items-below :
      (cfg : Config F) (es cs us : List F) (i n : ℕ)
      → i + length es ≤ n
      → All (λ r. r.index < n) (rank_items cfg es cs us i)
  unfolding rank_items
  rank_items-below cfg [] cs us i n h = tt
  rank_items-below cfg (e ∷ es) cs us i n h =
      (omega arith, rank_items-below cfg es cs us (i + 1) n (omega arith))

  length-rank_items :
      (cfg : Config F) (es cs us : List F) (i : ℕ) → length (rank_items cfg es cs us i) ≡ length es
  unfolding rank_items
  length-rank_items cfg [] cs us i = refl
  length-rank_items cfg (e ∷ es) cs us i = ap suc (length-rank_items cfg es cs us (i + 1))

  All-indices :
      (n : ℕ) (rs : List (Rankable F))
      → All (λ r. r.index < n) rs
      → All (λ i. i < n) (map (λ r. r.index) rs)
  All-indices n [] h = tt
  All-indices n (r ∷ rs) h = (h.0, All-indices n rs h.1)

  length-indices : (rs : List (Rankable F)) → length (map (λ r. r.index) rs) ≡ length rs
  length-indices [] = refl
  length-indices (r ∷ rs) = ap suc (length-indices rs)

  pub build_rank_order-below :
      (cfg : Config F) (es cs us : List F)
      → All (λ i. i < length es) (build_rank_order cfg es cs us)
  unfolding build_rank_order sort_by_opportunity
  build_rank_order-below cfg es cs us = All-indices _ _ (
      All-stable_sort ranks_before (λ r. r.index < length es) _
        (rank_items-below cfg es cs us 0 _ (omega arith)))

  pub length-build_rank_order :
      (cfg : Config F) (es cs us : List F) → length (build_rank_order cfg es cs us) ≡ length es
  unfolding build_rank_order sort_by_opportunity
  length-build_rank_order cfg es cs us =
      let items = rank_items cfg es cs us 0 in
      omega (
        arith,
        length-indices (sort_by_opportunity items),
        length-stable_sort ranks_before items,
        length-rank_items cfg es cs us 0,
      )

  module _ (laws : IsOrdered F fl) where
    open laws use {lt_irrefl, lt_trans, eq_sym}

    ranks_before_asym : (a b : Rankable F) → ranks_before a b ≡ true → ranks_before b a ≡ false
    ranks_before_asym a b h = ground (
      arith,
      eq_sym a.score b.score,
      eq_sym b.score a.score,
      lt_trans a.score b.score a.score,
      lt_irrefl a.score,
    )

    -- In the sorted list no candidate ranks before the one in front of it: scores do not rise, and
    -- equal scores stand in the order of their indices.
    pub sort_by_opportunity-IsOrderly :
        (items : List (Rankable F)) → IsOrderly ranks_before (sort_by_opportunity items)
    unfolding sort_by_opportunity
    sort_by_opportunity-IsOrderly items = stable_sort-IsOrderly ranks_before ranks_before_asym items
