-- ===== src/Edge/Board/Kept.antt =====
-- internal/edge/board_select.go: which rows SelectBoard keeps, and their order.
use mathlib.Core.List.{Perm}
use poly_asian_data.Base.{
  ℕ, ◌≡◌, ◌⊎◌, refl, sym, subst, Bool, true, false, List, [], ◌∷◌, Option, none, some,
  if◌then◌else◌, arith, All, All-map, In, inl, inr, take,
}
use poly_asian_data.Float.Defs.{Float64, IsOrdered}
use poly_asian_data.Sort.{
  stable_sort, IsOrderly, stable_sort-IsOrderly, stable_sort-perm, All-stable_sort, In-stable_sort,
}
use poly_asian_data.Edge.{Weights, Rounding}
use poly_asian_data.Edge.Fair.{nonzero_or}
use poly_asian_data.Edge.Score.{score, weights_or_default}
use poly_asian_data.Edge.Board.{
  BoardCandidate, BoardSelectResult, board_features, is_extreme, board_input, board_row, append_row,
  kept_rows, row_before, select_board,
}

both_false {ℓ} :
    {A : Type ℓ} (b c : Bool) (x y : A)
    → (if b then none else if c then none else some x) ≡ some y
    → (b ≡ false) × (c ≡ false) × (x ≡ y)
both_false true c x y h = cc
both_false false true x y h = cc
both_false false false x y h = (refl, refl, cc)

module _ {F : Type 0} ⦃fl : Float64 F⦄ (r : Rounding F) where
  -- A row that stands for a candidate: the candidate with its features, and its score; it is not dropped
  -- and its mid is not extreme.
  pub record IsRowOf (w : Weights F) (c : BoardCandidate F) (row : BoardSelectResult F)
      : Type 0 where
    pub same_candidate : row.candidate ≡ record c { features = board_features w c }
    pub scored : row.result ≡ score r (board_input w c) w
    pub not_dropped : row.result.drop ≡ false
    pub not_extreme : is_extreme w (board_features w c) ≡ false

  board_row-IsRowOf :
      (w : Weights F) (c : BoardCandidate F) (row : BoardSelectResult F)
      → board_row r w c ≡ some row
      → IsRowOf w c row
  unfolding board_row
  board_row-IsRowOf w c row h =
      let made : BoardSelectResult F = record {
        candidate = record c { features = board_features w c };
        result = score r (board_input w c) w;
      } in
      let (extreme, dropped, same) =
        both_false (is_extreme w (board_features w c)) made.result.drop made row h in
      subst (IsRowOf w c) same (record {
        same_candidate = refl;
        scored = refl;
        not_dropped = dropped;
        not_extreme = extreme;
      })

  -- Each kept row stands for a candidate.
  pub kept_rows-IsRowOf :
      (w : Weights F) (cs : List (BoardCandidate F))
      → All (λ row. (c : BoardCandidate F) × In c cs × IsRowOf w c row) (kept_rows r w cs)
  unfolding kept_rows
  kept_rows-IsRowOf w [] = tt
  kept_rows-IsRowOf w (c ∷ cs) =
      let later =
        All-map _ (λ row. (d : BoardCandidate F) × In d (c ∷ cs) × IsRowOf w d row)
          (kept_rows r w cs) (λ row (d, m, k). (d, inr m, k)) (kept_rows-IsRowOf w cs) in
      go (board_row r w c) refl later
    where
      go :
          (o : Option (BoardSelectResult F))
          → board_row r w c ≡ o
          → All (λ row. (d : BoardCandidate F) × In d (c ∷ cs) × IsRowOf w d row) (kept_rows r w cs)
          → All
              (λ row. (d : BoardCandidate F) × In d (c ∷ cs) × IsRowOf w d row)
              (append_row o (kept_rows r w cs))
      go none h later = later
      go (some row) h later = ((c, inl refl, board_row-IsRowOf w c row h), later)

  -- A candidate has its row, or an extreme mid that the weights forbid, or a score that drops it.
  abbrev pub IsPlaced : Weights F → List (BoardSelectResult F) → BoardCandidate F → Type 0
  IsPlaced w rows c =
      (is_extreme w (board_features w c) ≡ true)
      ⊎ ((score r (board_input w c) w).drop ≡ true)
      ⊎ ((row : BoardSelectResult F) × In row rows × IsRowOf w c row)

  board_row-placed :
      (w : Weights F) (c : BoardCandidate F)
      → (is_extreme w (board_features w c) ≡ true)
        ⊎ ((score r (board_input w c) w).drop ≡ true)
        ⊎ ((row : BoardSelectResult F) × (board_row r w c ≡ some row))
  unfolding board_row
  board_row-placed w c = either (is_extreme w (board_features w c)) made.result.drop
    where
      made : BoardSelectResult F
      made = record {
        candidate = record c { features = board_features w c };
        result = score r (board_input w c) w;
      }

      either :
          (b d : Bool)
          → (b ≡ true)
            ⊎ (d ≡ true)
            ⊎ ((row : BoardSelectResult F) × ((if b then none else if d then none else some made)
                  ≡ some row))
      either true d = inl refl
      either false true = inr (inl refl)
      either false false = inr (inr (made, refl))

  In-append_row :
      (row : BoardSelectResult F) (o : Option (BoardSelectResult F))
      (rows : List (BoardSelectResult F))
      → In row rows
      → In row (append_row o rows)
  In-append_row row none rows m = m
  In-append_row row (some new) rows m = inr m

  IsPlaced-mono :
      (w : Weights F) (rows rows' : List (BoardSelectResult F))
      → ((row : BoardSelectResult F) → In row rows → In row rows')
      → (c : BoardCandidate F) → IsPlaced w rows c
      → IsPlaced w rows' c
  IsPlaced-mono w rows rows' more c (inl e) = inl e
  IsPlaced-mono w rows rows' more c (inr (inl d)) = inr (inl d)
  IsPlaced-mono w rows rows' more c (inr (inr (row, m, k))) = inr (inr (row, more row m, k))

  kept_rows-IsPlaced :
      (w : Weights F) (cs : List (BoardCandidate F)) → All (IsPlaced w (kept_rows r w cs)) cs
  unfolding kept_rows
  kept_rows-IsPlaced w [] = tt
  kept_rows-IsPlaced w (c ∷ cs) =
      let rows = kept_rows r w cs in
      (
        elim (board_row-placed w c) [
          | inl e ↦ inl e
          | inr s ↦ elim s [
            | inl d ↦ inr (inl d)
            | inr q ↦
                let own : board_row r w c ≡ some q.0 = q.1 in
                inr (
                  inr (
                    q.0,
                    subst (λ o. In q.0 (append_row o rows)) (sym own) (inl refl),
                    board_row-IsRowOf w c q.0 own,
                  ))
          ]
        ],
        All-map _ _ cs
            (IsPlaced-mono w rows (append_row (board_row r w c) rows)
              (λ row. In-append_row row (board_row r w c) rows))
            (kept_rows-IsPlaced w cs),
      )

  module _ (ord : IsOrdered F fl) where
    row_before_asym : (a b : BoardSelectResult F) → row_before a b ≡ true → row_before b a ≡ false
    row_before_asym a b h = ground (
      arith,
      ord.eq_sym a.result.edge_bps b.result.edge_bps,
      ord.eq_sym b.result.edge_bps a.result.edge_bps,
      ord.lt_trans a.result.edge_bps b.result.edge_bps a.result.edge_bps,
      ord.lt_irrefl a.result.edge_bps,
      ord.lt_trans a.candidate.tie_break b.candidate.tie_break a.candidate.tie_break,
      ord.lt_irrefl a.candidate.tie_break,
    )

    -- SelectBoard gives the first n, or 50 when n is 0, of the rows that are kept, in an order in which no
    -- row comes before the one in front of it; each row stands for a candidate with its features and its
    -- score, is not dropped, and has no extreme mid where the weights forbid it; and each candidate has its
    -- row among them, or such a mid, or a score that drops it.
    pub select_board-IsRowOf :
        (cands : List (BoardCandidate F)) (given : Weights F) (n : ℕ)
        → let w = weights_or_default given in
          (all : List (BoardSelectResult F)) × Perm all (kept_rows r w cands)
          × IsOrderly row_before all
          × (select_board r cands given n ≡ take (nonzero_or 50 n) all)
          × All (λ row. (c : BoardCandidate F) × In c cands × IsRowOf w c row) all
          × All (IsPlaced w all) cands
    unfolding select_board
    select_board-IsRowOf cands given n =
        let w = weights_or_default given in
        let rows = kept_rows r w cands in
        (
          stable_sort row_before rows,
          stable_sort-perm row_before rows,
          stable_sort-IsOrderly row_before row_before_asym rows,
          refl,
          All-stable_sort row_before _ rows (kept_rows-IsRowOf w cands),
          All-map _ _ cands
              (IsPlaced-mono w rows (stable_sort row_before rows)
                (λ row. In-stable_sort row_before row rows))
              (kept_rows-IsPlaced w cands),
        )
