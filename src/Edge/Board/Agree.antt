-- ===== src/Edge/Board/Agree.antt =====
-- internal/edge/board_select.go and score.go: without the policies of the board SelectBoard ranks as
-- RankByEdge does.
use mathlib.Core.List.{map}
use poly_asian_data.Base.{
  ℕ, ◌+◌, ◌≤◌, ◌≡◌, refl, sym, ap, ◌∙◌, subst, Bool, true, false, not, ◌&&◌, List, [], ◌∷◌, Option,
  none, some, if◌then◌else◌, arith, All, take_all, length,
}
use poly_asian_data.Float.Defs.{Float64, IsOrdered, gt}
use poly_asian_data.Sort.{stable_sort, map-stable_sort, length-stable_sort}
use poly_asian_data.Edge.{Weights, Rounding}
use poly_asian_data.Edge.Idem.{prepared-filled, weights_or_default_idem}
use poly_asian_data.Edge.Fair.{nonzero_or, resolve, default_fv_chain_from_weights, is_extreme_mid}
use poly_asian_data.Edge.Score.{
  ScoreInput, ScoreResult, score, prepared, weights_or_default, scored_of, rank_by_edge,
  by_edge_bps, score_prepared,
}
use poly_asian_data.Edge.Board.{
  BoardCandidate, BoardSelectResult, board_features, board_row, append_row, kept_rows, plain_input,
  board_input, with_quote, fair_value_input, row_before, select_board,
}

All-unit : {A : Type 0} (xs : List A) → All (λ x. Unit {0}) xs
All-unit [] = tt
All-unit (x ∷ xs) = (tt, All-unit xs)

module _ {F : Type 0} ⦃fl : Float64 F⦄ where
  open fl use {eq, lt, le, add, sub, mul, div, lit}

  -- A candidate as RankByEdge takes it, without a fair value.
  abbrev pub raw_input : BoardCandidate F → ScoreInput F
  raw_input c = plain_input c c.features

  module _ (r : Rounding F) where
    score-board_features :
        (given : Weights F) (c : BoardCandidate F)
        → let w = weights_or_default given in
          score r (plain_input c (board_features w c)) w ≡ score r (raw_input c) given
    unfolding score
    score-board_features given c =
        let w = weights_or_default given in
        ap
          (λ v.
            score_prepared r v (plain_input c (board_features w c))
              (prepared v (board_features w c)))
          (weights_or_default_idem given)
        ∙ ap (score_prepared r w (raw_input c)) (prepared-filled w c.features)

    -- The row that a score gives.
    abbrev row_of : Weights F → BoardCandidate F → ScoreResult F → Option (BoardSelectResult F)
    row_of w c res =
        if res.drop
        then none
        else some (record { candidate = record c { features = board_features w c }; result = res })

    module _ (given : Weights F) (no_fv : (weights_or_default given).fv_enabled ≡ false)
        (no_drop : (weights_or_default given).drop_extreme_price ≡ false) where
      board_input_plain :
          (c : BoardCandidate F)
          → let w = weights_or_default given in board_input w c ≡ plain_input c (board_features w c)
      unfolding board_input
      board_input_plain c =
          let w = weights_or_default given in
          let plain = plain_input c (board_features w c) in
          let quote =
            resolve (default_fv_chain_from_weights w) (fair_value_input c (board_features w c)) in
          ap (λ b. if b then with_quote quote plain else plain) no_fv

      -- The row of a candidate, where the weights have neither policy.
      board_row_plain :
          (c : BoardCandidate F)
          → let w = weights_or_default given in
            board_row r w c ≡ row_of w c (score r (raw_input c) given)
      unfolding board_row
      board_row_plain c =
          let w = weights_or_default given in
          let f = board_features w c in
          ap
            (λ b.
              if b && not f.missing_book && is_extreme_mid f.mid w.extreme_lo w.extreme_hi
              then none
              else row_of w c (score r (board_input w c) w))
            no_drop
          ∙ ap (λ input. row_of w c (score r input w)) (board_input_plain c)
          ∙ ap (row_of w c) (score-board_features given c)

      results_agree :
          (cs : List (BoardCandidate F))
          → map (λ row. row.result) (kept_rows r (weights_or_default given) cs)
            ≡ map (λ s. s.result) (scored_of r (map raw_input cs) given)
      unfolding kept_rows scored_of
      results_agree [] = refl
      results_agree (c ∷ cs) =
          let w = weights_or_default given in
          let res = score r (raw_input c) given in
          let rows = kept_rows r w cs in
          ap (λ o. map (λ row. row.result) (append_row o rows)) (board_row_plain c)
          ∙ go res.drop res (results_agree cs)
        where
          go :
              (b : Bool) (res : ScoreResult F)
              → map (λ row. row.result) (kept_rows r (weights_or_default given) cs)
                ≡ map (λ s. s.result) (scored_of r (map raw_input cs) given)
              → map
                  (λ row. row.result)
                  (append_row
                    (if b
                      then none
                      else some record {
                        candidate = record c {
                          features = board_features (weights_or_default given) c;
                        };
                        result = res;
                      })
                    (kept_rows r (weights_or_default given) cs))
                ≡ map
                    (λ s. s.result)
                    (if b
                      then scored_of r (map raw_input cs) given
                      else record { input = raw_input c; result = res }
                        ∷ scored_of r (map raw_input cs) given)
          go true res ih = ih
          go false res ih = ap (λ l. res ∷ l) ih

      tie_breaks_kept :
          (t : F) (cs : List (BoardCandidate F))
          → All (λ c. c.tie_break ≡ t) cs
          → All (λ row. row.candidate.tie_break ≡ t) (kept_rows r (weights_or_default given) cs)
      unfolding kept_rows
      tie_breaks_kept t [] h = tt
      tie_breaks_kept t (c ∷ cs) (e, h) =
          let w = weights_or_default given in
          let res = score r (raw_input c) given in
          let rows = kept_rows r w cs in
          subst (λ o. All (λ row. row.candidate.tie_break ≡ t) (append_row o rows))
            (sym (board_row_plain c)) (go res.drop res (tie_breaks_kept t cs h))
        where
          go :
              (b : Bool) (res : ScoreResult F)
              → All (λ row. row.candidate.tie_break ≡ t) (kept_rows r (weights_or_default given) cs)
              → All
                  (λ row. row.candidate.tie_break ≡ t)
                  (append_row
                    (if b
                      then none
                      else some record {
                        candidate = record c {
                          features = board_features (weights_or_default given) c;
                        };
                        result = res;
                      })
                    (kept_rows r (weights_or_default given) cs))
          go true res k = k
          go false res k = (e, k)

    length-append_row-le :
        (o : Option (BoardSelectResult F)) (rows : List (BoardSelectResult F))
        → length (append_row o rows) ≤ length rows + 1
    length-append_row-le none rows = omega arith
    length-append_row-le (some row) rows = omega arith

    pub length-kept_rows-le :
        (w : Weights F) (cs : List (BoardCandidate F)) → length (kept_rows r w cs) ≤ length cs
    unfolding kept_rows
    length-kept_rows-le w [] = omega arith
    length-kept_rows-le w (c ∷ cs) =
        omega (
          arith,
          length-append_row-le (board_row r w c) (kept_rows r w cs),
          length-kept_rows-le w cs,
        )

    abbrev by_result : ScoreResult F → ScoreResult F → Bool
    by_result a b = gt a.edge_bps b.edge_bps

    module _ (ord : IsOrdered F fl) where
      row_before-by_result :
          (t : F) (a b : BoardSelectResult F)
          → a.candidate.tie_break ≡ t
          → b.candidate.tie_break ≡ t
          → row_before a b ≡ by_result a.result b.result
      row_before-by_result t a b p q = ground (
        arith,
        ord.eq-not-lt b.result.edge_bps a.result.edge_bps,
        ord.eq_sym a.result.edge_bps b.result.edge_bps,
        ord.lt_irrefl t,
        p,
        q,
      )

      -- Where the weights enable neither fair values nor the drop of extreme prices, all tie-breaks are
      -- equal, and there are no more candidates than are asked for, SelectBoard gives the scores that
      -- RankByEdge gives of the candidates' own features, in the same order.
      pub select_board-rank_by_edge :
          (given : Weights F) (t : F) (cands : List (BoardCandidate F)) (n : ℕ)
          → (weights_or_default given).fv_enabled ≡ false
          → (weights_or_default given).drop_extreme_price ≡ false
          → All (λ c. c.tie_break ≡ t) cands
          → length cands ≤ nonzero_or 50 n
          → map (λ row. row.result) (select_board r cands given n)
            ≡ map (λ s. s.result) (rank_by_edge r (map raw_input cands) given)
      unfolding select_board rank_by_edge
      select_board-rank_by_edge given t cands n no_fv no_drop ties few =
          let rows = kept_rows r (weights_or_default given) cands in
          let scored = scored_of r (map raw_input cands) given in
          ap (map (λ row. row.result)) (
            take_all (nonzero_or 50 n) (stable_sort row_before rows) (
              omega (
                arith,
                few,
                length-stable_sort row_before rows,
                length-kept_rows-le (weights_or_default given) cands,
              )))
          ∙ map-stable_sort (λ row. row.result) row_before by_result
              (λ row. row.candidate.tie_break ≡ t) (row_before-by_result t) rows
              (tie_breaks_kept given no_fv no_drop t cands ties)
          ∙ ap (stable_sort by_result) (results_agree given no_fv no_drop cands)
          ∙ sym (
              map-stable_sort (λ s. s.result) by_edge_bps by_result (λ s. Unit {0})
                (λ x y p q. refl) scored (All-unit scored))
