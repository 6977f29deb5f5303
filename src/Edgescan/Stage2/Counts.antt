-- ===== src/Edgescan/Stage2/Counts.antt =====
-- internal/edgescan/stage2.go: BuildEdgeBoard accounts for every candidate of the first stage.
use poly_asian_data.Base.{
  ℕ, ◌+◌, ◌-◌, ◌≤◌, ◌≡◌, sym, ap, ◌∙◌, String, true, false, ◌&&◌, [], length, arith, ◌==◌, All,
  keep, map,
}
use poly_asian_data.Base.Dict.{Dict, lookup, insert, lookup-insert}
use poly_asian_data.Float.Defs.{Float64}
use poly_asian_data.Risk.Order.{count_from}
use poly_asian_data.Edge.{Rounding}
use poly_asian_data.Edge.Fair.{nonzero_or}
use poly_asian_data.Edge.Score.{weights_or_default}
use poly_asian_data.Edge.Board.{select_board}
use poly_asian_data.Edgescan.Picks.{All-select_top_n}
use poly_asian_data.Edgescan.Stage2.{
  Calls, Stage1Result, EdgeBuildOptions, board_candidate, or_else, build_group_mid_index,
  legs_by_group, residual_of, sticky_map,
}
use poly_asian_data.Edgescan.Stage2.Build.{
  BoardBuildResult, or_stage1, collected, ranked_cands, board_cut, build_edge_board,
  nothing_collected,
}
use poly_asian_data.Edgescan.Stage2.Gathered.{
  has_market, IsCollected, collect-IsCollected, length-collect,
}
use poly_asian_data.Edgescan.Stage2.Kept.{
  IsCollected-start, feature_from_candidate-condition_id, length-scored_rows, scored_rows-markets,
  select_board-HasNames, length-select_board-le, length-select_top_n-le, length-materialize_rows,
}

-- What the summary of what is dropped holds at two of its keys.
summary_counts :
    (missing edge cap : ℕ) (d : Dict ℕ)
    → let m = insert "missing_book" missing (insert "edge_drop" edge (insert "board_cap" cap d)) in
      (or_else 0 (lookup "board_cap" m) ≡ cap) × (or_else 0 (lookup "edge_drop" m) ≡ edge)
summary_counts missing edge cap d =
    let with_cap = insert "board_cap" cap d in
    let with_edge = insert "edge_drop" edge with_cap in
    (
      ap (or_else 0) (
          lookup-insert "missing_book" "board_cap" missing with_edge
          ∙ lookup-insert "edge_drop" "board_cap" edge with_cap
          ∙ lookup-insert "board_cap" "board_cap" cap d),
      ap (or_else 0) (
          lookup-insert "missing_book" "edge_drop" missing with_edge
          ∙ lookup-insert "edge_drop" "edge_drop" edge with_cap),
    )

module _ {F : Type 0} ⦃fl : Float64 F⦄ where
  module _ (r : Rounding F) (calls : Calls F) where
    collected-IsCollected :
        (stage1 : Stage1Result F) (opts : EdgeBuildOptions F)
        → IsCollected (collected r calls stage1 opts)
          × (length (collected r calls stage1 opts).board_cands
              ≡ length (keep has_market stage1.candidates))
    unfolding collected
    collected-IsCollected stage1 opts =
        let w = weights_or_default opts.weights in
        let enriched = or_stage1 opts.enrich_candidates stage1.candidates in
        let by_group = build_group_mid_index calls enriched opts.books [] in
        let residuals = residual_of calls (legs_by_group calls opts.books enriched []) in
        let make = board_candidate calls opts stage1 w residuals by_group in
        let own = feature_from_candidate-condition_id calls opts w residuals in
        (
          collect-IsCollected w make own stage1.candidates nothing_collected IsCollected-start,
          omega (arith, length-collect w make own stage1.candidates nothing_collected),
        )

    -- The ranked candidates are as many as the rows that SelectBoard gives, and have markets.
    ranked_cands-markets :
        (stage1 : Stage1Result F) (opts : EdgeBuildOptions F)
        → let k = collected r calls stage1 opts in
          let ranked =
            select_board r k.board_cands (weights_or_default opts.weights) (length k.board_cands) in
          let scored = ranked_cands r calls stage1 opts in
          (length scored ≡ length ranked) × All (λ s. has_market s.c ≡ true) scored
    unfolding ranked_cands
    ranked_cands-markets stage1 opts =
        let k = collected r calls stage1 opts in
        let w = weights_or_default opts.weights in
        let n = length k.board_cands in
        let (i, _) = collected-IsCollected stage1 opts in
        (
          length-scored_rows k (select_board r k.board_cands w n) (select_board-HasNames r k w n i),
          scored_rows-markets k (select_board r k.board_cands w n) i,
        )

    board_cut-few :
        (stage1 : Stage1Result F) (opts : EdgeBuildOptions F)
        → (length (board_cut r calls stage1 opts) ≤ nonzero_or 50 opts.board_max_n)
          × (length (board_cut r calls stage1 opts) ≤ length (ranked_cands r calls stage1 opts))
    unfolding board_cut
    board_cut-few stage1 opts =
        length-select_top_n-le (ranked_cands r calls stage1 opts)
          (sticky_map opts.sticky_condition_ids []) (nonzero_or 50 opts.board_max_n) (ground arith)

    board_cut-markets :
        (stage1 : Stage1Result F) (opts : EdgeBuildOptions F)
        → All (λ s. has_market s.c ≡ true) (board_cut r calls stage1 opts)
    unfolding board_cut
    board_cut-markets stage1 opts =
        All-select_top_n (λ s. has_market s.c ≡ true) (ranked_cands r calls stage1 opts)
          (sticky_map opts.sticky_condition_ids []) (nonzero_or 50 opts.board_max_n)
          ((ranked_cands-markets stage1 opts).1)

    -- The count of a key in the summary of what is dropped.
    abbrev pub count_of : String → BoardBuildResult F → ℕ
    count_of key b = or_else 0 (lookup key b.dropped_summary)

    -- Unless books are required and there is none: the board has at most BoardMaxN rows, or 50; they are
    -- ranked from 1 on; and the rows, those that the cap cut and those that the policy dropped are
    -- together as many as the candidates of the first stage with a market.
    pub build_edge_board-count :
        (stage1 : Stage1Result F) (opts : EdgeBuildOptions F)
        → (collected r calls stage1 opts).books_hit == 0 && opts.publish_require_books ≡ false
        → let b = build_edge_board r calls stage1 opts in
          (length b.rows ≤ nonzero_or 50 opts.board_max_n)
          × (map (λ row. row.rank) b.rows ≡ count_from 1 (length b.rows))
          × (length b.rows + count_of "board_cap" b + count_of "edge_drop" b
              ≡ length (keep has_market stage1.candidates))
    unfolding build_edge_board
    build_edge_board-count stage1 opts published =
        let k = collected r calls stage1 opts in
        let w = weights_or_default opts.weights in
        let n = length k.board_cands in
        let scored = ranked_cands r calls stage1 opts in
        let board = board_cut r calls stage1 opts in
        let cap = nonzero_or 50 opts.board_max_n in
        let sticky = sticky_map opts.sticky_condition_ids [] in
        let (_, all) = collected-IsCollected stage1 opts in
        let (as_many, markets) = ranked_cands-markets stage1 opts in
        let (few, fewer) = board_cut-few stage1 opts in
        let (rows, ranks) =
          length-materialize_rows calls.sort_strings stage1.by_cond 1 board
            (board_cut-markets stage1 opts) in
        let ranked_few = length-select_board-le r k.board_cands w n in
        rw published (
          omega (arith, rows, few),
          ranks ∙ ap (count_from 1) (sym rows),
          omega (
            arith,
            rows,
            as_many,
            fewer,
            all,
            ranked_few,
            summary_counts (length stage1.candidates - k.books_hit)
                (n - length (select_board r k.board_cands w n)) (length scored - length board)
                (insert "extreme_price" k.extreme stage1.dropped_summary),
          ),
        )
