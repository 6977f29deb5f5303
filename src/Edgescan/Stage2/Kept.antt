-- ===== src/Edgescan/Stage2/Kept.antt =====
-- internal/edgescan/stage2.go: each collected row names a candidate with a market, and no step adds a row.
use poly_asian_data.Base.{
  ℕ, suc, ◌+◌, ◌≤◌, ◌<◌, ◌≡◌, refl, ap, ◌∙◌, inl, inr, String, Bool, true, ◌||◌, List, [], ◌∷◌,
  Option, none, some, leb, length, arith, Bool-cases, All, All-map, All-In, is_some, map, All-take,
  length-take-le_length,
}
use poly_asian_data.Base.Dict.{Dict, lookup}
use poly_asian_data.Float.Defs.{Float64}
use poly_asian_data.Risk.Order.{count_from}
use poly_asian_data.Sort.{stable_sort, All-stable_sort, length-stable_sort}
use poly_asian_data.Edge.{FeatureVector, Weights, Rounding}
use poly_asian_data.Edge.Fair.{nonzero_or}
use poly_asian_data.Edge.Score.{weights_or_default}
use poly_asian_data.Edge.Board.{
  BoardCandidate, BoardSelectResult, kept_rows, row_before, select_board,
}
use poly_asian_data.Edge.Board.Kept.{kept_rows-IsRowOf}
use poly_asian_data.Edge.Board.Agree.{length-kept_rows-le}
use poly_asian_data.Edgescan.{Market, Candidate, ScoredCand, select_top_n}
use poly_asian_data.Edgescan.Sticky.{select_top_n-HasSticky}
use poly_asian_data.Edgescan.Stage2.{
  Calls, EdgeBuildOptions, BookSnapshot, feature_from_candidate, read_book, not_negative,
  first_book, market_features,
}
use poly_asian_data.Edgescan.Stage2.Build.{
  Collected, scored_rows, append_scored, materialize_rows, append_board_row, nothing_collected,
}
use poly_asian_data.Edgescan.Stage2.Gathered.{
  has_market, fill_book_derived-condition_id, board_features-condition_id, IsCollected,
  has_market-condition,
}

module _ {F : Type 0} ⦃fl : Float64 F⦄ where
  open fl use {eq}

  -- The rows of a selection name conditions that have been collected.
  abbrev pub HasNames : Collected F → List (BoardSelectResult F) → Type 0
  HasNames k rows =
      All (λ row. is_some (lookup row.candidate.features.condition_id k.by_cond_feat) ≡ true) rows

  pub length-scored_rows :
      (k : Collected F) (rows : List (BoardSelectResult F))
      → HasNames k rows
      → length (scored_rows k.by_cond_feat rows) ≡ length rows
  unfolding scored_rows
  length-scored_rows k [] h = refl
  length-scored_rows k (row ∷ rows) (e, h) =
      go (lookup row.candidate.features.condition_id k.by_cond_feat) e (length-scored_rows k rows h)
    where
      go :
          (o : Option (Candidate F))
          → is_some o ≡ true
          → length (scored_rows k.by_cond_feat rows) ≡ length rows
          → length (append_scored row o (scored_rows k.by_cond_feat rows)) ≡ suc (length rows)
      go none e h = cc
      go (some c) e h = ap suc h

  pub scored_rows-markets :
      (k : Collected F) (rows : List (BoardSelectResult F))
      → IsCollected k
      → All (λ s. has_market s.c ≡ true) (scored_rows k.by_cond_feat rows)
  unfolding scored_rows
  scored_rows-markets k [] i = tt
  scored_rows-markets k (row ∷ rows) i =
      let id = row.candidate.features.condition_id in
      go (lookup id k.by_cond_feat) refl (scored_rows-markets k rows i)
    where
      go :
          (o : Option (Candidate F))
          → lookup row.candidate.features.condition_id k.by_cond_feat ≡ o
          → All (λ s. has_market s.c ≡ true) (scored_rows k.by_cond_feat rows)
          → All (λ s. has_market s.c ≡ true) (append_scored row o (scored_rows k.by_cond_feat rows))
      go none e h = h
      go (some c) e h =
          (has_market-condition c row.candidate.features.condition_id (i.named _ c e), h)

  module _ (r : Rounding F) where
    pub select_board-HasNames :
        (k : Collected F) (given : Weights F) (n : ℕ)
        → IsCollected k
        → HasNames k (select_board r k.board_cands given n)
    unfolding select_board
    select_board-HasNames k given n i =
        let w = weights_or_default given in
        let rows = kept_rows r w k.board_cands in
        All-take _ (nonzero_or 50 n) (stable_sort row_before rows) (
          All-stable_sort row_before _ rows (
            All-map _ _ rows
              (λ row (c, m, is_row).
                ap (λ id. is_some (lookup id k.by_cond_feat))
                  (ap (λ d. d.features.condition_id) is_row.same_candidate
                    ∙ board_features-condition_id w c)
                ∙ All-In (λ b. is_some (lookup b.features.condition_id k.by_cond_feat) ≡ true) c
                    k.board_cands i.found m)
              (kept_rows-IsRowOf r w k.board_cands)))

    pub length-select_board-le :
        (cands : List (BoardCandidate F)) (given : Weights F) (n : ℕ)
        → length (select_board r cands given n) ≤ length cands
    unfolding select_board
    length-select_board-le cands given n =
        let w = weights_or_default given in
        let rows = kept_rows r w cands in
        omega (
          arith,
          length-take-le_length (nonzero_or 50 n) (stable_sort row_before rows),
          length-stable_sort row_before rows,
          length-kept_rows-le r w cands,
        )

  pub length-select_top_n-le :
      (scored : List (ScoredCand F)) (sticky : Dict Bool) (n : ℕ)
      → 0 < n
      → (length (select_top_n scored sticky n) ≤ n)
        × (length (select_top_n scored sticky n) ≤ length scored)
  unfolding select_top_n
  length-select_top_n-le scored sticky n h = elim (Bool-cases (leb (length scored) n)) [
    | inl e ↦
        let test : leb n 0 || leb (length scored) n ≡ true = ground arith in
        rw test (ground arith, omega arith)
    | inr e ↦
        let (few, _) = select_top_n-HasSticky scored sticky n h (ground arith) in
        (few, ground (arith, few))
  ]

  pub length-materialize_rows :
      (sort : List String → List String) (by_cond : Dict (Candidate F)) (i : ℕ)
      (ss : List (ScoredCand F))
      → All (λ s. has_market s.c ≡ true) ss
      → (length (materialize_rows sort by_cond i ss) ≡ length ss)
        × (map (λ row. row.rank) (materialize_rows sort by_cond i ss) ≡ count_from i (length ss))
  unfolding materialize_rows
  length-materialize_rows sort by_cond i [] h = (refl, refl)
  length-materialize_rows sort by_cond i (s ∷ ss) (e, h) =
      let (n, ranks) = length-materialize_rows sort by_cond (i + 1) ss h in go s.c.market e n ranks
    where
      go :
          (o : Option (Market F))
          → is_some o ≡ true
          → length (materialize_rows sort by_cond (i + 1) ss) ≡ length ss
          → map (λ row. row.rank) (materialize_rows sort by_cond (i + 1) ss)
            ≡ count_from (i + 1) (length ss)
          → let rows =
              append_board_row sort by_cond i s o (materialize_rows sort by_cond (i + 1) ss) in
            (length rows ≡ suc (length ss))
            × (map (λ row. row.rank) rows ≡ i ∷ count_from (i + 1) (length ss))
      go none e n ranks = cc
      go (some m) e n ranks = (ap suc n, ap (λ l. i ∷ l) ranks)

  pub IsCollected-start : IsCollected {F = F} nothing_collected
  IsCollected-start = record { named = λ id c h. cc; found = tt }

  read_book-condition_id :
      (calls : Calls F) (now : ℕ) (d : F) (o : Option (String × BookSnapshot F))
      (f : FeatureVector F)
      → (read_book calls now d o f).condition_id ≡ f.condition_id
  read_book-condition_id calls now d none f =
      fill_book_derived-condition_id d (record f { missing_book = true })
  read_book-condition_id calls now d (some (tid, b)) f =
      let age = not_negative (calls.seconds b.time now) in
      fill_book_derived-condition_id d (record f {
        token_id = tid;
        best_bid = b.best_bid;
        best_ask = b.best_ask;
        bid_depth = b.total_bid_depth;
        ask_depth = b.total_ask_depth;
        imbalance = b.imbalance;
        book_age_sec = age;
        feature_age_sec = age;
        features_as_of_unix = calls.unix b.time;
      })

  pub feature_from_candidate-condition_id :
      (calls : Calls F) (opts : EdgeBuildOptions F) (w : Weights F) (residuals : String → F × Bool)
      (c : Candidate F) (m : Market F)
      → (feature_from_candidate calls opts w residuals c m).condition_id ≡ m.condition_id
  unfolding feature_from_candidate
  feature_from_candidate-condition_id calls opts w residuals c m =
      read_book-condition_id calls opts.now w.min_depth_shares
        (first_book (calls.parse_token_ids m.clob_token_ids) opts.books)
        (market_features calls opts residuals c m)
