-- ===== src/Sim/Boards.antt =====
-- internal/signaleval/board_source.go: the capital allocation over every published board, with the
-- grouping of internal/db/board_snapshots.go.
use mathlib.Core.List.{map}
use poly_asian_data.Base.{
  ℕ, ◌+◌, ◌≤◌, ◌≡◌, refl, ap, ◌∙◌, String, true, List, [], ◌∷◌, ◌++◌, Option, none, some, arith,
  length, sum_by, All, In, inl, inr, ◌==◌, if◌then◌else◌, is_empty, length-map, eq_iff,
  length-append, Bool-cases,
}
use poly_asian_data.Float.Defs.{Float64, gt, ge}
use poly_asian_data.Risk.{normalize, Config, nought, unit}
use poly_asian_data.Best.OneEach.{length-keep_best-le}
use poly_asian_data.Alloc.{
  screen, is_unworthy, dedupe_best, beats, Name, Input, Outcome, Worthiness, run,
}
use poly_asian_data.Alloc.Laws.{Eligible, run-Sound}
use poly_asian_data.Sim.{SignalIn, WorthinessFilter}

-- The columns that the allocation reads.
pub record SnapshotRow (F : Type 0) : Type 0 where
  pub selected_at : ℕ
  pub strategy : String
  pub condition_id : String
  pub token_id : String
  pub edge_bps : Option F

pub record BoardAllocMeta : Type 0 where
  pub snapshot_times : ℕ
  pub names_seen : ℕ
  pub taken : ℕ
  pub rejected : ℕ

-- The results of the replay.
abbrev pub Replay : Type 0 → Type 0
Replay F = List (SignalIn F) × BoardAllocMeta

module _ {F : Type 0} where
  -- The loop of `GroupSnapshotsBySelectedAt`; `cur` is the group under way, of time `t`.
  unfoldable pub group_from :
      ℕ → List (SnapshotRow F) → List (SnapshotRow F) → List (List (SnapshotRow F))
  group_from t cur [] = cur ∷ []
  group_from t cur (r ∷ rs) =
      let same = r.selected_at == t in
      let rest =
        group_from (if same then t else r.selected_at) (if same then cur ++ r ∷ [] else r ∷ [])
          rs in
      if same then rest else cur ∷ rest

  unfoldable pub group_snapshots : List (SnapshotRow F) → List (List (SnapshotRow F))
  group_snapshots [] = []
  group_snapshots (r ∷ rs) = group_from r.selected_at (r ∷ []) rs

  group_from-length :
      (t : ℕ) (cur rs : List (SnapshotRow F))
      → sum_by length (group_from t cur rs) ≡ length cur + length rs
  unfolding group_from
  group_from-length t cur [] = omega arith
  group_from-length t cur (r ∷ rs) = elim (Bool-cases (r.selected_at == t)) [
    | inl e ↦
        rw e (omega (arith, group_from-length t (cur ++ r ∷ []) rs, length-append cur (r ∷ [])))
    | inr e ↦ rw e (omega (arith, group_from-length r.selected_at (r ∷ []) rs))
  ]

  group_snapshots-length :
      (rs : List (SnapshotRow F)) → sum_by length (group_snapshots rs) ≡ length rs
  unfolding group_snapshots
  group_snapshots-length [] = refl
  group_snapshots-length (r ∷ rs) = omega (arith, group_from-length r.selected_at (r ∷ []) rs)

module _ {F : Type 0} ⦃fl : Float64 F⦄ where
  open fl use {lit, div, abs, lt, le}

  abbrev edge_or : Option F → F
  edge_or none = nought
  edge_or (some e) = e

  -- `snapshotToName`. Its zero fields are the zero values of the struct.
  unfoldable pub snapshot_to_name : F → ℕ → SnapshotRow F → Name F
  snapshot_to_name size_usd horizon_sec r =
      let edge = edge_or r.edge_bps in
      let conv = div (abs edge) (lit 200 0) in
      record {
        time = r.selected_at;
        condition_id = r.condition_id;
        token_id = r.token_id;
        market_id = "";
        side = if lt edge nought then "SELL" else "BUY";
        edge_bps = edge;
        conviction = if gt conv unit then unit else conv;
        urgency = nought;
        spread_bps = nought;
        mid = nought;
        cost_bps = nought;
        size_usd = size_usd;
        capacity_usd = nought;
        fv_source = "";
        score_path = "board_snapshot";
        horizon_sec = horizon_sec;
        strategy = r.strategy;
        strategy_version_id = none;
      }

  -- `signalFromName`; `tag` is the text of a condition and a time.
  unfoldable pub signal_from_name : (String → ℕ → String) → Name F → SignalIn F
  signal_from_name tag n = record {
    time = n.time;
    signal_id = tag n.condition_id n.time;
    strategy = n.strategy;
    strategy_version_id = n.strategy_version_id;
    condition_id = n.condition_id;
    token_id = n.token_id;
    market_id = n.market_id;
    side = if is_empty n.side then (if ge n.edge_bps nought then "BUY" else "SELL") else n.side;
    action = "ENTER";
    edge_bps = n.edge_bps;
    conviction = n.conviction;
    urgency = n.urgency;
    size_usd = n.size_usd;
    capacity_usd = n.capacity_usd;
    cost_bps = n.cost_bps;
    mid = n.mid;
    horizon_sec = n.horizon_sec;
    kelly_frac = none;
    spread_bps = n.spread_bps;
    fv_source = n.fv_source;
    score_path = n.score_path;
  }

  -- The size that every name asks for.
  abbrev pub size_for : Config F → F
  size_for rcfg = if le rcfg.max_position_usd nought then lit 25 0 else rcfg.max_position_usd

  -- The input of `alloc.Run` for one board.
  abbrev pub board_input : Config F → WorthinessFilter F → List (SnapshotRow F) → Input F
  board_input rcfg worth g = record {
    names = map (snapshot_to_name (size_for rcfg) 3600) g;
    risk = rcfg;
    worth = record {
      min_edge_bps = worth.min_edge_bps;
      max_spread_bps = worth.max_spread_bps;
      require_fv = worth.require_fv;
    };
    open_ids = [];
  }

  -- The signals and the counts of a board in front of those of the boards behind it.
  abbrev pub joined : (String → ℕ → String) → List (SnapshotRow F) → Outcome F → Replay F → Replay F
  joined tag g o r = (
    map (signal_from_name tag) o.taken ++ r.0,
    record {
      snapshot_times = (r.1).snapshot_times + 1;
      names_seen = length g + (r.1).names_seen;
      taken = length o.taken + (r.1).taken;
      rejected = length o.rejected + (r.1).rejected;
    },
  )

  abbrev add_board :
      (String → ℕ → String)
      → List (SnapshotRow F)
      → Option (Outcome F)
      → Option (Replay F)
      → Option (Replay F)
  add_board tag g (some o) (some r) = some (joined tag g o r)
  add_board tag g (some o) none = none
  add_board tag g none r = none

  unfoldable pub allocate_groups :
      (String → ℕ → String)
      → (Name F → String)
      → Config F
      → WorthinessFilter F
      → List (List (SnapshotRow F))
      → Option (Replay F)
  allocate_groups tag key rcfg worth [] =
      some ([], record { snapshot_times = 0; names_seen = 0; taken = 0; rejected = 0 })
  allocate_groups tag key rcfg worth (g ∷ gs) =
      add_board tag g (run key (board_input rcfg worth g)) (allocate_groups tag key rcfg worth gs)

  -- `AllocateFromBoardSnapshots`. `none` is a panic in `alloc.Run`.
  unfoldable pub allocate_boards :
      (String → ℕ → String)
      → (Name F → String)
      → List (SnapshotRow F)
      → Config F
      → WorthinessFilter F
      → Option (Replay F)
  allocate_boards tag key rows rcfg worth =
      allocate_groups tag key rcfg worth (group_snapshots rows)

  dedupe_best-le :
      (cfg : Config F) (key : Name F → String) (ns : List (Name F))
      → length (dedupe_best cfg key ns) ≤ length ns
  unfolding dedupe_best
  dedupe_best-le cfg key ns = length-keep_best-le (beats cfg) key ns

  named-fv :
      (size : F) (n : Name F) (g : List (SnapshotRow F))
      → In n (map (snapshot_to_name size 3600) g)
      → n.fv_source ≡ ""
  unfolding snapshot_to_name
  named-fv size n [] h = absurd h
  named-fv size n (r ∷ g) (inl e) = ap (λ n. n.fv_source) e
  named-fv size n (r ∷ g) (inr h) = named-fv size n g h

  unworthy_without_fv :
      (n : Name F) (w : Worthiness F)
      → n.fv_source ≡ ""
      → w.require_fv ≡ true
      → is_unworthy n w ≡ true
  unfolding is_unworthy
  unworthy_without_fv n w e h = ground (arith, eq_iff n.fv_source "")

  module _ (tag : String → ℕ → String) (key : Name F → String) (rcfg : Config F)
      (worth : WorthinessFilter F) where
    -- What is counted of the boards.
    record Counted (gs : List (List (SnapshotRow F))) (r : Replay F) : Type 0 where
      taken_all : (r.1).taken ≡ length (r.0)
      seen_all : (r.1).names_seen ≡ sum_by length gs
      boards_all : (r.1).snapshot_times ≡ length gs
      split : (r.1).taken + (r.1).rejected ≤ (r.1).names_seen
      no_fv : worth.require_fv ≡ true → r.0 ≡ []

    none_taken :
        (g : List (SnapshotRow F)) (ns : List (Name F))
        → All (Eligible (board_input rcfg worth g)) ns
        → worth.require_fv ≡ true
        → ns ≡ []
    none_taken g [] good h = refl
    none_taken g (n ∷ ns) good h =
        let fv = named-fv (size_for rcfg) n g good.0.0 in
        let bad = unworthy_without_fv n (board_input rcfg worth g).worth fv h in cc (bad, good.0.1)

    allocate_groups-Counted :
        (gs : List (List (SnapshotRow F)))
        → (r : Replay F) × (allocate_groups tag key rcfg worth gs ≡ some r) × Counted gs r
    unfolding allocate_groups
    allocate_groups-Counted [] = (
      _,
      refl,
      record {
        taken_all = refl;
        seen_all = refl;
        boards_all = refl;
        split = omega arith;
        no_fv = λ h. refl;
      },
    )
    allocate_groups-Counted (g ∷ gs) =
        let (r, e, c) = allocate_groups-Counted gs in
        let (o, ran, sound) = run-Sound key (board_input rcfg worth g) in
        let size = length-map (snapshot_to_name (size_for rcfg) 3600) g in
        let eligible =
          (screen (board_input rcfg worth g).worth [] (board_input rcfg worth g).names).0 in
        (
          joined tag g o r,
          rw (ran, e) refl,
          record {
            taken_all = omega (
              arith,
              c.taken_all,
              length-map (signal_from_name tag) o.taken,
              length-append (map (signal_from_name tag) o.taken) (r.0),
            );
            seen_all = omega (arith, c.seen_all);
            boards_all = omega (arith, c.boards_all);
            split = omega (
              arith,
              c.split,
              size,
              sound.accounted,
              dedupe_best-le (normalize rcfg) key eligible,
            );
            no_fv = λ h.
                ap (λ t. map (signal_from_name tag) t ++ r.0) (none_taken g o.taken sound.good h)
                ∙ c.no_fv h;
          },
        )

    -- The replay of published boards counts every row once and takes or rejects at most as many names;
    -- it takes as many as it returns signals; and when a fair value is required it returns none.
    pub allocate_boards-Counted :
        (rows : List (SnapshotRow F))
        → (r : Replay F) × (allocate_boards tag key rows rcfg worth ≡ some r)
          × ((r.1).names_seen ≡ length rows)
          × ((r.1).taken ≡ length (r.0))
          × ((r.1).taken + (r.1).rejected ≤ length rows)
          × (worth.require_fv ≡ true → r.0 ≡ [])
    unfolding allocate_boards
    allocate_boards-Counted rows =
        let (r, e, c) = allocate_groups-Counted (group_snapshots rows) in
        let all = group_snapshots-length rows in
        (r, e, c.seen_all ∙ all, c.taken_all, omega (arith, c.split, c.seen_all, all), c.no_fv)
