-- ===== src/Alloc/Laws.antt =====
-- What `Run` guarantees of the names that it takes and rejects.
use poly_asian_data.Base.{
  ap, sym, All-map, leb, subst, ◌∙◌, length-map, ℕ, ◌+◌, ◌≤◌, ◌<◌, ◌≡◌, refl, ◌⊎◌, inl, inr, String,
  true, false, List, [], ◌∷◌, ◌++◌, some, arith, length, All, get_elem?-below, All-get_elem?,
  All-In_self, All-append, In, length-append, Bool-cases, ◌&&◌,
}
use mathlib.Core.List.{foldl, append_assoc, append-nil}
use poly_asian_data.Float.Defs.{Float64, gt}
use poly_asian_data.Risk.{Config, nought, normalize}
use poly_asian_data.Risk.Order.{build_rank_order-below, length-build_rank_order}
use poly_asian_data.Best.OneEach.{All-keep_best}
use poly_asian_data.Alloc.{
  Reason, unworthy, already_open, outranked, Name, Rejected, Input, Outcome, open_set, is_unworthy,
  is_open, screen, beats, dedupe_best, Limits, limits_of, Book, ask, offer, allocate, rank_order,
  is_none_left, run,
}

module _ {F : Type 0} ⦃fl : Float64 F⦄ where
  open fl use {lit, add, lt}

  rank_order-below :
      (cfg : Config F) (el : List (Name F)) → All (λ i. i < length el) (rank_order cfg el)
  rank_order-below cfg el =
      subst (λ n. All (λ i. i < n) (rank_order cfg el)) (length-map (λ n. n.edge_bps) el)
        (build_rank_order-below cfg _ _ _)

  length-rank_order : (cfg : Config F) (el : List (Name F)) → length (rank_order cfg el) ≡ length el
  length-rank_order cfg el = length-build_rank_order cfg _ _ _ ∙ length-map (λ n. n.edge_bps) el

  -- A name of the board that is worthy and whose condition is not open.
  abbrev pub Eligible : Input F → Name F → Type 0
  Eligible input n =
      In n input.names
      × (is_unworthy n input.worth ≡ false)
      × (is_open (open_set input.open_ids) n ≡ false)

  -- The capital that names ask for, added up in their order.
  abbrev pub spent : Limits F → List (Name F) → F
  spent lim ns = foldl (λ g n. add g (ask lim n)) nought ns

  abbrev pub WithinGross : Limits F → F → Type 0
  WithinGross lim g = gt lim.max_gross nought && gt g (add lim.max_gross (lit 1 9)) ≡ false

  -- The names taken first, `kept`, fill the slots, or leave too little of the capital for `n`.
  pub record Outbid (lim : Limits F) (taken : List (Name F)) (n : Name F) : Type 0 where
    pub kept : List (Name F)
    pub later : List (Name F)
    pub split : taken ≡ kept ++ later
    pub no_room :
        (lim.max_n ≤ length kept)
        ⊎ ((gt lim.max_gross nought ≡ true)
            × (gt (add (spent lim kept) (ask lim n)) (add lim.max_gross (lit 1 9)) ≡ true))

  -- The reason of a rejection is true, by the names taken.
  abbrev pub IsTruthful : Input F → Limits F → List (Name F) → Rejected F → Type 0
  IsTruthful input lim taken r = holds r.reason
    where
      holds : Reason → Type 0
      holds unworthy = In r.name input.names × (is_unworthy r.name input.worth ≡ true)
      holds already_open = In r.name input.names × (is_open (open_set input.open_ids) r.name ≡ true)
      holds outranked = Eligible input r.name × Outbid lim taken r.name

  Outbid-more :
      (lim : Limits F) (taken more : List (Name F)) (n : Name F)
      → Outbid lim taken n
      → Outbid lim (taken ++ more) n
  Outbid-more lim taken more n o = record {
    kept = o.kept;
    later = o.later ++ more;
    split = ap (λ ns. ns ++ more) o.split ∙ append_assoc o.kept o.later more;
    no_room = o.no_room;
  }

  -- What is true of the names taken stays true when more are taken.
  IsTruthful-more :
      (input : Input F) (lim : Limits F) (taken more : List (Name F)) (r : Rejected F)
      → IsTruthful input lim taken r
      → IsTruthful input lim (taken ++ more) r
  IsTruthful-more input lim taken more r h = go r.reason h
    where
      go :
          (why : Reason)
          → IsTruthful input lim taken (record r { reason = why })
          → IsTruthful input lim (taken ++ more) (record r { reason = why })
      go unworthy h = h
      go already_open h = h
      go outranked (e, o) = (e, Outbid-more lim taken more r.name o)

  record Fits (input : Input F) (lim : Limits F) (b : Book F) : Type 0 where
    few : length b.taken ≤ lim.max_n
    gross_of : b.gross ≡ spent lim b.taken
    within : (b.taken ≡ []) ⊎ WithinGross lim b.gross
    good : All (Eligible input) b.taken
    reasons : All (IsTruthful input lim b.taken) b.rejected

  spent-append :
      (lim : Limits F) (g : F) (ns : List (Name F)) (n : Name F)
      → foldl (λ h m. add h (ask lim m)) g (ns ++ n ∷ [])
        ≡ add (foldl (λ h m. add h (ask lim m)) g ns) (ask lim n)
  spent-append lim g [] n = refl
  spent-append lim g (m ∷ ns) n = spent-append lim (add g (ask lim m)) ns n

  offer-Outbid :
      (lim : Limits F) (b : Book F) (n : Name F)
      → b.gross ≡ spent lim b.taken
      → (Outbid lim b.taken n
          × (offer lim b n
              ≡ record b { rejected = b.rejected ++ record { name = n; reason = outranked } ∷ [] }))
        ⊎ ((length b.taken < lim.max_n)
            × WithinGross lim (add b.gross (ask lim n))
            × (offer lim b n
                ≡ record b { taken = b.taken ++ n ∷ []; gross = add b.gross (ask lim n) }))
  unfolding offer
  offer-Outbid lim b n e =
      let total = add b.gross (ask lim n) in
      let by =
        λ (why : (lim.max_n ≤ length b.taken)
            ⊎ ((gt lim.max_gross nought ≡ true)
                × (gt (add (spent lim b.taken) (ask lim n)) (add lim.max_gross (lit 1 9)) ≡ true))).
          let o : Outbid lim b.taken n = record {
            kept = b.taken;
            later = [];
            split = sym (append-nil b.taken);
            no_room = why;
          } in
          o in
      elim (Bool-cases (leb lim.max_n (length b.taken))) [
        | inl full ↦ rw full (inl (by (inl (ground arith)), refl))
        | inr room ↦
            elim (Bool-cases (gt lim.max_gross nought && gt total (add lim.max_gross (lit 1 9)))) [
              | inl over ↦
                  let why : (gt lim.max_gross nought ≡ true)
                      × (gt (add (spent lim b.taken) (ask lim n)) (add lim.max_gross (lit 1 9))
                          ≡ true) =
                    rw (← e) (ground arith) in
                  rw (room, over) (inl (by (inr why), refl))
              | inr fits ↦ rw (room, fits) (inr (ground arith, refl, refl))
            ]
      ]

  offer-Fits :
      (input : Input F) (lim : Limits F) (b : Book F) (n : Name F)
      → Eligible input n
      → Fits input lim b
      → Fits input lim (offer lim b n)
        × (length (offer lim b n).taken + length (offer lim b n).rejected
            ≡ length b.taken + length b.rejected + 1)
  offer-Fits input lim b n e f =
      let out : Rejected F = record { name = n; reason = outranked } in
      elim (offer-Outbid lim b n f.gross_of) [
        | inl (o, q) ↦ rw q (
          record {
            few = f.few;
            gross_of = f.gross_of;
            within = f.within;
            good = f.good;
            reasons =
                All-append (IsTruthful input lim b.taken) b.rejected (out ∷ []) f.reasons
                  ((e, o), tt);
          },
          omega (arith, length-append b.rejected (out ∷ [])),
        )
        | inr (room, fits, q) ↦ rw q (
          record {
            few = omega (arith, length-append b.taken (n ∷ []));
            gross_of =
                ap (λ g. add g (ask lim n)) f.gross_of ∙ sym (spent-append lim nought b.taken n);
            within = inr fits;
            good = All-append (Eligible input) b.taken (n ∷ []) f.good (e, tt);
            reasons =
                All-map (IsTruthful input lim b.taken) (IsTruthful input lim (b.taken ++ n ∷ []))
                  b.rejected (λ r. IsTruthful-more input lim b.taken (n ∷ []) r) f.reasons;
          },
          omega (arith, length-append b.taken (n ∷ [])),
        )
      ]

  allocate-Fits :
      (input : Input F) (lim : Limits F) (el : List (Name F)) (order : List ℕ) (b : Book F)
      → All (λ i. i < length el) order
      → All (Eligible input) el
      → Fits input lim b
      → (b' : Book F) × (allocate lim el order b ≡ some b')
        × Fits input lim b'
        × (length b'.taken + length b'.rejected ≡ length b.taken + length b.rejected + length order)
  unfolding allocate
  allocate-Fits input lim el [] b below good f = (b, refl, f, omega arith)
  allocate-Fits input lim el (i ∷ order) b below good f =
      let (n, found) = get_elem?-below el i below.0 in
      let (f', counted) =
        offer-Fits input lim b n (All-get_elem? (Eligible input) el i n found good) f in
      let (b', e, g, total) = allocate-Fits input lim el order (offer lim b n) below.1 good f' in
      (b', rw (found, allocate) e, g, omega arith)

  screen_sorted :
      (input : Input F) (lim : Limits F) (taken ns : List (Name F))
      → All (λ n. In n input.names) ns
      → let r = screen input.worth (open_set input.open_ids) ns in
        All (Eligible input) r.0
        × All (IsTruthful input lim taken) r.1
        × (length r.0 + length r.1 ≡ length ns)
  unfolding screen
  screen_sorted input lim taken [] h = (tt, tt, refl)
  screen_sorted input lim taken (n ∷ ns) h = ground (arith, screen_sorted input lim taken ns h.1)

  -- The limits of a run, whose normalized MaxPositions is never 0.
  abbrev pub run_limits : Input F → Limits F
  run_limits input = limits_of (normalize input.risk) 0

  -- What Run promises of a result. `few`: at most MaxPositions names are taken; `within`: the capital
  -- they ask for, added up in the order taken, does not compare above a positive MaxGrossUSD and 1e-9;
  -- `good`: each is on the board, worthy and not open; `reasons`: every rejection is true; `accounted`:
  -- each name is taken, rejected with a reason, or dropped by the deduplication of the eligible names.
  pub record Sound (key : Name F → String) (input : Input F) (o : Outcome F) : Type 0 where
    pub few : length o.taken ≤ (normalize input.risk).max_positions
    pub within : (o.taken ≡ []) ⊎ WithinGross (run_limits input) (spent (run_limits input) o.taken)
    pub good : All (Eligible input) o.taken
    pub reasons : All (IsTruthful input (run_limits input) o.taken) o.rejected
    pub accounted :
        let eligible = (screen input.worth (open_set input.open_ids) input.names).0 in
        length o.taken + length o.rejected + length eligible
        ≡ length input.names + length (dedupe_best (normalize input.risk) key eligible)

  max_positions-pos : (c : Config F) → 0 < (normalize c).max_positions
  unfolding normalize
  max_positions-pos c = ground arith

  limits_of_same :
      (cfg : Config F) (n m : ℕ) → 0 < cfg.max_positions → limits_of cfg n ≡ limits_of cfg m
  limits_of_same cfg n m p =
      let some_slots : leb cfg.max_positions 0 ≡ false = ground arith in rw some_slots refl

  pub run-Sound :
      (key : Name F → String) (input : Input F)
      → (o : Outcome F) × (run key input ≡ some o) × Sound key input o
  unfolding run dedupe_best
  run-Sound key input =
      let cfg = normalize input.risk in
      let opened = open_set input.open_ids in
      let scr = screen input.worth opened input.names in
      let none_taken : List (Name F) = [] in
      let (good, reasons, counted) =
        screen_sorted input (run_limits input) none_taken input.names
          (All-In_self input.names input.names (λ a m. m)) in
      let el = dedupe_best cfg key scr.0 in
      let el_good = All-keep_best (Eligible input) (beats cfg) key scr.0 good in
      let start : Book F = record { gross = nought; taken = []; rejected = scr.1 } in
      let lim = run_limits input in
      let same = limits_of_same cfg (length el) 0 (max_positions-pos input.risk) in
      let (b, e, f, total) =
        allocate-Fits input lim el (rank_order cfg el) start (rank_order-below cfg el) el_good
          (record {
            few = omega arith;
            gross_of = refl;
            within = inl refl;
            good = tt;
            reasons = reasons;
          }) in
      elim (Bool-cases (is_none_left el)) [
        | inl none_left ↦ (
          record { taken = []; rejected = scr.1 },
          rw none_left,
          record {
            few = omega arith;
            within = inl refl;
            good = tt;
            reasons = reasons;
            accounted = ground arith;
          },
        )
        | inr left ↦ (
          record { taken = b.taken; rejected = b.rejected },
          rw (left, same, e),
          record {
            few = ground (arith, f.few, max_positions-pos input.risk);
            within = ground (arith, f.within, f.gross_of);
            good = f.good;
            reasons = f.reasons;
            accounted = omega (arith, total, counted, length-rank_order cfg el);
          },
        )
      ]
