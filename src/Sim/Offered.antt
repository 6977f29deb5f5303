-- ===== src/Sim/Offered.antt =====
-- The main loop of `Simulate` as an induction: what every offered signal keeps, the loop keeps, and
-- it offers as many signals as its batches leave.
use poly_asian_data.Base.{
  ℕ, ◌+◌, ◌<◌, ◌≤◌, ◌≡◌, refl, subst, ◌∙◌, Bool, true, false, ◌&&◌, List, [], ◌∷◌, ◌++◌, Option,
  some, arith, length, All, get_elem?-below, sum_by, leb, inl, inr, Bool-cases, length-map,
  length-append, if◌then◌else◌,
}
use poly_asian_data.Float.Defs.{Float64}
use poly_asian_data.Best.OneEach.{length-keep_best-le}
use poly_asian_data.Risk.{Config}
use poly_asian_data.Risk.Order.{build_rank_order-below, length-build_rank_order}
use poly_asian_data.Sim.{SignalIn, PriceIndex}
use poly_asian_data.Sim.Ledger.{MapOrder}
use poly_asian_data.Sim.Process.{
  Sim, process_one, offer_one, offer_all, rank_and_process, reject, reject_budget, offered, dedupes,
  dedupe_best_per_condition, dedupe_key, beats, rank_order, auction_budget_bound,
}
use poly_asian_data.Sim.Run.{
  windows_from, windows, process_windows, process_each, process_all, alloc_window, burst_window,
}

module _ {F : Type 0} ⦃fl : Float64 F⦄ where
  rank_order-below :
      (cfg : Config F) (b : List (SignalIn F)) → All (λ i. i < length b) (rank_order cfg b)
  rank_order-below cfg b =
      subst (λ n. All (λ i. i < n) (rank_order cfg b)) (length-map (λ s. s.edge_bps) b)
        (build_rank_order-below cfg _ _ _)

  length-rank_order :
      (cfg : Config F) (b : List (SignalIn F)) → length (rank_order cfg b) ≡ length b
  length-rank_order cfg b = length-build_rank_order cfg _ _ _ ∙ length-map (λ s. s.edge_bps) b

  -- How many signals a batch offers.
  abbrev pub n_offered : Config F → List (SignalIn F) → ℕ
  n_offered cfg [] = 0
  n_offered cfg (b ∷ bs) = length (offered cfg (b ∷ bs))

  -- How many signals the main loop offers.
  pub total_offered : Config F → List (SignalIn F) → ℕ
  total_offered cfg sigs =
      if cfg.auction_enabled
      then sum_by (n_offered cfg) (windows (alloc_window cfg) sigs)
      else if leb (burst_window cfg) 0
      then length sigs
      else sum_by (n_offered cfg) (windows (burst_window cfg) sigs)

  n_offered-le : (cfg : Config F) (b : List (SignalIn F)) → n_offered cfg b ≤ length b
  unfolding dedupe_best_per_condition
  n_offered-le cfg [] = omega arith
  n_offered-le cfg (b ∷ bs) = ground (arith, length-keep_best-le (beats cfg) dedupe_key (b ∷ bs))

  sum_by-le :
      (f g : List (SignalIn F) → ℕ) (ws : List (List (SignalIn F)))
      → ((w : List (SignalIn F)) → f w ≤ g w)
      → sum_by f ws ≤ sum_by g ws
  sum_by-le f g [] h = omega arith
  sum_by-le f g (w ∷ ws) h = omega (arith, h w, sum_by-le f g ws h)

  -- The batches hold every signal once.
  windows_from-length :
      (win start : ℕ) (b ss : List (SignalIn F))
      → sum_by length (windows_from win start b ss) ≡ length b + length ss
  unfolding windows_from
  windows_from-length win start b [] = omega arith
  windows_from-length win start b (s ∷ ss) = elim (Bool-cases (leb s.time (start + win))) [
    | inl e ↦
        rw e
          (omega (arith, windows_from-length win start (b ++ s ∷ []) ss, length-append b (s ∷ [])))
    | inr e ↦ rw e (omega (arith, windows_from-length win s.time (s ∷ []) ss))
  ]

  windows-length : (win : ℕ) (ss : List (SignalIn F)) → sum_by length (windows win ss) ≡ length ss
  unfolding windows
  windows-length win [] = refl
  windows-length win (s ∷ ss) = omega (arith, windows_from-length win s.time (s ∷ []) ss)

  -- The main loop offers no signal twice.
  pub total_offered-le :
      (cfg : Config F) (sigs : List (SignalIn F)) → total_offered cfg sigs ≤ length sigs
  unfolding total_offered
  total_offered-le cfg sigs =
      let bound =
        λ (win : ℕ). sum_by-le (n_offered cfg) length (windows win sigs) (n_offered-le cfg) in
      ground (
        arith,
        bound (alloc_window cfg),
        bound (burst_window cfg),
        windows-length (alloc_window cfg) sigs,
        windows-length (burst_window cfg) sigs,
      )

  n_offered_all :
      (cfg : Config F) (b : List (SignalIn F)) → dedupes cfg ≡ false → n_offered cfg b ≡ length b
  n_offered_all cfg [] h = refl
  n_offered_all cfg (b ∷ bs) h = rw h refl

  -- Without the deduplication it offers every signal.
  pub total_offered_all :
      (cfg : Config F) (sigs : List (SignalIn F))
      → dedupes cfg ≡ false
      → total_offered cfg sigs ≡ length sigs
  unfolding total_offered
  total_offered_all cfg sigs h =
      let above = λ (win : ℕ).
        sum_by-le length (n_offered cfg) (windows win sigs)
          (λ w. omega (arith, n_offered_all cfg w h)) in
      let below =
        λ (win : ℕ). sum_by-le (n_offered cfg) length (windows win sigs) (n_offered-le cfg) in
      let a = alloc_window cfg in
      let b = burst_window cfg in
      ground
        (arith, above a, above b, below a, below b, windows-length a sigs, windows-length b sigs)

  module _ ⦃walk : MapOrder F⦄ (prices : PriceIndex F) (default_ns : ℕ) (cfg : Config F)
      (Q : ℕ → Sim F → Type 0)
      (one : (sig : SignalIn F) (n : ℕ) (s : Sim F)
        → Q n s
        → Q (n + 1) (process_one prices default_ns sig s))
      (out : (sig : SignalIn F) (n : ℕ) (s : Sim F)
        → Q n s
        → Q (n + 1) (reject "outranked" (reject_budget sig s))) where
    abbrev Kept : Option (Sim F) → ℕ → Type 0
    Kept o n = (s : Sim F) × (o ≡ some s) × Q n s

    offer_one_keeps :
        (outrank : Bool) (sig : SignalIn F) (n : ℕ) (s : Sim F)
        → Q n s
        → Q (n + 1) (offer_one prices default_ns outrank sig s)
    unfolding offer_one
    offer_one_keeps outrank sig n s q =
        elim (Bool-cases (outrank && auction_budget_bound s.ledger.mgr)) [
          | inl e ↦ rw e (out sig n s q)
          | inr e ↦ rw e (one sig n s q)
        ]

    offer_all_keeps :
        (outrank : Bool) (b : List (SignalIn F)) (order : List ℕ) (n : ℕ) (s : Sim F)
        → All (λ i. i < length b) order
        → Q n s
        → Kept (offer_all prices default_ns outrank b order s) (n + length order)
    unfolding offer_all
    offer_all_keeps outrank b [] n s below q = (s, refl, subst (λ m. Q m s) (omega arith) q)
    offer_all_keeps outrank b (i ∷ order) n s below q =
        let (sig, found) = get_elem?-below b i below.0 in
        let s' = offer_one prices default_ns outrank sig s in
        let (t, e, r) =
          offer_all_keeps outrank b order (n + 1) s' below.1 (offer_one_keeps outrank sig n s q) in
        (t, rw (found, offer_all) e, subst (λ m. Q m t) (omega arith) r)

    rank_and_process_keeps :
        (outrank : Bool) (b : List (SignalIn F)) (n : ℕ) (s : Sim F)
        → Q n s
        → Kept (rank_and_process prices default_ns cfg outrank b s) (n + n_offered cfg b)
    unfolding rank_and_process
    rank_and_process_keeps outrank [] n s q = (s, refl, subst (λ m. Q m s) (omega arith) q)
    rank_and_process_keeps outrank (b ∷ bs) n s q =
        let batch = offered cfg (b ∷ bs) in
        subst
          (λ k. Kept (offer_all prices default_ns outrank batch (rank_order cfg batch) s) (n + k))
          (length-rank_order cfg batch)
          (offer_all_keeps outrank batch (rank_order cfg batch) n s (rank_order-below cfg batch) q)

    process_windows_keeps :
        (outrank : Bool) (ws : List (List (SignalIn F))) (n : ℕ) (s : Sim F)
        → Q n s
        → Kept (process_windows prices default_ns cfg outrank ws s) (n + sum_by (n_offered cfg) ws)
    unfolding process_windows
    process_windows_keeps outrank [] n s q = (s, refl, subst (λ m. Q m s) (omega arith) q)
    process_windows_keeps outrank (w ∷ ws) n s q =
        let (s', e, r) = rank_and_process_keeps outrank w n s q in
        let (t, e', r') = process_windows_keeps outrank ws (n + n_offered cfg w) s' r in
        (t, rw (e, process_windows) e', subst (λ m. Q m t) (omega arith) r')

    process_each_keeps :
        (sigs : List (SignalIn F)) (n : ℕ) (s : Sim F)
        → Q n s
        → Q (n + length sigs) (process_each prices default_ns sigs s)
    unfolding process_each
    process_each_keeps [] n s q = subst (λ m. Q m s) (omega arith) q
    process_each_keeps (sig ∷ sigs) n s q =
        let s' = process_one prices default_ns sig s in
        subst (λ m. Q m (process_each prices default_ns sigs s')) (omega arith)
          (process_each_keeps sigs (n + 1) s' (one sig n s q))

    pub process_all_keeps :
        (sigs : List (SignalIn F)) (n : ℕ) (s : Sim F)
        → Q n s
        → (s' : Sim F) × (process_all prices default_ns cfg sigs s ≡ some s')
          × Q (n + total_offered cfg sigs) s'
    unfolding process_all total_offered
    process_all_keeps sigs n s q = elim (Bool-cases cfg.auction_enabled) [
      | inl e ↦ simp e (process_windows_keeps true (windows (alloc_window cfg) sigs) n s q)
      | inr e ↦ elim (Bool-cases (leb (burst_window cfg) 0)) [
        | inl z ↦
            simp (e, z) (process_each prices default_ns sigs s, refl, process_each_keeps sigs n s q)
        | inr z ↦ simp (e, z) (process_windows_keeps false (windows (burst_window cfg) sigs) n s q)
      ]
    ]
