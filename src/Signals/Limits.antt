-- ===== src/Signals/Limits.antt =====
-- internal/signals/paper.go: the limits that a signal keeps to, and the cooldown behind a commit.
use poly_asian_data.Base.{
  ℕ, ◌+◌, ◌<◌, ◌≤◌, ◌≡◌, ◌≢◌, refl, ap, sym, subst, ◌∙◌, ◌⊎◌, String, Bool, true, false, ◌&&◌, some,
  arith, inl, inr, Bool-cases, Option-cases, str_eq, eq_iff, is_empty,
}
use poly_asian_data.Base.Dict.{lookup, insert, lookup-insert_self}
use poly_asian_data.Float.Defs.{Float64, IsOrdered, gt}
use poly_asian_data.Risk.{nought, unit}
use poly_asian_data.Signals.{PaperSignal, BookSnap, BoardSnap, GateConfig, LastEmit, Emitter}
use poly_asian_data.Signals.Paper.{
  has_prev, side_buy, side_sell, book_ok, is_stale, is_wide, passes, signed_net, side_of,
  is_debounced, build, evaluate_with, evaluate, commit, conviction_of, size_of,
}

module _ {F : Type 0} ⦃fl : Float64 F⦄ where
  open fl use {mul, neg, abs, sub, lt, le, lit}

  -- How a signal comes about.
  record Origin (apply : Bool) (e : Emitter F) (now : ℕ) (strategy : String) (board : BoardSnap F)
      (book : BookSnap F) (id : String) (sig : PaperSignal F) : Type 0 where
    side : String
    passed : passes e.cfg board book now ≡ true
    chosen : side_of e.cfg apply (signed_net e.cfg board book) ≡ some side
    fresh :
        apply
          && is_debounced e.cfg
              (lookup board.condition_id e.last)
              side
              (abs (signed_net e.cfg board book))
              now
        ≡ false
    built : build e.cfg now strategy board book id (has_prev apply e board.condition_id) side ≡ sig

  evaluate_with-Origin :
      (apply : Bool) (e : Emitter F) (now : ℕ) (strategy : String) (board : BoardSnap F)
      (book : BookSnap F) (id : String) (sig : PaperSignal F)
      → evaluate_with apply e now strategy board book id ≡ some sig
      → Origin apply e now strategy board book id sig
  unfolding evaluate_with
  evaluate_with-Origin apply e now strategy board book id sig h =
      let net = signed_net e.cfg board book in
      elim (Bool-cases (passes e.cfg board book now)) [
        | inr p ↦ cc (simp p at h)
        | inl p ↦
            let h1 = simp p at h in
            elim (Option-cases (side_of e.cfg apply net)) [
              | inl o ↦ cc (rw o at h1)
              | inr (side, o) ↦
                  let h2 = rw o at h1 in
                  elim (Bool-cases (
                    apply
                    && is_debounced e.cfg (lookup board.condition_id e.last) side (abs net) now)) [
                      | inl b ↦ cc (simp b at h2)
                      | inr b ↦ record {
                        side = side;
                        passed = p;
                        chosen = o;
                        fresh = b;
                        built = cc (simp b at h2);
                      }
                    ]
            ]
      ]

  -- The limits that a signal keeps to: the side is BUY or SELL; the book has two prices that do not
  -- cross, is not older and not wider than the gates allow; conviction is not below 0 and not above
  -- 1; and the size is not above the notional limit nor, of a positive capacity, its share.
  pub record Limited (cfg : GateConfig F) (now : ℕ) (book : BookSnap F) (sig : PaperSignal F)
      : Type 0 where
    pub two_sided : (sig.side ≡ side_buy) ⊎ (sig.side ≡ side_sell)
    pub has_ids : (is_empty sig.condition_id ≡ false) × (is_empty sig.token_id ≡ false)
    pub uncrossed : book_ok book ≡ true
    pub in_time :
        0 < cfg.max_book_age → 0 < book.updated_at → now ≤ book.updated_at + cfg.max_book_age
    pub narrow : gt cfg.max_spread_bps nought ≡ true → gt sig.spread_bps cfg.max_spread_bps ≡ false
    pub conviction_low : lt sig.conviction nought ≡ false
    pub conviction_high : gt sig.conviction unit ≡ false
    pub notional :
        gt cfg.max_notional_usd nought ≡ true → gt sig.size_usd cfg.max_notional_usd ≡ false
    pub share :
        gt cfg.capacity_frac nought ≡ true
        → gt sig.capacity_usd nought ≡ true
        → gt sig.size_usd (mul sig.capacity_usd cfg.capacity_frac) ≡ false

  side_of-two :
      (cfg : GateConfig F) (apply : Bool) (net : F) (side : String)
      → side_of cfg apply net ≡ some side
      → (side ≡ side_buy) ⊎ (side ≡ side_sell)
  unfolding side_of
  side_of-two cfg apply net side h = ground arith

  passes_lem :
      (cfg : GateConfig F) (board : BoardSnap F) (book : BookSnap F) (now : ℕ)
      → passes cfg board book now ≡ true
      → (is_empty board.condition_id ≡ false)
        × (is_empty board.token_id ≡ false)
        × (book_ok book ≡ true)
        × (is_stale cfg book now ≡ false)
        × (is_wide cfg book ≡ false)
  unfolding passes
  passes_lem cfg board book now h = ground arith

  not_debounced :
      (cfg : GateConfig F) (prev : LastEmit F) (side : String) (x : F) (now : ℕ)
      → 0 < cfg.cooldown
      → is_debounced cfg (some prev) side x now ≡ false
      → (prev.side ≢ side)
        ⊎ (prev.emitted_at + cfg.cooldown ≤ now)
        ⊎ (lt (abs (sub x (abs prev.edge_bps))) cfg.reissue_delta_bps ≡ false)
  not_debounced cfg prev side x now p h = elim (Bool-cases (str_eq prev.side side)) [
    | inr e ↦ inl (λ q. absurd (ground (arith, eq_iff prev.side side)))
    | inl e ↦ inr (ground arith)
  ]

  -- A signal that is emitted although one is remembered.
  reissued :
      (e : Emitter F) (prev : LastEmit F) (now : ℕ) (strategy : String) (board : BoardSnap F)
      (book : BookSnap F) (id : String) (next : PaperSignal F)
      → lookup board.condition_id e.last ≡ some prev
      → 0 < e.cfg.cooldown
      → evaluate e now strategy board book id ≡ some next
      → (prev.side ≢ next.side)
        ⊎ (prev.emitted_at + e.cfg.cooldown ≤ now)
        ⊎ (lt (abs (sub (abs next.edge_bps) (abs prev.edge_bps))) e.cfg.reissue_delta_bps ≡ false)
  unfolding evaluate build
  reissued e prev now strategy board book id next found p h =
      let o = evaluate_with-Origin true e now strategy board book id next h in
      let net = signed_net e.cfg board book in
      let fresh : is_debounced e.cfg (some prev) o.side (abs net) now ≡ false =
        rw found at o.fresh in
      let side : o.side ≡ next.side = ap (λ s. s.side) o.built in
      let edge : net ≡ next.edge_bps = ap (λ s. s.edge_bps) o.built in
      subst
        (λ d.
          (prev.side ≢ d)
          ⊎ (prev.emitted_at + e.cfg.cooldown ≤ now)
          ⊎ (lt (abs (sub (abs next.edge_bps) (abs prev.edge_bps))) e.cfg.reissue_delta_bps
              ≡ false))
        side
        (subst
          (λ x.
            (prev.side ≢ o.side)
            ⊎ (prev.emitted_at + e.cfg.cooldown ≤ now)
            ⊎ (lt (abs (sub (abs x) (abs prev.edge_bps))) e.cfg.reissue_delta_bps ≡ false))
          edge (not_debounced e.cfg prev o.side (abs net) now p fresh))

  commit_lem :
      (e : Emitter F) (sig : PaperSignal F)
      → is_empty sig.condition_id ≡ false
      → commit e sig ≡ record e {
        last =
            insert sig.condition_id
              (record {
                emitted_at = sig.time;
                side = sig.side;
                edge_bps = sig.edge_bps;
                id = sig.signal_id;
              })
              e.last;
      }
  unfolding commit
  commit_lem e sig h = rw h refl

  -- After a commit no signal of the condition is emitted within the cooldown, unless it changes the
  -- side, or the size of its edge by the reissue threshold.
  pub evaluate-commit :
      (e : Emitter F) (sig : PaperSignal F) (now : ℕ) (strategy : String) (board : BoardSnap F)
      (book : BookSnap F) (id : String) (next : PaperSignal F)
      → is_empty sig.condition_id ≡ false
      → board.condition_id ≡ sig.condition_id
      → 0 < e.cfg.cooldown
      → evaluate (commit e sig) now strategy board book id ≡ some next
      → (sig.side ≢ next.side)
        ⊎ (sig.time + e.cfg.cooldown ≤ now)
        ⊎ (lt (abs (sub (abs next.edge_bps) (abs sig.edge_bps))) e.cfg.reissue_delta_bps ≡ false)
  evaluate-commit e sig now strategy board book id next c same p h =
      let prev : LastEmit F = record {
        emitted_at = sig.time;
        side = sig.side;
        edge_bps = sig.edge_bps;
        id = sig.signal_id;
      } in
      let e' : Emitter F = record e { last = insert sig.condition_id prev e.last } in
      reissued e' prev now strategy board book id next
        (ap (λ k. lookup k e'.last) same ∙ lookup-insert_self sig.condition_id prev e.last) p
        (ap (λ x. evaluate x now strategy board book id) (sym (commit_lem e sig c)) ∙ h)

  module _ (laws : IsOrdered F fl) where
    open laws use {lt_irrefl, lt_trans, lit-lt}

    conviction_of-bounds :
        (cfg : GateConfig F) (x : F)
        → (lt (conviction_of cfg x) nought ≡ false) × (gt (conviction_of cfg x) unit ≡ false)
    unfolding conviction_of
    conviction_of-bounds cfg x =
        let c = fl.div x cfg.conviction_scale in
        ground (
          arith,
          lt_irrefl nought,
          lt_irrefl unit,
          lit-lt 0 0 1 0,
          lt_trans unit nought unit,
          lt_trans nought unit nought,
        )

    size_of-bounds :
        (cfg : GateConfig F) (c cap : F)
        → (gt cfg.max_notional_usd nought ≡ true
            → gt (size_of cfg c cap) cfg.max_notional_usd ≡ false)
          × (gt cfg.capacity_frac nought ≡ true
              → gt cap nought ≡ true
              → gt (size_of cfg c cap) (mul cap cfg.capacity_frac) ≡ false)
    unfolding size_of
    size_of-bounds cfg c cap =
        let lim = mul cap cfg.capacity_frac in
        ground (
          arith,
          lt_irrefl cfg.max_notional_usd,
          lt_irrefl lim,
          lt_trans lim cfg.max_notional_usd lim,
          lt_trans lim cfg.max_notional_usd
              (mul cfg.probe_size_usd (fl.add (lit 25 2) (mul (lit 75 2) c))),
        )

    -- Every signal, of Evaluate and of Candidate, keeps to the limits.
    pub evaluate_with-Limited :
        (apply : Bool) (e : Emitter F) (now : ℕ) (strategy : String) (board : BoardSnap F)
        (book : BookSnap F) (id : String) (sig : PaperSignal F)
        → evaluate_with apply e now strategy board book id ≡ some sig
        → Limited e.cfg now book sig
    unfolding build
    evaluate_with-Limited apply e now strategy board book id sig h =
        let o = evaluate_with-Origin apply e now strategy board book id sig h in
        let (c, t, b, stale, wide) = passes_lem e.cfg board book now o.passed in
        rw (← o.built) (record {
          two_sided = side_of-two e.cfg apply (signed_net e.cfg board book) o.side o.chosen;
          has_ids = (c, t);
          uncrossed = b;
          in_time = λ p q. ground arith;
          narrow = λ p. ground arith;
          conviction_low = (conviction_of-bounds e.cfg _).0;
          conviction_high = (conviction_of-bounds e.cfg _).1;
          notional = (size_of-bounds e.cfg _ _).0;
          share = (size_of-bounds e.cfg _ _).1;
        })
