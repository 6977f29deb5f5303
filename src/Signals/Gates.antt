-- ===== src/Signals/Gates.antt =====
-- internal/signals/paper.go: `Evaluate` against `Candidate` and `BlockedByCooldown`, and what a
-- signal guarantees.
use poly_asian_data.Base.{
  is_some, ℕ, ◌≡◌, refl, ap, ◌∙◌, String, Bool, true, false, not, ◌&&◌, ◌||◌, Option, none, some,
  arith, inl, inr, Bool-cases, is_empty, ltb, if◌then◌else◌,
}
use poly_asian_data.Base.Dict.{lookup}
use poly_asian_data.Float.Defs.{Float64, IsOrdered, gt}
use poly_asian_data.Risk.{nought}
use poly_asian_data.Signals.{PaperSignal, BookSnap, BoardSnap, GateConfig, LastEmit, Emitter}
use poly_asian_data.Signals.Paper.{
  passes, signed_net, side_of, is_debounced, build, emit, evaluate_with, evaluate, candidate,
  is_blocked, blocked_by_cooldown,
}

module _ {F : Type 0} ⦃fl : Float64 F⦄ where
  open fl use {mul, neg, abs, lt, le}

  -- The net edge clears the smallest edge, on the one side or on the other.
  abbrev pub clears_min : GateConfig F → F → Bool
  clears_min cfg net = gt net cfg.min_edge_bps || lt net (neg cfg.min_edge_bps)

  -- The signal with a reason that says whether the emitter remembers the condition.
  abbrev pub mark_reissue : Emitter F → PaperSignal F → PaperSignal F
  mark_reissue e sig = record sig {
    reason = record (sig.reason) { reissue = is_some (lookup sig.condition_id e.last) };
  }

  -- What `Evaluate` makes of a candidate.
  abbrev pub gate : Emitter F → ℕ → Option (PaperSignal F) → Option (PaperSignal F)
  gate e now none = none
  gate e now (some sig) =
      if clears_min e.cfg sig.edge_bps
        && not (blocked_by_cooldown e sig.condition_id sig.side sig.edge_bps now)
      then some (mark_reissue e sig)
      else none

  debounced_cases :
      (cfg : GateConfig F) (o : Option (LastEmit F)) (side : String) (net : F) (now : ℕ)
      → is_debounced cfg o side (abs net) now ≡ ltb 0 cfg.cooldown && is_blocked cfg o side net now
  debounced_cases cfg none side net now = ground arith
  debounced_cases cfg (some prev) side net now = ground arith

  -- The test of the cooldown in `evaluate` is BlockedByCooldown.
  is_debounced_lem :
      (e : Emitter F) (c side : String) (net : F) (now : ℕ)
      → is_empty c ≡ false
      → is_debounced e.cfg (lookup c e.last) side (abs net) now
        ≡ blocked_by_cooldown e c side net now
  unfolding blocked_by_cooldown
  is_debounced_lem e c side net now h =
      debounced_cases e.cfg (lookup c e.last) side net now ∙ rw h (ground arith)

  passes_cond :
      (cfg : GateConfig F) (board : BoardSnap F) (book : BookSnap F) (now : ℕ)
      → passes cfg board book now ≡ true
      → is_empty board.condition_id ≡ false
  unfolding passes
  passes_cond cfg board book now h = ground arith

  emit_lem :
      (e : Emitter F) (now : ℕ) (strategy : String) (board : BoardSnap F) (book : BookSnap F)
      (id : String) (o : Option String)
      → is_empty board.condition_id ≡ false
      → emit e now strategy board book id true
          (if clears_min e.cfg (signed_net e.cfg board book) then o else none)
        ≡ gate e now (emit e now strategy board book id false o)
  unfolding build
  emit_lem e now strategy board book id none h =
      elim (Bool-cases (clears_min e.cfg (signed_net e.cfg board book))) [
        | inl c ↦ rw c refl
        | inr c ↦ rw c refl
      ]
  emit_lem e now strategy board book id (some side) h =
      let net = signed_net e.cfg board book in
      let same = is_debounced_lem e board.condition_id side net now h in
      elim (Bool-cases (clears_min e.cfg net)) [
        | inl c ↦ elim (Bool-cases (blocked_by_cooldown e board.condition_id side net now)) [
          | inl b ↦ simp (c, same, b) refl
          | inr b ↦ simp (c, same, b) refl
        ]
        | inr c ↦ simp c refl
      ]

  module _ (laws : IsOrdered F fl) where
    open laws use {lt_irrefl, lt_trans, lt-le-trans, le-lt-trans, neg-le, neg_zero-le}

    -- Where the edge clears the smallest one, both ways of evaluating agree on the side.
    side_of_lem :
        (cfg : GateConfig F) (net : F)
        → le nought cfg.min_edge_bps ≡ true
        → side_of cfg true net ≡ (if clears_min cfg net then side_of cfg false net else none)
    unfolding side_of
    side_of_lem cfg net h = ground (
      arith,
      le-lt-trans nought cfg.min_edge_bps net,
      neg-le nought cfg.min_edge_bps,
      lt-le-trans net (neg cfg.min_edge_bps) (neg nought),
      lt-le-trans net (neg nought) nought,
      neg_zero-le,
      lt_trans net nought net,
      lt_irrefl net,
    )

    -- With a smallest edge that is not negative, Evaluate gives the signal that Candidate gives when its
    -- net edge clears the smallest one and BlockedByCooldown does not hold it back, with a reason whose
    -- `reissue` says whether the emitter remembers the condition; and nothing else.
    pub evaluate_lem :
        (e : Emitter F) (now : ℕ) (strategy : String) (board : BoardSnap F) (book : BookSnap F)
        (id : String)
        → le nought e.cfg.min_edge_bps ≡ true
        → evaluate e now strategy board book id
          ≡ gate e now (candidate e now strategy board book id)
    unfolding evaluate candidate evaluate_with
    evaluate_lem e now strategy board book id h =
        let net = signed_net e.cfg board book in
        elim (Bool-cases (passes e.cfg board book now)) [
          | inl p ↦
              let c = passes_cond e.cfg board book now p in
              simp p (
                ap (emit e now strategy board book id true) (side_of_lem e.cfg net h)
                ∙ emit_lem e now strategy board book id (side_of e.cfg false net) c)
          | inr p ↦ simp p refl
        ]
