-- ===== src/Sim/Halted.antt =====
-- The simulation under a halt by drawdown, and the price that a trade is filled at.
use poly_asian_data.Base.{
  subst, ℕ, ◌+◌, ◌≤◌, ◌≡◌, refl, ap, sym, ◌∙◌, String, true, false, List, [], ◌∷◌, Option, none,
  some, arith, All, inl, inr, keep, leb, ltb, Bool-cases,
}
use poly_asian_data.Base.Update.{last}
use poly_asian_data.Float.Defs.{Float64, gt}
use poly_asian_data.Risk.{nought}
use poly_asian_data.Risk.Manager.{Manager, halted_dd, should_flatten_all, on_close}
use poly_asian_data.Risk.Accept.{accept, accept_frame, accept-halted_dd}
use poly_asian_data.Risk.Halts.{close, perform, perform-halted_dd, period}
use poly_asian_data.Sim.{SignalIn, Trade, PricePoint, PriceIndex, mid_from, mid_as_of}
use poly_asian_data.Sim.Ledger.{
  MapOrder, Ledger, book_close, pnl_of, close_trade, close_due, flatten_all,
}
use poly_asian_data.Sim.Process.{Sim, input_of, close_first, process_one}
use poly_asian_data.Sim.Run.{n_rejected}
use poly_asian_data.Sim.Valid.{Valid}
use poly_asian_data.Sim.Closing.{
  close_due-Valid, flatten_all-Valid, close_due_keeps, flatten_all_keeps, flatten_all-clears,
}
use poly_asian_data.Sim.Opening.{settle_decision-cases}
use poly_asian_data.Sim.Closed.{Flat, Valid-Flat}

module _ {F : Type 0} ⦃fl : Float64 F⦄ where
  book_close-halted :
      (m : Manager F) (id : String) (pnl : F) (at : ℕ)
      → m.state ≡ halted_dd
      → (book_close m id pnl at).state ≡ halted_dd
  unfolding book_close perform
  book_close-halted m id pnl at h =
      let c = perform-halted_dd m (close id pnl at) h in
      elim (Bool-cases (gt m.equity nought)) [
        | inl e ↦ simp e (perform-halted_dd (on_close m id pnl at) (period (fl.div pnl m.equity)) c)
        | inr e ↦ simp e c
      ]

  close_trade-halted :
      (prices : PriceIndex F) (i : ℕ) (tr : Trade F) (at : ℕ) (s : Ledger F)
      → s.mgr.state ≡ halted_dd
      → (close_trade prices i tr at s).mgr.state ≡ halted_dd
  unfolding close_trade
  close_trade-halted prices i tr at s h =
      let b = book_close-halted s.mgr tr.condition_id (pnl_of prices tr at) at h in
      elim (Bool-cases tr.closed) [ inl e ↦ simp e h | inr e ↦ simp e b ]

module _ {F : Type 0} ⦃fl : Float64 F⦄ ⦃walk : MapOrder F⦄ where
  close_first-Flat :
      (prices : PriceIndex F) (now : ℕ) (l : Ledger F)
      → Valid l
      → l.mgr.state ≡ halted_dd
      → Flat (close_first prices now l) × ((close_first prices now l).mgr.state ≡ halted_dd)
  unfolding close_first should_flatten_all
  close_first-Flat prices now l v h =
      let Q : Ledger F → Type 0 = λ s. s.mgr.state ≡ halted_dd in
      let closes = close_trade-halted prices in
      let d = close_due prices now l in
      let dv = close_due-Valid prices now l v in
      let dh = close_due_keeps prices now Q closes (λ c s q. q) l h in
      let halted : should_flatten_all (some d.mgr) ≡ true = rw dh refl in
      (
        Valid-Flat (flatten_all prices now d) (flatten_all-Valid prices now d dv)
            (flatten_all-clears prices now d dv halted),
        flatten_all_keeps prices now Q closes (λ c s q. q) d dh,
      )

  -- Under a halt by drawdown a signal of the simulation closes every open trade, opens none, and is
  -- counted as rejected; the halt stays.
  pub process_one-halted :
      (prices : PriceIndex F) (default_ns : ℕ) (sig : SignalIn F) (s : Sim F)
      → Valid s.ledger
      → s.ledger.mgr.state ≡ halted_dd
      → let s' = process_one prices default_ns sig s in
        Flat s'.ledger
        × (s'.ledger.mgr.state ≡ halted_dd)
        × (n_rejected s'.reject_reasons ≡ n_rejected s.reject_reasons + 1)
  unfolding process_one
  process_one-halted prices default_ns sig s v h =
      let l = close_first prices sig.time s.ledger in
      let (flat, halted) = close_first-Flat prices sig.time s.ledger v h in
      let (m, d) = accept l.mgr (input_of sig) in
      let (refused, stays) = accept-halted_dd l.mgr (input_of sig) halted in
      let frame = accept_frame l.mgr (input_of sig) in
      let s' : Sim F = record s { ledger = record l { mgr = m } } in
      let held : Flat (record l { mgr = m }) = record {
        trades_closed = flat.trades_closed;
        no_entries = flat.no_entries;
        no_positions = frame.2 ∙ flat.no_positions;
      } in
      elim (settle_decision-cases prices default_ns sig d s') [
        | inl (e, c) ↦ (subst Flat (sym e) held, ap (λ (l : Ledger F). l.mgr.state) e ∙ stays, c)
        | inr (a, _, _) ↦ absurd (cc (a, refused))
      ]

module _ {F : Type 0} ⦃fl : Float64 F⦄ where
  -- Points in the order of their times.
  abbrev pub IsAscending : List (PricePoint F) → Type 0
  IsAscending [] = Unit
  IsAscending (p ∷ ps) = All (λ q. p.time ≤ q.time) ps × IsAscending ps

  abbrev pub mid_or : F → Option (PricePoint F) → F
  mid_or d none = d
  mid_or d (some p) = p.mid

  -- The points at or before a time.
  abbrev pub known_at : ℕ → List (PricePoint F) → List (PricePoint F)
  known_at t ps = keep (λ p. leb p.time t) ps

  known_at-none :
      (t : ℕ) (p : PricePoint F) (ps : List (PricePoint F))
      → ltb t p.time ≡ true
      → All (λ q. p.time ≤ q.time) ps
      → known_at t ps ≡ []
  known_at-none t p [] h a = refl
  known_at-none t p (q ∷ ps) h a = ground (arith, known_at-none t p ps h a.1)

  last-mid :
      (d : F) (p : PricePoint F) (ps : List (PricePoint F))
      → mid_or d (last (p ∷ ps)) ≡ mid_or p.mid (last ps)
  last-mid d p [] = refl
  last-mid d p (q ∷ ps) = last-mid d q ps ∙ sym (last-mid p.mid q ps)

  mid_from_lem :
      (t : ℕ) (best : F) (ps : List (PricePoint F))
      → IsAscending ps
      → mid_from t best ps ≡ mid_or best (last (known_at t ps))
  unfolding mid_from
  mid_from_lem t best [] a = refl
  mid_from_lem t best (p ∷ ps) a = elim (Bool-cases (ltb t p.time)) [
    | inl e ↦
        let late : leb p.time t ≡ false = ground arith in
        simp (e, late, known_at-none t p ps e a.0) refl
    | inr e ↦
        let known : leb p.time t ≡ true = ground arith in
        simp (e, known) (mid_from_lem t p.mid ps a.1 ∙ sym (last-mid best p (known_at t ps)))
  ]

  -- On points in the order of their times MidAsOf, which stops at the first later point, returns the
  -- mid of the last of all the points at or before the time, and 0 when there is none.
  pub mid_as_of_lem :
      (points : List (PricePoint F)) (t : ℕ)
      → IsAscending points
      → mid_as_of points t ≡ mid_or nought (last (known_at t points))
  unfolding mid_as_of
  mid_as_of_lem points t a = mid_from_lem t nought points a
