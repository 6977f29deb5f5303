-- ===== src/Sim/Account.antt =====
-- What `Simulate` keeps from signal to signal: a valid ledger, a manager that only the operations of
-- the risk manager have changed, and one trade or rejection for each signal that it offers.
use poly_asian_data.Base.{
  ℕ, ◌+◌, ◌≡◌, refl, ap, sym, subst, ◌∙◌, true, List, [], ◌∷◌, ◌++◌, arith, length, inl, inr,
  Bool-cases, length-append,
}
use poly_asian_data.Base.Update.{length-set_at}
use poly_asian_data.Float.Defs.{Float64, IsOrdered, gt}
use poly_asian_data.Risk.{Config, nought}
use poly_asian_data.Risk.Manager.{Manager, SignalInput, Position, on_open, new_manager}
use poly_asian_data.Risk.Accept.{accept, accept_frame, accept-Granted}
use poly_asian_data.Risk.Halts.{
  Operation, offer, ask, close, period, perform, perform_all, take_offer,
}
use poly_asian_data.Sim.{SignalIn, Trade, PriceIndex}
use poly_asian_data.Sim.Ledger.{
  MapOrder, Ledger, book_close, pnl_of, settled, close_trade, drop_open, close_due,
}
use poly_asian_data.Sim.Process.{
  Sim, input_of, position_of, trade_of, open_trade, close_first, process_one, reject, reject_budget,
}
use poly_asian_data.Sim.Run.{n_rejected}
use poly_asian_data.Sim.Valid.{Valid}
use poly_asian_data.Sim.Closing.{
  close_due-Valid, flatten_all-Valid, close_due_keeps, flatten_all_keeps,
}
use poly_asian_data.Sim.Opening.{
  n_rejected-bump, with_mgr-Valid, open_trade-Valid, settle_decision-cases, fill_of,
}

module _ {F : Type 0} ⦃fl : Float64 F⦄ where
  -- Operations of the risk manager lead from a new one to `m`.
  abbrev pub Reached : Config F → Manager F → Type 0
  Reached cfg m = (os : List (Operation F)) × (perform_all (new_manager cfg) os ≡ m)

  perform_all-append :
      (m : Manager F) (os : List (Operation F)) (o : Operation F)
      → perform_all m (os ++ o ∷ []) ≡ perform (perform_all m os) o
  unfolding perform_all
  perform_all-append m [] o = refl
  perform_all-append m (p ∷ os) o = perform_all-append (perform m p) os o

  Reached-step :
      (cfg : Config F) (m : Manager F) (o : Operation F) → Reached cfg m → Reached cfg (perform m o)
  Reached-step cfg m o (os, e) =
      (os ++ o ∷ [], perform_all-append (new_manager cfg) os o ∙ ap (λ x. perform x o) e)

  book_close-Reached :
      (cfg : Config F) (m : Manager F) (id : _) (pnl : F) (at : ℕ)
      → Reached cfg m
      → Reached cfg (book_close m id pnl at)
  unfolding book_close perform
  book_close-Reached cfg m id pnl at r =
      let r' = Reached-step cfg m (close id pnl at) r in
      elim (Bool-cases (gt m.equity nought)) [
        | inl e ↦ rw e (Reached-step cfg _ (period (fl.div pnl m.equity)) r')
        | inr e ↦ rw e r'
      ]

  pub close_trade-Reached :
      (cfg : Config F) (prices : PriceIndex F) (i : ℕ) (tr : Trade F) (at : ℕ) (s : Ledger F)
      → Reached cfg s.mgr
      → Reached cfg (close_trade prices i tr at s).mgr
  unfolding close_trade
  close_trade-Reached cfg prices i tr at s r =
      let b = book_close-Reached cfg s.mgr tr.condition_id (pnl_of prices tr at) at r in
      elim (Bool-cases tr.closed) [ inl e ↦ simp e r | inr e ↦ simp e b ]

  ask-Reached :
      (cfg : Config F) (m : Manager F) (sig : SignalInput F)
      → Reached cfg m
      → Reached cfg (accept m sig).0
  unfolding perform
  ask-Reached cfg m sig r = Reached-step cfg m (ask sig) r

  -- The open of an accepted signal's position is part of the offer of the signal.
  on_open-Reached :
      (cfg : Config F) (m : Manager F) (sig : SignalInput F) (p : Position F)
      → (accept m sig).1.accept ≡ true
      → p.condition_id ≡ sig.condition_id
      → Reached cfg m
      → Reached cfg (on_open (accept m sig).0 p)
  unfolding perform take_offer
  on_open-Reached cfg m sig p a same r =
      let (os, e) = Reached-step cfg m (offer sig p) r in
      (
        os,
        e ∙ simp a (ap (λ c. on_open (accept m sig).0 (record p { condition_id = c })) (sym same)),
      )

  pub close_trade-length :
      (n : ℕ) (prices : PriceIndex F) (i : ℕ) (tr : Trade F) (at : ℕ) (s : Ledger F)
      → length s.trades ≡ n
      → length (close_trade prices i tr at s).trades ≡ n
  unfolding close_trade
  close_trade-length n prices i tr at s h =
      ground (arith, length-set_at i (settled prices tr at) s.trades)

  -- What holds of the simulation when it has offered `n` signals.
  pub record Held (cfg : Config F) (n : ℕ) (s : Sim F) : Type 0 where
    pub valid : Valid s.ledger
    pub reached : Reached cfg s.ledger.mgr
    pub counted : length s.ledger.trades + n_rejected s.reject_reasons ≡ n

  pub reject-Held :
      (cfg : Config F) (sig : SignalIn F) (n : ℕ) (s : Sim F)
      → Held cfg n s
      → Held cfg (n + 1) (reject "outranked" (reject_budget sig s))
  reject-Held cfg sig n s h = record {
    valid = h.valid;
    reached = h.reached;
    counted = omega (arith, n_rejected-bump "outranked" s.reject_reasons, h.counted);
  }

  module _ ⦃walk : MapOrder F⦄ (prices : PriceIndex F) where
    close_first-Valid : (now : ℕ) (l : Ledger F) → Valid l → Valid (close_first prices now l)
    unfolding close_first
    close_first-Valid now l v =
        flatten_all-Valid prices now (close_due prices now l) (close_due-Valid prices now l v)

    close_first_keeps :
        (now : ℕ) (Q : Ledger F → Type 0)
        → ((i : ℕ) (tr : Trade F) (at : ℕ) (s : Ledger F) → Q s → Q (close_trade prices i tr at s))
        → ((cond : _) (s : Ledger F) → Q s → Q (drop_open cond s))
        → (l : Ledger F) → Q l
        → Q (close_first prices now l)
    unfolding close_first
    close_first_keeps now Q closes drops l q =
        flatten_all_keeps prices now Q closes drops (close_due prices now l)
          (close_due_keeps prices now Q closes drops l q)

    module _ (laws : IsOrdered F fl) (default_ns : ℕ) (cfg : Config F) where
      -- The ledger behind the decision of an accepted signal, with its trade.
      pub process_one-Held :
          (sig : SignalIn F) (n : ℕ) (s : Sim F)
          → Held cfg n s
          → Held cfg (n + 1) (process_one prices default_ns sig s)
      unfolding process_one open_trade
      process_one-Held sig n s h =
          let l = close_first prices sig.time s.ledger in
          let v = close_first-Valid sig.time s.ledger h.valid in
          let r =
            close_first_keeps sig.time (λ l. Reached cfg l.mgr) (close_trade-Reached cfg prices)
              (λ c s q. q) s.ledger h.reached in
          let k =
            close_first_keeps sig.time (λ l. length l.trades ≡ length s.ledger.trades)
              (close_trade-length (length s.ledger.trades) prices) (λ c s q. q) s.ledger refl in
          let (m, d) = accept l.mgr (input_of sig) in
          let frame = accept_frame l.mgr (input_of sig) in
          let l' : Ledger F = record l { mgr = m } in
          let v' = with_mgr-Valid l m v frame.2 frame.0 in
          let s' : Sim F = record s { ledger = l' } in
          elim (settle_decision-cases prices default_ns sig d s') [
            | inl (e, c) ↦ record {
              valid = subst Valid (sym e) v';
              reached =
                  subst (λ (l : Ledger F). Reached cfg l.mgr) (sym e)
                    (ask-Reached cfg l.mgr (input_of sig) r);
              counted = omega (arith, h.counted, k, c, ap (λ (l : Ledger F). length l.trades) e);
            }
            | inr (a, e, c) ↦ record {
              valid = subst Valid (sym e) (
                  open_trade-Valid default_ns sig d.size_usd (fill_of prices sig d) l' v'
                    (accept-Granted laws l.mgr (input_of sig) a).not_open);
              reached =
                  subst (λ (l : Ledger F). Reached cfg l.mgr) (sym e)
                    (on_open-Reached cfg l.mgr (input_of sig)
                      (position_of sig d.size_usd (fill_of prices sig d)) a refl r);
              counted = omega (
                arith,
                h.counted,
                k,
                ap n_rejected c,
                ap (λ (l : Ledger F). length l.trades) e,
                length-append l.trades
                    (trade_of default_ns sig d.size_usd (fill_of prices sig d) ∷ []),
              );
            }
          ]
