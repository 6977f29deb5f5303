-- ===== src/Sim/Booked.antt =====
-- What `Simulate` books: the PnL of every trade, once, as the trade is closed.
use mathlib.Core.List.{Perm}
use mathlib.Core.List.Perm
use poly_asian_data.Base.{
  ℕ, zero, suc, ◌≡◌, refl, ap, sym, subst, ◌∙◌, String, Bool, true, false, List, [], ◌∷◌, ◌++◌,
  Option, some, arith, inl, inr, Bool-cases, All, keep, get_elem?,
}
use poly_asian_data.Base.Update.{set_at}
use poly_asian_data.Base.Dict.{Dict, IsKeyed, delete}
use poly_asian_data.Float.Defs.{Float64}
use poly_asian_data.Risk.Manager.{
  Manager, on_close, apply_pnl, book_pnl, record_period_return, maybe_roll_day, should_flatten_all,
  on_open,
}
use poly_asian_data.Risk.Accept.{accept, accept_frame}
use poly_asian_data.Risk.Halts.{check_halts_frame}
use poly_asian_data.Sim.{SignalIn, Trade, PriceIndex, realize_pnl}
use poly_asian_data.Sim.Ledger.{
  MapOrder, Ledger, book_close, pnl_of, settled, sweep, visit_trade, due_at, close_due, flatten_all,
  force_close,
}
use poly_asian_data.Sim.Process.{Sim, input_of, trade_of, open_trade, close_first, process_one}
use poly_asian_data.Sim.Run.{is_closed, close_out}
use poly_asian_data.Sim.Valid.{Valid, left_by_close}
use poly_asian_data.Sim.Closing.{
  IsPart, IsPart-head, visit_trade-cases, visit_trade-Valid, walked, close_due-Valid,
  force_close-Valid,
}
use poly_asian_data.Sim.Opening.{settle_decision-cases}

-- A write that makes an element pass the test adds it to those that pass.
keep-set_at :
    {A : Type 0}
    → (f : A → Bool) (i : ℕ) (x y : A) (xs : List A) → get_elem? xs i ≡ some y
    → f y ≡ false
    → f x ≡ true
    → Perm (x ∷ keep f xs) (keep f (set_at i x xs))
keep-set_at f i x y [] h out into = cc
keep-set_at f zero x y (z ∷ xs) h out into =
    let here : f z ≡ false = rw (← out) (ap f (cc h)) in rw (here, into) (Perm.refl _)
keep-set_at f (suc i) x y (z ∷ xs) h out into =
    let rest = keep-set_at f i x y xs h out into in
    elim (Bool-cases (f z)) [
      | inl e ↦ rw e (Perm.trans (Perm.swap z x (keep f xs)) (Perm.cons z rest))
      | inr e ↦ rw e rest
    ]

keep-append_out :
    {A : Type 0}
    → (f : A → Bool) (x : A) (xs : List A) → f x ≡ false
    → keep f (xs ++ x ∷ []) ≡ keep f xs
keep-append_out f x [] h = rw h refl
keep-append_out f x (y ∷ xs) h = rw (keep-append_out f x xs h) refl

module _ {F : Type 0} ⦃fl : Float64 F⦄ where
  pub keep_whole :
      (trs : List (Trade F)) → All (λ tr. tr.closed ≡ true) trs → keep is_closed trs ≡ trs
  keep_whole [] h = refl
  keep_whole (tr ∷ trs) h = rw (h.0, keep_whole trs h.1) refl

  -- An equity and the PnLs of trades, the last of which is added first.
  abbrev pub booked : F → List (Trade F) → F
  booked start [] = start
  booked start (tr ∷ trs) = fl.add (booked start trs) tr.pnl_usd

  -- The PnL of a trade is that of its own shares, mids and cost.
  abbrev pub IsPriced : Trade F → Type 0
  IsPriced tr = tr.pnl_usd ≡ realize_pnl tr.side tr.shares tr.entry_mid tr.exit_mid tr.cost_usd

  -- The equity of the manager is the first one and the PnLs of the closed trades, each once.
  pub record Booked (start : F) (l : Ledger F) : Type 0 where
    pub order : List (Trade F)
    pub each_once : Perm order (keep is_closed l.trades)
    pub adds_up : l.mgr.equity ≡ booked start order
    pub priced : All IsPriced order

  maybe_roll_day-equity : (m : Manager F) (at : ℕ) → (maybe_roll_day m at).equity ≡ m.equity
  unfolding maybe_roll_day
  maybe_roll_day-equity m at = ground arith

  on_close-equity :
      (m : Manager F) (id : String) (pnl : F) (at : ℕ)
      → (on_close m id pnl at).equity ≡ fl.add m.equity pnl
  unfolding on_close apply_pnl book_pnl
  on_close-equity m id pnl at =
      let m' : Manager F = record m { positions = delete id m.positions } in
      (check_halts_frame (book_pnl m' pnl at) at).0
      ∙ ap (λ e. fl.add e pnl) (maybe_roll_day-equity m' at)

  book_close-equity :
      (m : Manager F) (id : String) (pnl : F) (at : ℕ)
      → (book_close m id pnl at).equity ≡ fl.add m.equity pnl
  unfolding book_close record_period_return
  book_close-equity m id pnl at = ground (arith, on_close-equity m id pnl at)

  left_by_close-Booked :
      (start : F) (prices : PriceIndex F) (s : Ledger F) (cond : String) (i : ℕ) (tr : Trade F)
      (at : ℕ) (v : Valid s) (found : _) (here : get_elem? s.trades i ≡ some tr)
      (op : tr.closed ≡ false) (of_cond : tr.condition_id ≡ cond)
      → Booked start s
      → Booked start (left_by_close prices s cond i tr at v found here op of_cond)
  unfolding settled pnl_of
  left_by_close-Booked start prices s cond i tr at v found here op of_cond b =
      let t = settled prices tr at in
      record {
        order = t ∷ b.order;
        each_once =
            Perm.trans (Perm.cons t b.each_once)
              (keep-set_at is_closed i t tr s.trades here op refl);
        adds_up =
            book_close-equity s.mgr tr.condition_id (pnl_of prices tr at) at
            ∙ ap (λ e. fl.add e t.pnl_usd) b.adds_up;
        priced = (refl, b.priced);
      }

  -- The loops over the open trades.
  module _ (start : F) (prices : PriceIndex F) (tidy : Bool) (plan : Trade F → Option ℕ) where
    sweep-Booked :
        (es : Dict ℕ) (s : Ledger F)
        → Valid s
        → IsKeyed es
        → IsPart es s.open_by_cond
        → Booked start s
        → Booked start (sweep prices tidy plan es s)
    unfolding sweep
    sweep-Booked [] s v u p b = b
    sweep-Booked ((cond, i) ∷ es) s v u p b =
        let (v', p') = visit_trade-Valid prices tidy plan cond i es s v u p in
        let s' = visit_trade prices tidy plan cond i (get_elem? s.trades i) s in
        let h = IsPart-head cond i es s.open_by_cond p in
        let o = v.linked cond i h in
        let b' : Booked start s' = elim (visit_trade-cases prices tidy plan cond i s v h) [
          | inl (_, e) ↦ subst (Booked start) (sym e) b
          | inr (at, _, e) ↦ subst (Booked start) (sym e) (
              left_by_close-Booked start prices s cond i o.trade at v h o.at_index o.is_open
                o.of_cond b)
        ] in
        sweep-Booked es s' v' u.1 p' b'

module _ {F : Type 0} ⦃fl : Float64 F⦄ ⦃walk : MapOrder F⦄ (start : F) (prices : PriceIndex F)
    (now : ℕ) where
  close_due-Booked :
      (s : Ledger F) → Valid s → Booked start s → Booked start (close_due prices now s)
  unfolding close_due
  close_due-Booked s v =
      sweep-Booked start prices true (due_at now) (walk.entries s) s v (walk.keyed s v.keyed)
        (walked prices now s v)

  flatten_all-Booked :
      (s : Ledger F) → Valid s → Booked start s → Booked start (flatten_all prices now s)
  unfolding flatten_all
  flatten_all-Booked s v b = elim (Bool-cases (should_flatten_all (some s.mgr))) [
    | inl e ↦ rw e (
        sweep-Booked start prices true (λ tr. some now) (walk.entries s) s v (walk.keyed s v.keyed)
          (walked prices now s v) b)
    | inr e ↦ rw e b
  ]

  pub close_out-Booked :
      (s : Ledger F) → Valid s → Booked start s → Booked start (close_out prices now s)
  unfolding close_out force_close
  close_out-Booked s v b =
      let d = close_due prices now s in
      let dv = close_due-Valid prices now s v in
      flatten_all-Booked (force_close prices now d) (force_close-Valid prices now d dv) (
        sweep-Booked start prices false (λ tr. some now) (walk.entries d) d dv
          (walk.keyed d dv.keyed) (walked prices now d dv) (close_due-Booked s v b))

  close_first-Booked :
      (s : Ledger F) → Valid s → Booked start s → Booked start (close_first prices now s)
  unfolding close_first
  close_first-Booked s v b =
      flatten_all-Booked (close_due prices now s) (close_due-Valid prices now s v)
        (close_due-Booked s v b)

module _ {F : Type 0} ⦃fl : Float64 F⦄ ⦃walk : MapOrder F⦄ where
  -- A signal books what it closes.
  pub process_one-Booked :
      (start : F) (prices : PriceIndex F) (default_ns : ℕ) (sig : SignalIn F) (s : Sim F)
      → Valid s.ledger
      → Booked start s.ledger
      → Booked start (process_one prices default_ns sig s).ledger
  unfolding process_one open_trade trade_of on_open
  process_one-Booked start prices default_ns sig s v b =
      let l = close_first prices sig.time s.ledger in
      let c = close_first-Booked start prices sig.time s.ledger v b in
      let (m, d) = accept l.mgr (input_of sig) in
      let equity = (accept_frame l.mgr (input_of sig)).0 in
      let s' : Sim F = record s { ledger = record l { mgr = m } } in
      elim (settle_decision-cases prices default_ns sig d s') [
        | inl (e, _) ↦ subst (Booked start) (sym e) (record {
          order = c.order;
          each_once = c.each_once;
          adds_up = equity ∙ c.adds_up;
          priced = c.priced;
        })
        | inr (_, e, _) ↦ subst (Booked start) (sym e) (record {
          order = c.order;
          each_once =
              subst (Perm c.order) (sym (keep-append_out is_closed _ l.trades refl)) c.each_once;
          adds_up = equity ∙ c.adds_up;
          priced = c.priced;
        })
      ]
