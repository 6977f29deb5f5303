-- ===== src/Sim/Opening.antt =====
-- A decision and the trade that it opens keep the ledger valid and every signal accounted for.
use poly_asian_data.Base.{
  ℕ, ◌+◌, ◌≡◌, refl, ap, sym, ◌∙◌, ◌⊎◌, String, true, false, [], ◌∷◌, some, arith, get_elem?, inl,
  inr, Bool-cases, str_eq, eq_iff, length,
}
use poly_asian_data.Base.Update.{
  last-append, get_elem?-append_one, get_elem?-append_left, get_elem?-append_end,
}
use poly_asian_data.Base.Dict.{Dict, lookup, has, insert-IsKeyed, lookup-insert, lookup-insert_self}
use poly_asian_data.Float.Defs.{Float64}
use poly_asian_data.Risk.Manager.{Manager, Decision, on_open}
use poly_asian_data.Sim.{SignalIn, Trade, Fill, PriceIndex, entry_fill}
use poly_asian_data.Sim.Ledger.{Ledger}
use poly_asian_data.Sim.Process.{
  Sim, bump, trade_of, position_of, open_trade, reason_text, settle_decision, mid_of,
}
use poly_asian_data.Sim.Run.{n_rejected}
use poly_asian_data.Sim.Valid.{Valid, OpenAt, equity_of}

-- Each `m[k]++` adds one to the sum of the counts.
pub n_rejected-bump : (k : String) (m : Dict ℕ) → n_rejected (bump k m) ≡ n_rejected m + 1
unfolding bump
n_rejected-bump k [] = refl
n_rejected-bump k ((j, n) ∷ m) = ground (arith, n_rejected-bump k m)

module _ {F : Type 0} ⦃fl : Float64 F⦄ where
  -- A manager with the positions and the equity of the old one may take its place.
  pub with_mgr-Valid :
      (l : Ledger F) (m : Manager F)
      → Valid l
      → m.positions ≡ l.mgr.positions
      → m.equity ≡ l.mgr.equity
      → Valid (record l { mgr = m })
  with_mgr-Valid l m v p e = record {
    keyed = v.keyed;
    linked = λ k i h.
        let o = v.linked k i h in
        record { trade = o.trade; at_index = o.at_index; is_open = o.is_open; of_cond = o.of_cond };
    listed = v.listed;
    same = λ k. ap (has k) p ∙ v.same k;
    marked = v.marked ∙ ap some (sym e);
  }

  module _ (default_ns : ℕ) (sig : SignalIn F) (size : F) (fill : Fill F) (l : Ledger F)
      (v : Valid l) (free : has sig.condition_id l.mgr.positions ≡ false) where
    abbrev opened : Ledger F
    opened = open_trade default_ns sig size fill l

    opened-linked : (k : String) (i : ℕ) → lookup k opened.open_by_cond ≡ some i → OpenAt opened k i
    unfolding open_trade trade_of
    opened-linked k i h = elim (Bool-cases (str_eq sig.condition_id k)) [
      | inl e ↦
          let is : i ≡ length l.trades =
            ground (arith, lookup-insert sig.condition_id k (length l.trades) l.open_by_cond) in
          record {
            trade = trade_of default_ns sig size fill;
            at_index = ap (get_elem? opened.trades) is ∙ get_elem?-append_end l.trades _;
            is_open = refl;
            of_cond = ground (arith, eq_iff sig.condition_id k);
          }
      | inr e ↦
          let before : lookup k l.open_by_cond ≡ some i =
            ground (arith, lookup-insert sig.condition_id k (length l.trades) l.open_by_cond) in
          let o = v.linked k i before in
          record {
            trade = o.trade;
            at_index = get_elem?-append_left l.trades _ o.trade i o.at_index;
            is_open = o.is_open;
            of_cond = o.of_cond;
          }
    ]

    opened-listed :
        (i : ℕ) (tr : Trade F)
        → get_elem? opened.trades i ≡ some tr
        → tr.closed ≡ false
        → lookup tr.condition_id opened.open_by_cond ≡ some i
    unfolding open_trade trade_of
    opened-listed i tr h o =
        elim (get_elem?-append_one l.trades (trade_of default_ns sig size fill) tr i h) [
          | inl before ↦
              let looked = v.listed i tr before o in
              let free' : has sig.condition_id l.open_by_cond ≡ false =
                sym (v.same sig.condition_id) ∙ free in
              ground (
                arith,
                eq_iff sig.condition_id tr.condition_id,
                lookup-insert sig.condition_id tr.condition_id (length l.trades) l.open_by_cond,
              )
          | inr (at_end, is) ↦
              let cond : tr.condition_id ≡ sig.condition_id = ap (λ t. t.condition_id) is in
              ap (λ c. lookup c opened.open_by_cond) cond
              ∙ lookup-insert_self sig.condition_id (length l.trades) l.open_by_cond
              ∙ ap some (sym at_end)
        ]

    opened-same : (k : String) → has k opened.mgr.positions ≡ has k opened.open_by_cond
    unfolding open_trade on_open
    opened-same k = ground (
      arith,
      lookup-insert sig.condition_id k (length l.trades) l.open_by_cond,
      lookup-insert sig.condition_id k (position_of sig size fill) l.mgr.positions,
      v.same k,
    )

    pub open_trade-Valid : Valid opened
    unfolding open_trade
    open_trade-Valid = record {
      keyed = insert-IsKeyed sig.condition_id (length l.trades) l.open_by_cond v.keyed;
      linked = opened-linked;
      listed = opened-listed;
      same = opened-same;
      marked = ap equity_of (last-append l.curve _);
    }

  -- The fill that `processOne` makes of a decision.
  abbrev pub fill_of : PriceIndex F → SignalIn F → Decision F → Fill F
  fill_of prices sig d = entry_fill sig.side d.size_usd (mid_of prices sig) sig.cost_bps

  -- What becomes of a decision: the ledger stays and the rejection is counted, or a trade is opened,
  -- on an accepted one.
  pub settle_decision-cases :
      (prices : PriceIndex F) (default_ns : ℕ) (sig : SignalIn F) (d : Decision F) (s : Sim F)
      → let s' = settle_decision prices default_ns sig d s in
        ((s'.ledger ≡ s.ledger) × (n_rejected s'.reject_reasons ≡ n_rejected s.reject_reasons + 1))
        ⊎ ((d.accept ≡ true)
            × (s'.ledger ≡ open_trade default_ns sig d.size_usd (fill_of prices sig d) s.ledger)
            × (s'.reject_reasons ≡ s.reject_reasons))
  unfolding settle_decision
  settle_decision-cases prices default_ns sig d s = ground (
    arith,
    n_rejected-bump (reason_text d.reason) s.reject_reasons,
    n_rejected-bump "no_mid" s.reject_reasons,
    n_rejected-bump "size_zero" s.reject_reasons,
  )
