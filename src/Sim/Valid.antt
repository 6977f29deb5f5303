-- ===== src/Sim/Valid.antt =====
-- What holds of the simulation's ledger throughout: the open trades, the index of them by condition
-- and the manager's positions are of one mind.
use poly_asian_data.Base.{
  ℕ, ◌≡◌, ◌≢◌, refl, ap, sym, ◌∙◌, String, true, false, [], ◌∷◌, ◌++◌, Option, none, some, arith,
  get_elem?, Bool-cases, inl, inr, str_eq, eq_iff, ◌==◌,
}
use poly_asian_data.Base.Update.{
  set_at, last, get_elem?-set_at_other, get_elem?-set_at_self, last-append,
}
use poly_asian_data.Base.Dict.{Dict, lookup, delete, has, IsKeyed, delete-IsKeyed, lookup-delete}
use poly_asian_data.Float.Defs.{Float64}
use poly_asian_data.Risk.Manager.{Manager, on_close, apply_pnl, book_pnl, record_period_return}
use poly_asian_data.Risk.Halts.{check_halts_frame, book_pnl_frame}
use poly_asian_data.Sim.{Trade, EquityPoint, PriceIndex}
use poly_asian_data.Sim.Ledger.{Ledger, book_close, settled, pnl_of, close_trade, drop_open}

module _ {F : Type 0} where
  abbrev pub equity_of : Option (EquityPoint F) → Option F
  equity_of none = none
  equity_of (some p) = some p.equity

  -- The trade at an index of the slice, if it is open and of the condition.
  pub record OpenAt (s : Ledger F) (k : String) (i : ℕ) : Type 0 where
    pub trade : Trade F
    pub at_index : get_elem? s.trades i ≡ some trade
    pub is_open : trade.closed ≡ false
    pub of_cond : trade.condition_id ≡ k

  pub record Valid (s : Ledger F) : Type 0 where
    pub keyed : IsKeyed s.open_by_cond
    pub linked : (k : String) (i : ℕ) → lookup k s.open_by_cond ≡ some i → OpenAt s k i
    pub listed :
        (i : ℕ) (tr : Trade F)
        → get_elem? s.trades i ≡ some tr
        → tr.closed ≡ false
        → lookup tr.condition_id s.open_by_cond ≡ some i
    pub same : (k : String) → has k s.mgr.positions ≡ has k s.open_by_cond
    pub marked : equity_of (last s.curve) ≡ some s.mgr.equity

-- What a delete of one key leaves is what stood at the other keys.
delete_keeps :
    {V : Type 0} (k j : String) (v : V) (m : Dict V)
    → lookup j (delete k m) ≡ some v
    → (str_eq k j ≡ false) × (lookup j m ≡ some v)
delete_keeps k j v m h = ground (arith, lookup-delete k j m)

module _ {F : Type 0} ⦃fl : Float64 F⦄ where
  pub book_close_frame :
      (m : Manager F) (id : String) (pnl : F) (at : ℕ)
      → ((book_close m id pnl at).positions ≡ delete id m.positions)
        × ((book_close m id pnl at).cfg ≡ m.cfg)
  unfolding book_close on_close apply_pnl record_period_return
  book_close_frame m id pnl at =
      let m' : Manager F = record m { positions = delete id m.positions } in
      ground (arith, book_pnl_frame m' pnl at, check_halts_frame (book_pnl m' pnl at) at)

  -- The ledger behind a close of the trade to which the condition's entry points.
  abbrev pub closed_at : PriceIndex F → String → ℕ → Trade F → ℕ → Ledger F → Ledger F
  closed_at prices cond i tr at s = drop_open cond (close_trade prices i tr at s)

  module _ (prices : PriceIndex F) (s : Ledger F) (cond : String) (i : ℕ) (tr : Trade F) (at : ℕ)
      (v : Valid s) (found : lookup cond s.open_by_cond ≡ some i)
      (here : get_elem? s.trades i ≡ some tr) (op : tr.closed ≡ false)
      (of_cond : tr.condition_id ≡ cond) where
    -- The ledger behind a close of the trade to which the condition's entry points.
    abbrev pub left_by_close : Ledger F
    left_by_close =
        let m = book_close s.mgr tr.condition_id (pnl_of prices tr at) at in
        record {
          mgr = m;
          trades = set_at i (settled prices tr at) s.trades;
          open_by_cond = delete cond s.open_by_cond;
          curve = s.curve ++ record { time = at; equity = m.equity } ∷ [];
        }

    pub close_lem : drop_open cond (close_trade prices i tr at s) ≡ left_by_close
    unfolding close_trade
    close_lem = rw op refl

    -- An entry that is left points at another index.
    other_index : (k : String) (j : ℕ) → str_eq cond k ≡ false → OpenAt s k j → j ≢ i
    other_index k j ne o e =
        let same : o.trade ≡ tr = cc (o.at_index, here, e) in
        let keys : cond ≡ k = sym of_cond ∙ sym (ap (λ t. t.condition_id) same) ∙ o.of_cond in
        absurd (ground (arith, eq_iff cond k))

    linked_left :
        (k : String) (j : ℕ)
        → lookup k (delete cond s.open_by_cond) ≡ some j
        → OpenAt left_by_close k j
    linked_left k j h =
        let (ne, before) = delete_keeps cond k j s.open_by_cond h in
        let o = v.linked k j before in
        let differs = other_index k j ne o in
        record {
          trade = o.trade;
          at_index =
              get_elem?-set_at_other i j (settled prices tr at) s.trades (λ e. differs (sym e))
              ∙ o.at_index;
          is_open = o.is_open;
          of_cond = o.of_cond;
        }

    listed_left :
        (j : ℕ) (t : Trade F)
        → get_elem? (set_at i (settled prices tr at) s.trades) j ≡ some t
        → t.closed ≡ false
        → lookup t.condition_id (delete cond s.open_by_cond) ≡ some j
    unfolding settled
    listed_left j t h o = elim (Bool-cases (i == j)) [
      | inl e ↦
          let e' : i ≡ j = ground arith in
          let is : t ≡ settled prices tr at =
            get_elem?-set_at_self i (settled prices tr at) t s.trades (rw (← e') at h) in
          let shut : t.closed ≡ true = ap (λ t. t.closed) is in cc
      | inr e ↦
          let differs : i ≢ j = λ q. absurd (ground arith) in
          let before : get_elem? s.trades j ≡ some t =
            sym (get_elem?-set_at_other i j (settled prices tr at) s.trades differs) ∙ h in
          let looked = v.listed j t before o in
          elim (Bool-cases (str_eq cond t.condition_id)) [
            | inl same ↦
                let same' : cond ≡ t.condition_id = ground (arith, eq_iff cond t.condition_id) in
                absurd (differs (cc (found, looked, same')))
            | inr other ↦ lookup-delete cond t.condition_id s.open_by_cond ∙ rw other looked
          ]
    ]

    same_left :
        (k : String) → has k left_by_close.mgr.positions ≡ has k (delete cond s.open_by_cond)
    same_left k =
        let frame = book_close_frame s.mgr tr.condition_id (pnl_of prices tr at) at in
        ap (has k) (frame.0 ∙ ap (λ c. delete c s.mgr.positions) of_cond)
        ∙ ground (
          arith,
          lookup-delete cond k s.mgr.positions,
          lookup-delete cond k s.open_by_cond,
          v.same k,
        )

    pub left_by_close-Valid : Valid left_by_close
    left_by_close-Valid = record {
      keyed = delete-IsKeyed cond s.open_by_cond v.keyed;
      linked = linked_left;
      listed = listed_left;
      same = same_left;
      marked = ap equity_of (last-append s.curve _);
    }
