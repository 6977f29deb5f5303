-- ===== src/Sim/Closed.antt =====
-- What the end of `Simulate` leaves: nothing open.
use poly_asian_data.Base.{
  eq_iff, is_some, ℕ, ◌≡◌, refl, ap, ◌∙◌, String, true, false, not, List, [], ◌∷◌, some, arith,
  length, inl, inr, Bool-cases, All, keep, zero, suc, get_elem?,
}
use poly_asian_data.Base.Dict.{Dict, has}
use poly_asian_data.Float.Defs.{Float64}
use poly_asian_data.Risk.Manager.{should_flatten_all}
use poly_asian_data.Sim.{Trade, PriceIndex}
use poly_asian_data.Sim.Ledger.{MapOrder, Ledger, close_due, force_close, flatten_all}
use poly_asian_data.Sim.Run.{close_out, is_closed}
use poly_asian_data.Sim.Valid.{Valid}
use poly_asian_data.Sim.Closing.{
  close_due-Valid, flatten_all-Valid, force_close-Valid, force_close-clears, close_due_keeps,
  force_close_keeps, flatten_all_keeps, flatten_all-clears,
}
use poly_asian_data.Sim.Account.{close_trade-length}

-- A map without keys has no entry.
pub no_keys : {V : Type 0} (m : Dict V) → ((k : String) → has k m ≡ false) → m ≡ []
no_keys [] h = refl
no_keys ((k, v) ∷ m) h = cc (h k, lookup_head)
  where
    lookup_head : has k ((k, v) ∷ m) ≡ true
    lookup_head = ground (arith, eq_iff k k)

module _ {F : Type 0} ⦃fl : Float64 F⦄ where
  -- No open trade when no condition is open.
  none_left_open :
      (l : Ledger F)
      → Valid l
      → ((k : String) → has k l.open_by_cond ≡ false)
      → All (λ tr. tr.closed ≡ true) l.trades
  none_left_open l v none_open = go l.trades (λ i tr e. elim (Bool-cases tr.closed) [
    | inl c ↦ c
    | inr c ↦ cc (none_open tr.condition_id, ap is_some (v.listed i tr e c))
  ])
    where
      go :
          (trs : List (Trade F))
          → ((i : ℕ) (tr : Trade F) → get_elem? trs i ≡ some tr → tr.closed ≡ true)
          → All (λ tr. tr.closed ≡ true) trs
      go [] h = tt
      go (tr ∷ trs) h = (h zero tr refl, go trs (λ i t e. h (suc i) t e))

  -- Nothing is open: no trade, no entry of a condition, no position.
  pub record Flat (l : Ledger F) : Type 0 where
    pub trades_closed : All (λ tr. tr.closed ≡ true) l.trades
    pub no_entries : l.open_by_cond ≡ []
    pub no_positions : l.mgr.positions ≡ []

  pub Valid-Flat : (l : Ledger F) → Valid l → ((k : String) → has k l.open_by_cond ≡ false) → Flat l
  Valid-Flat l v h = record {
    trades_closed = none_left_open l v h;
    no_entries = no_keys l.open_by_cond h;
    no_positions = no_keys l.mgr.positions (λ k. v.same k ∙ h k);
  }

module _ {F : Type 0} ⦃fl : Float64 F⦄ ⦃walk : MapOrder F⦄ where
  flatten_all-Flat :
      (prices : PriceIndex F) (now : ℕ) (l : Ledger F)
      → Valid l
      → l.open_by_cond ≡ []
      → Flat (flatten_all prices now l)
  unfolding flatten_all
  flatten_all-Flat prices now l v e = elim (Bool-cases (should_flatten_all (some l.mgr))) [
    | inl b ↦
        Valid-Flat (flatten_all prices now l) (flatten_all-Valid prices now l v)
          (flatten_all-clears prices now l v b)
    | inr b ↦ simp b (Valid-Flat l v (λ k. ap (has k) e))
  ]

  pub close_out-Flat :
      (prices : PriceIndex F) (now : ℕ) (l : Ledger F) → Valid l → Flat (close_out prices now l)
  unfolding close_out
  close_out-Flat prices now l v =
      let d = close_due prices now l in
      let dv = close_due-Valid prices now l v in
      let f = force_close prices now d in
      flatten_all-Flat prices now f (force_close-Valid prices now d dv)
        (no_keys f.open_by_cond (force_close-clears prices now d dv))

  pub close_out-Valid :
      (prices : PriceIndex F) (now : ℕ) (l : Ledger F) → Valid l → Valid (close_out prices now l)
  unfolding close_out
  close_out-Valid prices now l v =
      let d = close_due prices now l in
      flatten_all-Valid prices now (force_close prices now d)
        (force_close-Valid prices now d (close_due-Valid prices now l v))

module _ {F : Type 0} ⦃fl : Float64 F⦄ where
  pub keep_none :
      (trs : List (Trade F))
      → All (λ tr. tr.closed ≡ true) trs
      → (length (keep (λ tr. not tr.closed) trs) ≡ 0) × (length (keep is_closed trs) ≡ length trs)
  keep_none [] h = (refl, refl)
  keep_none (tr ∷ trs) h = ground (arith, keep_none trs h.1)

module _ {F : Type 0} ⦃fl : Float64 F⦄ ⦃walk : MapOrder F⦄ where
  pub close_out-length :
      (prices : PriceIndex F) (now : ℕ) (l : Ledger F)
      → length (close_out prices now l).trades ≡ length l.trades
  unfolding close_out
  close_out-length prices now l =
      let Q : Ledger F → Type 0 = λ s. length s.trades ≡ length l.trades in
      let closes = close_trade-length (length l.trades) prices in
      flatten_all_keeps prices now Q closes (λ c s q. q) _
        (force_close_keeps prices now Q closes (λ c s q. q) _
          (close_due_keeps prices now Q closes (λ c s q. q) l refl))
