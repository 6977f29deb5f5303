-- ===== src/Sim/Closing.antt =====
-- The loops over the open trades keep the ledger valid, and close what they are for.
use poly_asian_data.Base.{
  sym, is_some, ℕ, ◌≡◌, refl, ap, ◌∙◌, ◌⊎◌, inl, inr, String, Bool, true, false, not, ◌&&◌, [], ◌∷◌,
  Option, none, some, arith, get_elem?, Bool-cases, Option-cases, eq_iff,
}
use poly_asian_data.Base.Dict.{Dict, lookup, delete, has, IsKeyed, lookup-delete}
use poly_asian_data.Float.Defs.{Float64}
use poly_asian_data.Risk.Manager.{should_flatten_all}
use poly_asian_data.Sim.{Trade, PriceIndex}
use poly_asian_data.Sim.Ledger.{
  MapOrder, Ledger, close_trade, drop_open, visit_entry, visit_trade, sweep, close_due, flatten_all,
  force_close, due_at,
}
use poly_asian_data.Sim.Valid.{Valid, left_by_close, close_lem, left_by_close-Valid}

-- Every entry of the first map is one of the second.
abbrev pub IsPart : {V : Type 0} → Dict V → Dict V → Type 0
IsPart {V} es m = (k : String) (v : V) → lookup k es ≡ some v → lookup k m ≡ some v

module _ {V : Type 0} where
  pub IsPart-head :
      (k : String) (v : V) (es m : Dict V) → IsPart ((k, v) ∷ es) m → lookup k m ≡ some v
  IsPart-head k v es m h = h k v (ground (arith, eq_iff k k))

  IsPart-tail :
      (k : String) (v : V) (es m : Dict V)
      → lookup k es ≡ none
      → IsPart ((k, v) ∷ es) m
      → IsPart es m
  IsPart-tail k v es m out h j w e = h j w (ground (arith, eq_iff k j))

  -- Deleting a key that is not among the entries leaves them a part.
  IsPart-delete :
      (k : String) (es m : Dict V) → lookup k es ≡ none → IsPart es m → IsPart es (delete k m)
  IsPart-delete k es m out h j w e = ground (arith, eq_iff k j, h j w e, lookup-delete k j m)

module _ {F : Type 0} ⦃fl : Float64 F⦄ (prices : PriceIndex F) (tidy : Bool)
    (plan : Trade F → Option ℕ) where
  -- What every close of a trade and every delete of an entry keeps, the loop keeps.
  module _ (Q : Ledger F → Type 0)
      (closes : (i : ℕ) (tr : Trade F) (at : ℕ) (s : Ledger F)
        → Q s
        → Q (close_trade prices i tr at s))
      (drops : (cond : String) (s : Ledger F) → Q s → Q (drop_open cond s)) where
    visit_entry_keeps :
        (cond : String) (i : ℕ) (tr : Trade F) (s : Ledger F) (b : Bool) (o : Option ℕ)
        → Q s
        → Q (visit_entry prices tidy cond i tr s b o)
    unfolding visit_entry
    visit_entry_keeps cond i tr s true o q = elim (Bool-cases tidy) [
      | inl t ↦ rw t (drops cond s q)
      | inr t ↦ rw t q
    ]
    visit_entry_keeps cond i tr s false none q = q
    visit_entry_keeps cond i tr s false (some at) q =
        drops cond (close_trade prices i tr at s) (closes i tr at s q)

    visit_trade_keeps :
        (cond : String) (i : ℕ) (o : Option (Trade F)) (s : Ledger F)
        → Q s
        → Q (visit_trade prices tidy plan cond i o s)
    unfolding visit_trade
    visit_trade_keeps cond i none s q = q
    visit_trade_keeps cond i (some tr) s q = visit_entry_keeps cond i tr s tr.closed (plan tr) q

    pub sweep_keeps : (es : Dict ℕ) (s : Ledger F) → Q s → Q (sweep prices tidy plan es s)
    unfolding sweep
    sweep_keeps [] s q = q
    sweep_keeps ((cond, i) ∷ es) s q =
        sweep_keeps es (visit_trade prices tidy plan cond i (get_elem? s.trades i) s)
          (visit_trade_keeps cond i (get_elem? s.trades i) s q)

  -- A round on an entry of a valid ledger leaves the ledger, or closes the trade of the entry.
  pub visit_trade-cases :
      (cond : String) (i : ℕ) (s : Ledger F) (v : Valid s) (h : lookup cond s.open_by_cond ≡ some i)
      → let o = v.linked cond i h in
        let s' = visit_trade prices tidy plan cond i (get_elem? s.trades i) s in
        ((plan o.trade ≡ none) × (s' ≡ s))
        ⊎ ((at : ℕ) × (plan o.trade ≡ some at)
            × (s' ≡ left_by_close prices s cond i o.trade at v h o.at_index o.is_open o.of_cond))
  unfolding visit_trade visit_entry
  visit_trade-cases cond i s v h =
      let o = v.linked cond i h in
      let here =
        ap (λ t. visit_trade prices tidy plan cond i t s) o.at_index
        ∙ ap (λ b. visit_entry prices tidy cond i o.trade s b (plan o.trade)) o.is_open in
      elim (Option-cases (plan o.trade)) [
        | inl e ↦ inl (e, here ∙ ap (visit_entry prices tidy cond i o.trade s false) e)
        | inr (at, e) ↦ inr (
          at,
          e,
          here
              ∙ ap (visit_entry prices tidy cond i o.trade s false) e
              ∙ close_lem prices s cond i o.trade at v h o.at_index o.is_open o.of_cond,
        )
      ]

  -- A round leaves the ledger valid and the entries of other keys in their place.
  pub visit_trade-Valid :
      (cond : String) (i : ℕ) (es : Dict ℕ) (s : Ledger F)
      → Valid s
      → IsKeyed ((cond, i) ∷ es)
      → IsPart ((cond, i) ∷ es) s.open_by_cond
      → let s' = visit_trade prices tidy plan cond i (get_elem? s.trades i) s in
        Valid s' × IsPart es s'.open_by_cond
  visit_trade-Valid cond i es s v u p =
      let h = IsPart-head cond i es s.open_by_cond p in
      let o = v.linked cond i h in
      let p' = IsPart-tail cond i es s.open_by_cond u.0 p in
      elim (visit_trade-cases cond i s v h) [
        | inl (_, e) ↦ rw e (v, p')
        | inr (at, _, e) ↦ rw e (
          left_by_close-Valid prices s cond i o.trade at v h o.at_index o.is_open o.of_cond,
          IsPart-delete cond es s.open_by_cond u.0 p',
        )
      ]

  pub sweep-Valid :
      (es : Dict ℕ) (s : Ledger F)
      → Valid s
      → IsKeyed es
      → IsPart es s.open_by_cond
      → Valid (sweep prices tidy plan es s)
  unfolding sweep
  sweep-Valid [] s v u p = v
  sweep-Valid ((cond, i) ∷ es) s v u p =
      let (v', p') = visit_trade-Valid cond i es s v u p in
      sweep-Valid es (visit_trade prices tidy plan cond i (get_elem? s.trades i) s) v' u.1 p'

  -- A loop that closes every trade it meets leaves the keys that are not among its entries.
  pub sweep-clears :
      (always : (tr : Trade F) → (at : ℕ) × (plan tr ≡ some at)) (es : Dict ℕ) (s : Ledger F)
      → Valid s
      → IsKeyed es
      → IsPart es s.open_by_cond
      → (k : String)
      → has k (sweep prices tidy plan es s).open_by_cond ≡ has k s.open_by_cond && not (has k es)
  unfolding sweep
  sweep-clears always [] s v u p k = ground arith
  sweep-clears always ((cond, i) ∷ es) s v u p k =
      let (v', p') = visit_trade-Valid cond i es s v u p in
      let s' = visit_trade prices tidy plan cond i (get_elem? s.trades i) s in
      let h = IsPart-head cond i es s.open_by_cond p in
      let o = v.linked cond i h in
      let (at, sure) = always o.trade in
      elim (visit_trade-cases cond i s v h) [
        | inl (e, _) ↦ cc (sure, e)
        | inr (_, _, e) ↦
            sweep-clears always es s' v' u.1 p' k
            ∙ ap (λ l. has k l.open_by_cond && not (has k es)) e
            ∙ ground (arith, eq_iff cond k, lookup-delete cond k s.open_by_cond)
      ]

module _ {F : Type 0} ⦃fl : Float64 F⦄ ⦃walk : MapOrder F⦄ (prices : PriceIndex F) (now : ℕ) where
  pub walked : (s : Ledger F) → Valid s → IsPart (walk.entries s) s.open_by_cond
  walked s v k i e = sym (walk.same s k v.keyed) ∙ e

  has-walked :
      (s : Ledger F) → Valid s → (k : String) → has k (walk.entries s) ≡ has k s.open_by_cond
  has-walked s v k = ap is_some (walk.same s k v.keyed)

  pub close_due-Valid : (s : Ledger F) → Valid s → Valid (close_due prices now s)
  unfolding close_due
  close_due-Valid s v =
      sweep-Valid prices true (due_at now) (walk.entries s) s v (walk.keyed s v.keyed) (walked s v)

  pub flatten_all-Valid : (s : Ledger F) → Valid s → Valid (flatten_all prices now s)
  unfolding flatten_all
  flatten_all-Valid s v = elim (Bool-cases (should_flatten_all (some s.mgr))) [
    | inl e ↦ rw e (
        sweep-Valid prices true (λ tr. some now) (walk.entries s) s v (walk.keyed s v.keyed)
          (walked s v))
    | inr e ↦ rw e v
  ]

  pub force_close-Valid : (s : Ledger F) → Valid s → Valid (force_close prices now s)
  unfolding force_close
  force_close-Valid s v =
      sweep-Valid prices false (λ tr. some now) (walk.entries s) s v (walk.keyed s v.keyed)
        (walked s v)

  -- The loop at the end leaves no condition open.
  pub force_close-clears :
      (s : Ledger F)
      → Valid s
      → (k : String) → has k (force_close prices now s).open_by_cond ≡ false
  unfolding force_close
  force_close-clears s v k =
      sweep-clears prices false (λ tr. some now) (λ tr. (now, refl)) (walk.entries s) s v
        (walk.keyed s v.keyed) (walked s v) k
      ∙ ground (arith, has-walked s v k)

  -- A halt by drawdown leaves no condition open.
  pub flatten_all-clears :
      (s : Ledger F)
      → Valid s
      → should_flatten_all (some s.mgr) ≡ true
      → (k : String) → has k (flatten_all prices now s).open_by_cond ≡ false
  unfolding flatten_all
  flatten_all-clears s v e k = rw e (
      sweep-clears prices true (λ tr. some now) (λ tr. (now, refl)) (walk.entries s) s v
        (walk.keyed s v.keyed) (walked s v) k
      ∙ ground (arith, has-walked s v k))

  -- What every close and every delete keeps, the three loops keep.
  module _ (Q : Ledger F → Type 0)
      (closes : (i : ℕ) (tr : Trade F) (at : ℕ) (s : Ledger F)
        → Q s
        → Q (close_trade prices i tr at s))
      (drops : (cond : String) (s : Ledger F) → Q s → Q (drop_open cond s)) where
    pub close_due_keeps : (s : Ledger F) → Q s → Q (close_due prices now s)
    unfolding close_due
    close_due_keeps s = sweep_keeps prices true (due_at now) Q closes drops (walk.entries s) s

    pub flatten_all_keeps : (s : Ledger F) → Q s → Q (flatten_all prices now s)
    unfolding flatten_all
    flatten_all_keeps s q = elim (Bool-cases (should_flatten_all (some s.mgr))) [
      | inl e ↦ rw e (sweep_keeps prices true (λ tr. some now) Q closes drops (walk.entries s) s q)
      | inr e ↦ rw e q
    ]

    pub force_close_keeps : (s : Ledger F) → Q s → Q (force_close prices now s)
    unfolding force_close
    force_close_keeps s =
        sweep_keeps prices false (λ tr. some now) Q closes drops (walk.entries s) s
