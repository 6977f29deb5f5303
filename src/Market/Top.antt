-- ===== src/Market/Top.antt =====
-- internal/ws/market/book.go: the top of a book that `recomputeTop` computes, and the validity of it.
use poly_asian_data.Base.{
  ◌≡◌, refl, ◌⊎◌, inl, inr, String, Bool, true, false, not, ◌&&◌, ◌||◌, [], ◌∷◌, some, arith,
  if◌then◌else◌, All, In, Bool-cases,
}
use poly_asian_data.Base.Dict.{Dict}
use poly_asian_data.Float.Defs.{Float64, gt, IsNum, IsOrdered}
use poly_asian_data.Risk.{nought}
use poly_asian_data.Market.{BookState, mid, spread, valid_book}
use poly_asian_data.Market.Book.{PriceText, top_bid, top_ask, recompute_top, recompute_depth}

module _ {F : Type 0} ⦃fl : Float64 F⦄ (text : PriceText F) where
  open fl use {lt, le, lit, add, sub, div}

  -- A level of the side that counts: its size is not 0 or less.
  abbrev IsLevel : Dict F → String × F → Type 0
  IsLevel m e = In e m × (le e.1 nought ≡ false)

  -- Some level has this price.
  abbrev IsAttained : Dict F → F → Type 0
  IsAttained m p = (e : String × F) × IsLevel m e × (p ≡ text.parse e.0)

  IsAttained-behind : (e : String × F) (m : Dict F) (p : F) → IsAttained m p → IsAttained (e ∷ m) p
  IsAttained-behind e m p (d, l, q) = (d, (inr l.0, l.1), q)

  top_bid-IsAttained :
      (m : Dict F) (best : F) → (top_bid text best m ≡ best) ⊎ IsAttained m (top_bid text best m)
  unfolding top_bid
  top_bid-IsAttained [] best = inl refl
  top_bid-IsAttained (e ∷ m) best =
      let p = text.parse e.0 in
      let next = if le e.1 nought then best else if gt p best then p else best in
      elim (top_bid-IsAttained m next) [
        | inr a ↦ inr (IsAttained-behind e m _ a)
        | inl q ↦ elim (Bool-cases (not (le e.1 nought) && gt p best)) [
          | inl t ↦ inr (e, (inl refl, ground arith), ground arith)
          | inr t ↦ inl (ground arith)
        ]
      ]

  top_ask-IsAttained :
      (m : Dict F) (best : F)
      → (top_ask text false best m ≡ best) ⊎ IsAttained m (top_ask text false best m)
  unfolding top_ask
  top_ask-IsAttained [] best = inl refl
  top_ask-IsAttained (e ∷ m) best =
      let p = text.parse e.0 in
      elim (Bool-cases (not (le e.1 nought) && lt p best)) [
        | inl t ↦ rw t (elim (top_ask-IsAttained m p) [
          | inl q ↦ inr (e, (inl refl, ground arith), q)
          | inr a ↦ inr (IsAttained-behind e m _ a)
        ])
        | inr t ↦ rw t (elim (top_ask-IsAttained m best) [
          | inl q ↦ inl q
          | inr a ↦ inr (IsAttained-behind e m _ a)
        ])
      ]

  -- With firstAsk, the default stays only where no level counts.
  top_ask-first :
      (m : Dict F) (best : F)
      → ((top_ask text true best m ≡ best) × All (λ e. le e.1 nought ≡ true) m)
        ⊎ IsAttained m (top_ask text true best m)
  unfolding top_ask
  top_ask-first [] best = inl (refl, tt)
  top_ask-first (e ∷ m) best =
      let p = text.parse e.0 in
      elim (Bool-cases (le e.1 nought)) [
        | inl t ↦ rw t (elim (top_ask-first m best) [
          | inl q ↦ inl (q.0, (refl, q.1))
          | inr a ↦ inr (IsAttained-behind e m _ a)
        ])
        | inr t ↦ rw t (elim (top_ask-IsAttained m p) [
          | inl q ↦ inr (e, (inl refl, t), q)
          | inr a ↦ inr (IsAttained-behind e m _ a)
        ])
      ]

  module _ (laws : IsOrdered F fl) where
    open laws use {lt_irrefl, lt_trans, lt-not-le}

    -- The best price only goes up along the bids, and down along the asks.
    top_bid-keeps :
        (m : Dict F) (x best : F) → gt x best ≡ false → gt x (top_bid text best m) ≡ false
    unfolding top_bid
    top_bid-keeps [] x best h = h
    top_bid-keeps (e ∷ m) x best h =
        let p = text.parse e.0 in
        top_bid-keeps m x (if le e.1 nought then best else if gt p best then p else best)
          (ground (arith, lt_trans best p x))

    top_bid-highest :
        (m : Dict F) (best : F) (e : String × F)
        → IsLevel m e
        → gt (text.parse e.0) (top_bid text best m) ≡ false
    unfolding top_bid
    top_bid-highest [] best e l = absurd l.0
    top_bid-highest (d ∷ m) best e (inl q, live) =
        let p = text.parse d.0 in
        top_bid-keeps m (text.parse e.0)
          (if le d.1 nought then best else if gt p best then p else best)
          (rw q (let head : le d.1 nought ≡ false = rw q at live in ground (arith, lt_irrefl p)))
    top_bid-highest (d ∷ m) best e (inr h, live) = top_bid-highest m _ e (h, live)

    top_ask-keeps :
        (m : Dict F) (x best : F) → lt x best ≡ false → lt x (top_ask text false best m) ≡ false
    unfolding top_ask
    top_ask-keeps [] x best h = h
    top_ask-keeps (e ∷ m) x best h =
        let p = text.parse e.0 in
        elim (Bool-cases (not (le e.1 nought) && lt p best)) [
          | inl t ↦ rw t (top_ask-keeps m x p (ground (arith, lt_trans x p best)))
          | inr t ↦ rw t (top_ask-keeps m x best h)
        ]

    top_ask-lowest :
        (m : Dict F) (first : Bool) (best : F) (e : String × F)
        → IsLevel m e
        → lt (text.parse e.0) (top_ask text first best m) ≡ false
    unfolding top_ask
    top_ask-lowest [] first best e l = absurd l.0
    top_ask-lowest (d ∷ m) first best e (inr h, live) = top_ask-lowest m _ _ e (h, live)
    top_ask-lowest (d ∷ m) first best e (inl q, live) =
        let p = text.parse d.0 in
        let head : le d.1 nought ≡ false = rw q at live in
        elim (Bool-cases (first || lt p best)) [
          | inl t ↦
              rw (q, head, t)
                (elim (Bool-cases first) [
                  | inl f ↦ rw f (top_ask-keeps m p p (lt_irrefl p))
                  | inr f ↦ rw f (top_ask-keeps m p p (lt_irrefl p))
                ])
          | inr t ↦
              let off : first ≡ false = ground arith in
              let low : lt p best ≡ false = ground arith in
              rw (q, head, off, low) (top_ask-keeps m p best low)
        ]

  -- The top of a book: a best bid that no live bid is above and that is 0 or the price of one, and a
  -- best ask that no live ask is below and that is the price of one, or 0 where no ask is live.
  pub record IsTop (b : BookState F) : Type 0 where
    pub highest : (e : String × F) → IsLevel b.bids e → gt (text.parse e.0) b.best_bid ≡ false
    pub bid_real : (b.best_bid ≡ nought) ⊎ IsAttained b.bids b.best_bid
    pub lowest : (e : String × F) → IsLevel b.asks e → lt (text.parse e.0) b.best_ask ≡ false
    pub ask_real :
        ((b.best_ask ≡ nought) × All (λ e. le e.1 nought ≡ true) b.asks)
        ⊎ IsAttained b.asks b.best_ask

  -- What recomputeTop leaves is the top of the book's own levels, in whatever order the maps are
  -- walked: no live bid is priced above the best bid and no live ask below the best ask; the best bid
  -- is 0 or the price of a live bid; and the best ask is the price of a live ask, or 0 where no ask is
  -- live.
  pub recompute_top-IsTop : IsOrdered F fl → (b : BookState F) → IsTop (recompute_top text b)
  unfolding recompute_top recompute_depth
  recompute_top-IsTop laws b = record {
    highest = λ e l. top_bid-highest laws b.bids nought e l;
    bid_real = top_bid-IsAttained b.bids nought;
    lowest = λ e l. top_ask-lowest laws b.asks true nought e l;
    ask_real = top_ask-first b.asks nought;
  }

module _ {F : Type 0} ⦃fl : Float64 F⦄ (laws : IsOrdered F fl) where
  open fl use {lt, le, lit, add, sub, div}
  open laws use {le-eq-not-lt, lit-num}

  -- For prices that are no NaN: ValidBook is the condition under which Mid is the mean of the best
  -- prices; Mid is 0 in every other case; and a valid book's Spread is the difference.
  pub valid_book-mid :
      (b : BookState F)
      → IsNum b.best_bid
      → IsNum b.best_ask
      → (valid_book (some b) ≡ true
          → (mid b ≡ div (add b.best_bid b.best_ask) (lit 2 0))
            × (spread b ≡ sub b.best_ask b.best_bid))
        × (valid_book (some b) ≡ false → mid b ≡ nought)
  unfolding valid_book mid spread
  valid_book-mid b nb na =
      let zero_num : IsNum (nought {F = F}) = lit-num 0 0 (omega arith) (omega arith) in
      ground (
        arith,
        le-eq-not-lt b.best_bid nought nb zero_num,
        le-eq-not-lt b.best_ask nought na zero_num,
        le-eq-not-lt b.best_bid b.best_ask nb na,
      )
