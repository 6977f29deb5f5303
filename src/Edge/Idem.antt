-- ===== src/Edge/Idem.antt =====
-- internal/edge: deriving the features of a book, and defaulting the weights, twice is doing so once.
use poly_asian_data.Base.{
  ◌≡◌, sym, ap, ◌∙◌, true, not, ◌&&◌, inl, inr, if◌then◌else◌, Bool-cases, is_empty, if_same,
  if_twice, or_twice, replace_twice,
}
use poly_asian_data.Float.Defs.{Float64, gt}
use poly_asian_data.Risk.{nought}
use poly_asian_data.Edge.{
  FeatureVector, Weights, fill_book_derived, default_weights, has_no_book, with_book,
}
use poly_asian_data.Edge.Score.{prepared, weights_or_default}

module _ {F : Type 0} ⦃fl : Float64 F⦄ where
  open fl use {eq, lt, le, add, sub, mul, div, lit}

  abbrev depth_of : FeatureVector F → F
  depth_of f = add f.bid_depth f.ask_depth

  with_book_idem : (d : F) (f : FeatureVector F) → with_book d (with_book d f) ≡ with_book d f
  with_book_idem d f =
      let mid = div (add f.best_bid f.best_ask) (lit 2 0) in
      λ i. record (with_book d f) {
        spread_bps =
            if_twice (gt mid nought) (div (mul (lit 10_000 0) (sub f.best_ask f.best_bid)) mid)
              f.spread_bps i;
        imbalance =
            replace_twice (gt (depth_of f) nought) (λ x. eq x nought) (div f.bid_depth (depth_of f))
              f.imbalance i;
        thin_book = or_twice (lt (depth_of f) (if le d nought then lit 10 0 else d)) f.thin_book i;
      }

  -- Deriving what the book gives twice is deriving it once.
  fill_book_derived_idem :
      (d : F) (f : FeatureVector F)
      → fill_book_derived d (fill_book_derived d f) ≡ fill_book_derived d f
  unfolding fill_book_derived
  fill_book_derived_idem d f = elim (Bool-cases (has_no_book f)) [
    | inl e ↦
        let gone : fill_book_derived d f ≡ record f { missing_book = true } =
          ap (λ b. if b then record f { missing_book = true } else with_book d f) e in
        ap (fill_book_derived d) gone
        ∙ ap
            (λ b.
              if b
              then record f { missing_book = true }
              else with_book d (record f { missing_book = true }))
            e
        ∙ sym gone
    | inr e ↦
        let there : fill_book_derived d f ≡ with_book d f =
          ap (λ b. if b then record f { missing_book = true } else with_book d f) e in
        ap (fill_book_derived d) there
        ∙ ap
            (λ b.
              if b
              then record (with_book d f) { missing_book = true }
              else with_book d (with_book d f))
            e
        ∙ with_book_idem d f
        ∙ sym there
  ]

  abbrev pub filled : Weights F → FeatureVector F → FeatureVector F
  filled w f =
      if eq f.mid nought && not f.missing_book then fill_book_derived w.min_depth_shares f else f

  filled_idem : (w : Weights F) (f : FeatureVector F) → filled w (filled w f) ≡ filled w f
  filled_idem w f =
      let d = w.min_depth_shares in
      let g = fill_book_derived d f in
      elim (Bool-cases (eq f.mid nought && not f.missing_book)) [
        | inl e ↦
            let once : filled w f ≡ g = ap (λ b. if b then g else f) e in
            let again : filled w g ≡ g =
              ap (λ h. if eq g.mid nought && not g.missing_book then h else g)
                (fill_book_derived_idem d f)
              ∙ if_same (eq g.mid nought && not g.missing_book) g in
            ap (filled w) once ∙ again ∙ sym once
        | inr e ↦ let once : filled w f ≡ f = ap (λ b. if b then g else f) e in ap (filled w) once
      ]

  pub prepared-filled :
      (w : Weights F) (f : FeatureVector F) → prepared w (filled w f) ≡ prepared w f
  unfolding prepared
  prepared-filled w f =
      ap
        (λ g.
          if gt w.max_feature_age_sec nought && gt g.feature_age_sec w.max_feature_age_sec
          then record g { stale_features = true }
          else g)
        (filled_idem w f)

  pub weights_or_default_idem :
      (w : Weights F) → weights_or_default (weights_or_default w) ≡ weights_or_default w
  weights_or_default_idem w = elim (Bool-cases (is_empty w.name)) [
    | inl e ↦
        let once : weights_or_default w ≡ default_weights =
          ap (λ b. if b then default_weights else w) e in
        ap weights_or_default once ∙ sym once
    | inr e ↦
        let once : weights_or_default w ≡ w = ap (λ b. if b then default_weights else w) e in
        ap weights_or_default once
  ]
