-- ===== src/Edge/Fair/Bounds.antt =====
-- internal/edge/fv.go: what the chain of the strategy's weights can quote.
use poly_asian_data.Base.{
  ℕ, ◌≡◌, ◌⊎◌, inl, inr, refl, ap, sym, subst, String, Bool, true, false, ◌||◌, List, [], ◌∷◌,
  Option, none, some, if◌then◌else◌, arith, Bool-cases, ltb, length, is_empty, ◌==◌, All,
}
use poly_asian_data.Float.Defs.{Float64, IsOrdered}
use poly_asian_data.Risk.{nought}
use poly_asian_data.Edge.{Weights}
use poly_asian_data.Edge.Fair.{
  FairValueInput, FairValueOutput, Provider, clamp01, external_quote, complement_quote, first_quote,
  resolve, default_fv_chain_from_weights, fv_clamp_lo, fv_clamp_hi, confidence_or, nonzero_or,
  others_of, quote_of, is_sure, fv_source_neg_risk, fv_source_external,
}

module _ {F : Type 0} ⦃fl : Float64 F⦄ (ord : IsOrdered F fl) where
  open fl use {lit, lt, le}

  -- A quote whose price does not compare less than the lower clamp or greater than the upper one, and
  -- whose confidence does not compare greater than 1. A NaN passes these tests, and the clamp keeps it.
  pub record IsQuote (q : FairValueOutput F) : Type 0 where
    pub not_below : lt q.fair_value fv_clamp_lo ≡ false
    pub not_above : lt fv_clamp_hi q.fair_value ≡ false
    pub at_most_sure : lt (lit 1 0) q.confidence ≡ false
    pub from_either : (q.source ≡ fv_source_neg_risk) ⊎ (q.source ≡ fv_source_external)

  clamps_apart : lt fv_clamp_hi fv_clamp_lo ≡ false
  clamps_apart =
      let up =
        ord.lit-lt 1 2 99 2 (omega arith) (omega arith) (omega arith) (omega arith) (omega arith) in
      ground (arith, ord.lt_trans fv_clamp_lo fv_clamp_hi fv_clamp_lo, ord.lt_irrefl fv_clamp_lo)

  clamp01_bounds :
      (v : F)
      → let x = clamp01 v fv_clamp_lo fv_clamp_hi in
        (lt x fv_clamp_lo ≡ false) × (lt fv_clamp_hi x ≡ false)
  unfolding clamp01
  clamp01_bounds v =
      ground (arith, clamps_apart, ord.lt_irrefl fv_clamp_lo, ord.lt_irrefl fv_clamp_hi)

  quoted :
      (v conf : F) (source : String) (partial : Bool) (q : FairValueOutput F)
      → some record {
        fair_value = clamp01 v fv_clamp_lo fv_clamp_hi;
        confidence = conf;
        source = source;
        incomplete = partial;
      }
        ≡ some q
      → lt (lit 1 0) conf ≡ false
      → (source ≡ fv_source_neg_risk) ⊎ (source ≡ fv_source_external)
      → IsQuote q
  quoted v conf source partial q h c o =
      let made : FairValueOutput F = record {
        fair_value = clamp01 v fv_clamp_lo fv_clamp_hi;
        confidence = conf;
        source = source;
        incomplete = partial;
      } in
      let same : made ≡ q = cc in
      let (low, high) = clamp01_bounds v in
      subst IsQuote same
        (record { not_below = low; not_above = high; at_most_sure = c; from_either = o })

  quarter_sure : lt (lit 1 0) (lit 35 2) ≡ false
  quarter_sure =
      let up =
        ord.lit-lt 35 2 1 0 (omega arith) (omega arith) (omega arith) (omega arith) (omega arith) in
      ground (arith, ord.lt_trans (lit 1 0) (lit 35 2) (lit 1 0), ord.lt_irrefl (lit 1 0))

  external_quote-IsQuote :
      (input : FairValueInput F) (q : FairValueOutput F) → external_quote input ≡ some q → IsQuote q
  unfolding external_quote
  external_quote-IsQuote input q h = go input.underlying input.window_open h
    where
      go :
          (spot open_price : Option F)
          → external_quote (record input { underlying = spot; window_open = open_price }) ≡ some q
          → IsQuote q
      go none p h = cc
      go (some s) none h = cc
      go (some s) (some p) h = elim (Bool-cases (le p nought)) [
        | inl e ↦ let h' = rw e at h in cc
        | inr e ↦ quoted _ _ _ _ q (rw e at h) quarter_sure (inr refl)
      ]

  complement_quote-IsQuote :
      (least : ℕ) (scale : F) (input : FairValueInput F) (q : FairValueOutput F)
      → complement_quote least scale input ≡ some q
      → IsQuote q
  unfolding complement_quote
  complement_quote-IsQuote least scale input q h =
      elim (Bool-cases (is_empty input.condition_id || length input.group_mids == 0)) [
        | inl e ↦ let h' = rw e at h in cc
        | inr e ↦
            let o = others_of input in
            elim (Bool-cases (ltb o.n_others (nonzero_or 1 least))) [
              | inl t ↦ let h' = rw (e, t) at h in cc
              | inr t ↦
                  quoted _ _ _ _ q (rw (e, t) at h) (ground (arith, ord.lt_irrefl (lit 1 0)))
                    (inl refl)
            ]
      ]

  -- The first quote is one of a provider, and sure enough.
  first_quote-from :
      (P : FairValueOutput F → Type 0) (least : F) (input : FairValueInput F)
      (ps : List (Option (Provider F))) (q : FairValueOutput F)
      → All (λ p. (q : FairValueOutput F) → quote_of p input ≡ some q → P q) ps
      → first_quote least ps input ≡ some q
      → P q × (lt q.confidence least ≡ false)
  unfolding first_quote
  first_quote-from P least input [] q all h = cc
  first_quote-from P least input (p ∷ ps) q (a, all) h =
      elim (Bool-cases (is_sure least (quote_of p input))) [
        | inl e ↦
            let own : quote_of p input ≡ some q = rw e at h in
            let sure : is_sure least (some q) ≡ true = rw own at e in (a q own, ground arith)
        | inr e ↦ first_quote-from P least input ps q all (rw e at h)
      ]

  first_quote-none :
      (least : F) (input : FairValueInput F) (ps : List (Option (Provider F)))
      → first_quote least ps input ≡ none
      → All (λ p. is_sure least (quote_of p input) ≡ false) ps
  unfolding first_quote
  first_quote-none least input [] h = tt
  first_quote-none least input (p ∷ ps) h = elim (Bool-cases (is_sure least (quote_of p input))) [
    | inl e ↦
        let missing : quote_of p input ≡ none = rw e at h in
        let sure : is_sure {F = F} least none ≡ true = rw missing at e in cc
    | inr e ↦ (e, first_quote-none least input ps (rw e at h))
  ]

  abbrev pub least_sure : Weights F → F
  least_sure w = confidence_or (confidence_or w.fv_min_confidence)

  -- What the chain of the weights may answer.
  abbrev pub Resolved : Weights F → FairValueInput F → Option (FairValueOutput F) → Type 0
  Resolved w input none =
      (w.fv_enabled ≡ false)
      ⊎ All (λ p. is_sure (least_sure w) (quote_of p input) ≡ false)
          (default_fv_chain_from_weights w).providers
  Resolved w input (some q) =
      IsQuote q × (lt q.confidence (least_sure w) ≡ false) × (w.fv_enabled ≡ true)

  -- A quote of the chain of the weights is by one of its two providers, its price does not compare less
  -- than 0.01 or greater than 0.99, nor its confidence less than the weights ask or greater than 1, and the
  -- chain is enabled; with no quote it is disabled or no provider has a quote that is sure enough.
  pub resolve-Resolved :
      (w : Weights F) (input : FairValueInput F)
      → Resolved w input (resolve (default_fv_chain_from_weights w) input)
  unfolding resolve
  resolve-Resolved w input =
      let chain = default_fv_chain_from_weights w in
      let quote = first_quote (least_sure w) chain.providers input in
      elim (Bool-cases w.fv_enabled) [
        | inl e ↦
            subst (Resolved w input) (ap (λ b. if b then quote else none) (sym e)) (go e quote refl)
        | inr e ↦ subst (Resolved w input) (ap (λ b. if b then quote else none) (sym e)) (inl e)
      ]
    where
      go :
          w.fv_enabled ≡ true
          → (a : Option (FairValueOutput F))
          → first_quote (least_sure w) (default_fv_chain_from_weights w).providers input ≡ a
          → Resolved w input a
      go e none h =
          inr (first_quote-none (least_sure w) input (default_fv_chain_from_weights w).providers h)
      go e (some q) h =
          let (good, sure) =
            first_quote-from IsQuote (least_sure w) input
              (default_fv_chain_from_weights w).providers q
              (
                complement_quote-IsQuote (nonzero_or 1 w.fv_min_other_legs) nought input,
                (external_quote-IsQuote input, tt),
              )
              h in
          (good, sure, e)
