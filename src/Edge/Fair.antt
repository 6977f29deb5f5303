-- ===== src/Edge/Fair.antt =====
-- internal/edge/fv.go, fv_negrisk.go and fv_external.go: the chain of fair values. A group's mids are the
-- pairs of its map, each key once, in the order in which they are walked.
pub mod Bounds
use poly_asian_data.Base.{
  ℕ, zero, suc, ◌+◌, String, Bool, true, false, not, ◌&&◌, ◌||◌, List, [], ◌∷◌, Option, none, some,
  ltb, leb, if◌then◌else◌, length, is_empty, str_eq, ◌==◌,
}
use poly_asian_data.Base.Dict.{Dict, lookup}
use poly_asian_data.Float.Defs.{Float64, gt, ge}
use poly_asian_data.Risk.{nought}
use poly_asian_data.Edge.{FeatureVector, Weights}

pub record FairValueInput (F : Type 0) : Type 0 where
  pub condition_id : String
  pub features : FeatureVector F
  pub group_mids : Dict F
  pub known_group_size : ℕ
  pub neg_risk_fee_bips : F
  pub underlying : Option F
  pub window_open : Option F

pub record FairValueOutput (F : Type 0) : Type 0 where
  pub fair_value : F
  pub confidence : F
  pub source : String
  pub incomplete : Bool

-- A provider: its name and its quote.
pub record Provider (F : Type 0) : Type 0 where
  pub provider_name : String
  pub quote : FairValueInput F → Option (FairValueOutput F)

-- `none` is a nil provider.
pub record FvChain (F : Type 0) : Type 0 where
  pub providers : List (Option (Provider F))
  pub min_confidence : F
  pub enabled : Bool

-- The variables of the loop over the group.
pub record Others (F : Type 0) : Type 0 where
  pub sum_others : F
  pub n_others : ℕ

abbrev pub fv_source_neg_risk : String
fv_source_neg_risk = "neg_risk_complement"

abbrev pub fv_source_external : String
fv_source_external = "external_underlying"

-- `if n <= 0 { n = d }`
abbrev pub nonzero_or : ℕ → ℕ → ℕ
nonzero_or d n = if n == 0 then d else n

abbrev known_size : ℕ → ℕ → ℕ → ℕ
known_size given n_mids n_others =
    let known = nonzero_or n_mids given in if ltb known (n_others + 1) then n_others + 1 else known

module _ {F : Type 0} ⦃fl : Float64 F⦄ where
  open fl use {lit, of_int, add, sub, mul, div, abs, min, max, lt, le}

  -- `clamp01`
  unfoldable pub clamp01 : F → F → F → F
  clamp01 v lo hi = if lt v lo then lo else if gt v hi then hi else v

  abbrev pub fv_clamp_lo : F
  fv_clamp_lo = lit 1 2

  abbrev pub fv_clamp_hi : F
  fv_clamp_hi = lit 99 2

  -- `ExternalUnderlying.Quote`
  unfoldable pub external_quote : FairValueInput F → Option (FairValueOutput F)
  unfolding clamp01
  external_quote input = elim input.underlying [
    | none ↦ none
    | some spot ↦ elim input.window_open [
      | none ↦ none
      | some open_price ↦
          let move = div (sub spot open_price) open_price in
          if le open_price nought
          then none
          else some (record {
            fair_value = clamp01 (add (lit 5 1) (mul move (lit 2 0))) fv_clamp_lo fv_clamp_hi;
            confidence = lit 35 2;
            source = fv_source_external;
            incomplete = false;
          })
    ]
  ]

  abbrev pub add_other : String → String → F → Others F → Others F
  add_other self id mid o =
      if str_eq id self || le mid nought || ge mid (lit 1 0)
      then o
      else record { sum_others = add o.sum_others mid; n_others = o.n_others + 1 }

  unfoldable pub sum_of_others : String → Dict F → Others F → Others F
  sum_of_others self [] o = o
  sum_of_others self ((id, mid) ∷ mids) o = sum_of_others self mids (add_other self id mid o)

  abbrev pub others_of : FairValueInput F → Others F
  others_of input =
      sum_of_others input.condition_id input.group_mids
        (record { sum_others = nought; n_others = 0 })

  -- The confidence, moved by how near the sum of all the mids is to 1.
  abbrev pub adjusted : F → Option F → F → F
  adjusted sum_others none conf = conf
  adjusted sum_others (some self) conf =
      let dev = abs (sub (add sum_others self) (lit 1 0)) in
      if not (gt self nought)
      then conf
      else if lt dev (lit 5 2)
      then min (lit 1 0) (add conf (lit 15 2))
      else if gt dev (lit 25 2)
      then max nought (sub conf (lit 15 2))
      else conf

  -- `NegRiskComplement.Quote`, with MinOtherLegs and FeeScale
  unfoldable pub complement_quote : ℕ → F → FairValueInput F → Option (FairValueOutput F)
  unfolding clamp01 sum_of_others
  complement_quote min_other_legs fee_scale input =
      let mids = input.group_mids in
      let o = others_of input in
      let plain = sub (lit 1 0) o.sum_others in
      let fv =
        if gt fee_scale nought && gt input.neg_risk_fee_bips nought
        then sub plain (mul (div input.neg_risk_fee_bips (lit 10_000 0)) fee_scale)
        else plain in
      let known = known_size input.known_group_size (length mids) o.n_others in
      let coverage = div (of_int (o.n_others + 1)) (of_int known) in
      let conf = adjusted o.sum_others (lookup input.condition_id mids) coverage in
      if is_empty input.condition_id || length mids == 0
      then none
      else if ltb o.n_others (nonzero_or 1 min_other_legs)
      then none
      else some (record {
        fair_value = clamp01 fv fv_clamp_lo fv_clamp_hi;
        confidence = if gt conf (lit 1 0) then lit 1 0 else conf;
        source = fv_source_neg_risk;
        incomplete = ltb (o.n_others + 1) known;
      })

  -- `NegRiskComplement` and `ExternalUnderlying`
  abbrev pub neg_risk_complement : ℕ → F → Provider F
  neg_risk_complement min_other_legs fee_scale = record {
    provider_name = fv_source_neg_risk;
    quote = complement_quote min_other_legs fee_scale;
  }

  abbrev pub external_underlying : Provider F
  external_underlying = record { provider_name = fv_source_external; quote = external_quote }

  abbrev pub confidence_or : F → F
  confidence_or c = if le c nought then lit 4 1 else c

  -- `DefaultFVChainFromWeights`, by the three fields that it reads
  abbrev pub fv_chain : Bool → F → ℕ → FvChain F
  fv_chain enabled min_confidence min_other_legs = record {
    providers =
        some (neg_risk_complement (nonzero_or 1 min_other_legs) nought)
        ∷ some external_underlying
        ∷ [];
    min_confidence = confidence_or min_confidence;
    enabled = enabled;
  }

  abbrev pub default_fv_chain_from_weights : Weights F → FvChain F
  default_fv_chain_from_weights w = fv_chain w.fv_enabled w.fv_min_confidence w.fv_min_other_legs

  abbrev pub default_fv_chain : F → FvChain F
  default_fv_chain min_conf = fv_chain true min_conf 1

  -- `IsExtremeMid`
  unfoldable pub is_extreme_mid : F → F → F → Bool
  is_extreme_mid mid lo hi =
      let lo' = if le lo nought then lit 5 2 else lo in
      let hi' = if le hi nought then lit 95 2 else hi in
      if le mid nought then false else lt mid lo' || gt mid hi'

  abbrev pub quote_of : Option (Provider F) → FairValueInput F → Option (FairValueOutput F)
  quote_of none input = none
  quote_of (some p) input = p.quote input

  abbrev pub is_sure : F → Option (FairValueOutput F) → Bool
  is_sure least none = false
  is_sure least (some q) = not (lt q.confidence least)

  unfoldable pub first_quote :
      F → List (Option (Provider F)) → FairValueInput F → Option (FairValueOutput F)
  first_quote least [] input = none
  first_quote least (p ∷ ps) input =
      let rest = first_quote least ps input in
      if is_sure least (quote_of p input) then quote_of p input else rest

  -- `FVChain.Resolve`
  unfoldable pub resolve : FvChain F → FairValueInput F → Option (FairValueOutput F)
  resolve chain input =
      if chain.enabled
      then first_quote (confidence_or chain.min_confidence) chain.providers input
      else none
