-- ===== src/Gap/Between.antt =====
-- internal/datagap/prices.go: where a synthetic price comes from.
use poly_asian_data.Base.{
  ◌⊎◌, ◌-◌, if◌then◌else◌, ℕ, zero, suc, ◌+◌, ◌≤◌, ◌<◌, ◌≡◌, refl, ap, sym, ◌∙◌, String, true,
  false, ◌&&◌, List, Option, none, some, arith, inl, inr, Bool-cases, length, get_elem?, ltb, leb,
}
use poly_asian_data.Base.Update.{get_elem?-lt-length}
use poly_asian_data.Float.Defs.{Float64, IsOrdered}
use poly_asian_data.Risk.{nought, unit}
use poly_asian_data.Gap.{Opts, source_synth_interp, source_synth_hold}
use poly_asian_data.Gap.Search.{IsFound, search-IsFound}
use poly_asian_data.Gap.Prices.{
  PricePoint, is_after, next_at, before, clamp_price, interpolate, hold_right, hold_left,
  synth_between, synth_at,
}

-- Laws of the signs of IEEE 754, as comparisons that are false; a NaN meets them all.
pub record HasSigns (F : Type 0) (fl : Float64 F) : Type 0 where
  pub sub-nonneg : (x y : F) → fl.lt x y ≡ false → fl.lt (fl.sub x y) (fl.lit 0 0) ≡ false
  pub sub-nonpos : (x y : F) → fl.lt y x ≡ false → fl.lt (fl.lit 0 0) (fl.sub x y) ≡ false
  pub mul-nonneg :
      (x y : F)
      → fl.lt x (fl.lit 0 0) ≡ false
      → fl.lt y (fl.lit 0 0) ≡ false
      → fl.lt (fl.mul x y) (fl.lit 0 0) ≡ false
  pub mul-nonpos :
      (x y : F)
      → fl.lt x (fl.lit 0 0) ≡ false
      → fl.lt (fl.lit 0 0) y ≡ false
      → fl.lt (fl.lit 0 0) (fl.mul x y) ≡ false
  pub add-nonneg : (x y : F) → fl.lt y (fl.lit 0 0) ≡ false → fl.lt (fl.add x y) x ≡ false
  pub add-nonpos : (x y : F) → fl.lt (fl.lit 0 0) y ≡ false → fl.lt x (fl.add x y) ≡ false

module _ {F : Type 0} ⦃fl : Float64 F⦄ where
  open fl use {of_int, add, sub, mul, div, lt}

  -- The share of the time between two anchors that has passed, cut to 0 and 1.
  pub record Share (left right : PricePoint F) (t : ℕ) (f : F) : Type 0 where
    pub not_below_zero : lt f nought ≡ false
    pub not_above_one : lt unit f ≡ false
    pub cut_of :
        let ratio = div (of_int (t - left.time)) (of_int (right.time - left.time)) in
        (f ≡ ratio)
        ⊎ ((lt ratio nought ≡ true) × (f ≡ nought))
        ⊎ ((lt unit ratio ≡ true) × (f ≡ unit))

  -- A price on the way from the left anchor to the right one, by the share of the time that has
  -- passed: it is not behind the left price, seen from the right one.
  pub record OnTheWay (left right : PricePoint F) (t : ℕ) (x : F) : Type 0 where
    pub share : F
    pub share_of : Share left right t share
    pub moved : x ≡ add left.price (mul share (sub right.price left.price))
    pub not_below : (lt right.price left.price ≡ true) ⊎ (lt x left.price ≡ false)
    pub not_above : (lt left.price right.price ≡ true) ⊎ (lt left.price x ≡ false)

  interpolate-OnTheWay :
      IsOrdered F fl
      → HasSigns F fl
      → (l r : PricePoint F) (t : ℕ) → OnTheWay l r t (interpolate l r t)
  unfolding interpolate
  interpolate-OnTheWay laws signs l r t =
      let frac = div (of_int (t - l.time)) (of_int (r.time - l.time)) in
      let low = if lt frac nought then nought else frac in
      let f = if lt unit low then unit else low in
      let apart : lt unit (nought {F = F}) ≡ false = ground (
        arith,
        laws.lit-lt 0 0 1 0,
        laws.lt_trans unit nought unit,
        laws.lt_irrefl (unit {F = F}),
      ) in
      let nonneg : lt f nought ≡ false = ground (arith, apart, laws.lt_irrefl (nought {F = F})) in
      let step = mul f (sub r.price l.price) in
      record {
        share = f;
        share_of = record {
          not_below_zero = nonneg;
          not_above_one = ground (arith, apart, laws.lt_irrefl (unit {F = F}));
          cut_of = ground (arith, apart);
        };
        moved = refl;
        not_below = elim (Bool-cases (lt r.price l.price)) [
          | inl e ↦ inl e
          | inr e ↦ inr (
              signs.add-nonneg l.price step
                (signs.mul-nonneg f _ nonneg (signs.sub-nonneg r.price l.price e)))
        ];
        not_above = elim (Bool-cases (lt l.price r.price)) [
          | inl e ↦ inl e
          | inr e ↦ inr (
              signs.add-nonpos l.price step
                (signs.mul-nonpos f _ nonneg (signs.sub-nonpos r.price l.price e)))
        ];
      }

  -- The price of a point on the way between two neighbours around the time, which are at most MaxGap
  -- apart, cut to the floor and the ceiling.
  pub record Interpolated (o : Opts F) (ps : List (PricePoint F)) (t : ℕ) (p : F) : Type 0 where
    pub index : ℕ
    pub left : PricePoint F
    pub right : PricePoint F
    pub at_left : get_elem? ps index ≡ some left
    pub at_right : get_elem? ps (index + 1) ≡ some right
    pub around : (left.time ≤ t) × (t < right.time)
    pub close : right.time ≤ left.time + o.max_gap
    pub on_the_way : F
    pub way : OnTheWay left right t on_the_way
    pub price : p ≡ clamp_price o on_the_way

  -- The price of an anchor at most HoldMax away.
  pub record Held (o : Opts F) (ps : List (PricePoint F)) (t : ℕ) (p : F) : Type 0 where
    pub index : ℕ
    pub anchor : PricePoint F
    pub at_anchor : get_elem? ps index ≡ some anchor
    pub near : (t ≤ anchor.time + o.hold_max) × (anchor.time ≤ t + o.hold_max)
    pub price : p ≡ clamp_price o anchor.price

  -- Where a synthetic price comes from, by its source.
  pub data Origin (o : Opts F) (ps : List (PricePoint F)) (t : ℕ)
      : Option (F × String) → Type 0 where
    unknown : Origin o ps t none
    between : (p : F) → Interpolated o ps t p → Origin o ps t (some (p, source_synth_interp))
    held : (p : F) → Held o ps t p → Origin o ps t (some (p, source_synth_hold))

  module _ (laws : IsOrdered F fl) (signs : HasSigns F fl) (o : Opts F) (ps : List (PricePoint F))
      (t : ℕ) where
    hold_right-Origin :
        (r : Option (PricePoint F)) (k : ℕ) → get_elem? ps k ≡ r → Origin o ps t (hold_right o t r)
    hold_right-Origin none k e = unknown
    hold_right-Origin (some r) k e =
        elim (Bool-cases (leb t r.time && leb r.time (t + o.hold_max))) [
          | inl b ↦ rw b (
              held _ (record {
                index = k;
                anchor = r;
                at_anchor = e;
                near = (ground arith, ground arith);
                price = refl;
              }))
          | inr b ↦ rw b unknown
        ]

    hold_left-Origin :
        (l r : Option (PricePoint F)) (k : ℕ)
        → before ps k ≡ l
        → get_elem? ps k ≡ r
        → Origin o ps t (hold_left o t l r)
    hold_left-Origin none r k e q = hold_right-Origin r k q
    hold_left-Origin (some l) r zero e q = cc
    hold_left-Origin (some l) r (suc k) e q =
        elim (Bool-cases (leb l.time t && leb t (l.time + o.hold_max))) [
          | inl b ↦ rw b (
              held _ (record {
                index = k;
                anchor = l;
                at_anchor = e;
                near = (ground arith, ground arith);
                price = refl;
              }))
          | inr b ↦ rw b (hold_right-Origin r (suc k) q)
        ]

    -- What the search says of the anchors around its index.
    next_at-around :
        (k : ℕ)
        → IsFound (length ps) (λ j. is_after t (get_elem? ps j)) k
        → (l r : PricePoint F) → before ps k ≡ some l
        → get_elem? ps k ≡ some r
        → (l.time ≤ t) × (t < r.time)
    next_at-around zero f l r e q = cc
    next_at-around (suc k) f l r e q =
        let early : ltb t l.time ≡ false = ap (is_after t) (sym e) ∙ f.fails k refl in
        let late : ltb t r.time ≡ true =
          ap (is_after t) (sym q) ∙ f.holds (get_elem?-lt-length ps (suc k) r q) in
        (ground arith, ground arith)

    synth_between-Origin :
        (k : ℕ)
        → IsFound (length ps) (λ j. is_after t (get_elem? ps j)) k
        → (l r : Option (PricePoint F)) → before ps k ≡ l
        → get_elem? ps k ≡ r
        → Origin o ps t (synth_between o t l r)
    unfolding synth_between
    synth_between-Origin k f none r e q = hold_left-Origin none r k e q
    synth_between-Origin k f (some l) none e q = hold_left-Origin (some l) none k e q
    synth_between-Origin zero f (some l) (some r) e q = cc
    synth_between-Origin (suc k) f (some l) (some r) e q =
        elim (Bool-cases (ltb l.time r.time && leb r.time (l.time + o.max_gap))) [
          | inl b ↦ rw b (
              between _ (record {
                index = k;
                left = l;
                right = r;
                at_left = e;
                at_right = ap (get_elem? ps) (omega arith) ∙ q;
                around = next_at-around (suc k) f l r e q;
                close = ground arith;
                on_the_way = interpolate l r t;
                way = interpolate-OnTheWay laws signs l r t;
                price = refl;
              }))
          | inr b ↦ rw b (hold_left-Origin (some l) (some r) (suc k) e q)
        ]

  -- A synthetic price is that of an anchor at most HoldMax away, or is interpolated from two neighbouring
  -- anchors around the time that are at most MaxGap apart, cut to the floor and the ceiling; its source
  -- says which. What is cut is the left price plus a share of the difference: the share of the time that
  -- has passed, cut to 0 and 1. It does not compare less than the left price unless the right one is
  -- less, nor greater unless the right one is greater.
  pub synth_at-Origin :
      IsOrdered F fl
      → HasSigns F fl
      → (o : Opts F) (ps : List (PricePoint F)) (t : ℕ) → Origin o ps t (synth_at o ps t)
  unfolding synth_at
  synth_at-Origin laws signs o ps t =
      let k = next_at ps t in
      synth_between-Origin laws signs o ps t k
        (search-IsFound (length ps) (λ j. is_after t (get_elem? ps j))) (before ps k)
        (get_elem? ps k) refl refl
