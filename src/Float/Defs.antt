-- ===== src/Float/Defs.antt =====
-- The operations on float64 and the laws of its comparisons and short literals.
use poly_asian_data.Base.{ℕ, ◌*◌, ◌^◌, ◌≤◌, ◌<◌, ◌≡◌, Bool, true, false, not}

-- `lit m k` is the literal m · 10^-k; `of_int` converts an int; `min` and `max` are
-- math.Min and math.Max. A comparison with NaN is false.
pub record Float64 (F : Type 0) : Type 0 where
  pub lit : ℕ → ℕ → F
  pub of_int : ℕ → F
  pub add : F → F → F
  pub sub : F → F → F
  pub mul : F → F → F
  pub div : F → F → F
  pub neg : F → F
  pub abs : F → F
  pub sqrt : F → F
  pub min : F → F → F
  pub max : F → F → F
  pub lt : F → F → Bool
  pub le : F → F → Bool
  pub eq : F → F → Bool

module _ {F : Type 0} ⦃fl : Float64 F⦄ where
  -- `x > y` and `x >= y`
  abbrev pub gt : F → F → Bool
  gt x y = fl.lt y x

  abbrev pub ge : F → F → Bool
  ge x y = fl.le y x

  -- Not a NaN.
  abbrev pub IsNum : F → Type 0
  IsNum x = fl.eq x x ≡ true

-- Laws of the comparisons of IEEE 754. A literal of at most 15 digits is a number, and two such
-- literals keep their order.
pub record IsOrdered (F : Type 0) (fl : Float64 F) : Type 0 where
  pub lt_irrefl : (x : F) → fl.lt x x ≡ false
  pub lt_trans : (x y z : F) → fl.lt x y ≡ true → fl.lt y z ≡ true → fl.lt x z ≡ true
  pub lt-not-le : (x y : F) → fl.lt x y ≡ true → fl.le y x ≡ false
  pub eq_sym : (x y : F) → fl.eq x y ≡ true → fl.eq y x ≡ true
  pub eq-not-lt : (x y : F) → fl.eq x y ≡ true → fl.lt x y ≡ false
  pub le-eq-not-lt : (x y : F) → fl.eq x x ≡ true → fl.eq y y ≡ true → fl.le x y ≡ not (fl.lt y x)
  pub lt-le-trans : (x y z : F) → fl.lt x y ≡ true → fl.le y z ≡ true → fl.lt x z ≡ true
  pub le-lt-trans : (x y z : F) → fl.le x y ≡ true → fl.lt y z ≡ true → fl.lt x z ≡ true
  pub neg-le : (x y : F) → fl.le x y ≡ true → fl.le (fl.neg y) (fl.neg x) ≡ true
  pub neg_zero-le : fl.le (fl.neg (fl.lit 0 0)) (fl.lit 0 0) ≡ true
  pub lit-num : (m k : ℕ) → m < 10 ^ 15 → k ≤ 20 → fl.eq (fl.lit m k) (fl.lit m k) ≡ true
  pub lit-lt :
      (m k n j : ℕ)
      → m < 10 ^ 15
      → k ≤ 20
      → n < 10 ^ 15
      → j ≤ 20
      → m * 10 ^ j < n * 10 ^ k
      → fl.lt (fl.lit m k) (fl.lit n j) ≡ true
