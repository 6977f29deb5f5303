-- ===== src/Gap/Signs.antt =====
-- The fixed-point numbers meet the laws of the signs.
use poly_asian_data.Base.{ap, ◌/◌, ◌^◌, ℕ, ◌+◌, ◌-◌, ◌*◌, ◌≤◌, ◌≡◌, arith}
use poly_asian_data.Float.FixedPoint.{Fixed, fixed_float}
use poly_asian_data.Gap.Between.{HasSigns}

-- The sum of the products of the greater and of the smaller numbers is not the smaller one.
rearrange : (a b c d : ℕ) → b ≤ a → d ≤ c → a * d + b * c ≤ a * c + b * d
rearrange a b c d h k =
    let e = a - b in
    let whole : b + e ≡ a = omega arith in
    let split : d + (c - d) ≡ c = omega arith in
    omega
      (arith, ap (λ (u : ℕ). u * d) whole, ap (λ (u : ℕ). u * c) whole, ap (λ (u : ℕ). e * u) split)

-- The quotients of the sums keep their order.
scaled : (a b : ℕ) → b ≤ a → b / 10 ^ 20 ≤ a / 10 ^ 20
scaled a b h = omega arith

pub Fixed-HasSigns : HasSigns Fixed fixed_float
Fixed-HasSigns = record {
  sub-nonneg = λ x y h. ground arith;
  sub-nonpos = λ x y h. ground arith;
  mul-nonneg = λ x y h k. ground (
    arith,
    scaled (x.up * y.up + x.down * y.down) (x.up * y.down + x.down * y.up),
    rearrange x.up x.down y.up y.down,
  );
  mul-nonpos = λ x y h k. ground (
    arith,
    scaled (x.up * y.down + x.down * y.up) (x.up * y.up + x.down * y.down),
    rearrange x.up x.down y.down y.up,
  );
  add-nonneg = λ x y h. ground arith;
  add-nonpos = λ x y h. ground arith;
}
