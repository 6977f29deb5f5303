-- ===== src/Float/FixedPoint.antt =====
-- Fixed-point numbers with 20 decimals: a concrete type that meets the laws, for runs.
use native.Mathlib.Nat.{lt_of_mul-lt-mul_right, pow-suc, add-zero}
use poly_asian_data.Base.{
  ℕ, zero, suc, ◌+◌, ◌-◌, ◌*◌, ◌/◌, ◌^◌, ◌≤◌, ◌<◌, ◌≡◌, refl, arith, ltb, leb, ◌==◌, ap, ◌∙◌,
  if◌then◌else◌,
}
use poly_asian_data.Float.Defs.{Float64, IsOrdered}

-- The number up - down, in units of 10^-20; one of the two is 0 in what the operations return.
pub record Fixed : Type 0 where
  pub up : ℕ
  pub down : ℕ

abbrev one : ℕ
one = 10 ^ 20

abbrev balance : ℕ → ℕ → Fixed
balance a b = record { up = a - b; down = b - a }

-- The integer square root, by bisection of the candidates below 2 ^ fuel.
abbrev isqrt_from : ℕ → ℕ → ℕ → ℕ
isqrt_from zero r n = r
isqrt_from (suc f) r n = let s = r + 2 ^ f in isqrt_from f (if leb (s * s) n then s else r) n

instance abbrev pub fixed_float : Float64 Fixed
fixed_float = record {
  lit = λ m k. record { up = m * 10 ^ (20 - k); down = 0 };
  of_int = λ n. record { up = n * one; down = 0 };
  add = λ x y. balance (x.up + y.up) (x.down + y.down);
  sub = λ x y. balance (x.up + y.down) (x.down + y.up);
  mul = λ x y.
      balance ((x.up * y.up + x.down * y.down) / one) ((x.up * y.down + x.down * y.up) / one);
  div = λ x y.
      let d = y.up + y.down in
      if leb y.down y.up
      then record { up = x.up * one / d; down = x.down * one / d }
      else record { up = x.down * one / d; down = x.up * one / d };
  neg = λ x. record { up = x.down; down = x.up };
  abs = λ x. record { up = x.up + x.down; down = 0 };
  sqrt = λ x. record { up = isqrt_from 64 0 (x.up * one); down = 0 };
  min = λ x y. if ltb (y.up + x.down) (x.up + y.down) then y else x;
  max = λ x y. if ltb (x.up + y.down) (y.up + x.down) then y else x;
  lt = λ x y. ltb (x.up + y.down) (y.up + x.down);
  le = λ x y. leb (x.up + y.down) (y.up + x.down);
  eq = λ x y. x.up + y.down == y.up + x.down;
}

pow-split : (d k : ℕ) → 10 ^ d * 10 ^ k ≡ 10 ^ (d + k)
pow-split d zero = rw add-zero (omega arith)
pow-split d (suc k) =
    let sum : d + suc k ≡ suc (d + k) = omega arith in
    rw sum (
      omega (
        arith,
        pow-suc 10 k,
        pow-suc 10 (d + k),
        ap (λ (t : ℕ). 10 ^ d * t) (pow-suc 10 k),
        ap (λ (t : ℕ). t * 10) (pow-split d k),
      ))

-- 10^(20 - k) · 10^k is the unit.
complement : (k : ℕ) → k ≤ 20 → 10 ^ (20 - k) * 10 ^ k ≡ one
complement k h =
    let sum : 20 - k + k ≡ 20 = omega arith in pow-split (20 - k) k ∙ ap (λ (t : ℕ). 10 ^ t) sum

lit-lt_Fixed :
    (m k n j : ℕ)
    → k ≤ 20
    → j ≤ 20
    → m * 10 ^ j < n * 10 ^ k
    → m * 10 ^ (20 - k) < n * 10 ^ (20 - j)
lit-lt_Fixed m k n j hk hj h = lt_of_mul-lt-mul_right (10 ^ k * 10 ^ j) (
    omega (
      arith,
      ap (λ (t : ℕ). t * (m * 10 ^ j)) (complement k hk),
      ap (λ (t : ℕ). t * (n * 10 ^ k)) (complement j hj),
    ))

pub Fixed-IsOrdered : IsOrdered Fixed fixed_float
Fixed-IsOrdered = record {
  lt_irrefl = λ x. ground arith;
  lt_trans = λ x y z h k. ground arith;
  lt-not-le = λ x y h. ground arith;
  eq_sym = λ x y h. ground arith;
  eq-not-lt = λ x y h. ground arith;
  le-eq-not-lt = λ x y h k. ground arith;
  lt-le-trans = λ x y z h k. ground arith;
  le-lt-trans = λ x y z h k. ground arith;
  neg-le = λ x y h. ground arith;
  neg_zero-le = refl;
  lit-num = λ m k h hk. ground arith;
  lit-lt = λ m k n j hm hk hn hj h. ground (arith, lit-lt_Fixed m k n j hk hj h);
}
