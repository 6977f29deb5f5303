-- ===== src/Gap/Grid.antt =====
-- internal/datagap/prices.go: the rounds of `BuildHourlyGrid` are enough.
use native.Mathlib.Nat.{lt-mul-div-succ, mul_comm, suc-mul, zero-mul}
use poly_asian_data.Base.{
  ℕ, zero, suc, ◌+◌, ◌-◌, ◌*◌, ◌/◌, ◌≤◌, ◌<◌, ◌≡◌, refl, ap, [], ◌∷◌, arith, leb, inl, inr,
  Bool-cases,
}
use poly_asian_data.Gap.Prices.{grid_from}

grid_from-end : (fuel step to t : ℕ) → to < t → grid_from fuel step to t ≡ []
unfolding grid_from
grid_from-end zero step to t h = refl
grid_from-end (suc fuel) step to t h = ground arith

-- More rounds than pass the end find no more times.
grid_from-more :
    (fuel more step to t : ℕ)
    → to < t + fuel * step
    → grid_from (fuel + more) step to t ≡ grid_from fuel step to t
unfolding grid_from
grid_from-more zero more step to t h =
    grid_from-end (0 + more) step to t (omega (arith, zero-mul step))
grid_from-more (suc fuel) more step to t h =
    let shift : suc fuel + more ≡ suc (fuel + more) = omega arith in
    rw shift (elim (Bool-cases (leb t to)) [
      | inl e ↦ rw e (
          ap (λ l. t ∷ l)
            (grid_from-more fuel more step to (t + step) (omega (arith, suc-mul fuel step))))
      | inr e ↦ rw e refl
    ])

-- The rounds of the grid, as many as the division says and one more, are enough: with more of them the
-- grid is the same.
pub build_hourly_grid-enough :
    (start to step more : ℕ)
    → 0 < step
    → start ≤ to
    → grid_from ((to - start) / step + 1 + more) step to start
      ≡ grid_from ((to - start) / step + 1) step to start
build_hourly_grid-enough start to step more p q =
    grid_from-more ((to - start) / step + 1) more step to start
      (omega (arith, lt-mul-div-succ (to - start) p, mul_comm step ((to - start) / step + 1)))
