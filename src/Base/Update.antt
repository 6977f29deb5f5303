-- ===== src/Base/Update.antt =====
-- A write to one element of a Go slice, and the last element.
use Prim.Native.Nat.{ℕ, zero, suc, ◌<◌}
use mathlib.Core.Path.{◌≡◌, refl, ap}
use mathlib.Core.Logic.{◌≢◌, ◌⊎◌, inl, inr}
use mathlib.Core.List.{List, [], ◌∷◌, ◌++◌}
use mathlib.Core.Option.{Option, none, some}
use native.Mathlib.Omega.{arith}
use poly_asian_data.Base.Lists.{get_elem?, length}

module _ {A : Type 0} where
  -- `xs[i] = x`
  abbrev pub set_at : ℕ → A → List A → List A
  set_at i x [] = []
  set_at zero x (y ∷ ys) = x ∷ ys
  set_at (suc i) x (y ∷ ys) = y ∷ set_at i x ys

  abbrev pub last : List A → Option A
  last [] = none
  last (x ∷ []) = some x
  last (x ∷ y ∷ ys) = last (y ∷ ys)

  pub get_elem?-set_at_other :
      (i j : ℕ) (x : A) (xs : List A) → i ≢ j → get_elem? (set_at i x xs) j ≡ get_elem? xs j
  get_elem?-set_at_other i j x [] h = refl
  get_elem?-set_at_other zero zero x (y ∷ ys) h = absurd (h refl)
  get_elem?-set_at_other zero (suc j) x (y ∷ ys) h = refl
  get_elem?-set_at_other (suc i) zero x (y ∷ ys) h = refl
  get_elem?-set_at_other (suc i) (suc j) x (y ∷ ys) h =
      get_elem?-set_at_other i j x ys (λ e. h (ap suc e))

  -- What stands at an index after a write to it is what was written.
  pub get_elem?-set_at_self :
      (i : ℕ) (x z : A) (xs : List A) → get_elem? (set_at i x xs) i ≡ some z → z ≡ x
  get_elem?-set_at_self i x z [] h = cc
  get_elem?-set_at_self zero x z (y ∷ ys) h = cc
  get_elem?-set_at_self (suc i) x z (y ∷ ys) h = get_elem?-set_at_self i x z ys h

  pub length-set_at : (i : ℕ) (x : A) (xs : List A) → length (set_at i x xs) ≡ length xs
  length-set_at i x [] = refl
  length-set_at zero x (y ∷ ys) = refl
  length-set_at (suc i) x (y ∷ ys) = ap suc (length-set_at i x ys)

  pub last-append : (xs : List A) (x : A) → last (xs ++ x ∷ []) ≡ some x
  last-append [] x = refl
  last-append (y ∷ []) x = refl
  last-append (y ∷ z ∷ zs) x = last-append (z ∷ zs) x

  -- What stands at an index after an append stood there, or is the new element at the end.
  pub get_elem?-append_one :
      (xs : List A) (x z : A) (i : ℕ)
      → get_elem? (xs ++ x ∷ []) i ≡ some z
      → (get_elem? xs i ≡ some z) ⊎ ((i ≡ length xs) × (z ≡ x))
  get_elem?-append_one [] x z zero h = inr (refl, cc)
  get_elem?-append_one [] x z (suc i) h = cc
  get_elem?-append_one (y ∷ ys) x z zero h = inl h
  get_elem?-append_one (y ∷ ys) x z (suc i) h = elim (get_elem?-append_one ys x z i h) [
    | inl e ↦ inl e
    | inr (e, q) ↦ inr (ap suc e, q)
  ]

  pub get_elem?-append_left :
      (xs ys : List A) (z : A) (i : ℕ) → get_elem? xs i ≡ some z → get_elem? (xs ++ ys) i ≡ some z
  get_elem?-append_left [] ys z i h = cc
  get_elem?-append_left (x ∷ xs) ys z zero h = h
  get_elem?-append_left (x ∷ xs) ys z (suc i) h = get_elem?-append_left xs ys z i h

  pub get_elem?-append_end : (xs : List A) (x : A) → get_elem? (xs ++ x ∷ []) (length xs) ≡ some x
  get_elem?-append_end [] x = refl
  get_elem?-append_end (y ∷ ys) x = get_elem?-append_end ys x

  -- An index at which something stands is below the length.
  pub get_elem?-lt-length : (xs : List A) (i : ℕ) (x : A) → get_elem? xs i ≡ some x → i < length xs
  get_elem?-lt-length [] i x h = cc
  get_elem?-lt-length (y ∷ ys) zero x h = omega arith
  get_elem?-lt-length (y ∷ ys) (suc i) x h = omega (arith, get_elem?-lt-length ys i x h)
