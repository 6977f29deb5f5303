-- ===== src/Sort.antt =====
-- sort.SliceStable, as a stable insertion sort: a stable sort by a strict weak order has one result.
use mathlib.Core.List.{Perm, map}
use mathlib.Core.List.Perm
use poly_asian_data.Base.{
  ◌+◌, refl, sym, ap, ◌∙◌, length, All, In, ◌≡◌, Bool, true, false, List, [], ◌∷◌, arith, inl, inr,
  Bool-cases, if◌then◌else◌,
}

module _ {A : Type 0} (less : A → A → Bool) where
  -- `x` stands in front of the elements that do not come before it.
  abbrev pub insert_by : A → List A → List A
  insert_by x [] = x ∷ []
  insert_by x (y ∷ ys) = let rest = insert_by x ys in if less y x then y ∷ rest else x ∷ y ∷ ys

  unfoldable pub stable_sort : List A → List A
  stable_sort [] = []
  stable_sort (x ∷ xs) = insert_by x (stable_sort xs)

  insert_by-perm : (x : A) (ys : List A) → Perm (insert_by x ys) (x ∷ ys)
  insert_by-perm x [] = Perm.refl _
  insert_by-perm x (y ∷ ys) = elim (Bool-cases (less y x)) [
    | inl e ↦ rw e (Perm.trans (Perm.cons y (insert_by-perm x ys)) (Perm.swap x y ys))
    | inr e ↦ rw e (Perm.refl _)
  ]

  -- Sorting keeps the elements, each as often.
  pub stable_sort-perm : (xs : List A) → Perm (stable_sort xs) xs
  unfolding stable_sort
  stable_sort-perm [] = Perm.refl _
  stable_sort-perm (x ∷ xs) =
      Perm.trans (insert_by-perm x (stable_sort xs)) (Perm.cons x (stable_sort-perm xs))

  All-insert_by {κ} :
      (P : A → Type κ) (x : A) (ys : List A) → P x → All P ys → All P (insert_by x ys)
  All-insert_by P x [] p h = (p, tt)
  All-insert_by P x (y ∷ ys) p h = elim (Bool-cases (less y x)) [
    | inl e ↦ rw e (h.0, All-insert_by P x ys p h.1)
    | inr e ↦ rw e (p, h)
  ]

  pub All-stable_sort {κ} : (P : A → Type κ) (xs : List A) → All P xs → All P (stable_sort xs)
  unfolding stable_sort
  All-stable_sort P [] h = tt
  All-stable_sort P (x ∷ xs) h = All-insert_by P x (stable_sort xs) h.0 (All-stable_sort P xs h.1)

  length-insert_by : (x : A) (ys : List A) → length (insert_by x ys) ≡ length ys + 1
  length-insert_by x [] = refl
  length-insert_by x (y ∷ ys) = ground (arith, length-insert_by x ys)

  pub length-stable_sort : (xs : List A) → length (stable_sort xs) ≡ length xs
  unfolding stable_sort
  length-stable_sort [] = refl
  length-stable_sort (x ∷ xs) =
      omega (arith, length-insert_by x (stable_sort xs), length-stable_sort xs)

  In-insert_by : (a x : A) (ys : List A) → In a (x ∷ ys) → In a (insert_by x ys)
  In-insert_by a x [] m = m
  In-insert_by a x (y ∷ ys) m = elim (Bool-cases (less y x)) [
    | inl b ↦ rw b (elim m [
      | inl e ↦ inr (In-insert_by a x ys (inl e))
      | inr q ↦ elim q [ inl e ↦ inl e | inr r ↦ inr (In-insert_by a x ys (inr r)) ]
    ])
    | inr b ↦ rw b m
  ]

  pub In-stable_sort : (a : A) (xs : List A) → In a xs → In a (stable_sort xs)
  unfolding stable_sort
  In-stable_sort a [] m = m
  In-stable_sort a (x ∷ xs) (inl e) = In-insert_by a x (stable_sort xs) (inl e)
  In-stable_sort a (x ∷ xs) (inr m) =
      In-insert_by a x (stable_sort xs) (inr (In-stable_sort a xs m))

  -- No element comes before the one in front of it.
  abbrev pub IsOrderly : List A → Type 0
  IsOrderly [] = Unit
  IsOrderly (x ∷ []) = Unit
  IsOrderly (x ∷ y ∷ ys) = (less y x ≡ false) × IsOrderly (y ∷ ys)

  module _ (asym : (x y : A) → less x y ≡ true → less y x ≡ false) where
    insert_by-IsOrderly : (x : A) (ys : List A) → IsOrderly ys → IsOrderly (insert_by x ys)
    insert_by-IsOrderly x [] h = tt
    insert_by-IsOrderly x (y ∷ []) h = ground (arith, asym y x)
    insert_by-IsOrderly x (y ∷ z ∷ zs) h =
        ground (arith, asym y x, asym z x, insert_by-IsOrderly x (z ∷ zs) h.1)

    pub stable_sort-IsOrderly : (xs : List A) → IsOrderly (stable_sort xs)
    unfolding stable_sort
    stable_sort-IsOrderly [] = tt
    stable_sort-IsOrderly (x ∷ xs) =
        insert_by-IsOrderly x (stable_sort xs) (stable_sort-IsOrderly xs)

-- Sorting commutes with a map that keeps the order of the elements that there are.
module _ {A B : Type 0} (f : A → B) (less : A → A → Bool) (less' : B → B → Bool) (P : A → Type 0)
    (same : (x y : A) → P x → P y → less x y ≡ less' (f x) (f y)) where
  map-insert_by :
      (x : A) (ys : List A)
      → P x
      → All P ys
      → map f (insert_by less x ys) ≡ insert_by less' (f x) (map f ys)
  map-insert_by x [] p h = refl
  map-insert_by x (y ∷ ys) p (q, h) = elim (Bool-cases (less y x)) [
    | inl e ↦
        let e' : less' (f y) (f x) ≡ true = sym (same y x q p) ∙ e in
        rw (e, e') (ap (λ r. f y ∷ r) (map-insert_by x ys p h))
    | inr e ↦ let e' : less' (f y) (f x) ≡ false = sym (same y x q p) ∙ e in rw (e, e') refl
  ]

  pub map-stable_sort :
      (xs : List A) → All P xs → map f (stable_sort less xs) ≡ stable_sort less' (map f xs)
  unfolding stable_sort
  map-stable_sort [] h = refl
  map-stable_sort (x ∷ xs) (p, h) =
      map-insert_by x (stable_sort less xs) p (All-stable_sort less P xs h)
      ∙ ap (insert_by less' (f x)) (map-stable_sort xs h)
