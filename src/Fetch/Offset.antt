-- ===== src/Fetch/Offset.antt =====
-- internal/fetcher/paginate.go: `FetchPaginated` reads all items of a server that serves pages of a
-- list by offset and limit.
use poly_asian_data.Base.{
  ℕ, zero, suc, ◌+◌, ◌≤◌, ◌<◌, ◌≡◌, refl, ◌∙◌, ap, ◌⊎◌, inl, inr, true, false, ◌||◌, List, [], ◌∷◌,
  ◌++◌, Option, none, some, arith, ltb, length, length-append, take, drop, Bool-cases,
}
use poly_asian_data.Fetch.{
  Fetched, Reply, Server, is_page_empty, is_enough, turn_page, receive, fetch_from, fetch_paginated,
}

-- A server that answers each request with the page of `items` that it asks for, for a context that
-- never ends.
pub record Serves {T : Type 0} (web : Server ℕ (Reply T)) (items : List T) (limit : ℕ)
    : Type 0 where
  pub never_done : (n : ℕ) → web.is_done n ≡ false
  pub never_cut : (n : ℕ) → web.is_cut n ≡ false
  pub pages : (n offset : ℕ) → web.answer n offset ≡ Reply.page (take limit (drop offset items))

module _ {T : Type 0} where
  take-nil : (l : ℕ) → take {A = T} l [] ≡ []
  take-nil zero = refl
  take-nil (suc l) = refl

  take-all : (k : ℕ) (xs : List T) → length xs ≤ k → take k xs ≡ xs
  take-all zero [] h = refl
  take-all zero (x ∷ xs) h = absurd (omega arith)
  take-all (suc k) [] h = refl
  take-all (suc k) (x ∷ xs) h = ap (λ (ys : List T). x ∷ ys) (take-all k xs (omega arith))

  page-empty : (xs : List T) → is_page_empty xs ≡ true → length xs ≡ 0
  page-empty [] h = refl
  page-empty (x ∷ xs) h = cc

  take-drop : (o l : ℕ) (xs : List T) → take o xs ++ take l (drop o xs) ≡ take (o + l) xs
  take-drop zero l xs = let e : l ≡ 0 + l = omega arith in ap (λ (n : ℕ). take n xs) e
  take-drop (suc o) l [] =
      let e : suc (o + l) ≡ suc o + l = omega arith in
      take-nil l ∙ ap (λ (n : ℕ). take {A = T} n []) e
  take-drop (suc o) l (x ∷ xs) =
      let e : suc (o + l) ≡ suc o + l = omega arith in
      ap (λ (ys : List T). x ∷ ys) (take-drop o l xs) ∙ ap (λ (n : ℕ). take n (x ∷ xs)) e

  -- A page that is not full is the last one.
  take-short :
      (o l : ℕ) (xs : List T)
      → o ≤ length xs
      → length (take l (drop o xs)) < l
      → o + length (take l (drop o xs)) ≡ length xs
  take-short zero zero xs h s = absurd (omega arith)
  take-short zero (suc l) [] h s = omega arith
  take-short zero (suc l) (x ∷ xs) h s =
      omega (arith, take-short zero l xs (omega arith) (omega arith))
  take-short (suc o) l [] h s = absurd (omega arith)
  take-short (suc o) l (x ∷ xs) h s = omega (arith, take-short o l xs (omega arith) s)

  -- A page stays within the list and within the limit.
  take-within :
      (o l : ℕ) (xs : List T)
      → o ≤ length xs
      → (o + length (take l (drop o xs)) ≤ length xs)
        × (length (take l (drop o xs)) ≤ l)
        × (length (take o xs) ≡ o)
  take-within zero zero xs h = (omega arith, omega arith, omega arith)
  take-within zero (suc l) [] h = (omega arith, omega arith, omega arith)
  take-within zero (suc l) (x ∷ xs) h =
      let (a, b, c) = take-within zero l xs (omega arith) in (omega arith, omega arith, omega arith)
  take-within (suc o) l [] h = absurd (omega arith)
  take-within (suc o) l (x ∷ xs) h =
      let (a, b, c) = take-within o l xs (omega arith) in (omega arith, b, omega arith)

  -- The list up to `k`, all of it or enough for the threshold.
  abbrev IsUpTo : List T → ℕ → ℕ → ℕ → Type 0
  IsUpTo items limit threshold k =
      (length items ≤ k) ⊎ ((0 < threshold) × (threshold ≤ k) × (k < threshold + limit))

  module _ (web : Server ℕ (Reply T)) (items : List T) (limit threshold : ℕ)
      (s : Serves web items limit) where
    abbrev Reads : Option (Fetched T) → Type 0
    Reads o =
        (k : ℕ) × (o ≡ some (record { items = take k items; err = none }))
        × IsUpTo items limit threshold k

    fetch_from-Reads :
        (fuel n o offset : ℕ) (acc : List T)
        → 0 < limit
        → o ≤ length items
        → (threshold ≡ 0) ⊎ (o < threshold)
        → length items < o + fuel
        → offset ≡ o
        → acc ≡ take o items
        → Reads (fetch_from web limit threshold fuel n offset acc)
    unfolding fetch_from receive turn_page
    fetch_from-Reads zero n o offset acc p h t f eo ea = absurd (omega arith)
    fetch_from-Reads (suc fuel) n o offset acc p h t f eo ea =
        let xs = take limit (drop o items) in
        let (within, few, taken) = take-within o limit items h in
        let all : acc ++ xs ≡ take (o + limit) items =
          ap (λ (ys : List T). ys ++ xs) ea ∙ take-drop o limit items in
        let size : length (acc ++ xs) ≡ o + length xs =
          omega (arith, length-append acc xs, ap (λ (ys : List T). length ys) ea) in
        rw (s.never_done n, eo, s.pages n o, s.never_cut n)
          (elim (Bool-cases (is_page_empty xs)) [
            | inl e ↦
                let end = take-short o limit items h (omega (arith, page-empty xs e)) in
                rw e (
                  o,
                  ap (λ (ys : List T). some (record { items = ys; err = none })) ea,
                  inl (omega (arith, page-empty xs e)),
                )
            | inr e ↦ elim (Bool-cases (is_enough threshold (acc ++ xs) || ltb (length xs) limit)) [
              | inl l ↦
                  rw (e, l)
                    (
                      o + limit,
                      ap (λ (ys : List T). some (record { items = ys; err = none })) all,
                      ground (arith, size, few, take-short o limit items h),
                    )
              | inr l ↦
                  let full : length xs ≡ limit = ground arith in
                  rw (e, l)
                    (fetch_from-Reads fuel (n + 1) (o + limit) (o + length xs) (acc ++ xs) p
                      (omega arith) (ground arith) (omega arith) (omega arith) all)
            ]
          ])

    -- From a server that pages through a list, with a positive limit and no cancellation,
    -- FetchPaginated returns without a threshold the whole list, after at most one request more than
    -- the list has items; and with one a first part of the list, which is either all of it or has at
    -- least the threshold and less than a page more.
    pub fetch_paginated-reads :
        0 < limit
        → (threshold ≡ 0
            → fetch_paginated web true limit threshold (length items + 1)
              ≡ some (record { items = items; err = none }))
          × ((k : ℕ) × (fetch_paginated web true limit threshold (length items + 1)
                ≡ some (record { items = take k items; err = none }))
              × ((length items ≤ k)
                  ⊎ ((0 < threshold) × (threshold ≤ k) × (k < threshold + limit))))
    unfolding fetch_paginated
    fetch_paginated-reads p =
        let start : (threshold ≡ 0) ⊎ (0 < threshold) = ground arith in
        let (k, e, up) =
          fetch_from-Reads (length items + 1) 0 0 0 [] p (omega arith) start (omega arith) refl
            refl in
        (
          λ z.
              let whole : length items ≤ k = ground arith in
              e
              ∙ ap (λ (ys : List T). some (record { items = ys; err = none }))
                  (take-all k items whole),
          (k, e, up),
        )
