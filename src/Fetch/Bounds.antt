-- ===== src/Fetch/Bounds.antt =====
-- internal/fetcher/paginate.go: a read with a threshold ends, whatever the server answers, and what
-- comes with an error.
use poly_asian_data.Base.{
  ℕ, zero, suc, ◌+◌, ◌≤◌, ◌<◌, ◌≡◌, refl, ◌⊎◌, inl, inr, String, Bool, true, false, not, ◌&&◌, ◌||◌,
  List, [], ◌∷◌, ◌++◌, Option, none, some, arith, ltb, is_empty, length, length-append, Bool-cases,
}
use poly_asian_data.Fetch.{
  cancelled, Fetched, Reply, KeysetReply, Server, turn_page, receive, receive_keyset, is_page_empty,
  is_enough, fetch_from, fetch_paginated, keyset_from, fetch_paginated_keyset,
}

module _ {T : Type 0} where
  page-pos : (xs : List T) → is_page_empty xs ≡ false → 0 < length xs
  page-pos [] h = cc
  page-pos (x ∷ xs) h = omega arith

  -- Only a cancellation comes with items.
  abbrev pub IsWhole : Fetched T → Type 0
  IsWhole r = (r.err ≡ none) ⊎ ((r.err ≡ some cancelled) ⊎ (r.items ≡ []))

  abbrev pub Ends : Option (Fetched T) → Type 0
  Ends o = (r : Fetched T) × (o ≡ some r) × IsWhole r

  turn_page-Ends :
      (threshold : ℕ) (is_cut is_last : Bool) (acc xs : List T) (rest : Option (Fetched T))
      → (is_page_empty xs ≡ false → is_enough threshold (acc ++ xs) ≡ false → Ends rest)
      → Ends (turn_page threshold is_cut is_last acc xs rest)
  unfolding turn_page
  turn_page-Ends threshold is_cut is_last acc xs rest h = elim (Bool-cases (is_page_empty xs)) [
    | inl e ↦ rw e (_, refl, inl refl)
    | inr e ↦ elim (Bool-cases (is_enough threshold (acc ++ xs) || is_last)) [
      | inl f ↦ rw (e, f) (_, refl, inl refl)
      | inr f ↦ elim (Bool-cases is_cut) [
        | inl c ↦ rw (e, f, c) (_, refl, inr (inl refl))
        | inr c ↦ rw (e, f, c) (h e (ground arith))
      ]
    ]
  ]

  receive-Ends :
      (limit threshold : ℕ) (is_cut : Bool) (acc : List T) (rest : List T → Option (Fetched T))
      → ((xs : List T)
          → is_page_empty xs ≡ false
          → is_enough threshold (acc ++ xs) ≡ false
          → Ends (rest xs))
      → (reply : Reply T) → Ends (receive limit threshold is_cut acc rest reply)
  unfolding receive
  receive-Ends limit threshold is_cut acc rest h Reply.no_reply = (_, refl, inr (inr refl))
  receive-Ends limit threshold is_cut acc rest h Reply.garbled = (_, refl, inr (inr refl))
  receive-Ends limit threshold is_cut acc rest h (Reply.status is_422 is_limit) =
      elim (Bool-cases (is_422 && not (is_page_empty acc) && is_limit)) [
        | inl e ↦ rw e (_, refl, inl refl)
        | inr e ↦ rw e (_, refl, inr (inr refl))
      ]
  receive-Ends limit threshold is_cut acc rest h (Reply.page xs) =
      turn_page-Ends threshold is_cut (ltb (length xs) limit) acc xs (rest xs) (h xs)

  receive_keyset-Ends :
      (threshold : ℕ) (is_cut : Bool) (acc : List T) (rest : List T → String → Option (Fetched T))
      → ((xs : List T) (next : String)
          → is_page_empty xs ≡ false
          → is_enough threshold (acc ++ xs) ≡ false
          → Ends (rest xs next))
      → (reply : KeysetReply T) → Ends (receive_keyset threshold is_cut acc rest reply)
  unfolding receive_keyset
  receive_keyset-Ends threshold is_cut acc rest h KeysetReply.no_reply = (_, refl, inr (inr refl))
  receive_keyset-Ends threshold is_cut acc rest h KeysetReply.status = (_, refl, inr (inr refl))
  receive_keyset-Ends threshold is_cut acc rest h KeysetReply.garbled = (_, refl, inr (inr refl))
  receive_keyset-Ends threshold is_cut acc rest h (KeysetReply.page xs next) =
      turn_page-Ends threshold is_cut (is_empty next) acc xs (rest xs next) (h xs next)

  -- A page that does not fill the threshold brings the end nearer.
  nearer :
      (threshold fuel : ℕ) (acc xs : List T)
      → threshold ≤ length acc + suc fuel
      → is_page_empty xs ≡ false
      → is_enough threshold (acc ++ xs) ≡ false
      → 0 < threshold
      → (length (acc ++ xs) < threshold) × (threshold ≤ length (acc ++ xs) + fuel)
  nearer threshold fuel acc xs e p f z = ground (arith, length-append acc xs, page-pos xs p)

  fetch_from-Ends :
      (web : Server ℕ (Reply T)) (limit threshold fuel n offset : ℕ) (acc : List T)
      → length acc < threshold
      → threshold ≤ length acc + fuel
      → Ends (fetch_from web limit threshold fuel n offset acc)
  unfolding fetch_from
  fetch_from-Ends web limit threshold zero n offset acc h e = absurd (omega arith)
  fetch_from-Ends web limit threshold (suc fuel) n offset acc h e =
      elim (Bool-cases (web.is_done n)) [
        | inl d ↦ rw d (_, refl, inr (inl refl))
        | inr d ↦ rw d (
            receive-Ends limit threshold (web.is_cut n) acc _
              (λ xs p f.
                let near = nearer threshold fuel acc xs e p f (omega arith) in
                fetch_from-Ends web limit threshold fuel (n + 1) (offset + length xs) (acc ++ xs)
                  near.0 near.1)
              (web.answer n offset))
      ]

  keyset_from-Ends :
      (web : Server (ℕ × String) (KeysetReply T)) (limit threshold fuel n : ℕ) (cursor : String)
      (acc : List T)
      → length acc < threshold
      → threshold ≤ length acc + fuel
      → Ends (keyset_from web limit threshold fuel n cursor acc)
  unfolding keyset_from
  keyset_from-Ends web limit threshold zero n cursor acc h e = absurd (omega arith)
  keyset_from-Ends web limit threshold (suc fuel) n cursor acc h e =
      elim (Bool-cases (web.is_done n)) [
        | inl d ↦ rw d (_, refl, inr (inl refl))
        | inr d ↦ rw d (
            receive_keyset-Ends threshold (web.is_cut n) acc _
              (λ xs next p f.
                let near = nearer threshold fuel acc xs e p f (omega arith) in
                keyset_from-Ends web limit threshold fuel (n + 1) next (acc ++ xs) near.0 near.1)
              (web.answer n (limit, cursor)))
      ]

  -- With a positive threshold FetchPaginated ends after at most that many requests, whatever the
  -- server answers and whenever the context ends; and where it returns an error other than the
  -- context's it returns no items.
  pub fetch_paginated-Ends :
      (web : Server ℕ (Reply T)) (has_url : Bool) (limit threshold : ℕ)
      → 0 < threshold
      → Ends (fetch_paginated web has_url limit threshold threshold)
  unfolding fetch_paginated
  fetch_paginated-Ends web false limit threshold h = (_, refl, inr (inr refl))
  fetch_paginated-Ends web true limit threshold h =
      fetch_from-Ends web limit threshold threshold 0 0 [] h (omega arith)

  -- With a positive threshold FetchPaginatedKeyset ends after at most that many requests, even when
  -- the cursors run in a circle; and where it returns an error other than the context's it returns
  -- no items.
  pub fetch_paginated_keyset-Ends :
      (web : Server (ℕ × String) (KeysetReply T)) (has_url : Bool) (limit threshold : ℕ)
      → 0 < threshold
      → Ends (fetch_paginated_keyset web has_url limit threshold threshold)
  unfolding fetch_paginated_keyset
  fetch_paginated_keyset-Ends web false limit threshold h = (_, refl, inr (inr refl))
  fetch_paginated_keyset-Ends web true limit threshold h =
      keyset_from-Ends web _ threshold threshold 0 "" [] h (omega arith)
