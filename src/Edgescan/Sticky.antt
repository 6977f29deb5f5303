-- ===== src/Edgescan/Sticky.antt =====
-- internal/edgescan/select.go: sticky candidates go before others.
use poly_asian_data.Base.{
  ℕ, ◌+◌, ◌≤◌, ◌<◌, ◌≡◌, refl, ap, sym, subst, ◌∙◌, ◌⊎◌, inl, inr, String, Bool, true, false, ◌&&◌,
  ◌||◌, List, [], ◌∷◌, ◌++◌, Option, none, some, arith, leb, if◌then◌else◌, length, length-append,
  All, All-map, All-append, In, Bool-cases, str_eq, eq_iff,
}
use poly_asian_data.Base.Dict.{Dict, insert, lookup-insert}
use poly_asian_data.Float.Defs.{Float64}
use poly_asian_data.Sort.{stable_sort, insert_by, All-stable_sort, length-stable_sort}
use poly_asian_data.Edgescan.{
  ScoredCand, Picked, condition_of, marked, takes, id_or, take_one, pick, by_edge, nothing_picked,
  pick_both, select_top_n,
}

pub marked-insert :
    (j k : String) (m : Dict Bool)
    → marked k (insert j true m) ≡ (if str_eq j k then true else marked k m)
marked-insert j k m = ground (arith, lookup-insert j k true m)

module _ {F : Type 0} where
  abbrev pub id_of : ScoredCand F → String
  id_of s = id_or (condition_of s.c)

  abbrev pub ids : List (ScoredCand F) → List String
  ids [] = []
  ids (s ∷ ss) = id_of s ∷ ids ss

  In-ids_append : (k : String) (xs ys : List (ScoredCand F)) → In k (ids xs) → In k (ids (xs ++ ys))
  In-ids_append k [] ys h = absurd h
  In-ids_append k (x ∷ xs) ys (inl e) = inl e
  In-ids_append k (x ∷ xs) ys (inr h) = inr (In-ids_append k xs ys h)

  In-ids_end : (xs : List (ScoredCand F)) (x : ScoredCand F) → In (id_of x) (ids (xs ++ x ∷ []))
  In-ids_end [] x = inl refl
  In-ids_end (y ∷ xs) x = inr (In-ids_end xs x)

  -- What is seen has been taken.
  abbrev IsTracked : Picked F → Type 0
  IsTracked p = (k : String) → marked k p.seen ≡ true → In k (ids p.out)

  take_one-IsTracked : (s : ScoredCand F) (p : Picked F) → IsTracked p → IsTracked (take_one s p)
  take_one-IsTracked s p t k h = elim (Bool-cases (str_eq (id_of s) k)) [
    | inl e ↦
        let same : id_of s ≡ k = (eq_iff (id_of s) k).0 e in
        subst (λ k. In k (ids (p.out ++ s ∷ []))) same (In-ids_end p.out s)
    | inr e ↦
        In-ids_append k p.out (s ∷ []) (t k (ground (arith, marked-insert (id_of s) k p.seen)))
  ]

  module _ (wants : String → Bool) (n : ℕ) where
    abbrev next : ScoredCand F → Picked F → Picked F
    next s p = if takes wants p (condition_of s.c) then take_one s p else p

    next-IsTracked : (s : ScoredCand F) (p : Picked F) → IsTracked p → IsTracked (next s p)
    next-IsTracked s p t = elim (Bool-cases (takes wants p (condition_of s.c))) [
      | inl e ↦ rw e (take_one-IsTracked s p t)
      | inr e ↦ rw e t
    ]

    -- What a step keeps and what stops the loop, the loop keeps.
    pick_keeps :
        (Q : Picked F → Type 0)
        → ((s : ScoredCand F) (p : Picked F) → Q p → Q (next s p))
        → (ss : List (ScoredCand F)) (p : Picked F) → Q p
        → Q (pick wants n ss p)
    unfolding pick
    pick_keeps Q step [] p q = q
    pick_keeps Q step (s ∷ ss) p q =
        elim (Bool-cases (takes wants p (condition_of s.c) && leb n (length (next s p).out))) [
          | inl e ↦ rw e (step s p q)
          | inr e ↦ rw e (pick_keeps Q step ss (next s p) (step s p q))
        ]

    next-marked :
        (k : String) (s : ScoredCand F) (p : Picked F)
        → marked k p.seen ≡ true
        → marked k (next s p).seen ≡ true
    next-marked k s p h = elim (Bool-cases (takes wants p (condition_of s.c))) [
      | inl e ↦ rw e (ground (arith, marked-insert (id_of s) k p.seen))
      | inr e ↦ rw e h
    ]

    next_wanted :
        (s : ScoredCand F) (p : Picked F)
        → All (λ s. wants (id_of s) ≡ true) p.out
        → All (λ s. wants (id_of s) ≡ true) (next s p).out
    next_wanted s p h = elim (Bool-cases (takes wants p (condition_of s.c))) [
      | inl e ↦ rw e (All-append _ p.out (s ∷ []) h (wanted (condition_of s.c) e, tt))
      | inr e ↦ rw e h
    ]
      where
        wanted : (o : Option String) → takes wants p o ≡ true → wants (id_or o) ≡ true
        wanted none e = cc
        wanted (some id) e = ground arith

    next-length : (s : ScoredCand F) (p : Picked F) → length (next s p).out ≤ length p.out + 1
    next-length s p = elim (Bool-cases (takes wants p (condition_of s.c))) [
      | inl e ↦ rw e (omega (arith, length-append p.out (s ∷ [])))
      | inr e ↦ rw e (omega arith)
    ]

    -- A loop that goes on has room.
    next_room :
        (s : ScoredCand F) (p : Picked F)
        → length p.out < n
        → takes wants p (condition_of s.c) && leb n (length (next s p).out) ≡ false
        → length (next s p).out < n
    next_room s p h e = elim (Bool-cases (takes wants p (condition_of s.c))) [
      | inl t ↦ let free : leb n (length (next s p).out) ≡ false = ground arith in ground arith
      | inr t ↦ rw t h
    ]

    -- A step sees the ID of its candidate, if it is wanted.
    next_sees :
        (s : ScoredCand F) (p : Picked F) (id : String)
        → condition_of s.c ≡ some id
        → wants id ≡ true
        → marked id (next s p).seen ≡ true
    next_sees s p id e w = elim (Bool-cases (marked id p.seen)) [
      | inl m ↦ next-marked id s p m
      | inr m ↦
          let t : takes wants p (condition_of s.c) ≡ true = ap (takes wants p) e ∙ ground arith in
          let same : id_of s ≡ id = ap id_or e in
          rw t (ground (arith, marked-insert (id_of s) id p.seen, eq_iff (id_of s) id))
    ]

    -- Every ID that is wanted of the candidates is seen.
    abbrev Sees : List (ScoredCand F) → Picked F → Type 0
    Sees ss q =
        All
          (λ s.
            (id : String) → condition_of s.c ≡ some id → wants id ≡ true → marked id q.seen ≡ true)
          ss

    pick-length :
        (ss : List (ScoredCand F)) (p : Picked F)
        → length p.out < n
        → length (pick wants n ss p).out ≤ n
    unfolding pick
    pick-length [] p h = omega arith
    pick-length (s ∷ ss) p h =
        elim (Bool-cases (takes wants p (condition_of s.c) && leb n (length (next s p).out))) [
          | inl e ↦ rw e (omega (arith, next-length s p))
          | inr e ↦ rw e (pick-length ss (next s p) (next_room s p h e))
        ]

    -- A loop that does not fill the selection has seen every ID that it wants.
    pick_covers :
        (ss : List (ScoredCand F)) (p : Picked F)
        → length (pick wants n ss p).out < n
        → Sees ss (pick wants n ss p)
    unfolding pick
    pick_covers [] p h = tt
    pick_covers (s ∷ ss) p h =
        elim (Bool-cases (takes wants p (condition_of s.c) && leb n (length (next s p).out))) [
          | inl e ↦ let small : length (next s p).out < n = rw e at h in absurd (ground arith)
          | inr e ↦
              let on : pick wants n (s ∷ ss) p ≡ pick wants n ss (next s p) = rw e refl in
              subst (Sees (s ∷ ss)) (sym on) (
                λ id c w.
                    pick_keeps (λ q. marked id q.seen ≡ true) (next-marked id) ss (next s p)
                      (next_sees s p id c w),
                pick_covers ss (next s p) (rw e at h),
              )
        ]

  abbrev IsSticky : Dict Bool → ScoredCand F → Type 0
  IsSticky sticky s = marked (id_of s) sticky ≡ true

  -- No market, or a condition that is not sticky, or one among the selected.
  abbrev pub IsTakenIfSticky : Dict Bool → List (ScoredCand F) → Option String → Type 0
  IsTakenIfSticky sticky r none = Unit
  IsTakenIfSticky sticky r (some id) = (marked id sticky ≡ false) ⊎ In id (ids r)

  -- Every sticky candidate of the pool has its ID among the selected ones.
  abbrev pub HasSticky : Dict Bool → List (ScoredCand F) → List (ScoredCand F) → Type 0
  HasSticky sticky pool r = All (λ t. IsTakenIfSticky sticky r (condition_of t.c)) pool

  taken_if_sticky :
      (sticky : Dict Bool) (r : List (ScoredCand F)) (o : Option String)
      → ((id : String) → o ≡ some id → marked id sticky ≡ true → In id (ids r))
      → IsTakenIfSticky sticky r o
  taken_if_sticky sticky r none f = tt
  taken_if_sticky sticky r (some id) f = elim (Bool-cases (marked id sticky)) [
    | inl e ↦ inr (f id refl e)
    | inr e ↦ inl e
  ]

module _ {F : Type 0} ⦃fl : Float64 F⦄ where
  In-ids_insert :
      (k : String) (x : ScoredCand F) (ys : List (ScoredCand F))
      → In k (id_of x ∷ ids ys)
      → In k (ids (insert_by by_edge x ys))
  In-ids_insert k x [] m = m
  In-ids_insert k x (y ∷ ys) m = elim (Bool-cases (by_edge y x)) [
    | inl b ↦ rw b (elim m [
      | inl e ↦ inr (In-ids_insert k x ys (inl e))
      | inr q ↦ elim q [ inl e ↦ inl e | inr r ↦ inr (In-ids_insert k x ys (inr r)) ]
    ])
    | inr b ↦ rw b m
  ]

  In-ids_sort :
      (k : String) (xs : List (ScoredCand F)) → In k (ids xs) → In k (ids (stable_sort by_edge xs))
  unfolding stable_sort
  In-ids_sort k [] h = h
  In-ids_sort k (x ∷ xs) (inl e) = In-ids_insert k x (stable_sort by_edge xs) (inl e)
  In-ids_sort k (x ∷ xs) (inr m) =
      In-ids_insert k x (stable_sort by_edge xs) (inr (In-ids_sort k xs m))

  pick_both_cases :
      (scored : List (ScoredCand F)) (sticky : Dict Bool) (n : ℕ)
      → 0 < n
      → let p = pick_both scored sticky n in
        (length p.out ≤ n)
        × (All (IsSticky sticky) p.out
            ⊎ All
                (λ t.
                  (id : String)
                  → condition_of t.c ≡ some id
                  → marked id sticky ≡ true
                  → In id (ids p.out))
                scored)
  unfolding pick_both
  pick_both_cases scored sticky n h =
      let wants = λ (id : String). marked id sticky in
      let first = pick wants n scored nothing_picked in
      let few = pick-length wants n scored nothing_picked h in
      elim (Bool-cases (leb n (length first.out))) [
        | inl e ↦ rw e (
          few,
          inl (
              pick_keeps wants n (λ q. All (IsSticky sticky) q.out) (next_wanted wants n) scored
                nothing_picked tt),
        )
        | inr e ↦
            let second = pick (λ id. true) n scored first in
            let tracked =
              pick_keeps (λ id. true) n IsTracked (next-IsTracked (λ id. true) n) scored first
                (pick_keeps wants n IsTracked (next-IsTracked wants n) scored nothing_picked
                  (λ k q. cc)) in
            rw e (
              pick-length (λ id. true) n scored first (ground arith),
              inr (
                  All-map _ _ scored
                    (λ t sees id c w. tracked id (
                      pick_keeps (λ id. true) n (λ q. marked id q.seen ≡ true)
                        (next-marked (λ id. true) n id) scored first (sees id c w)))
                    (pick_covers wants n scored nothing_picked (ground arith))),
            )
      ]

  -- From more candidates than n, which is positive, selectTopNByEdge leaves at most n; and all of them are
  -- sticky, or every sticky candidate with a market has its condition among them.
  pub select_top_n-HasSticky :
      (scored : List (ScoredCand F)) (sticky : Dict Bool) (n : ℕ)
      → 0 < n
      → n < length scored
      → let r = select_top_n scored sticky n in
        (length r ≤ n) × (All (λ s. marked (id_of s) sticky ≡ true) r ⊎ HasSticky sticky scored r)
  unfolding select_top_n
  select_top_n-HasSticky scored sticky n h k =
      let p = pick_both scored sticky n in
      let (few, cases) = pick_both_cases scored sticky n h in
      let test : leb n 0 || leb (length scored) n ≡ false = ground arith in
      rw test (
        omega (arith, few, length-stable_sort by_edge p.out),
        elim cases [
          | inl a ↦ inl (All-stable_sort by_edge (IsSticky sticky) p.out a)
          | inr c ↦ inr (
              All-map _ _ scored
                (λ t f.
                  taken_if_sticky sticky (stable_sort by_edge p.out) (condition_of t.c)
                    (λ id e w. In-ids_sort id p.out (f id e w)))
                c)
        ],
      )
