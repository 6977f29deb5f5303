-- ===== src/Best/OneEach.antt =====
-- The loop leaves one item of each key, and no key is lost.
use poly_asian_data.Base.{
  ℕ, zero, suc, ◌+◌, ◌<◌, ◌≤◌, ◌≡◌, ◌≢◌, ap, sym, ◌∙◌, ◌⊎◌, inl, inr, String, Bool, true, List, [],
  ◌∷◌, some, arith, ◌==◌, get_elem?, All, In, Bool-cases, Option-cases, str_eq, eq_iff, length,
}
use poly_asian_data.Base.Dict.{Dict, lookup, insert, has, IsKeyed, insert-IsKeyed, lookup-insert}
use poly_asian_data.Best.{better, holds_index, best_by_key, pick_kept, keep_best}

-- An index that the map holds is the value of some key.
holds_index-lookup :
    (j : ℕ) (best : Dict ℕ)
    → holds_index j best ≡ true
    → IsKeyed best
    → (k : String) × (lookup k best ≡ some j)
holds_index-lookup j [] h u = cc
holds_index-lookup j ((k, i) ∷ best) h u = elim (Bool-cases (i == j)) [
  | inl e ↦ (k, ground (arith, eq_iff k k))
  | inr e ↦
      let (k', found) = holds_index-lookup j best (rw e at h) u.1 in
      (k', ground (arith, eq_iff k k'))
]

lookup-holds_index :
    (k : String) (j : ℕ) (best : Dict ℕ) → lookup k best ≡ some j → holds_index j best ≡ true
lookup-holds_index k j [] h = cc
lookup-holds_index k j ((l, i) ∷ best) h = ground (arith, lookup-holds_index k j best)

-- No two items of the list have one key.
abbrev pub IsSingle : {A : Type 0} → (A → String) → List A → Type 0
IsSingle key [] = Unit
IsSingle key (n ∷ ns) = All (λ m. key n ≢ key m) ns × IsSingle key ns

module _ {A : Type 0} (beats : A → A → Bool) (key : A → String) (batch : List A) where
  -- The map's indices are those of items with its keys.
  record IsIndex (best : Dict ℕ) : Type 0 where
    keyed : IsKeyed best
    at_key :
        (k : String) (j : ℕ)
        → lookup k best ≡ some j
        → (n : A) × (get_elem? batch j ≡ some n) × (key n ≡ k)

  -- The items from index `i` on.
  abbrev IsRest : ℕ → List A → Type 0
  IsRest i ns = (m : ℕ) → get_elem? ns m ≡ get_elem? batch (i + m)

  IsRest-tail : (i : ℕ) (n : A) (ns : List A) → IsRest i (n ∷ ns) → IsRest (i + 1) ns
  IsRest-tail i n ns r m =
      let shift : i + suc m ≡ i + 1 + m = omega arith in r (suc m) ∙ ap (get_elem? batch) shift

  insert-IsIndex :
      (best : Dict ℕ) (i : ℕ) (n : A)
      → get_elem? batch i ≡ some n
      → IsIndex best
      → IsIndex (insert (key n) i best)
  insert-IsIndex best i n at x = record {
    keyed = insert-IsKeyed (key n) i best x.keyed;
    at_key = λ k j e. elim (Bool-cases (str_eq (key n) k)) [
      | inl same ↦
          (n, ground (arith, lookup-insert (key n) k i best), ground (arith, eq_iff (key n) k))
      | inr other ↦ x.at_key k j (ground (arith, lookup-insert (key n) k i best))
    ];
  }

  -- A round writes the item's index at its key, or leaves the map, which has the key then.
  better-cases :
      (n : A) (i : ℕ) (best : Dict ℕ)
      → let b = better beats batch n (key n) i best (lookup (key n) best) in
        (b ≡ insert (key n) i best) ⊎ ((b ≡ best) × (has (key n) best ≡ true))
  unfolding better
  better-cases n i best = ground arith

  best_by_key-IsIndex :
      (i : ℕ) (ns : List A) (best : Dict ℕ)
      → IsRest i ns
      → IsIndex best
      → IsIndex (best_by_key beats key batch i ns best)
  unfolding best_by_key
  best_by_key-IsIndex i [] best r x = x
  best_by_key-IsIndex i (n ∷ ns) best r x =
      let b = better beats batch n (key n) i best (lookup (key n) best) in
      let start : i + 0 ≡ i = omega arith in
      best_by_key-IsIndex (i + 1) ns b (IsRest-tail i n ns r) (elim (better-cases n i best) [
        | inl e ↦ rw e (insert-IsIndex best i n (sym (r 0 ∙ ap (get_elem? batch) start)) x)
        | inr e ↦ rw e.0 x
      ])

  kept_map : Dict ℕ
  kept_map = best_by_key beats key batch 0 batch []

  kept_map-IsIndex : IsIndex kept_map
  unfolding kept_map
  kept_map-IsIndex =
      best_by_key-IsIndex 0 batch [] (λ m. ap (get_elem? batch) (omega arith))
        (record { keyed = tt; at_key = λ k j e. cc })

  -- Two kept indices of items with one key are one.
  kept_once :
      (i j : ℕ) (a b : A)
      → holds_index i kept_map ≡ true
      → holds_index j kept_map ≡ true
      → get_elem? batch i ≡ some a
      → get_elem? batch j ≡ some b
      → key a ≡ key b
      → i ≡ j
  kept_once i j a b hi hj ea eb e =
      let x = kept_map-IsIndex in
      let (k, found_i) = holds_index-lookup i kept_map hi x.keyed in
      let (l, found_j) = holds_index-lookup j kept_map hj x.keyed in
      let (a', at_a, key_a) = x.at_key k i found_i in
      let (b', at_b, key_b) = x.at_key l j found_j in
      let same_a : a' ≡ a = cc in
      let same_b : b' ≡ b = cc in
      let same_key : k ≡ l = sym key_a ∙ ap key same_a ∙ e ∙ ap key (sym same_b) ∙ key_b in cc

  -- A kept item differs in its key from the kept items behind it.
  kept-differs :
      (i : ℕ) (n : A) (j : ℕ) (ns : List A)
      → holds_index i kept_map ≡ true
      → get_elem? batch i ≡ some n
      → i < j
      → IsRest j ns
      → All (λ m. key n ≢ key m) (pick_kept kept_map j ns)
  unfolding pick_kept
  kept-differs i n j [] h at below r = tt
  kept-differs i n j (m ∷ ns) h at below r =
      let rest = kept-differs i n (j + 1) ns h at (omega arith) (IsRest-tail j m ns r) in
      let here : get_elem? batch j ≡ some m = sym (r 0 ∙ ap (get_elem? batch) (omega arith)) in
      elim (Bool-cases (holds_index j kept_map)) [
        | inl hj ↦
            rw hj ((λ e. let same = kept_once i j n m h hj at here e in absurd (omega arith)), rest)
        | inr hj ↦ rw hj rest
      ]

  pick_kept-IsSingle : (i : ℕ) (ns : List A) → IsRest i ns → IsSingle key (pick_kept kept_map i ns)
  unfolding pick_kept
  pick_kept-IsSingle i [] r = tt
  pick_kept-IsSingle i (n ∷ ns) r =
      let rest = pick_kept-IsSingle (i + 1) ns (IsRest-tail i n ns r) in
      let here : get_elem? batch i ≡ some n = sym (r 0 ∙ ap (get_elem? batch) (omega arith)) in
      elim (Bool-cases (holds_index i kept_map)) [
        | inl h ↦
            rw h (kept-differs i n (i + 1) ns h here (omega arith) (IsRest-tail i n ns r), rest)
        | inr h ↦ rw h rest
      ]

  keep_best-IsSingle : IsSingle key (keep_best beats key batch)
  unfolding keep_best kept_map
  keep_best-IsSingle = pick_kept-IsSingle 0 batch (λ m. ap (get_elem? batch) (omega arith))

  -- No key of the batch gets lost.
  best_by_key-keeps :
      (k : String) (i : ℕ) (ns : List A) (best : Dict ℕ)
      → has k best ≡ true
      → has k (best_by_key beats key batch i ns best) ≡ true
  unfolding best_by_key
  best_by_key-keeps k i [] best h = h
  best_by_key-keeps k i (n ∷ ns) best h =
      let b = better beats batch n (key n) i best (lookup (key n) best) in
      best_by_key-keeps k (i + 1) ns b
        (ground (arith, better-cases n i best, lookup-insert (key n) k i best))

  best_by_key-covers :
      (n : A) (i : ℕ) (ns : List A) (best : Dict ℕ)
      → In n ns
      → has (key n) (best_by_key beats key batch i ns best) ≡ true
  unfolding best_by_key
  best_by_key-covers n i [] best h = absurd h
  best_by_key-covers n i (m ∷ ns) best (inl e) =
      let b = better beats batch m (key m) i best (lookup (key m) best) in
      best_by_key-keeps (key n) (i + 1) ns b (
        rw e (
          ground (
            arith,
            better-cases m i best,
            lookup-insert (key m) (key m) i best,
            eq_iff (key m) (key m),
          )))
  best_by_key-covers n i (m ∷ ns) best (inr h) =
      best_by_key-covers n (i + 1) ns (better beats batch m (key m) i best (lookup (key m) best)) h

  -- A item whose index is kept is picked.
  pick_kept-In :
      (i l : ℕ) (n : A) (ns : List A)
      → holds_index (i + l) kept_map ≡ true
      → get_elem? ns l ≡ some n
      → In n (pick_kept kept_map i ns)
  unfolding pick_kept
  pick_kept-In i l n [] h e = cc
  pick_kept-In i zero n (m ∷ ns) h e =
      let start : i + 0 ≡ i = omega arith in
      let here : holds_index i kept_map ≡ true = rw start at h in
      let same : m ≡ n = cc in rw here (inl (sym same))
  pick_kept-In i (suc l) n (m ∷ ns) h e =
      let shift : i + suc l ≡ i + 1 + l = omega arith in
      let later : holds_index (i + 1 + l) kept_map ≡ true = rw shift at h in
      let rest = pick_kept-In (i + 1) l n ns later e in
      elim (Bool-cases (holds_index i kept_map)) [ inl b ↦ rw b (inr rest) | inr b ↦ rw b rest ]

  keep_best-covers :
      (n : A) → In n batch → (m : A) × In m (keep_best beats key batch) × (key m ≡ key n)
  unfolding keep_best kept_map
  keep_best-covers n h =
      let covered = best_by_key-covers n 0 batch [] h in
      elim (Option-cases (lookup (key n) kept_map)) [
        | inl e ↦ absurd (ground arith)
        | inr (j, e) ↦
            let (m, at, same) = kept_map-IsIndex.at_key (key n) j e in
            let start : 0 + j ≡ j = omega arith in
            let held : holds_index (0 + j) kept_map ≡ true =
              rw start (lookup-holds_index (key n) j kept_map e) in
            (m, pick_kept-In 0 j m batch held at, same)
      ]

  -- No two items of the result have one key, and every item of the batch shares its key with one.
  pub keep_best-one_each :
      IsSingle key (keep_best beats key batch)
      × ((n : A) → In n batch → (m : A) × In m (keep_best beats key batch) × (key m ≡ key n))
  keep_best-one_each = (keep_best-IsSingle, keep_best-covers)

-- What holds of every item holds of the kept ones, which are as many at most.
module _ {A : Type 0} where
  pub All-pick_kept {κ} :
      (P : A → Type κ) (best : Dict ℕ) (i : ℕ) (ns : List A)
      → All P ns
      → All P (pick_kept best i ns)
  unfolding pick_kept
  All-pick_kept P best i [] h = tt
  All-pick_kept P best i (n ∷ ns) h = elim (Bool-cases (holds_index i best)) [
    | inl e ↦ rw e (h.0, All-pick_kept P best (i + 1) ns h.1)
    | inr e ↦ rw e (All-pick_kept P best (i + 1) ns h.1)
  ]

  pub All-keep_best {κ} :
      (P : A → Type κ) (beats : A → A → Bool) (key : A → String) (batch : List A)
      → All P batch
      → All P (keep_best beats key batch)
  unfolding keep_best
  All-keep_best P beats key batch = All-pick_kept P (best_by_key beats key batch 0 batch []) 0 batch

  length-pick_kept-le :
      (best : Dict ℕ) (i : ℕ) (ns : List A) → length (pick_kept best i ns) ≤ length ns
  unfolding pick_kept
  length-pick_kept-le best i [] = omega arith
  length-pick_kept-le best i (n ∷ ns) = ground (arith, length-pick_kept-le best (i + 1) ns)

  pub length-keep_best-le :
      (beats : A → A → Bool) (key : A → String) (batch : List A)
      → length (keep_best beats key batch) ≤ length batch
  unfolding keep_best
  length-keep_best-le beats key batch =
      length-pick_kept-le (best_by_key beats key batch 0 batch []) 0 batch
