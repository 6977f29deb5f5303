-- ===== src/Edgescan/Picks.antt =====
-- internal/edgescan/select.go: the selected candidates are among the given ones.
use poly_asian_data.Base.{
  ℕ, String, Bool, true, ◌||◌, List, [], ◌∷◌, inl, inr, leb, length, All, All-append, Bool-cases,
}
use poly_asian_data.Base.Dict.{Dict}
use poly_asian_data.Float.Defs.{Float64}
use poly_asian_data.Sort.{All-stable_sort}
use poly_asian_data.Edgescan.{
  ScoredCand, Picked, condition_of, marked, takes, take_one, pick, pick_both, nothing_picked,
  by_edge, select_top_n,
}

module _ {F : Type 0} (P : ScoredCand F → Type 0) where
  All-pick :
      (wants : String → Bool) (n : ℕ) (ss : List (ScoredCand F)) (p : Picked F)
      → All P ss
      → All P p.out
      → All P (pick wants n ss p).out
  unfolding pick
  All-pick wants n [] p h k = k
  All-pick wants n (s ∷ ss) p (q, h) k = elim (Bool-cases (takes wants p (condition_of s.c))) [
    | inl e ↦ elim (Bool-cases (leb n (length (take_one s p).out))) [
      | inl f ↦ rw (e, f) (All-append P p.out (s ∷ []) k (q, tt))
      | inr f ↦
          rw (e, f) (All-pick wants n ss (take_one s p) h (All-append P p.out (s ∷ []) k (q, tt)))
    ]
    | inr e ↦ rw e (All-pick wants n ss p h k)
  ]

module _ {F : Type 0} ⦃fl : Float64 F⦄ (P : ScoredCand F → Type 0) where
  All-pick_both :
      (scored : List (ScoredCand F)) (sticky : Dict Bool) (n : ℕ)
      → All P scored
      → All P (pick_both scored sticky n).out
  unfolding pick_both
  All-pick_both scored sticky n h =
      let first = pick (λ id. marked id sticky) n scored nothing_picked in
      let kept = All-pick P (λ id. marked id sticky) n scored nothing_picked h tt in
      elim (Bool-cases (leb n (length first.out))) [
        | inl e ↦ rw e kept
        | inr e ↦ rw e (All-pick P (λ id. true) n scored first h kept)
      ]

  pub All-select_top_n :
      (scored : List (ScoredCand F)) (sticky : Dict Bool) (n : ℕ)
      → All P scored
      → All P (select_top_n scored sticky n)
  unfolding select_top_n
  All-select_top_n scored sticky n h = elim (Bool-cases (leb n 0 || leb (length scored) n)) [
    | inl e ↦ rw e h
    | inr e ↦ rw e (
        All-stable_sort by_edge P (pick_both scored sticky n).out (All-pick_both scored sticky n h))
  ]
