-- ===== src/Edgescan/Groups/Sound.antt =====
-- internal/edgescan/group_expand.go: what is seen is what has been taken, and each condition once.
use poly_asian_data.Base.{
  ◌≡◌, refl, sym, subst, ◌∙◌, ◌⊎◌, inl, inr, String, true, false, List, [], ◌∷◌, ◌++◌, Option, none,
  some, arith, In, Bool-cases, str_eq, eq_iff,
}
use poly_asian_data.Edgescan.{Candidate, condition_of, marked, id_or}
use poly_asian_data.Edgescan.Sticky.{marked-insert}
use poly_asian_data.Edgescan.Groups.{Expanded, append_seen}

abbrev pub IsDistinct : List String → Type 0
IsDistinct [] = Unit
IsDistinct (k ∷ ks) = (In k ks → ⊥) × IsDistinct ks

abbrev pub IsTaken : List String → Option String → Type 0
IsTaken ks none = Unit
IsTaken ks (some id) = In id ks

pub taken :
    (ks : List String) (o : Option String) → ((id : String) → o ≡ some id → In id ks) → IsTaken ks o
taken ks none f = tt
taken ks (some id) f = f id refl

module _ {F : Type 0} where
  abbrev pub conditions : List (Candidate F) → List String
  conditions [] = []
  conditions (c ∷ cs) = id_or (condition_of c) ∷ conditions cs

  pub In-conditions :
      (k : String) (cs : List (Candidate F)) (c : Candidate F)
      → In k (conditions (cs ++ c ∷ []))
      → In k (conditions cs) ⊎ (k ≡ id_or (condition_of c))
  In-conditions k [] c (inl e) = inr e
  In-conditions k [] c (inr h) = absurd h
  In-conditions k (x ∷ cs) c (inl e) = inl (inl e)
  In-conditions k (x ∷ cs) c (inr h) = elim (In-conditions k cs c h) [
    | inl m ↦ inl (inr m)
    | inr e ↦ inr e
  ]

  pub conditions_end :
      (cs : List (Candidate F)) (c : Candidate F)
      → IsDistinct (conditions cs)
      → (In (id_or (condition_of c)) (conditions cs) → ⊥)
      → IsDistinct (conditions (cs ++ c ∷ []))
  conditions_end [] c o n = ((λ h. absurd h), tt)
  conditions_end (x ∷ cs) c (fresh, o) n = (
    (λ h. elim (In-conditions (id_or (condition_of x)) cs c h) [
      | inl m ↦ fresh m
      | inr e ↦ n (inl (sym e))
    ]),
    conditions_end cs c o (λ m. n (inr m)),
  )

  pub conditions_left :
      (k : String) (cs ds : List (Candidate F))
      → In k (conditions cs)
      → In k (conditions (cs ++ ds))
  conditions_left k [] ds h = absurd h
  conditions_left k (x ∷ cs) ds (inl e) = inl e
  conditions_left k (x ∷ cs) ds (inr h) = inr (conditions_left k cs ds h)

  pub conditions_last :
      (cs : List (Candidate F)) (c : Candidate F)
      → In (id_or (condition_of c)) (conditions (cs ++ c ∷ []))
  conditions_last [] c = inl refl
  conditions_last (x ∷ cs) c = inr (conditions_last cs c)

  -- What is seen is what has been taken, and no condition is taken twice.
  pub record IsSound (e : Expanded F) : Type 0 where
    pub seen_taken : (k : String) → marked k e.seen ≡ true → In k (conditions e.cands)
    pub taken_seen : (k : String) → In k (conditions e.cands) → marked k e.seen ≡ true
    pub distinct : IsDistinct (conditions e.cands)

  pub append_seen-IsSound :
      (id : String) (c : Candidate F) (e : Expanded F)
      → id ≡ id_or (condition_of c)
      → marked id e.seen ≡ false
      → IsSound e
      → IsSound (append_seen id c e)
  append_seen-IsSound id c e own new s = record {
    seen_taken = λ k h. elim (Bool-cases (str_eq id k)) [
      | inl q ↦
          subst (λ k. In k (conditions (e.cands ++ c ∷ []))) (sym own ∙ (eq_iff id k).0 q)
            (conditions_last e.cands c)
      | inr q ↦
          conditions_left k e.cands (c ∷ [])
            (s.seen_taken k (ground (arith, marked-insert id k e.seen)))
    ];
    taken_seen = λ k h. elim (In-conditions k e.cands c h) [
      | inl m ↦ let old = s.taken_seen k m in ground (arith, marked-insert id k e.seen)
      | inr q ↦ ground (arith, q, own, marked-insert id k e.seen, eq_iff id k)
    ];
    distinct = conditions_end e.cands c s.distinct (λ m.
        let seen = s.taken_seen id (subst (λ k. In k (conditions e.cands)) (sym own) m) in cc);
  }
