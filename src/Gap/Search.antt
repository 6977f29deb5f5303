-- ===== src/Gap/Search.antt =====
-- sort.Search of the standard library, as internal/datagap uses it, with its loop on fuel.
use poly_asian_data.Base.{
  subst, ℕ, zero, suc, ◌+◌, ◌/◌, ◌≤◌, ◌<◌, ◌≡◌, Bool, true, false, arith, ltb, if◌then◌else◌, inl,
  inr, Bool-cases,
}

-- The loop: the smallest index lies from `lo` to `hi`.
unfoldable pub search_from : ℕ → (ℕ → Bool) → ℕ → ℕ → ℕ
search_from zero f lo hi = lo
search_from (suc fuel) f lo hi =
    let h = (lo + hi) / 2 in
    let rest = search_from fuel f (if f h then lo else h + 1) (if f h then h else hi) in
    if ltb lo hi then rest else lo

-- `sort.Search(n, f)`: the range halves with each round, so that n rounds are enough.
unfoldable pub search : ℕ → (ℕ → Bool) → ℕ
unfolding search_from
search n f = search_from n f 0 n

-- The index found: `f` holds there, if it is below `n`, and does not hold in front of it.
pub record IsFound (n : ℕ) (f : ℕ → Bool) (i : ℕ) : Type 0 where
  pub in_range : i ≤ n
  pub holds : i < n → f i ≡ true
  pub fails : (j : ℕ) → suc j ≡ i → f j ≡ false

search_from-IsFound :
    (fuel n : ℕ) (f : ℕ → Bool) (lo hi : ℕ)
    → lo ≤ hi
    → hi ≤ n
    → hi ≤ lo + fuel
    → (hi < n → f hi ≡ true)
    → ((j : ℕ) → suc j ≡ lo → f j ≡ false)
    → IsFound n f (search_from fuel f lo hi)
unfolding search_from
search_from-IsFound zero n f lo hi p q r h k =
    let same : hi ≡ lo = omega arith in
    record {
      in_range = omega arith;
      holds = λ b. subst (λ x. f x ≡ true) same (h (omega arith));
      fails = k;
    }
search_from-IsFound (suc fuel) n f lo hi p q r h k = elim (Bool-cases (ltb lo hi)) [
  | inr b ↦ rw b (record {
    in_range = omega arith;
    holds =
        λ c. let same : hi ≡ lo = ground arith in subst (λ x. f x ≡ true) same (h (omega arith));
    fails = k;
  })
  | inl b ↦
      let below : lo < hi = ground arith in
      let m = (lo + hi) / 2 in
      elim (Bool-cases (f m)) [
        | inl e ↦
            rw (b, e)
              (search_from-IsFound fuel n f lo m (omega arith) (omega arith) (omega arith) (λ c. e)
                k)
        | inr e ↦
            rw (b, e)
              (search_from-IsFound fuel n f (m + 1) hi (omega arith) q (omega arith) h
                (λ j c. let same : m ≡ j = omega arith in subst (λ x. f x ≡ false) same e))
      ]
]

-- Search finds an index without assuming that `f` changes only once.
pub search-IsFound : (n : ℕ) (f : ℕ → Bool) → IsFound n f (search n f)
unfolding search
search-IsFound n f =
    search_from-IsFound n n f 0 n (omega arith) (omega arith) (omega arith)
      (λ b. absurd (omega arith)) (λ j e. absurd (omega arith))
