-- ===== src/Market/Flushing.antt =====
-- internal/ws/market/book.go: what the flush protocol of the listener keeps, and what it can lose.
use poly_asian_data.Base.{
  ◌⊎◌, ◌∙◌, ℕ, ◌+◌, ◌≤◌, ◌<◌, ◌≡◌, ◌≢◌, refl, ap, inl, inr, String, Bool, true, false, ◌||◌, List,
  [], ◌∷◌, Option, none, some, arith, str_eq, str_eq→eq, eq_iff, All, All-map, In, Bool-cases,
  Option-cases, length,
}
use poly_asian_data.Base.Dict.{Dict, lookup, insert, lookup-insert}
use poly_asian_data.Float.Defs.{Float64}
use poly_asian_data.Market.{BookState, mid}
use poly_asian_data.Market.Book.{BookStore}
use poly_asian_data.Market.Flush.{
  is_full, peek_from, peek_dirty, flushed, mark_all, mark_flushed, tokens_of, take_dirty, dirty_in,
  dirty_count,
}
use poly_asian_data.Market.Stored.{IsStored}

-- The text is in the list.
abbrev pub is_one_of : String → List String → Bool
is_one_of k [] = false
is_one_of k (j ∷ js) = let rest = is_one_of k js in str_eq j k || rest

length-tokens_of : {F : Type 0} → (bs : List (BookState F)) → length (tokens_of bs) ≡ length bs
length-tokens_of [] = refl
length-tokens_of (b ∷ bs) = omega (arith, length-tokens_of bs)

pub is_one_of-tokens_of :
    {F : Type 0}
    → (b : BookState F) (bs : List (BookState F)) → In b bs
    → is_one_of b.token_id (tokens_of bs) ≡ true
is_one_of-tokens_of b [] i = absurd i
is_one_of-tokens_of b (c ∷ bs) (inl e) =
    let same : b.token_id ≡ c.token_id = ap (λ d. d.token_id) e in
    ground (arith, eq_iff c.token_id b.token_id)
is_one_of-tokens_of b (c ∷ bs) (inr i) = ground (arith, is_one_of-tokens_of b bs i)

module _ {F : Type 0} ⦃fl : Float64 F⦄ where
  open fl use {lt, le}

  abbrev flushed_if : Bool → Option (BookState F) → Option (BookState F)
  flushed_if false o = o
  flushed_if true none = none
  flushed_if true (some b) = some (flushed b)

  -- MarkFlushed marks the books of its tokens, and touches no other.
  pub mark_all-lookup :
      (ids : List String) (m : Dict (BookState F)) (k : String)
      → lookup k (mark_all m ids) ≡ flushed_if (is_one_of k ids) (lookup k m)
  unfolding mark_all mid
  mark_all-lookup [] m k = refl
  mark_all-lookup (id ∷ ids) m k = elim (Option-cases (lookup id m)) [
    | inl e ↦ rw e (ground (arith, mark_all-lookup ids m k, str_eq→eq id k))
    | inr (b, e) ↦ rw e (
        ground (
          arith,
          mark_all-lookup ids (insert id (flushed b) m) k,
          lookup-insert id k (flushed b) m,
          str_eq→eq id k,
        ))
  ]

  -- Different tokens, each with a dirty book.
  abbrev pub AreDirty : Dict (BookState F) → List String → Type 0
  AreDirty m [] = Unit
  AreDirty m (id ∷ ids) =
      ((b : BookState F) × (lookup id m ≡ some b) × (b.dirty ≡ true))
      × All (λ j. id ≢ j) ids
      × AreDirty m ids

  -- The copy in a batch is the book of the store.
  abbrev pub IsCopy : Dict (BookState F) → BookState F → Type 0
  IsCopy m b = (lookup b.token_id m ≡ some b) × (b.dirty ≡ true)

  -- A dirty book is in the batch and is marked clean, or the book of the token is as it was and not
  -- in the batch.
  abbrev pub IsTakenOrLeft :
      Dict (BookState F) → Dict (BookState F) → List (BookState F) → String → Type 0
  IsTakenOrLeft before after batch k =
      ((b : BookState F) × In b batch
        × (lookup k before ≡ some b)
        × (b.dirty ≡ true)
        × (lookup k after ≡ some (flushed b)))
      ⊎ ((is_one_of k (tokens_of batch) ≡ false) × (lookup k after ≡ lookup k before))

  -- A token of the batch is that of one of its books.
  tokens_of-In :
      (m : Dict (BookState F)) (k : String) (bs : List (BookState F))
      → is_one_of k (tokens_of bs) ≡ true
      → All (IsCopy m) bs
      → (b : BookState F) × In b bs × (lookup k m ≡ some b) × (b.dirty ≡ true)
  tokens_of-In m k [] h a = cc
  tokens_of-In m k (b ∷ bs) h a = elim (Bool-cases (str_eq b.token_id k)) [
    | inl e ↦
        let own : lookup k m ≡ some b = ground (arith, a.0.0, str_eq→eq b.token_id k) in
        (b, inl refl, own, a.0.1)
    | inr e ↦ let (c, i, q, d) = tokens_of-In m k bs (ground arith) a.1 in (c, inr i, q, d)
  ]

  mark_all-IsTakenOrLeft :
      (m : Dict (BookState F)) (batch : List (BookState F)) (k : String)
      → All (IsCopy m) batch
      → IsTakenOrLeft m (mark_all m (tokens_of batch)) batch k
  mark_all-IsTakenOrLeft m batch k a =
      let at_k = mark_all-lookup (tokens_of batch) m k in
      elim (Bool-cases (is_one_of k (tokens_of batch))) [
        | inl e ↦
            let (b, i, q, d) = tokens_of-In m k batch e a in inl (b, i, q, d, at_k ∙ rw (e, q) refl)
        | inr e ↦ inr (e, at_k ∙ rw e refl)
      ]

  AreDirty-behind :
      (m : Dict (BookState F)) (k : String) (c : BookState F) (ids : List String)
      → lookup k m ≡ none
      → AreDirty m ids
      → AreDirty ((k, c) ∷ m) ids × All (λ j. k ≢ j) ids
  AreDirty-behind m k c [] h d = (tt, tt)
  AreDirty-behind m k c (id ∷ ids) h ((b, e, t), apart, rest) =
      let (rest', away) = AreDirty-behind m k c ids h rest in
      let other : k ≢ id = λ q. let found : lookup k m ≡ some b = rw q e in cc in
      (((b, ground (arith, str_eq→eq k id), t), apart, rest'), (other, away))

  -- The cases of a round of PeekDirty, as equations.
  peek_from-cons :
      (max_n n : ℕ) (k : String) (b : BookState F) (m : Dict (BookState F))
      → (b.dirty ≡ false → peek_from max_n n ((k, b) ∷ m) ≡ peek_from max_n n m)
        × (is_full max_n n ≡ true → b.dirty ≡ true → peek_from max_n n ((k, b) ∷ m) ≡ [])
        × (is_full max_n n ≡ false
            → b.dirty ≡ true
            → peek_from max_n n ((k, b) ∷ m) ≡ b ∷ peek_from max_n (n + 1) m)
  unfolding peek_from
  peek_from-cons max_n n k b m = (λ e. rw e refl, λ f e. rw e (rw f refl), λ f e. rw e (rw f refl))

  pub peek_from-AreDirty :
      (max_n : ℕ) (m : Dict (BookState F)) (n : ℕ)
      → IsStored m
      → AreDirty m (tokens_of (peek_from max_n n m)) × All (IsCopy m) (peek_from max_n n m)
  unfolding peek_from
  peek_from-AreDirty max_n [] n h = (tt, tt)
  peek_from-AreDirty max_n ((k, b) ∷ m) n h =
      let tail : IsStored m = (h.0.1, h.1.1) in
      let own : b.token_id ≡ k = h.1.0.own in
      let back = λ (c : BookState F) (i : IsCopy m c).
        let stays : IsCopy ((k, b) ∷ m) c = ground (arith, h.0.0, str_eq→eq k c.token_id) in
        stays in
      let skip = peek_from-AreDirty max_n m n tail in
      let more = peek_from-AreDirty max_n m (n + 1) tail in
      let step = peek_from-cons max_n n k b m in
      elim (Bool-cases b.dirty) [
        | inr e ↦ rw (step.0 e) (
          (AreDirty-behind m k b (tokens_of (peek_from max_n n m)) h.0.0 skip.0).0,
          All-map (IsCopy m) (IsCopy ((k, b) ∷ m)) (peek_from max_n n m) back skip.1,
        )
        | inl e ↦ elim (Bool-cases (is_full max_n n)) [
          | inl f ↦ rw (step.1 f e) (tt, tt)
          | inr f ↦
              let (rest, away) =
                AreDirty-behind m k b (tokens_of (peek_from max_n (n + 1) m)) h.0.0 more.0 in
              rw (step.2 f e) (
                ((b, ground (arith, eq_iff k k), e), rw own away, rest),
                (
                  (ground (arith, eq_iff k k), e),
                  All-map (IsCopy m) (IsCopy ((k, b) ∷ m)) (peek_from max_n (n + 1) m) back more.1,
                ),
              )
        ]
      ]

  -- Marking a dirty book lowers the count by one.
  dirty_in-insert :
      (m : Dict (BookState F)) (id : String) (b : BookState F)
      → lookup id m ≡ some b
      → b.dirty ≡ true
      → dirty_in (insert id (flushed b) m) + 1 ≡ dirty_in m
  unfolding dirty_in mid
  dirty_in-insert [] id b e t = cc
  dirty_in-insert ((k, c) ∷ m) id b e t = ground (arith, dirty_in-insert m id b)

  AreDirty-insert :
      (m : Dict (BookState F)) (id : String) (b : BookState F) (ids : List String)
      → All (λ j. id ≢ j) ids
      → AreDirty m ids
      → AreDirty (insert id b m) ids
  AreDirty-insert m id b [] a d = tt
  AreDirty-insert m id b (j ∷ ids) a ((c, e, t), apart, rest) = (
    (c, ground (arith, a.0, str_eq→eq id j, lookup-insert id j b m), t),
    apart,
    AreDirty-insert m id b ids a.1 rest,
  )

  dirty_in-mark_all :
      (ids : List String) (m : Dict (BookState F))
      → AreDirty m ids
      → dirty_in (mark_all m ids) + length ids ≡ dirty_in m
  unfolding mark_all mid
  dirty_in-mark_all [] m d = omega arith
  dirty_in-mark_all (id ∷ ids) m ((b, e, t), apart, rest) = rw e (
      omega (
        arith,
        dirty_in-mark_all ids (insert id (flushed b) m)
            (AreDirty-insert m id (flushed b) ids apart rest),
        dirty_in-insert m id b e t,
      ))

  peek_from-few :
      (max_n n : ℕ) (m : Dict (BookState F))
      → 0 < max_n
      → n ≤ max_n
      → length (peek_from max_n n m) + n ≤ max_n
  unfolding peek_from
  peek_from-few max_n n [] p h = omega arith
  peek_from-few max_n n ((k, b) ∷ m) p h =
      ground (arith, peek_from-few max_n n m p, peek_from-few max_n (n + 1) m p)

  -- Without a limit the batch has every dirty book.
  peek_from-all : (n : ℕ) (m : Dict (BookState F)) → length (peek_from 0 n m) ≡ dirty_in m
  unfolding peek_from dirty_in
  peek_from-all n [] = refl
  peek_from-all n ((k, b) ∷ m) = ground (arith, peek_from-all n m, peek_from-all (n + 1) m)

  -- TakeDirty with no event in between, on a store that is well formed: the batch has books of
  -- different tokens, each as the store had it and dirty; for every token, either its book is dirty,
  -- in the batch and then marked clean, or it is not in the batch and stays as it was; the dirty books
  -- left and the batch add up to the dirty books before; the batch keeps to a positive limit; and
  -- without a limit no book stays dirty.
  pub take_dirty_lem :
      (s : BookStore F) (max_n : ℕ)
      → IsStored s.books
      → let r = take_dirty s max_n in
        (dirty_count r.0 + length r.1 ≡ dirty_count s)
        × All (IsCopy s.books) r.1
        × AreDirty s.books (tokens_of r.1)
        × ((k : String) → IsTakenOrLeft s.books r.0.books r.1 k)
        × (0 < max_n → length r.1 ≤ max_n)
        × (max_n ≡ 0 → dirty_count r.0 ≡ 0)
  unfolding take_dirty peek_dirty mark_flushed dirty_count
  take_dirty_lem s max_n h =
      let (dirty, copies) = peek_from-AreDirty max_n s.books 0 h in
      let batch = peek_from max_n 0 s.books in
      let counted = dirty_in-mark_all (tokens_of batch) s.books dirty in
      let sum : dirty_in (mark_all s.books (tokens_of batch)) + length batch ≡ dirty_in s.books =
        omega (arith, counted, length-tokens_of batch) in
      let whole : max_n ≡ 0 → dirty_in (mark_all s.books (tokens_of batch)) ≡ 0 =
        λ e. let all = peek_from-all 0 s.books in rw e (omega (arith, rw e at sum, all)) in
      (
        sum,
        copies,
        dirty,
        λ k. mark_all-IsTakenOrLeft s.books batch k copies,
        λ p. omega (arith, peek_from-few max_n 0 s.books p (omega arith)),
        whole,
      )
