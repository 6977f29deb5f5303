-- ===== src/Market/Stored.antt =====
-- The invariant of the books, through every event and flush: keys, identities and sizes.
use poly_asian_data.Base.{
  ℕ, ◌+◌, ◌≡◌, refl, inl, inr, String, false, ◌&&◌, List, [], ◌∷◌, none, some, arith, str_eq,
  is_empty, str_eq→eq, All, Bool-cases, Option-cases,
}
use poly_asian_data.Base.Dict.{
  Dict, lookup, insert, delete, IsKeyed, insert-IsKeyed, delete-IsKeyed, All-insert, All-delete,
}
use poly_asian_data.Float.Defs.{Float64, gt, IsOrdered}
use poly_asian_data.Risk.{nought}
use poly_asian_data.Market.{Level, BookState, ParsedEvent}
use poly_asian_data.Market.Book.{
  BookStore, PriceText, new_book_store, ensure, apply, handle, book_of, change_of, bba_of, trade_of,
  fill_side, set_level, recompute_top, recompute_depth, is_handled,
}
use poly_asian_data.Market.Flush.{
  mark_flushed, mark_all, flushed, take_changed, take_changed_from, remove_tokens, delete_all,
}

-- What happens to a store: an event arrives at a time, a flush marks tokens, a snapshot takes a
-- batch, tokens are removed.
pub data Act (F : Type 0) : Type 0 where
  arrive : ParsedEvent F → ℕ → Act F
  mark : List String → Act F
  take_snapshot : ℕ → Act F
  remove : List String → Act F

module _ {F : Type 0} ⦃fl : Float64 F⦄ where
  open fl use {le, lt}

  -- No size of a side is 0 or less.
  abbrev pub IsSide : Dict F → Type 0
  IsSide m = IsKeyed m × All (λ e. le e.1 nought ≡ false) m

  -- A book stands under its own token, which is not empty, and has no empty level.
  pub record IsBook (k : String) (b : BookState F) : Type 0 where
    pub own : b.token_id ≡ k
    pub named : is_empty k ≡ false
    pub bids_ok : IsSide b.bids
    pub asks_ok : IsSide b.asks

  abbrev pub IsStored : Dict (BookState F) → Type 0
  IsStored m = IsKeyed m × All (λ e. IsBook e.0 e.1) m

  -- What holds of every entry holds of the one that is found.
  pub IsStored-lookup :
      (m : Dict (BookState F)) (k : String) (b : BookState F)
      → IsStored m
      → lookup k m ≡ some b
      → IsBook k b
  IsStored-lookup [] k b h e = cc
  IsStored-lookup ((j, c) ∷ m) k b h e = elim (Bool-cases (str_eq j k)) [
    | inl same ↦
        let jk : j ≡ k = str_eq→eq j k same in
        let cb : c ≡ b = ground arith in rw (← jk, ← cb) h.1.0
    | inr other ↦ IsStored-lookup m k b (h.0.1, h.1.1) (ground arith)
  ]

  ensure-IsBook :
      (s : BookStore F) (id : String)
      → is_empty id ≡ false
      → IsStored s.books
      → IsBook id (ensure s id)
  unfolding ensure
  ensure-IsBook s id named h = elim (Option-cases (lookup id s.books)) [
    | inl e ↦ rw e (record { own = refl; named = named; bids_ok = (tt, tt); asks_ok = (tt, tt) })
    | inr (b, e) ↦ rw e (IsStored-lookup s.books id b h e)
  ]

  put-IsStored :
      (m : Dict (BookState F)) (id : String) (b : BookState F)
      → IsBook id b
      → IsStored m
      → IsStored (insert id b m)
  put-IsStored m id b h i =
      (insert-IsKeyed id b m i.0, All-insert (λ e. IsBook e.0 e.1) id b m h i.1)

  insert-IsSide :
      (k : String) (size : F) (m : Dict F)
      → le size nought ≡ false
      → IsSide m
      → IsSide (insert k size m)
  insert-IsSide k size m e h =
      (insert-IsKeyed k size m h.0, All-insert (λ e. le e.1 nought ≡ false) k size m e h.1)

  delete-IsSide : (k : String) (m : Dict F) → IsSide m → IsSide (delete k m)
  delete-IsSide k m h = (delete-IsKeyed k m h.0, All-delete (λ e. le e.1 nought ≡ false) k m h.1)

  set_level-IsSide :
      (text : PriceText F) (price size : F) (m : Dict F)
      → IsSide m
      → IsSide (set_level text price size m)
  unfolding set_level
  set_level-IsSide text price size m h = elim (Bool-cases (le size nought)) [
    | inl e ↦ rw e (delete-IsSide (text.print price) m h)
    | inr e ↦ elim (Bool-cases (gt price nought)) [
      | inl p ↦ rw (e, p) (insert-IsSide (text.print price) size m e h)
      | inr p ↦ rw (e, p) h
    ]
  ]

  change_of-IsBook :
      (text : PriceText F) (ev : ParsedEvent F) (now : ℕ) (k : String) (b : BookState F)
      → IsBook k b
      → IsBook k (change_of text ev now b)
  unfolding change_of recompute_top recompute_depth
  change_of-IsBook text ev now k b h = ground (
    arith,
    set_level-IsSide text ev.price ev.size b.bids h.bids_ok,
    set_level-IsSide text ev.price ev.size b.asks h.asks_ok,
  )

  mark_all-IsStored :
      (m : Dict (BookState F)) (ids : List String) → IsStored m → IsStored (mark_all m ids)
  unfolding mark_all
  mark_all-IsStored m [] h = h
  mark_all-IsStored m (id ∷ ids) h = elim (Option-cases (lookup id m)) [
    | inl e ↦ rw e (mark_all-IsStored m ids h)
    | inr (b, e) ↦
        let k = IsStored-lookup m id b h e in
        rw e (
          mark_all-IsStored (insert id (flushed b) m) ids (
            put-IsStored m id (flushed b)
              (record { own = k.own; named = k.named; bids_ok = k.bids_ok; asks_ok = k.asks_ok })
              h))
  ]

  delete_all-IsStored :
      (m : Dict (BookState F)) (ids : List String) → IsStored m → IsStored (delete_all m ids)
  unfolding delete_all
  delete_all-IsStored m [] h = h
  delete_all-IsStored m (id ∷ ids) h =
      delete_all-IsStored (delete id m) ids
        (delete-IsKeyed id m h.0, All-delete (λ e. IsBook e.0 e.1) id m h.1)

  take_changed-lookup :
      (eps : F) (max_n n : ℕ) (m : Dict (BookState F)) (k : String)
      → lookup k m ≡ none
      → lookup k (take_changed_from eps max_n n m).0 ≡ none
  unfolding take_changed_from
  take_changed-lookup eps max_n n [] k h = refl
  take_changed-lookup eps max_n n ((j, b) ∷ m) k h =
      ground (arith, take_changed-lookup eps max_n n m k, take_changed-lookup eps max_n (n + 1) m k)

  take_changed-IsStored :
      (eps : F) (max_n n : ℕ) (m : Dict (BookState F))
      → IsStored m
      → IsStored (take_changed_from eps max_n n m).0
  unfolding take_changed_from
  take_changed-IsStored eps max_n n [] h = h
  take_changed-IsStored eps max_n n ((j, b) ∷ m) h = ground (
    arith,
    take_changed-IsStored eps max_n n m (h.0.1, h.1.1),
    take_changed-IsStored eps max_n (n + 1) m (h.0.1, h.1.1),
    take_changed-lookup eps max_n n m j h.0.0,
    take_changed-lookup eps max_n (n + 1) m j h.0.0,
  )

  module _ (text : PriceText F) where
    unfoldable pub act : BookStore F → Act F → BookStore F
    act s (arrive ev now) = (apply text s ev now).0
    act s (mark ids) = mark_flushed s ids
    act s (take_snapshot n) = (take_changed s n).0
    act s (remove ids) = remove_tokens s ids

    unfoldable pub act_all : BookStore F → List (Act F) → BookStore F
    unfolding act
    act_all s [] = s
    act_all s (a ∷ acts) = act_all (act s a) acts

  module _ (text : PriceText F) (laws : IsOrdered F fl) where
    open laws use {lt-not-le}

    fill_side-IsSide : (ls : List (Level F)) (m : Dict F) → IsSide m → IsSide (fill_side text ls m)
    unfolding fill_side
    fill_side-IsSide [] m h = h
    fill_side-IsSide (l ∷ ls) m h = elim (Bool-cases (gt l.price nought && gt l.size nought)) [
      | inl e ↦ rw e (
          fill_side-IsSide ls (insert (text.print l.price) l.size m) (
            insert-IsSide (text.print l.price) l.size m (ground (arith, lt-not-le nought l.size))
              h))
      | inr e ↦ rw e (fill_side-IsSide ls m h)
    ]

    handle-IsBook :
        (eps : F) (ev : ParsedEvent F) (now : ℕ) (k : String) (b : BookState F)
        → IsBook k b
        → IsBook k (handle text eps ev now b).0
    unfolding handle book_of bba_of trade_of recompute_top recompute_depth
    handle-IsBook eps ev now k b h = ground (
      arith,
      change_of-IsBook text ev now k b h,
      fill_side-IsSide ev.bids [] (tt, tt),
      fill_side-IsSide ev.asks [] (tt, tt),
    )

    apply-IsStored :
        (s : BookStore F) (ev : ParsedEvent F) (now : ℕ)
        → IsStored s.books
        → IsStored (apply text s ev now).0.books
    unfolding apply
    apply-IsStored s ev now h = elim (Bool-cases (is_handled ev)) [
      | inl t ↦ rw t (
          put-IsStored s.books ev.asset_id _
            (handle-IsBook s.epsilon ev now ev.asset_id (ensure s ev.asset_id)
              (ensure-IsBook s ev.asset_id (ground arith) h))
            h)
      | inr t ↦ rw t h
    ]

    act-IsStored : (s : BookStore F) (a : Act F) → IsStored s.books → IsStored (act text s a).books
    unfolding act mark_flushed take_changed remove_tokens
    act-IsStored s (arrive ev now) h = apply-IsStored s ev now h
    act-IsStored s (mark ids) h = mark_all-IsStored s.books ids h
    act-IsStored s (take_snapshot n) h = take_changed-IsStored s.epsilon n 0 s.books h
    act-IsStored s (remove ids) h = delete_all-IsStored s.books ids h

    act_all-IsStored :
        (s : BookStore F) (acts : List (Act F))
        → IsStored s.books
        → IsStored (act_all text s acts).books
    unfolding act_all
    act_all-IsStored s [] h = h
    act_all-IsStored s (a ∷ acts) h = act_all-IsStored (act text s a) acts (act-IsStored s a h)

    -- From a new store on, whatever events arrive and whatever is flushed, taken and removed: each
    -- token has one book, it stands under its own token, which is not empty, and neither side has a
    -- level of size 0 or less, or two levels of one price text.
    pub session-IsStored : (acts : List (Act F)) → IsStored (act_all text new_book_store acts).books
    unfolding new_book_store
    session-IsStored acts = act_all-IsStored new_book_store acts (tt, tt)
