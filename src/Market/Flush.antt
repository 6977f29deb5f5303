-- ===== src/Market/Flush.antt =====
-- internal/ws/market/book.go: what the flushes take from the store, and the marks they leave.
use poly_asian_data.Base.{
  ℕ, ◌+◌, String, Bool, false, not, ◌&&◌, ◌||◌, List, [], ◌∷◌, Option, none, some, ltb, leb,
  if◌then◌else◌, length, map,
}
use poly_asian_data.Base.Dict.{Dict, lookup, insert, delete}
use poly_asian_data.Float.Defs.{Float64}
use poly_asian_data.Risk.{nought}
use poly_asian_data.Market.{BookState, mid, valid_book}
use poly_asian_data.Market.Book.{BookStore}

-- The batch is full: `maxN > 0 && len(out) >= maxN`.
abbrev pub is_full : ℕ → ℕ → Bool
is_full max_n n = ltb 0 max_n && leb max_n n

-- The tokens of a batch.
abbrev pub tokens_of : {F : Type 0} → List (BookState F) → List String
tokens_of bs = map (λ b. b.token_id) bs

module _ {F : Type 0} ⦃fl : Float64 F⦄ where
  open fl use {sub, abs, lt, eq}

  -- `Snapshot`
  unfoldable pub snapshot_of : BookStore F → String → Option (BookState F)
  snapshot_of s id = lookup id s.books

  -- `Len`
  unfoldable pub len : BookStore F → ℕ
  len s = length s.books

  -- The loop of `PeekDirty`, with `n` books in the batch already.
  unfoldable pub peek_from : ℕ → ℕ → Dict (BookState F) → List (BookState F)
  peek_from max_n n [] = []
  peek_from max_n n ((k, b) ∷ m) =
      let more = peek_from max_n (n + 1) m in
      let skip = peek_from max_n n m in
      if b.dirty then if is_full max_n n then [] else b ∷ more else skip

  unfoldable pub peek_dirty : BookStore F → ℕ → List (BookState F)
  unfolding peek_from
  peek_dirty s max_n = peek_from max_n 0 s.books

  -- The marks of a flush on one book.
  abbrev pub flushed : BookState F → BookState F
  flushed b = record b {
    dirty = false;
    last_flush_mid = mid b;
    last_flush_bb = b.best_bid;
    last_flush_ba = b.best_ask;
  }

  -- One round of `MarkFlushed`.
  abbrev pub flush_one : Dict (BookState F) → String → Option (BookState F) → Dict (BookState F)
  flush_one m id none = m
  flush_one m id (some b) = insert id (flushed b) m

  unfoldable pub mark_all : Dict (BookState F) → List String → Dict (BookState F)
  mark_all m [] = m
  mark_all m (id ∷ ids) = mark_all (flush_one m id (lookup id m)) ids

  unfoldable pub mark_flushed : BookStore F → List String → BookStore F
  unfolding mark_all
  mark_flushed s ids = record s { books = mark_all s.books ids }

  -- `TakeDirty`, when no event comes in between the two steps.
  unfoldable pub take_dirty : BookStore F → ℕ → BookStore F × List (BookState F)
  take_dirty s max_n = let out = peek_dirty s max_n in (mark_flushed s (tokens_of out), out)

  unfoldable pub dirty_in : Dict (BookState F) → ℕ
  dirty_in [] = 0
  dirty_in ((k, b) ∷ m) = let n = dirty_in m in if b.dirty then n + 1 else n

  unfoldable pub dirty_count : BookStore F → ℕ
  unfolding dirty_in
  dirty_count s = dirty_in s.books

  -- The book is as it was at the last snapshot, up to the epsilon.
  unfoldable pub is_settled : F → BookState F → Bool
  is_settled eps b =
      not (eq b.last_snap_mid nought)
      && lt (abs (sub (mid b) b.last_snap_mid)) eps
      && lt (abs (sub b.best_bid b.last_snap_bb)) eps
      && lt (abs (sub b.best_ask b.last_snap_ba)) eps

  -- The loop of `TakeChangedForSnapshot`: the books it leaves, and the batch of copies.
  unfoldable pub take_changed_from :
      F → ℕ → ℕ → Dict (BookState F) → Dict (BookState F) × List (BookState F)
  take_changed_from eps max_n n [] = ([], [])
  take_changed_from eps max_n n ((k, b) ∷ m) =
      let more = take_changed_from eps max_n (n + 1) m in
      let skip = take_changed_from eps max_n n m in
      let marked = record b {
        last_snap_mid = mid b;
        last_snap_bb = b.best_bid;
        last_snap_ba = b.best_ask;
      } in
      if not (valid_book (some b)) || is_settled eps b
      then ((k, b) ∷ skip.0, skip.1)
      else if is_full max_n n
      then ((k, b) ∷ m, [])
      else ((k, marked) ∷ more.0, b ∷ more.1)

  unfoldable pub take_changed : BookStore F → ℕ → BookStore F × List (BookState F)
  unfolding take_changed_from
  take_changed s max_n =
      let r = take_changed_from s.epsilon max_n 0 s.books in (record s { books = r.0 }, r.1)

  unfoldable pub delete_all : Dict (BookState F) → List String → Dict (BookState F)
  delete_all m [] = m
  delete_all m (id ∷ ids) = delete_all (delete id m) ids

  -- `RemoveTokens`
  unfoldable pub remove_tokens : BookStore F → List String → BookStore F
  unfolding delete_all
  remove_tokens s ids = record s { books = delete_all s.books ids }
