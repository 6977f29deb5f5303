-- ===== src/Fetch.antt =====
-- internal/fetcher/paginate.go: reading all pages of an API, by offset and by cursor.
pub mod Bounds
pub mod Offset
pub mod Keyset
use poly_asian_data.Base.{
  ℕ, zero, suc, ◌+◌, String, Bool, true, false, not, ◌&&◌, ◌||◌, List, [], ◌∷◌, ◌++◌, Option, none,
  some, ltb, leb, is_empty, if◌then◌else◌, length,
}

pub data FetchError : Type 0 where
  url_missing cancelled request_failed bad_status undecodable : FetchError

-- What a paged read returns, or `none` when the fuel runs out.
pub record Fetched (T : Type 0) : Type 0 where
  pub items : List T
  pub err : Option FetchError

-- The answer to a request by offset: no answer, a status other than 200 (whether it is 422, and
-- whether the body names the offset limit), a body that does not decode, or a page.
pub data Reply (T : Type 0) : Type 0 where
  no_reply : Reply T
  status : Bool → Bool → Reply T
  garbled : Reply T
  page : List T → Reply T

-- The answer to a request by cursor; `next` of a page is empty on the last one.
pub data KeysetReply (T : Type 0) : Type 0 where
  no_reply : KeysetReply T
  status : KeysetReply T
  garbled : KeysetReply T
  page : List T → String → KeysetReply T

-- What a read meets outside, by the number of the request: whether the context is done before it,
-- the server's answer, and whether the context ends in the wait after it.
pub record Server (Query Answer : Type 0) : Type 0 where
  pub is_done : ℕ → Bool
  pub answer : ℕ → Query → Answer
  pub is_cut : ℕ → Bool

abbrev pub is_page_empty : {T : Type 0} → List T → Bool
is_page_empty [] = true
is_page_empty (_ ∷ _) = false

module _ {T : Type 0} where
  abbrev pub stop : List T → Option FetchError → Option (Fetched T)
  stop acc e = some (record { items = acc; err = e })

  -- The threshold is set and reached.
  abbrev pub is_enough : ℕ → List T → Bool
  is_enough threshold acc = ltb 0 threshold && leb threshold (length acc)

  -- What follows a page: stop, or the wait and the next request. `is_last` is the loop's own test.
  unfoldable pub turn_page :
      ℕ → Bool → Bool → List T → List T → Option (Fetched T) → Option (Fetched T)
  turn_page threshold is_cut is_last acc xs rest =
      if is_page_empty xs
      then stop acc none
      else if is_enough threshold (acc ++ xs) || is_last
      then stop (acc ++ xs) none
      else if is_cut
      then stop (acc ++ xs) (some cancelled)
      else rest

  -- The reaction to an answer; `rest` is the loop behind a page.
  unfoldable pub receive :
      ℕ → ℕ → Bool → List T → (List T → Option (Fetched T)) → Reply T → Option (Fetched T)
  receive limit threshold is_cut acc rest Reply.no_reply = stop [] (some request_failed)
  receive limit threshold is_cut acc rest (Reply.status is_422 is_limit) =
      if is_422 && not (is_page_empty acc) && is_limit
      then stop acc none
      else stop [] (some bad_status)
  receive limit threshold is_cut acc rest Reply.garbled = stop [] (some undecodable)
  receive limit threshold is_cut acc rest (Reply.page xs) =
      turn_page threshold is_cut (ltb (length xs) limit) acc xs (rest xs)

  -- The loop of `FetchPaginated` from request `n` on.
  unfoldable pub fetch_from : Server ℕ (Reply T) → ℕ → ℕ → ℕ → ℕ → ℕ → List T → Option (Fetched T)
  fetch_from web limit threshold zero n offset acc = none
  fetch_from web limit threshold (suc fuel) n offset acc =
      if web.is_done n
      then stop acc (some cancelled)
      else receive limit threshold (web.is_cut n) acc
          (λ xs. fetch_from web limit threshold fuel (n + 1) (offset + length xs) (acc ++ xs))
          (web.answer n offset)

  -- `FetchPaginated`; `has_url` says that baseURL is not nil.
  unfoldable pub fetch_paginated : Server ℕ (Reply T) → Bool → ℕ → ℕ → ℕ → Option (Fetched T)
  unfolding fetch_from
  fetch_paginated web has_url limit threshold fuel =
      let read = fetch_from web limit threshold fuel 0 0 [] in
      if has_url then read else stop [] (some url_missing)

  unfoldable pub receive_keyset :
      ℕ
      → Bool
      → List T
      → (List T → String → Option (Fetched T))
      → KeysetReply T
      → Option (Fetched T)
  receive_keyset threshold is_cut acc rest KeysetReply.no_reply = stop [] (some request_failed)
  receive_keyset threshold is_cut acc rest KeysetReply.status = stop [] (some bad_status)
  receive_keyset threshold is_cut acc rest KeysetReply.garbled = stop [] (some undecodable)
  receive_keyset threshold is_cut acc rest (KeysetReply.page xs next) =
      turn_page threshold is_cut (is_empty next) acc xs (rest xs next)

  -- The loop of `FetchPaginatedKeyset`. A query is the limit and the cursor, empty on the first page.
  unfoldable pub keyset_from :
      Server (ℕ × String) (KeysetReply T) → ℕ → ℕ → ℕ → ℕ → String → List T → Option (Fetched T)
  keyset_from web limit threshold zero n cursor acc = none
  keyset_from web limit threshold (suc fuel) n cursor acc =
      if web.is_done n
      then stop acc (some cancelled)
      else receive_keyset threshold (web.is_cut n) acc
          (λ xs next. keyset_from web limit threshold fuel (n + 1) next (acc ++ xs))
          (web.answer n (limit, cursor))

  unfoldable pub fetch_paginated_keyset :
      Server (ℕ × String) (KeysetReply T) → Bool → ℕ → ℕ → ℕ → Option (Fetched T)
  unfolding keyset_from
  fetch_paginated_keyset web has_url limit threshold fuel =
      let size = if leb limit 0 then 100 else limit in
      let read = keyset_from web size threshold fuel 0 "" [] in
      if has_url then read else stop [] (some url_missing)
