-- ===== src/Fetch/Keyset.antt =====
-- internal/fetcher/paginate.go: `FetchPaginatedKeyset` follows the cursors to the end.
use poly_asian_data.Base.{
  ℕ, zero, suc, ◌+◌, ◌≤◌, ◌<◌, ◌≡◌, refl, ◌∙◌, ap, String, true, false, List, [], ◌∷◌, ◌++◌, Option,
  none, some, arith, leb, is_empty,
}
use poly_asian_data.Fetch.{
  Fetched, KeysetReply, Server, turn_page, receive_keyset, keyset_from, fetch_paginated_keyset,
}

-- From the cursor on, the server has these items on `k` pages: an empty page ends them, and so does a
-- page without a next cursor.
pub data Follows {T : Type 0} (answer : String → KeysetReply T) : String → ℕ → List T → Type 0 where
  dry : {c next : String} → answer c ≡ KeysetReply.page [] next → Follows answer c 1 []
  last :
      {c next : String} {x : T} {xs : List T}
      → answer c ≡ KeysetReply.page (x ∷ xs) next
      → is_empty next ≡ true
      → Follows answer c 1 (x ∷ xs)
  more :
      {c next : String} {k : ℕ} {x : T} {xs ys : List T}
      → answer c ≡ KeysetReply.page (x ∷ xs) next
      → is_empty next ≡ false
      → Follows answer next k ys
      → Follows answer c (k + 1) (x ∷ xs ++ ys)

-- A server whose answers to one limit depend on the cursor alone, for a context that never ends.
pub record Keeps {T : Type 0} (web : Server (ℕ × String) (KeysetReply T)) (limit : ℕ)
    (answer : String → KeysetReply T) : Type 0 where
  pub never_done : (n : ℕ) → web.is_done n ≡ false
  pub never_cut : (n : ℕ) → web.is_cut n ≡ false
  pub stable : (n : ℕ) (c : String) → web.answer n (limit, c) ≡ answer c

module _ {T : Type 0} where
  append-nil : (xs : List T) → xs ≡ xs ++ []
  append-nil [] = refl
  append-nil (x ∷ xs) = ap (λ (ys : List T). x ∷ ys) (append-nil xs)

  append-append : (xs ys zs : List T) → (xs ++ ys) ++ zs ≡ xs ++ (ys ++ zs)
  append-append [] ys zs = refl
  append-append (x ∷ xs) ys zs = ap (λ (t : List T). x ∷ t) (append-append xs ys zs)

  -- The result of a whole read.
  abbrev whole : List T → Option (Fetched T)
  whole xs = some (record { items = xs; err = none })

  module _ (web : Server (ℕ × String) (KeysetReply T)) (limit : ℕ) (answer : String → KeysetReply T)
      (s : Keeps web limit answer) where
    open s use {never_done, never_cut, stable}

    keyset_from-Follows :
        (fuel n k : ℕ) (c : String) (acc xs : List T)
        → Follows answer c k xs
        → k ≤ fuel
        → keyset_from web limit 0 fuel n c acc ≡ whole (acc ++ xs)
    unfolding keyset_from receive_keyset turn_page
    keyset_from-Follows zero n k c acc xs (dry e) h = absurd (omega arith)
    keyset_from-Follows zero n k c acc xs (last e l) h = absurd (omega arith)
    keyset_from-Follows zero n k c acc xs (more e l f) h = absurd (omega arith)
    keyset_from-Follows (suc fuel) n k c acc xs (dry e) h =
        rw (never_done n, stable n c, e) (ap whole (append-nil acc))
    keyset_from-Follows (suc fuel) n k c acc xs (last e l) h =
        rw (never_done n, stable n c, e, l) refl
    keyset_from-Follows (suc fuel) n k c acc xs (more {next} {k = j} {x} {xs = us} {ys} e l f) h =
        rw (never_done n, stable n c, e, l, never_cut n)
          (keyset_from-Follows fuel (n + 1) j next (acc ++ x ∷ us) ys f (omega arith)
            ∙ ap whole (append-append acc (x ∷ us) ys))

    -- From a server that keeps its answers, with a positive limit, no threshold and no cancellation,
    -- FetchPaginatedKeyset returns all items from the first page to the page without a next cursor or
    -- without items, in order, after as many requests as there are pages.
    pub fetch_paginated_keyset-Follows :
        (k : ℕ) (xs : List T)
        → 0 < limit
        → Follows answer "" k xs
        → fetch_paginated_keyset web true limit 0 k ≡ some (record { items = xs; err = none })
    unfolding fetch_paginated_keyset
    fetch_paginated_keyset-Follows k xs p f =
        let positive : leb limit 0 ≡ false = ground arith in
        rw positive (keyset_from-Follows k 0 k "" [] xs f (omega arith))
