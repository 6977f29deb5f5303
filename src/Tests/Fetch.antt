-- ===== src/Tests/Fetch.antt =====
-- internal/fetcher/paginate.go: reads of three items in pages of two, and of a server that fails.
use poly_asian_data.Base.{
  ℕ, ◌+◌, ◌≤◌, ◌<◌, ◌≡◌, refl, ◌⊎◌, String, true, false, List, [], ◌∷◌, none, some, arith, ◌==◌,
  if◌then◌else◌, length, take, drop, str_eq,
}
use poly_asian_data.Fetch.{Reply, KeysetReply, Server, fetch_paginated, fetch_paginated_keyset}
use poly_asian_data.Fetch.Bounds.{Ends, fetch_paginated-Ends}
use poly_asian_data.Fetch.Offset.{fetch_paginated-reads}
use poly_asian_data.Fetch.Keyset.{last, more, fetch_paginated_keyset-Follows}

abbrev items : List ℕ
items = 7 ∷ 8 ∷ 9 ∷ []

abbrev by_offset : Server ℕ (Reply ℕ)
by_offset = record {
  is_done = λ n. false;
  answer = λ n offset. Reply.page (take 2 (drop offset items));
  is_cut = λ n. false;
}

abbrev no_threshold : ℕ
no_threshold = 0

fetch_paginated-reads_example :
    (no_threshold ≡ 0
      → fetch_paginated by_offset true 2 no_threshold (length items + 1)
        ≡ some (record { items = items; err = none }))
    × ((k : ℕ) × (fetch_paginated by_offset true 2 no_threshold (length items + 1)
          ≡ some (record { items = take k items; err = none }))
        × ((length items ≤ k) ⊎ ((0 < no_threshold) × (no_threshold ≤ k) × (k < no_threshold + 2))))
fetch_paginated-reads_example =
    fetch_paginated-reads by_offset items 2 no_threshold
      (record { never_done = λ n. refl; never_cut = λ n. refl; pages = λ n offset. refl })
      (omega arith)

abbrev failing : Server ℕ (Reply ℕ)
failing = record {
  is_done = λ n. false;
  answer = λ n offset. if n == 0 then Reply.page items else Reply.status true true;
  is_cut = λ n. false;
}

fetch_paginated-Ends_example : Ends (fetch_paginated failing true 3 9 9)
fetch_paginated-Ends_example = fetch_paginated-Ends failing true 3 9 (omega arith)

abbrev cursors : String → KeysetReply ℕ
cursors c = if str_eq c "" then KeysetReply.page (7 ∷ 8 ∷ []) "c1" else KeysetReply.page (9 ∷ []) ""

abbrev by_cursor : Server (ℕ × String) (KeysetReply ℕ)
by_cursor = record {
  is_done = λ n. false;
  answer = λ n query. cursors query.1;
  is_cut = λ n. false;
}

fetch_paginated_keyset-Follows_example :
    fetch_paginated_keyset by_cursor true 2 0 2 ≡ some (record { items = items; err = none })
fetch_paginated_keyset-Follows_example =
    fetch_paginated_keyset-Follows by_cursor 2 cursors
      (record { never_done = λ n. refl; never_cut = λ n. refl; stable = λ n c. refl }) 2 items
      (omega arith) (more {next = "c1"} refl refl (last {next = ""} refl refl))
