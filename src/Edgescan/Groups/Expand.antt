-- ===== src/Edgescan/Groups/Expand.antt =====
-- internal/edgescan/group_expand.go: how many legs ExpandGroupCandidates adds, and which ones.
use poly_asian_data.Base.{ℕ, ◌+◌, ◌≤◌, ◌≡◌, String, true, List, ◌++◌, some, length, All}
use poly_asian_data.Edgescan.{Candidate, condition_of, marked}
use poly_asian_data.Edgescan.Groups.{Expanded}
use poly_asian_data.Edgescan.Groups.Sound.{IsSound}

module _ {F : Type 0} where
  -- What the loops over the groups make of the state.
  pub record Grows (cap : ℕ) (d e : Expanded F) : Type 0 where
    pub legs : List (Candidate F)
    pub begins : e.cands ≡ d.cands ++ legs
    pub counts : e.added ≡ d.added + length legs
    pub capped : d.added ≤ cap → e.added ≤ cap
    pub keeps : (k : String) → marked k d.seen ≡ true → marked k e.seen ≡ true
    pub sound : IsSound d → IsSound e

  module _ (cap : ℕ) where
    -- Every candidate with a market is seen.
    abbrev AllSeen : Expanded F → List (Candidate F) → Type 0
    AllSeen e cs =
        All (λ c. (id : String) → (condition_of c) ≡ some id → marked id e.seen ≡ true) cs
