-- ===== src/Best.antt =====
-- The loop that keeps the best item of each key, as internal/alloc/alloc.go and
-- internal/signaleval/sim.go have it; what a key is and when an item beats another are parameters.
pub mod OneEach
use poly_asian_data.Base.{
  ℕ, ◌+◌, String, Bool, false, ◌||◌, List, [], ◌∷◌, Option, none, some, ◌==◌, if◌then◌else◌,
  get_elem?,
}
use poly_asian_data.Base.Dict.{Dict, lookup, insert}

-- The indices that `best` holds.
abbrev pub holds_index : ℕ → Dict ℕ → Bool
holds_index i [] = false
holds_index i ((k, j) ∷ best) = j == i || holds_index i best

module _ {A : Type 0} where
  -- `cur > old`, for the item whose index the map holds.
  abbrev wins : (A → A → Bool) → A → Option A → Bool
  wins beats n none = false
  wins beats n (some old) = beats n old

  -- One round of the first loop: item `n` at index `i`, of key `k`, and the index that the map holds
  -- for the key. An index out of range, which the code cannot meet, leaves the map.
  unfoldable pub better : (A → A → Bool) → List A → A → String → ℕ → Dict ℕ → Option ℕ → Dict ℕ
  better beats batch n k i best none = insert k i best
  better beats batch n k i best (some prev) =
      if wins beats n (get_elem? batch prev) then insert k i best else best

  -- That loop, from index `i` on.
  unfoldable pub best_by_key : (A → A → Bool) → (A → String) → List A → ℕ → List A → Dict ℕ → Dict ℕ
  best_by_key beats key batch i [] best = best
  best_by_key beats key batch i (n ∷ ns) best =
      best_by_key beats key batch (i + 1) ns
        (better beats batch n (key n) i best (lookup (key n) best))

  -- The items from index `i` on whose index is kept, in the order of the batch.
  unfoldable pub pick_kept : Dict ℕ → ℕ → List A → List A
  pick_kept best i [] = []
  pick_kept best i (n ∷ ns) =
      let rest = pick_kept best (i + 1) ns in if holds_index i best then n ∷ rest else rest

  unfoldable pub keep_best : (A → A → Bool) → (A → String) → List A → List A
  keep_best beats key batch = pick_kept (best_by_key beats key batch 0 batch []) 0 batch
