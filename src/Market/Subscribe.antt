-- ===== src/Market/Subscribe.antt =====
-- internal/ws/market/subscribe.go: what to subscribe to and what to leave.
use poly_asian_data.Base.{
  ℕ, ◌≡◌, refl, String, true, false, not, ◌&&◌, ◌||◌, List, [], ◌∷◌, arith, if◌then◌else◌, leb,
  str_eq→eq, is_empty, length, take,
}
use poly_asian_data.Market.{SubDiff}
use poly_asian_data.Market.Flushing.{is_one_of}

-- The keys of the map that the first loop of `DiffSubscriptions` fills, in any order.
abbrev pub id_set : List String → List String
id_set [] = []
id_set (id ∷ ids) = let rest = id_set ids in if is_empty id then rest else id ∷ rest

-- The IDs that are not empty and not in a set, in their order.
abbrev pub missing_from : List String → List String → List String
missing_from set [] = []
missing_from set (id ∷ ids) =
    let rest = missing_from set ids in
    if is_empty id then rest else if is_one_of id set then rest else id ∷ rest

unfoldable pub diff_subscriptions : List String → List String → SubDiff
diff_subscriptions current desired = record {
  subscribe = missing_from (id_set current) desired;
  unsubscribe = missing_from (id_set desired) current;
}

-- `CapAssets`
unfoldable pub cap_assets : List String → ℕ → List String
cap_assets ids max = if leb max 0 || leb (length ids) max then ids else take max ids

id_set-member :
    (k : String) (ids : List String)
    → is_one_of k (id_set ids) ≡ is_one_of k ids && not (is_empty k)
id_set-member k [] = refl
id_set-member k (id ∷ ids) = ground (arith, id_set-member k ids, str_eq→eq id k)

missing_from-member :
    (k : String) (set ids : List String)
    → is_one_of k (missing_from set ids)
      ≡ is_one_of k ids && not (is_empty k) && not (is_one_of k set)
missing_from-member k set [] = refl
missing_from-member k set (id ∷ ids) = ground (arith, missing_from-member k set ids, str_eq→eq id k)

-- Unsubscribing and subscribing as DiffSubscriptions says turns the current set into the desired
-- one, the empty ID apart; what is subscribed was not current, and what is left was current.
pub diff_subscriptions-reaches :
    (current desired : List String) (k : String)
    → is_empty k ≡ false
    → let d = diff_subscriptions current desired in
      ((is_one_of k current && not (is_one_of k d.unsubscribe)) || is_one_of k d.subscribe
        ≡ is_one_of k desired)
      × (is_one_of k d.subscribe ≡ true → is_one_of k current ≡ false)
      × (is_one_of k d.unsubscribe ≡ true
          → (is_one_of k current ≡ true) × (is_one_of k desired ≡ false))
unfolding diff_subscriptions
diff_subscriptions-reaches current desired k h = ground (
  arith,
  missing_from-member k (id_set current) desired,
  missing_from-member k (id_set desired) current,
  id_set-member k current,
  id_set-member k desired,
)
