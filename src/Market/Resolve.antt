-- ===== src/Market/Resolve.antt =====
-- internal/ws/market/resolve_queue.go: resolutions that wait for the next batch write.
pub mod Queue
use poly_asian_data.Base.{
  ℕ, ◌<◌, ◌≡◌, refl, inl, inr, String, false, not, ◌&&◌, ◌++◌, ◌∙◌, ap, List, [], ◌∷◌, Option, none,
  some, arith, if◌then◌else◌, ltb, ◌==◌, str_eq, str_eq→eq, is_empty, eq_iff, All, Bool-cases,
  Option-cases, length, map,
}
use poly_asian_data.Base.Dict.{
  Dict, lookup, insert, IsKeyed, insert-IsKeyed, lookup-insert, All-insert,
}

-- A time of 0 is the zero time.
pub record MarketResolution : Type 0 where
  pub gamma_id : String
  pub condition_id : String
  pub winning_asset_id : String
  pub winning_outcome : String
  pub resolved_at : ℕ
  pub asset_ids : List String

-- The map byKey of the queue.
pub record ResolveQueue : Type 0 where
  pub by_key : Dict MarketResolution

abbrev pub new_resolve_queue : ResolveQueue
new_resolve_queue = record { by_key = [] }

-- The key of a resolution: its condition, or else its gamma ID.
abbrev pub key_of : MarketResolution → String
key_of r = if is_empty r.condition_id then r.gamma_id else r.condition_id

abbrev text_from : String → String → String
text_from a b = if is_empty b then a else b

abbrev list_from : List String → List String → List String
list_from a [] = a
list_from a (x ∷ xs) = x ∷ xs

unfoldable pub merge_resolution : MarketResolution → MarketResolution → MarketResolution
merge_resolution a b = record {
  gamma_id = text_from a.gamma_id b.gamma_id;
  condition_id = text_from a.condition_id b.condition_id;
  winning_asset_id = text_from a.winning_asset_id b.winning_asset_id;
  winning_outcome = text_from a.winning_outcome b.winning_outcome;
  resolved_at = b.resolved_at;
  asset_ids = list_from a.asset_ids b.asset_ids;
}

-- What the entry becomes when `r`, with its time set, meets the one that is there.
unfoldable pub settle : Option MarketResolution → MarketResolution → MarketResolution
settle none r = r
settle (some prev) r =
    if ltb r.resolved_at prev.resolved_at
    then prev
    else if r.resolved_at == prev.resolved_at
    then merge_resolution prev r
    else r

-- `Enqueue` at the time `now`. A stale resolution returns before the write; to write back the entry
-- that is there leaves the same map.
unfoldable pub enqueue : ResolveQueue → MarketResolution → ℕ → ResolveQueue
unfolding settle
enqueue q r now =
    let timed = record r { resolved_at = if r.resolved_at == 0 then now else r.resolved_at } in
    let k = key_of r in
    if is_empty k
    then q
    else record { by_key = insert k (settle (lookup k q.by_key) timed) q.by_key }

-- `Len`
unfoldable pub pending_count : ResolveQueue → ℕ
pending_count q = length q.by_key

-- `TakeAll`, with the queue that it leaves.
unfoldable pub take_all : ResolveQueue → ResolveQueue × List MarketResolution
take_all q = (new_resolve_queue, map (λ e. e.1) q.by_key)

unfoldable pub enqueue_all : ResolveQueue → List (MarketResolution × ℕ) → ResolveQueue
enqueue_all q [] = q
enqueue_all q ((r, now) ∷ rs) = enqueue_all (enqueue q r now) rs

-- The entry stands under its own key, which is not empty.
pub record IsFiled (k : String) (r : MarketResolution) : Type 0 where
  pub own : key_of r ≡ k
  pub named : is_empty k ≡ false

-- The time with which a resolution is enqueued.
abbrev pub time_of : MarketResolution → ℕ → ℕ
time_of r now = if r.resolved_at == 0 then now else r.resolved_at

-- The time of the entry, 0 where there is none.
abbrev pub entry_time : Option MarketResolution → ℕ
entry_time none = 0
entry_time (some r) = r.resolved_at

-- The larger of two times.
abbrev later : ℕ → ℕ → ℕ
later a b = if ltb a b then b else a

-- The latest time among the resolutions of key `k`, from `t` on.
abbrev pub latest : String → ℕ → List (MarketResolution × ℕ) → ℕ
latest k t [] = t
latest k t ((r, now) ∷ rs) =
    latest k
      (if str_eq (key_of r) k && not (is_empty (key_of r)) then later t (time_of r now) else t) rs

settle-time :
    (o : Option MarketResolution) (r : MarketResolution)
    → (settle o r).resolved_at ≡ later (entry_time o) r.resolved_at
unfolding settle merge_resolution
settle-time none r = ground arith
settle-time (some p) r = ground arith

enqueue-time :
    (q : ResolveQueue) (r : MarketResolution) (now : ℕ) (k : String)
    → entry_time (lookup k (enqueue q r now).by_key) ≡ (
        if str_eq (key_of r) k && not (is_empty (key_of r))
        then later (entry_time (lookup k q.by_key)) (time_of r now)
        else entry_time (lookup k q.by_key))
unfolding enqueue
enqueue-time q r now k =
    let timed = record r { resolved_at = time_of r now } in
    ground (
      arith,
      lookup-insert (key_of r) k (settle (lookup (key_of r) q.by_key) timed) q.by_key,
      settle-time (lookup (key_of r) q.by_key) timed,
      str_eq→eq (key_of r) k,
    )

-- After any sequence of Enqueue, in whatever order the resolutions come, the time of the entry of a
-- key is the latest of the times enqueued for it and of the time that it had: a stale resolution
-- never takes the place of a newer one.
pub enqueue_all-latest :
    (q : ResolveQueue) (rs : List (MarketResolution × ℕ)) (k : String)
    → entry_time (lookup k (enqueue_all q rs).by_key) ≡ latest k (entry_time (lookup k q.by_key)) rs
unfolding enqueue_all
enqueue_all-latest q [] k = refl
enqueue_all-latest q ((r, now) ∷ rs) k =
    enqueue_all-latest (enqueue q r now) rs k ∙ ap (λ t. latest k t rs) (enqueue-time q r now k)
