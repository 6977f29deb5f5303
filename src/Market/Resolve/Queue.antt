-- ===== src/Market/Resolve/Queue.antt =====
-- internal/ws/market/resolve_queue.go: a queue has each entry under its own key, and a failed batch
-- goes back as it was.
use poly_asian_data.Base.{
  ℕ, ◌<◌, ◌≡◌, refl, inl, inr, String, false, ◌++◌, ◌∙◌, ap, List, [], ◌∷◌, none, some, arith, ltb,
  ◌==◌, str_eq, str_eq→eq, is_empty, eq_iff, All, Bool-cases, Option-cases, length, map,
}
use poly_asian_data.Base.Dict.{
  Dict, lookup, insert, IsKeyed, insert-IsKeyed, lookup-insert, All-insert,
}
use poly_asian_data.Market.Resolve.{
  MarketResolution, ResolveQueue, new_resolve_queue, key_of, merge_resolution, settle, enqueue,
  pending_count, take_all, enqueue_all, IsFiled, time_of,
}

abbrev pub IsQueue : Dict MarketResolution → Type 0
IsQueue m = IsKeyed m × All (λ e. IsFiled e.0 e.1) m

IsQueue-lookup :
    (m : Dict MarketResolution) (k : String) (r : MarketResolution)
    → IsQueue m
    → lookup k m ≡ some r
    → IsFiled k r
IsQueue-lookup [] k r h e = cc
IsQueue-lookup ((j, p) ∷ m) k r h e = elim (Bool-cases (str_eq j k)) [
  | inl same ↦
      let jk : j ≡ k = str_eq→eq j k same in let pr : p ≡ r = ground arith in rw (← jk, ← pr) h.1.0
  | inr other ↦ IsQueue-lookup m k r (h.0.1, h.1.1) (ground arith)
]

-- A merge of two resolutions of one key has that key.
merge-IsFiled :
    (k : String) (a b : MarketResolution)
    → IsFiled k a
    → IsFiled k b
    → IsFiled k (merge_resolution a b)
unfolding merge_resolution
merge-IsFiled k a b ha hb = record {
  own = ground (arith, ha.own, hb.own, ha.named, str_eq→eq a.condition_id "", eq_iff k "");
  named = ha.named;
}

settle-IsFiled :
    (m : Dict MarketResolution) (r : MarketResolution)
    → IsQueue m
    → is_empty (key_of r) ≡ false
    → IsFiled (key_of r) (settle (lookup (key_of r) m) r)
unfolding settle
settle-IsFiled m r h n =
    let self : IsFiled (key_of r) r = record { own = refl; named = n } in
    elim (Option-cases (lookup (key_of r) m)) [
      | inl e ↦ rw e self
      | inr (p, e) ↦
          let there = IsQueue-lookup m (key_of r) p h e in
          let merged = merge-IsFiled (key_of r) p r there self in
          rw e (elim (Bool-cases (ltb r.resolved_at p.resolved_at)) [
            | inl t ↦ rw t there
            | inr t ↦ elim (Bool-cases (r.resolved_at == p.resolved_at)) [
              | inl u ↦ rw t (rw u merged)
              | inr u ↦ rw t (rw u self)
            ]
          ])
    ]

enqueue-IsQueue :
    (q : ResolveQueue) (r : MarketResolution) (now : ℕ)
    → IsQueue q.by_key
    → IsQueue (enqueue q r now).by_key
unfolding enqueue
enqueue-IsQueue q r now h =
    let timed = record r { resolved_at = time_of r now } in
    elim (Bool-cases (is_empty (key_of r))) [
      | inl e ↦ rw e h
      | inr e ↦
          let v = settle (lookup (key_of r) q.by_key) timed in
          rw e (
            insert-IsKeyed (key_of r) v q.by_key h.0,
            All-insert (λ e. IsFiled e.0 e.1) (key_of r) v q.by_key
                (settle-IsFiled q.by_key timed h e) h.1,
          )
    ]

-- The batch of a failed write, to be enqueued again at the time `now`.
abbrev pub again : ℕ → List MarketResolution → List (MarketResolution × ℕ)
again now rs = map (λ r. (r, now)) rs

insert_absent :
    (k : String) (r : MarketResolution) (m : Dict MarketResolution)
    → lookup k m ≡ none
    → insert k r m ≡ m ++ (k, r) ∷ []
insert_absent k r [] h = refl
insert_absent k r ((j, p) ∷ m) h = ground (arith, insert_absent k r m)

append-nil : (m : Dict MarketResolution) → m ≡ m ++ []
append-nil [] = refl
append-nil (x ∷ m) = ap (λ (t : Dict MarketResolution). x ∷ t) (append-nil m)

append-cons :
    (m n : Dict MarketResolution) (e : String × MarketResolution) → (m ++ e ∷ []) ++ n ≡ m ++ e ∷ n
append-cons [] n e = refl
append-cons (x ∷ m) n e = ap (λ (t : Dict MarketResolution). x ∷ t) (append-cons m n e)

-- Entries under other keys than those of a map stay so when the map grows by an absent key.
absent_still :
    (k : String) (r : MarketResolution) (m acc : Dict MarketResolution)
    → lookup k m ≡ none
    → lookup k acc ≡ none
    → All (λ e. lookup e.0 acc ≡ none) m
    → All (λ e. lookup e.0 (insert k r acc) ≡ none) m
absent_still k r [] acc h g a = tt
absent_still k r ((j, p) ∷ m) acc h g a = (
  ground (arith, a.0, lookup-insert k j r acc, eq_iff j k, eq_iff k j),
  absent_still k r m acc (ground arith) g a.1,
)

-- An entry with its own key and a time goes back under its key.
enqueue_again :
    (k : String) (r : MarketResolution) (acc : Dict MarketResolution) (now : ℕ)
    → IsFiled k r
    → (0 < r.resolved_at)
    → lookup k acc ≡ none
    → enqueue (record { by_key = acc }) r now ≡ record { by_key = insert k r acc }
unfolding enqueue settle
enqueue_again k r acc now f t h =
    let set : r.resolved_at == 0 ≡ false = ground arith in rw (f.own, f.named, set, h) refl

enqueue_all-again :
    (m acc : Dict MarketResolution) (now : ℕ)
    → IsQueue m
    → All (λ e. 0 < e.1.resolved_at) m
    → All (λ e. lookup e.0 acc ≡ none) m
    → (enqueue_all (record { by_key = acc }) (again now (map (λ e. e.1) m))).by_key ≡ acc ++ m
unfolding enqueue_all
enqueue_all-again [] acc now h t a = append-nil acc
enqueue_all-again ((k, r) ∷ m) acc now h t a =
    let grown : insert k r acc ≡ acc ++ (k, r) ∷ [] = insert_absent k r acc a.0 in
    let rest =
      enqueue_all-again m (insert k r acc) now (h.0.1, h.1.1) t.1
        (absent_still k r m acc h.0.0 a.0 a.1) in
    let first = enqueue_again k r acc now h.1.0 t.0 a.0 in
    ap (λ (q : ResolveQueue). (enqueue_all q (again now (map (λ e. e.1) m))).by_key) first
    ∙ (rest ∙ ap (λ (x : Dict MarketResolution). x ++ m) grown ∙ append-cons acc m (k, r))

abbrev queue_of : Dict MarketResolution → ResolveQueue
queue_of m = record { by_key = m }

length-values : (m : Dict MarketResolution) → length (map (λ e. e.1) m) ≡ length m
length-values [] = refl
length-values (e ∷ m) = omega (arith, length-values m)

lookup-nil : (m : Dict MarketResolution) → All (λ e. lookup {V = MarketResolution} e.0 [] ≡ none) m
lookup-nil [] = tt
lookup-nil (e ∷ m) = (refl, lookup-nil m)

-- TakeAll hands over every entry and leaves nothing; when the write fails and nothing came in
-- meanwhile, enqueueing the batch again at any time gives back the queue as it was.
pub take_all-again :
    (q : ResolveQueue) (now : ℕ)
    → IsQueue q.by_key
    → All (λ e. 0 < e.1.resolved_at) q.by_key
    → let (left, batch) = take_all q in
      (pending_count left ≡ 0)
      × (length batch ≡ pending_count q)
      × (enqueue_all left (again now batch) ≡ q)
unfolding take_all pending_count
take_all-again q now h t = (
  refl,
  length-values q.by_key,
  ap queue_of (enqueue_all-again q.by_key [] now h t (lookup-nil q.by_key)),
)

-- Every queue that comes from a new one by Enqueue has each entry under its own key, once.
pub enqueue_all-IsQueue :
    (rs : List (MarketResolution × ℕ)) → IsQueue (enqueue_all new_resolve_queue rs).by_key
unfolding enqueue_all
enqueue_all-IsQueue rs = go rs new_resolve_queue (tt, tt)
  where
    go :
        (rs : List (MarketResolution × ℕ)) (q : ResolveQueue)
        → IsQueue q.by_key
        → IsQueue (enqueue_all q rs).by_key
    go [] q h = h
    go ((r, now) ∷ rs) q h = go rs (enqueue q r now) (enqueue-IsQueue q r now h)
