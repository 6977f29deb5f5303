-- ===== src/Sim/Hourly.antt =====
-- internal/signaleval/equity.go: the hourly grid carries the last equity forward.
use poly_asian_data.Base.{
  ℕ, zero, suc, ◌+◌, ◌*◌, ◌-◌, ◌/◌, ◌%◌, ◌≤◌, ◌<◌, ◌≡◌, refl, ap, sym, ◌∙◌, Bool, true, false, not,
  List, [], ◌∷◌, arith, ltb, leb, ◌==◌, if◌then◌else◌, All, All-map, Bool-cases, inl, inr, keep,
}
use poly_asian_data.Float.Defs.{Float64}
use poly_asian_data.Sort.{stable_sort, stable_sort-IsOrderly, IsOrderly}
use poly_asian_data.Sim.{EquityPoint}
use poly_asian_data.Sim.Equity.{
  hour_ns, hour_of, at_time, timed, by_hour, hour_or, hours_from, is_nil, hour_grid,
  resample_hourly, last_time,
}

hour_of_mono : (s t : ℕ) → s ≤ t → hour_of s ≤ hour_of t
hour_of_mono s t h = omega arith

next_hour : (t h : ℕ) → t % hour_ns ≡ 0 → h % hour_ns ≡ 0 → ltb h (t + hour_ns) ≡ leb h t
next_hour t h p q = ground arith

hour_of-whole : (t : ℕ) → hour_of t % hour_ns ≡ 0
hour_of-whole t = omega arith

-- What holds of everything holds of every element.
All-each : {A : Type 0} (P : A → Type 0) (xs : List A) → ((a : A) → P a) → All P xs
All-each P [] h = tt
All-each P (x ∷ xs) h = (h x, All-each P xs h)

module _ {F : Type 0} ⦃fl : Float64 F⦄ where
  -- The equity of the last point that passes the test, or `d` when none does.
  abbrev pub latest : F → (EquityPoint F → Bool) → List (EquityPoint F) → F
  latest d test [] = d
  latest d test (p ∷ ps) = latest (if test p then p.equity else d) test ps

  abbrev pub hour_at : EquityPoint F → ℕ
  hour_at p = hour_of p.time

  -- Points in the order of their times.
  abbrev IsAscending : List (EquityPoint F) → Type 0
  IsAscending [] = Unit
  IsAscending (p ∷ ps) = All (λ q. p.time ≤ q.time) ps × IsAscending ps

  by_hour-latest :
      (d : F) (h : ℕ) (ps : List (EquityPoint F)) (m : List (ℕ × F))
      → hour_or d h (by_hour ps m) ≡ latest (hour_or d h m) (λ p. hour_at p == h) ps
  unfolding by_hour hour_or
  by_hour-latest d h [] m = refl
  by_hour-latest d h (p ∷ ps) m = by_hour-latest d h ps ((hour_at p, p.equity) ∷ m)

  latest_same :
      (d : F) (f g : EquityPoint F → Bool) (ps : List (EquityPoint F))
      → All (λ p. f p ≡ g p) ps
      → latest d f ps ≡ latest d g ps
  latest_same d f g [] h = refl
  latest_same d f g (p ∷ ps) h =
      latest_same (if f p then p.equity else d) f g ps h.1
      ∙ ap (λ b. latest (if b then p.equity else d) g ps) h.0

  latest_none :
      (d : F) (f : EquityPoint F → Bool) (ps : List (EquityPoint F))
      → All (λ p. f p ≡ false) ps
      → latest d f ps ≡ d
  latest_none d f [] h = refl
  latest_none d f (p ∷ ps) h = rw h.0 (latest_none d f ps h.1)

  -- What is behind a point is not in an earlier hour.
  hours_behind :
      (p : EquityPoint F) (ps : List (EquityPoint F))
      → All (λ q. p.time ≤ q.time) ps
      → All (λ q. hour_at p ≤ hour_at q) ps
  hours_behind p ps h =
      All-map (λ q. p.time ≤ q.time) (λ q. hour_at p ≤ hour_at q) ps
        (λ q. hour_of_mono p.time q.time) h

  -- The last equity up to an hour is that of the hour, or else that of the hours in front of it.
  latest-upto :
      (d : F) (h : ℕ) (ps : List (EquityPoint F))
      → IsAscending ps
      → latest (latest d (λ p. ltb (hour_at p) h) ps) (λ p. hour_at p == h) ps
        ≡ latest d (λ p. leb (hour_at p) h) ps
  latest-upto d h [] a = refl
  latest-upto d h (p ∷ ps) a = elim (Bool-cases (hour_at p == h)) [
    | inl e ↦
        let not_before : ltb (hour_at p) h ≡ false = ground arith in
        let upto : leb (hour_at p) h ≡ true = ground arith in
        let h' : hour_at p ≡ h = ground arith in
        let behind = hours_behind p ps a.0 in
        rw (e, upto)
          (latest_same p.equity (λ p. hour_at p == h) (λ p. leb (hour_at p) h) ps
            (All-map (λ q. hour_at p ≤ hour_at q) (λ q. (hour_at q == h) ≡ leb (hour_at q) h) ps
              (λ q k. ground arith) behind))
    | inr e ↦ elim (Bool-cases (ltb (hour_at p) h)) [
      | inl b ↦
          let upto : leb (hour_at p) h ≡ true = ground arith in
          rw (e, b, upto) (latest-upto p.equity h ps a.1)
      | inr b ↦
          let upto : leb (hour_at p) h ≡ false = ground arith in
          rw (e, b, upto) (latest-upto d h ps a.1)
    ]
  ]

  -- The equity of a point of the grid is the last one up to its hour.
  abbrev pub IsHeld : F → List (EquityPoint F) → EquityPoint F → Type 0
  IsHeld d ps q = q.equity ≡ latest d (λ p. leb (hour_at p) q.time) ps

  hours_from-IsHeld :
      (d : F) (ps : List (EquityPoint F)) (fuel end t : ℕ) (e : F)
      → IsAscending ps
      → t % hour_ns ≡ 0
      → e ≡ latest d (λ p. ltb (hour_at p) t) ps
      → All (IsHeld d ps) (hours_from fuel (by_hour ps []) end t e)
  unfolding hours_from hour_or
  hours_from-IsHeld d ps zero end t e a w h = tt
  hours_from-IsHeld d ps (suc fuel) end t e a w h =
      let m = by_hour ps [] in
      let now : hour_or e t m ≡ latest d (λ p. leb (hour_at p) t) ps =
        by_hour-latest e t ps []
        ∙ ap (λ x. latest x (λ p. hour_at p == t) ps) h
        ∙ latest-upto d t ps a in
      let next : latest d (λ p. leb (hour_at p) t) ps
          ≡ latest d (λ p. ltb (hour_at p) (t + hour_ns)) ps =
        sym (
          latest_same d (λ p. ltb (hour_at p) (t + hour_ns)) (λ p. leb (hour_at p) t) ps
            (All-each _ ps (λ p. next_hour t (hour_at p) w (hour_of-whole p.time)))) in
      elim (Bool-cases (leb t end)) [
        | inl b ↦ rw b (
          now,
          hours_from-IsHeld d ps fuel end (t + hour_ns) (hour_or e t m) a (omega arith)
              (now ∙ next),
        )
        | inr b ↦ rw b tt
      ]

  -- The times of the points are the hours from `t` to `end`, each once and in their order.
  abbrev pub IsHourly : ℕ → ℕ → List (EquityPoint F) → Type 0
  IsHourly t end [] = end < t
  IsHourly t end (q ∷ qs) = (q.time ≡ t) × (t ≤ end) × IsHourly (t + hour_ns) end qs

  hours_from-IsHourly :
      (m : List (ℕ × F)) (fuel end t : ℕ) (e : F)
      → end < t + fuel * hour_ns
      → IsHourly t end (hours_from fuel m end t e)
  unfolding hours_from
  hours_from-IsHourly m zero end t e h = omega arith
  hours_from-IsHourly m (suc fuel) end t e h = elim (Bool-cases (leb t end)) [
    | inl b ↦ rw b (
      refl,
      ground arith,
      hours_from-IsHourly m fuel end (t + hour_ns) (hour_or e t m) (omega arith),
    )
    | inr b ↦ rw b (ground arith)
  ]

  last_time-ge :
      (t n : ℕ) (ps : List (EquityPoint F)) → n ≤ t → All (λ q. n ≤ q.time) ps → n ≤ last_time t ps
  last_time-ge t n [] h a = h
  last_time-ge t n (p ∷ ps) h a = last_time-ge p.time n ps a.0 a.1

  abbrev pub first_or : F → List (EquityPoint F) → F
  first_or d [] = d
  first_or d (p ∷ _) = p.equity

  -- The hours of the first and of the last point.
  abbrev pub first_hour : List (EquityPoint F) → ℕ
  first_hour [] = 0
  first_hour (p ∷ _) = hour_at p

  abbrev pub last_hour : List (EquityPoint F) → ℕ
  last_hour [] = 0
  last_hour (p ∷ []) = hour_at p
  last_hour (p ∷ q ∷ ps) = last_hour (q ∷ ps)

  last_hour_lem :
      (p : EquityPoint F) (ps : List (EquityPoint F))
      → last_hour (p ∷ ps) ≡ hour_of (last_time p.time ps)
  last_hour_lem p [] = refl
  last_hour_lem p (q ∷ ps) = last_hour_lem q ps

  hour_grid-IsHourly :
      (p : EquityPoint F) (ps : List (EquityPoint F))
      → IsAscending (p ∷ ps)
      → IsHourly (hour_at p) (last_hour (p ∷ ps)) (hour_grid (p ∷ ps))
  unfolding hour_grid
  hour_grid-IsHourly p ps a =
      let start = hour_of p.time in
      let end = hour_of (last_time p.time ps) in
      let after =
        hour_of_mono p.time (last_time p.time ps)
          (last_time-ge p.time p.time ps (omega arith) a.0) in
      let early : ltb end start ≡ false = ground arith in
      rw (last_hour_lem p ps, early)
        (hours_from-IsHourly (by_hour (p ∷ ps) []) ((end - start) / hour_ns + 1) end start p.equity
          (omega arith))

  hour_grid-IsHeld :
      (d : F) (ps : List (EquityPoint F))
      → IsAscending ps
      → All (IsHeld (first_or d ps) ps) (hour_grid ps)
  unfolding hour_grid
  hour_grid-IsHeld d [] a = tt
  hour_grid-IsHeld d (p ∷ ps) a =
      let start = hour_of p.time in
      let end = hour_of (last_time p.time ps) in
      let after =
        hour_of_mono p.time (last_time p.time ps)
          (last_time-ge p.time p.time ps (omega arith) a.0) in
      let early : ltb end start ≡ false = ground arith in
      let none_before : latest p.equity (λ q. ltb (hour_at q) start) (p ∷ ps) ≡ p.equity =
        latest_none p.equity (λ q. ltb (hour_at q) start) (p ∷ ps)
          (ground arith, All-map _ _ ps (λ q k. ground arith) (hours_behind p ps a.0)) in
      rw early (
        hours_from-IsHeld p.equity (p ∷ ps) ((end - start) / hour_ns + 1) end start p.equity a
          (hour_of-whole p.time) (sym none_before))

  IsAscending-keep :
      (f : EquityPoint F → Bool) (ps : List (EquityPoint F))
      → IsAscending ps
      → IsAscending (keep f ps)
  IsAscending-keep f [] a = tt
  IsAscending-keep f (p ∷ ps) a = elim (Bool-cases (f p)) [
    | inl e ↦ rw e (All-kept (λ q. p.time ≤ q.time) f ps a.0, IsAscending-keep f ps a.1)
    | inr e ↦ rw e (IsAscending-keep f ps a.1)
  ]
    where
      All-kept :
          (P : EquityPoint F → Type 0) (f : EquityPoint F → Bool) (ps : List (EquityPoint F))
          → All P ps
          → All P (keep f ps)
      All-kept P f [] h = tt
      All-kept P f (q ∷ qs) h = elim (Bool-cases (f q)) [
        | inl e ↦ rw e (h.0, All-kept P f qs h.1)
        | inr e ↦ rw e (All-kept P f qs h.1)
      ]

  IsOrderly-IsAscending : (ps : List (EquityPoint F)) → IsOrderly at_time ps → IsAscending ps
  IsOrderly-IsAscending [] o = tt
  IsOrderly-IsAscending (p ∷ []) o = (tt, tt)
  IsOrderly-IsAscending (p ∷ q ∷ ps) o =
      let rest = IsOrderly-IsAscending (q ∷ ps) o.1 in
      let below : p.time ≤ q.time = ground (arith, o.0) in
      (
        (
          below,
          All-map (λ r. q.time ≤ r.time) (λ r. p.time ≤ r.time) ps (λ r k. omega arith) rest.0,
        ),
        rest,
      )

  -- The points with a time, in the order of their times.
  abbrev pub sorted_timed : List (EquityPoint F) → List (EquityPoint F)
  sorted_timed points = timed (stable_sort at_time points)

  hour_grid-IsFull :
      (ps : List (EquityPoint F))
      → is_nil ps ≡ false
      → IsAscending ps
      → IsHourly (first_hour ps) (last_hour ps) (hour_grid ps)
  hour_grid-IsFull [] h a = cc
  hour_grid-IsFull (p ∷ ps) h a = hour_grid-IsHourly p ps a

  -- Of points some of which have a time, ResampleHourly leaves a grid with one point for each hour from
  -- that of the first point with a time to that of the last, in order; the equity of each hour is that
  -- of the last point, in the order of their times, up to the end of the hour.
  pub resample_hourly-IsHeld :
      (d : F) (points : List (EquityPoint F))
      → is_nil (sorted_timed points) ≡ false
      → let ps = sorted_timed points in
        IsHourly (first_hour ps) (last_hour ps) (resample_hourly points)
        × All (IsHeld (first_or d ps) ps) (resample_hourly points)
  unfolding resample_hourly
  resample_hourly-IsHeld d points h =
      let asc =
        IsOrderly-IsAscending (stable_sort at_time points)
          (stable_sort-IsOrderly at_time (λ x y k. ground arith) points) in
      let kept = IsAscending-keep (λ p. not (p.time == 0)) (stable_sort at_time points) asc in
      rw h (
        hour_grid-IsFull (sorted_timed points) h kept,
        hour_grid-IsHeld d (sorted_timed points) kept,
      )
