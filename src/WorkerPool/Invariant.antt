-- ===== src/WorkerPool/Invariant.antt =====
-- What holds in every reachable state of a pool: the counters account for every job.
use poly_asian_data.Base.{
  ℕ, zero, suc, ◌+◌, ◌≤◌, ◌<◌, ◌≡◌, refl, ◌⊎◌, Bool, true, false, List, [], ◌∷◌, ◌++◌, arith,
  length, sum_by, sum_by-append, length-append, String,
}
use poly_asian_data.WorkerPool.{Result, Pool, new_pool, started}
use poly_asian_data.WorkerPool.Step.{
  WorkerPc, waiting, fetched, running, timed, counted, sending, exited, CallPc, submitting, leaving,
  StopPc, idle, g_flagged, g_closed, g_waited, g_cancelled, n_flagged, n_cancelled, n_closed,
  n_waited, finished, WorkerStep, quit, drained, fetch, send, settle, discard, abandon, CallStep,
  enqueue, withdraw, StopStep, g_wait, n_wait, live, World, Step, Reach, here, next, at_work,
  launch,
}

module _ {T R : Type 0} where
  -- The worker holds a job that is not yet counted as completed or failed.
  abbrev pub uncounted : WorkerPc T R → ℕ
  uncounted (fetched _) = 1
  uncounted (running _) = 1
  uncounted (timed _) = 1
  uncounted _ = 0

  -- The worker is between the two updates of InProgress.
  abbrev pub busy : WorkerPc T R → ℕ
  busy (running _) = 1
  busy (timed _) = 1
  busy (counted _) = 1
  busy _ = 0

  -- The worker holds a result that is counted and not yet sent.
  abbrev pub undelivered : WorkerPc T R → ℕ
  undelivered (counted _) = 1
  undelivered (sending _) = 1
  undelivered _ = 0

  -- The worker is inside `sendResult`.
  abbrev pub at_send : WorkerPc T R → ℕ
  at_send (sending _) = 1
  at_send _ = 0

  abbrev pub gone : WorkerPc T R → ℕ
  gone exited = 1
  gone _ = 0

-- The call has counted its job as submitted, and it is not in the queue.
abbrev pub in_flight : {T : Type 0} → CallPc T → ℕ
in_flight (submitting _ _) = 1
in_flight (leaving _) = 1
in_flight _ = 0

length-at_work : (T R : Type 0) (n : ℕ) → length (at_work {T = T} {R = R} n) ≡ n
length-at_work T R zero = refl
length-at_work T R (suc n) = omega (arith, length-at_work T R n)

module _ {T : Type 0} where
  -- The calls under way before and after call `pc` goes on to `pc'`.
  abbrev Shifted : List (CallPc T) → CallPc T → CallPc T → List (CallPc T) → Type 0
  Shifted cs pc pc' ds =
      sum_by in_flight (cs ++ pc' ∷ ds) + in_flight pc
      ≡ sum_by in_flight (cs ++ pc ∷ ds) + in_flight pc'

  shifted : (cs : List (CallPc T)) (pc pc' : CallPc T) (ds : List (CallPc T)) → Shifted cs pc pc' ds
  shifted cs pc pc' ds =
      omega (arith, sum_by-append in_flight cs (pc ∷ ds), sum_by-append in_flight cs (pc' ∷ ds))

module _ {T R : Type 0} where
  abbrev pub live_workers : World T R → ℕ
  live_workers s = sum_by live s.workers

  abbrev pub Flags : Pool T R → Bool → Bool → Bool → Type 0
  Flags p stopped in_closed out_closed =
      (p.stopped ≡ stopped) × (p.input_closed ≡ in_closed) × (p.output_closed ≡ out_closed)

  -- What the goroutine inside stopOnce has done so far.
  abbrev pub Progress : StopPc → Pool T R → ℕ → Type 0
  Progress idle p n = Flags p false false false
  Progress g_flagged p n = Flags p true false false
  Progress g_closed p n = Flags p true true false
  Progress g_waited p n = Flags p true true false × (n ≡ 0)
  Progress g_cancelled p n = Flags p true true false × (n ≡ 0)
  Progress n_flagged p n = Flags p true false false
  Progress n_cancelled p n = Flags p true false false × (p.cancelled ≡ true)
  Progress n_closed p n = Flags p true true false × (p.cancelled ≡ true)
  Progress n_waited p n = Flags p true true false × (n ≡ 0)
  Progress finished p n = (p.stopped ≡ true) × (p.input_closed ≡ true) × (n ≡ 0)

  pub record Inv (s : World T R) : Type 0 where
    pub accounts :
        s.pool.stats.submitted
        ≡ s.pool.stats.completed
          + s.pool.stats.failed
          + length s.pool.input_q
          + sum_by uncounted s.workers
          + sum_by in_flight s.calls
    pub in_progress : s.pool.stats.in_progress ≡ sum_by busy s.workers
    pub input_bounded : length s.pool.input_q ≤ s.pool.queue_size
    pub output_bounded : length s.pool.output_q ≤ s.pool.out_size
    pub workers_kept : length s.workers ≡ s.pool.num_workers
    pub staffed : 0 < s.pool.num_workers
    pub progress : Progress s.stopping s.pool (live_workers s)
    pub left_for_cause :
        0 < sum_by gone s.workers
        → (s.pool.cancelled ≡ true) ⊎ ((s.pool.input_closed ≡ true) × (length s.pool.input_q ≡ 0))
    pub delivered :
        s.pool.cancelled ≡ false
        → s.pool.discard_output ≡ false
        → s.pool.stats.completed + s.pool.stats.failed
          ≡ length s.received + length s.pool.output_q + sum_by undelivered s.workers
    pub discarded :
        s.pool.discard_output ≡ true
        → (length s.pool.output_q ≡ 0) × (sum_by at_send s.workers ≡ 0) × (length s.received ≡ 0)
    pub panic_needs_stop : s.panicked ≡ true → s.pool.stopped ≡ true

  -- The weights of the workers before and after worker `pc` goes on to `pc'`.
  record Moved (ws : List (WorkerPc T R)) (pc pc' : WorkerPc T R) (vs : List (WorkerPc T R))
      : Type 0 where
    uncounted_from :
        sum_by uncounted (ws ++ pc ∷ vs)
        ≡ sum_by uncounted ws + (uncounted pc + sum_by uncounted vs)
    uncounted_to :
        sum_by uncounted (ws ++ pc' ∷ vs)
        ≡ sum_by uncounted ws + (uncounted pc' + sum_by uncounted vs)
    busy_from : sum_by busy (ws ++ pc ∷ vs) ≡ sum_by busy ws + (busy pc + sum_by busy vs)
    busy_to : sum_by busy (ws ++ pc' ∷ vs) ≡ sum_by busy ws + (busy pc' + sum_by busy vs)
    undelivered_from :
        sum_by undelivered (ws ++ pc ∷ vs)
        ≡ sum_by undelivered ws + (undelivered pc + sum_by undelivered vs)
    undelivered_to :
        sum_by undelivered (ws ++ pc' ∷ vs)
        ≡ sum_by undelivered ws + (undelivered pc' + sum_by undelivered vs)
    at_send_from :
        sum_by at_send (ws ++ pc ∷ vs) ≡ sum_by at_send ws + (at_send pc + sum_by at_send vs)
    at_send_to :
        sum_by at_send (ws ++ pc' ∷ vs) ≡ sum_by at_send ws + (at_send pc' + sum_by at_send vs)
    gone_from : sum_by gone (ws ++ pc ∷ vs) ≡ sum_by gone ws + (gone pc + sum_by gone vs)
    gone_to : sum_by gone (ws ++ pc' ∷ vs) ≡ sum_by gone ws + (gone pc' + sum_by gone vs)
    live_from : sum_by live (ws ++ pc ∷ vs) ≡ sum_by live ws + (live pc + sum_by live vs)
    live_to : sum_by live (ws ++ pc' ∷ vs) ≡ sum_by live ws + (live pc' + sum_by live vs)
    length_kept : length (ws ++ pc ∷ vs) ≡ length (ws ++ pc' ∷ vs)

  moved :
      (ws : List (WorkerPc T R)) (pc pc' : WorkerPc T R) (vs : List (WorkerPc T R))
      → Moved ws pc pc' vs
  moved ws pc pc' vs = record {
    uncounted_from = sum_by-append uncounted ws (pc ∷ vs);
    uncounted_to = sum_by-append uncounted ws (pc' ∷ vs);
    busy_from = sum_by-append busy ws (pc ∷ vs);
    busy_to = sum_by-append busy ws (pc' ∷ vs);
    undelivered_from = sum_by-append undelivered ws (pc ∷ vs);
    undelivered_to = sum_by-append undelivered ws (pc' ∷ vs);
    at_send_from = sum_by-append at_send ws (pc ∷ vs);
    at_send_to = sum_by-append at_send ws (pc' ∷ vs);
    gone_from = sum_by-append gone ws (pc ∷ vs);
    gone_to = sum_by-append gone ws (pc' ∷ vs);
    live_from = sum_by-append live ws (pc ∷ vs);
    live_to = sum_by-append live ws (pc' ∷ vs);
    length_kept = omega (arith, length-append ws (pc ∷ vs), length-append ws (pc' ∷ vs));
  }

  work-Inv :
      {s : World T R} (ws : List (WorkerPc T R)) {pc pc' : WorkerPc T R} (vs : List (WorkerPc T R))
      {p : Pool T R}
      → s.workers ≡ ws ++ pc ∷ vs
      → WorkerStep s.pool pc p pc'
      → Inv s
      → Inv (record s { pool = p; workers = ws ++ pc' ∷ vs })
  work-Inv ws {pc} {pc'} vs e (quit c) inv = ground (arith, moved ws pc pc' vs)
  work-Inv ws {pc} {pc'} vs e (drained c q) inv = ground (arith, moved ws pc pc' vs)
  work-Inv ws {pc} {pc'} vs e (fetch q) inv = ground (arith, moved ws pc pc' vs)
  work-Inv {s} ws {pc} {pc'} vs e (send {r} o l) inv =
      ground (arith, moved ws pc pc' vs, length-append s.pool.output_q (r ∷ []))
  work-Inv ws {pc} {pc'} vs e (settle d) inv = ground (arith, moved ws pc pc' vs)
  work-Inv ws {pc} {pc'} vs e (discard d) inv = ground (arith, moved ws pc pc' vs)
  work-Inv ws {pc} {pc'} vs e (abandon c) inv = ground (arith, moved ws pc pc' vs)
  work-Inv ws {pc} {pc'} vs e _ inv = ground (arith, moved ws pc pc' vs)

  call-Inv :
      {s : World T R} (cs : List (CallPc T)) {pc pc' : CallPc T} (ds : List (CallPc T))
      {p : Pool T R}
      → s.calls ≡ cs ++ pc ∷ ds
      → CallStep s.pool pc p pc'
      → Inv s
      → Inv (record s { pool = p; calls = cs ++ pc' ∷ ds })
  call-Inv {s} cs {pc} {pc'} ds e (enqueue {i} o l) inv = ground (
    arith,
    shifted cs pc pc' ds,
    sum_by-append in_flight cs (pc ∷ ds),
    length-append s.pool.input_q (i ∷ []),
  )
  call-Inv {s} cs {pc} {pc'} ds e withdraw inv =
      ground (arith, shifted cs pc pc' ds, sum_by-append in_flight cs (pc ∷ ds))
  call-Inv {s} cs {pc} {pc'} ds e _ inv = ground (arith, shifted cs pc pc' ds)

  halt-Inv :
      {s : World T R} {now pc : StopPc} {p : Pool T R}
      → s.stopping ≡ now
      → StopStep s.pool s.workers now p pc
      → Inv s
      → Inv (record s { pool = p; stopping = pc })
  halt-Inv e (g_wait w) inv = ground arith
  halt-Inv e (n_wait w) inv = ground arith
  halt-Inv e _ inv = ground arith

  sending_at_work :
      (ws : List (WorkerPc T R)) (r : Result R) (vs : List (WorkerPc T R))
      → 0 < sum_by live (ws ++ sending r ∷ vs)
  sending_at_work ws r vs = omega (arith, sum_by-append live ws (sending r ∷ vs))

  Progress-cancel :
      (pc : StopPc) (p : Pool T R) (n : ℕ)
      → Progress pc p n
      → Progress pc (record p { cancelled = true }) n
  Progress-cancel idle p n h = h
  Progress-cancel n_cancelled p n h = ground arith
  Progress-cancel n_closed p n h = ground arith
  Progress-cancel _ p n h = h

  -- The input is closed only behind `stopped`.
  Progress-closed :
      (pc : StopPc) (p : Pool T R) (n : ℕ)
      → Progress pc p n
      → p.input_closed ≡ true
      → p.stopped ≡ true
  Progress-closed idle p n h c = ground arith
  Progress-closed _ p n h c = ground arith

  -- The output is closed only when every worker has returned.
  pub output_closed-live :
      (s : World T R) → Inv s → s.pool.output_closed ≡ true → live_workers s ≡ 0
  output_closed-live s inv c = ground arith

  -- Every step keeps the invariant.
  pub Step-Inv : {s t : World T R} → Step s t → Inv s → Inv t
  Step-Inv (Step.work ws vs ok e st) inv = work-Inv ws vs e st inv
  Step-Inv (Step.call cs ds ok e st) inv = call-Inv cs ds e st inv
  Step-Inv (Step.halt ok st) inv = halt-Inv refl st inv
  Step-Inv (Step.begin_call b x ok) inv = ground arith
  Step-Inv (Step.receive ok e) inv = ground arith
  Step-Inv {s} (Step.cancel_parent ok) inv =
      ground (arith, Progress-cancel s.stopping s.pool (live_workers s) inv.progress)
  Step-Inv {s} (Step.send_on_closed_input cs b i ds ok e c) inv =
      ground (arith, Progress-closed s.stopping s.pool (live_workers s) inv.progress)
  Step-Inv {s} (Step.send_on_closed_output ws r vs ok e c) inv =
      ground (arith, output_closed-live s inv, sending_at_work ws r vs)

  sum_by-at_work : (w : WorkerPc T R → ℕ) (n : ℕ) → w waiting ≡ 0 → sum_by w (at_work n) ≡ 0
  sum_by-at_work w zero h = refl
  sum_by-at_work w (suc n) h = omega (arith, sum_by-at_work w n h)

  pub launch-Inv :
      (name : String) (n size : ℕ) (has terminal cancelled : Bool) {p : Pool T R}
      → new_pool name n size has terminal cancelled ≡ started p
      → Inv (launch p)
  unfolding new_pool
  launch-Inv name n size has terminal cancelled {p} e = ground (
    arith,
    sum_by-at_work uncounted p.num_workers,
    sum_by-at_work busy p.num_workers,
    sum_by-at_work undelivered p.num_workers,
    sum_by-at_work at_send p.num_workers,
    sum_by-at_work gone p.num_workers,
    length-at_work T R p.num_workers,
  )

  pub Reach-Inv : {s t : World T R} → Inv s → Reach s t → Inv t
  Reach-Inv h here = h
  Reach-Inv h (next r st) = Step-Inv st (Reach-Inv h r)
