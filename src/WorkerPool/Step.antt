-- ===== src/WorkerPool/Step.antt =====
-- The goroutines of a pool as a step relation: workers, callers of Submit and SubmitWait, the one
-- goroutine inside stopOnce, the consumer of OutputQ and the parent context. A step is one channel
-- operation or one atomic; a `select` takes any case that is ready.
use poly_asian_data.Base.{
  ℕ, zero, suc, ◌+◌, ◌-◌, ◌%◌, ◌<◌, ◌≡◌, Bool, true, false, Option, none, some, List, [], ◌∷◌, ◌++◌,
  length, sum_by, if◌then◌else◌,
}
use poly_asian_data.WorkerPool.{
  Error, pool_stopped, queue_full, canceled, deadline_exceeded, Input, Result, Stats, Pool, int_mod,
}

-- Where a worker stands: in its select, in `processItem` before InProgress.Add(1), in processFunc,
-- before the outcome is counted, before InProgress.Add(-1), in `sendResult`, or returned.
pub data WorkerPc (T R : Type 0) : Type 0 where
  waiting : WorkerPc T R
  fetched : Input T → WorkerPc T R
  running : Input T → WorkerPc T R
  timed : Result R → WorkerPc T R
  counted : Result R → WorkerPc T R
  sending : Result R → WorkerPc T R
  exited : WorkerPc T R

-- Where a call of SubmitWait (`true`) or Submit (`false`) stands: before the test of `stopped`,
-- before `makeInput`, before Submitted.Add(1), in its select, before Submitted.Add(-1), or returned.
pub data CallPc (T : Type 0) : Type 0 where
  called : Bool → T → CallPc T
  admitted : Bool → T → CallPc T
  numbered : Bool → Input T → CallPc T
  submitting : Bool → Input T → CallPc T
  leaving : Error → CallPc T
  returned : Option Error → CallPc T

-- Where the body of stopOnce stands, in Stop (`g_`) or StopNow (`n_`).
pub data StopPc : Type 0 where
  idle g_flagged g_closed g_waited g_cancelled n_flagged n_cancelled n_closed n_waited : StopPc
  finished : StopPc

abbrev pub is_context_error : Error → Bool
is_context_error canceled = true
is_context_error deadline_exceeded = true
is_context_error _ = false

abbrev tally_by : Option Error → Stats → Stats
tally_by none s = record s { completed = s.completed + 1 }
tally_by (some _) s = record s { failed = s.failed + 1 }

-- Completed or Failed is counted by the error of the result.
abbrev pub tally : {R : Type 0} → Result R → Stats → Stats
tally r s = tally_by r.err s

module _ {T R : Type 0} where
  abbrev pub set_stats : Pool T R → Stats → Pool T R
  set_stats p s = record p { stats = s }

  -- `worker`, `processItem` and `sendResult`. The result of processFunc is left open. A worker of a
  -- discarding pool sends nothing.
  pub data WorkerStep (p : Pool T R) : WorkerPc T R → Pool T R → WorkerPc T R → Type 0 where
    quit : p.cancelled ≡ true → WorkerStep p waiting p exited
    fetch :
        {i : Input T} {q : List (Input T)}
        → p.input_q ≡ i ∷ q
        → WorkerStep p waiting (record p { input_q = q }) (fetched i)
    drained : p.input_closed ≡ true → p.input_q ≡ [] → WorkerStep p waiting p exited
    begin :
        {i : Input T}
        → WorkerStep p
            (fetched i)
            (set_stats p (record (p.stats) { in_progress = p.stats.in_progress + 1 }))
            (running i)
    process :
        {i : Input T} (r : Result R)
        → WorkerStep p
            (running i)
            (set_stats p
              (record (p.stats) { total_duration = p.stats.total_duration + r.duration }))
            (timed r)
    count : {r : Result R} → WorkerStep p (timed r) (set_stats p (tally r p.stats)) (counted r)
    settle :
        {r : Result R}
        → p.discard_output ≡ false
        → WorkerStep p
            (counted r)
            (set_stats p (record (p.stats) { in_progress = p.stats.in_progress - 1 }))
            (sending r)
    discard :
        {r : Result R}
        → p.discard_output ≡ true
        → WorkerStep p
            (counted r)
            (set_stats p (record (p.stats) { in_progress = p.stats.in_progress - 1 }))
            waiting
    send :
        {r : Result R}
        → p.output_closed ≡ false
        → length p.output_q < p.out_size
        → WorkerStep p (sending r) (record p { output_q = p.output_q ++ r ∷ [] }) waiting
    abandon : {r : Result R} → p.cancelled ≡ true → WorkerStep p (sending r) p waiting

  -- `Submit` and `SubmitWait`, `makeInput` included. The caller's context may be done at any time.
  pub data CallStep (p : Pool T R) : CallPc T → Pool T R → CallPc T → Type 0 where
    refuse :
        {b : Bool} {x : T}
        → p.stopped ≡ true
        → CallStep p (called b x) p (returned (some pool_stopped))
    admit : {b : Bool} {x : T} → p.stopped ≡ false → CallStep p (called b x) p (admitted b x)
    number :
        {b : Bool} {x : T} (i : Input T)
        → i.payload ≡ x
        → CallStep p (admitted b x) (record p { id_seq = (p.id_seq + 1) % int_mod }) (numbered b i)
    submit :
        {b : Bool} {i : Input T}
        → CallStep p
            (numbered b i)
            (set_stats p (record (p.stats) { submitted = p.stats.submitted + 1 }))
            (submitting b i)
    enqueue :
        {b : Bool} {i : Input T}
        → p.input_closed ≡ false
        → length p.input_q < p.queue_size
        → CallStep p (submitting b i) (record p { input_q = p.input_q ++ i ∷ [] }) (returned none)
    give_up :
        {b : Bool} {i : Input T} (e : Error)
        → is_context_error e ≡ true
        → CallStep p (submitting b i) p (leaving e)
    abort :
        {b : Bool} {i : Input T}
        → p.cancelled ≡ true
        → CallStep p (submitting b i) p (leaving pool_stopped)
    full :
        {i : Input T}
        → length p.input_q ≡ p.queue_size
        → p.input_closed ≡ false
        → p.cancelled ≡ false
        → CallStep p (submitting false i) p (leaving queue_full)
    withdraw :
        {e : Error}
        → CallStep p
            (leaving e)
            (set_stats p (record (p.stats) { submitted = p.stats.submitted - 1 }))
            (returned (some e))

  -- A worker that has not returned holds up `wg.Wait`.
  abbrev pub live : WorkerPc T R → ℕ
  live exited = 0
  live _ = 1

  -- `Stop` and `StopNow`. The output of a discarding pool is nil and is not closed.
  pub data StopStep (p : Pool T R) (ws : List (WorkerPc T R))
      : StopPc → Pool T R → StopPc → Type 0 where
    stop : StopStep p ws idle (record p { stopped = true }) g_flagged
    g_close : StopStep p ws g_flagged (record p { input_closed = true }) g_closed
    g_wait : sum_by live ws ≡ 0 → StopStep p ws g_closed p g_waited
    g_cancel : StopStep p ws g_waited (record p { cancelled = true }) g_cancelled
    g_finish :
        StopStep p ws g_cancelled
          (record p { output_closed = if p.discard_output then p.output_closed else true })
          finished
    stop_now : StopStep p ws idle (record p { stopped = true }) n_flagged
    n_cancel : StopStep p ws n_flagged (record p { cancelled = true }) n_cancelled
    n_close : StopStep p ws n_cancelled (record p { input_closed = true }) n_closed
    n_wait : sum_by live ws ≡ 0 → StopStep p ws n_closed p n_waited
    n_finish :
        StopStep p ws n_waited
          (record p { output_closed = if p.discard_output then p.output_closed else true })
          finished

-- The pool with all that runs on it. `received` is what the consumer has taken from OutputQ, and
-- `panicked` that a goroutine sent on a closed channel, which ends the process.
pub record World (T R : Type 0) : Type 0 where
  pub pool : Pool T R
  pub workers : List (WorkerPc T R)
  pub calls : List (CallPc T)
  pub stopping : StopPc
  pub received : List (Result R)
  pub panicked : Bool

module _ {T R : Type 0} where
  abbrev pub with_pool : World T R → Pool T R → World T R
  with_pool s p = record s { pool = p }

  -- One step of one goroutine, or of the environment: a new call, the consumer, the parent context.
  pub data Step (s : World T R) : World T R → Type 0 where
    work :
        (ws : List (WorkerPc T R)) {pc pc' : WorkerPc T R} (vs : List (WorkerPc T R)) {p : Pool T R}
        → s.panicked ≡ false
        → s.workers ≡ ws ++ pc ∷ vs
        → WorkerStep s.pool pc p pc'
        → Step s (record s { pool = p; workers = ws ++ pc' ∷ vs })
    call :
        (cs : List (CallPc T)) {pc pc' : CallPc T} (ds : List (CallPc T)) {p : Pool T R}
        → s.panicked ≡ false
        → s.calls ≡ cs ++ pc ∷ ds
        → CallStep s.pool pc p pc'
        → Step s (record s { pool = p; calls = cs ++ pc' ∷ ds })
    halt :
        {pc : StopPc} {p : Pool T R}
        → s.panicked ≡ false
        → StopStep s.pool s.workers s.stopping p pc
        → Step s (record s { pool = p; stopping = pc })
    begin_call :
        (b : Bool) (x : T) → s.panicked ≡ false → Step s (record s { calls = called b x ∷ s.calls })
    receive :
        {r : Result R} {q : List (Result R)}
        → s.panicked ≡ false
        → s.pool.output_q ≡ r ∷ q
        → Step s (record s { pool = record (s.pool) { output_q = q }; received = r ∷ s.received })
    cancel_parent : s.panicked ≡ false → Step s (with_pool s (record (s.pool) { cancelled = true }))
    send_on_closed_input :
        (cs : List (CallPc T)) (b : Bool) (i : Input T) (ds : List (CallPc T))
        → s.panicked ≡ false
        → s.calls ≡ cs ++ submitting b i ∷ ds
        → s.pool.input_closed ≡ true
        → Step s (record s { panicked = true })
    send_on_closed_output :
        (ws : List (WorkerPc T R)) (r : Result R) (vs : List (WorkerPc T R))
        → s.panicked ≡ false
        → s.workers ≡ ws ++ sending r ∷ vs
        → s.pool.output_closed ≡ true
        → Step s (record s { panicked = true })

  -- What `NewPool` leaves: every worker in its select.
  abbrev pub at_work : ℕ → List (WorkerPc T R)
  at_work zero = []
  at_work (suc n) = waiting ∷ at_work n

  abbrev pub launch : Pool T R → World T R
  launch p = record {
    pool = p;
    workers = at_work p.num_workers;
    calls = [];
    stopping = idle;
    received = [];
    panicked = false;
  }

  pub data Reach (start : World T R) : World T R → Type 0 where
    here : Reach start start
    next : {s t : World T R} → Reach start s → Step s t → Reach start t
