-- ===== src/WorkerPool/Safety.antt =====
-- What a pool promises in every reachable state: bounds, accounting, delivery, a clean stop.
use poly_asian_data.Base.{
  ℕ, ◌+◌, ◌≤◌, ◌≡◌, refl, Bool, true, false, List, [], ◌∷◌, String, arith, length, sum_by,
}
use poly_asian_data.WorkerPool.{Input, Pool, new_pool, started, pending}
use poly_asian_data.WorkerPool.Step.{
  here, next, admit, number, submit, stop, g_close, WorkerPc, idle, g_waited, live, World, Step,
  Reach, launch,
}
use poly_asian_data.WorkerPool.Invariant.{
  Inv, uncounted, busy, undelivered, gone, in_flight, launch-Inv, Reach-Inv,
}

module _ {T R : Type 0} where
  uncounted-le-live : (ws : List (WorkerPc T R)) → sum_by uncounted ws ≤ sum_by live ws
  uncounted-le-live [] = omega arith
  uncounted-le-live (w ∷ ws) = ground (arith, uncounted-le-live ws)

  undelivered-le-live : (ws : List (WorkerPc T R)) → sum_by undelivered ws ≤ sum_by live ws
  undelivered-le-live [] = omega arith
  undelivered-le-live (w ∷ ws) = ground (arith, undelivered-le-live ws)

  busy-le-live : (ws : List (WorkerPc T R)) → sum_by busy ws ≤ sum_by live ws
  busy-le-live [] = omega arith
  busy-le-live (w ∷ ws) = ground (arith, busy-le-live ws)

  busy-le-length : (ws : List (WorkerPc T R)) → sum_by busy ws ≤ length ws
  busy-le-length [] = omega arith
  busy-le-length (w ∷ ws) = ground (arith, busy-le-length ws)

  gone-live : (ws : List (WorkerPc T R)) → sum_by gone ws + sum_by live ws ≡ length ws
  gone-live [] = omega arith
  gone-live (w ∷ ws) = ground (arith, gone-live ws)

-- A pool made by NewPool, and a state that it has reached since.
module _ {T R : Type 0} (name : String) (n size : ℕ) (terminal cancelled : Bool) {p : Pool T R}
    (made : new_pool name n size true terminal cancelled ≡ started p) {s : World T R}
    (r : Reach (launch p) s) where
  reached-Inv : Inv s
  reached-Inv = Reach-Inv (launch-Inv name n size true terminal cancelled made) r

  -- Both channels keep to their capacity, and never more jobs are in progress than there are workers.
  pub backpressure :
      (length s.pool.input_q ≤ s.pool.queue_size)
      × (length s.pool.output_q ≤ s.pool.out_size)
      × (s.pool.stats.in_progress ≤ s.pool.num_workers)
  backpressure = ground (arith, reached-Inv, busy-le-length s.workers)

  -- Pending is the number of jobs that are in the input queue, held by a worker that has not counted
  -- them, or counted as submitted by a call that is still in its select or about to withdraw.
  pub pending_lem :
      pending s.pool.stats
      ≡ length s.pool.input_q + sum_by uncounted s.workers + sum_by in_flight s.calls
  unfolding pending
  pending_lem = omega (arith, reached-Inv)

  -- While no context is cancelled, a pool with an output loses no result: each counted job's result
  -- was received, waits in the output queue, or is held by a worker about to send it.
  pub delivery :
      s.pool.cancelled ≡ false
      → s.pool.discard_output ≡ false
      → s.pool.stats.completed + s.pool.stats.failed
        ≡ length s.received + length s.pool.output_q + sum_by undelivered s.workers
  delivery c d = reached-Inv.delivered c d

  -- A process panics on a closed channel only if Stop or StopNow has begun.
  pub no_panic_before_stop : s.stopping ≡ idle → s.panicked ≡ false
  no_panic_before_stop e = ground (arith, reached-Inv)

  -- If Wait has returned in Stop and nothing was cancelled, then the input queue is empty, no job
  -- is in progress, every job submitted is completed or failed except those of calls still in their
  -- select or about to withdraw, and with an output every result was received or waits in OutputQ.
  pub stop_drains :
      s.stopping ≡ g_waited
      → s.pool.cancelled ≡ false
      → (length s.pool.input_q ≡ 0)
        × (s.pool.stats.in_progress ≡ 0)
        × (s.pool.stats.submitted
            ≡ s.pool.stats.completed + s.pool.stats.failed + sum_by in_flight s.calls)
        × (s.pool.discard_output ≡ false
            → s.pool.stats.completed + s.pool.stats.failed
              ≡ length s.received + length s.pool.output_q)
  stop_drains w c = ground (
    arith,
    reached-Inv,
    gone-live s.workers,
    uncounted-le-live s.workers,
    undelivered-le-live s.workers,
    busy-le-live s.workers,
  )

-- From every pool that NewPool makes, a call of SubmitWait or Submit that races with Stop can reach
-- the send on a closed channel that ends the process: the call passes its test of `stopped`, Stop
-- sets it and closes the input, and the call's select sends.
pub stop_race :
    {T R : Type 0} (name : String) (n size : ℕ) (terminal cancelled : Bool) {p : Pool T R}
    → new_pool name n size true terminal cancelled ≡ started p
    → (b : Bool) (i : Input T) → (s : World T R) × Reach (launch p) s × (s.panicked ≡ true)
stop_race name n size terminal cancelled {p} made b i =
    let inv = launch-Inv name n size true terminal cancelled made in
    (
      _,
      next
          (next
            (next
              (next
                (next
                  (next (next here (Step.begin_call b i.payload refl))
                    (Step.call [] [] refl refl (admit inv.progress.0)))
                  (Step.call [] [] refl refl (number i refl)))
                (Step.call [] [] refl refl submit))
              (Step.halt refl stop))
            (Step.halt refl g_close))
          (Step.send_on_closed_input [] b i [] refl refl refl),
      refl,
    )
