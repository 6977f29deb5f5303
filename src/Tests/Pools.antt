-- ===== src/Tests/Pools.antt =====
-- internal/workerpool: one job through a pool of one worker, up to the return of Wait in Stop.
use poly_asian_data.Base.{
  ℕ, ◌+◌, ◌≤◌, ◌≡◌, refl, true, false, [], ◌∷◌, none, some, arith, length, sum_by,
}
use poly_asian_data.WorkerPool.{
  Input, Result, Pool, new_pool, started, refused, invalid_config, pending, no_stats,
}
use poly_asian_data.WorkerPool.Ids.{format_id, write_digits}
use poly_asian_data.WorkerPool.Step.{
  here, next, admit, number, submit, enqueue, fetch, begin, process, count, settle, send, drained,
  stop, g_close, g_wait, World, Step, Reach, launch,
}
use poly_asian_data.WorkerPool.Invariant.{uncounted, undelivered, in_flight}
use poly_asian_data.WorkerPool.Safety.{backpressure, pending_lem, delivery, stop_drains, stop_race}

format_id_run : format_id 1024 ≡ some (b'1' ∷ b'0' ∷ b'2' ∷ b'4' ∷ [])
unfolding format_id write_digits
format_id_run = refl

no_workers : new_pool {T = ℕ} {R = ℕ} "" 0 3 true false false ≡ refused invalid_config
unfolding new_pool
no_workers = refl

abbrev small : Pool ℕ ℕ
small = record {
  name = "pool";
  num_workers = 1;
  queue_size = 1;
  out_size = 3;
  input_q = [];
  input_closed = false;
  output_q = [];
  output_closed = false;
  discard_output = false;
  stats = no_stats;
  cancelled = false;
  stopped = false;
  id_seq = 0;
}

small_made : new_pool {T = ℕ} {R = ℕ} "" 1 1 true false false ≡ started small
unfolding new_pool
small_made = refl

abbrev job : Input ℕ
job = record { id = b'1' ∷ []; worker_id = 0; payload = 7; submitted_at = 5 }

abbrev outcome : Result ℕ
outcome = record { value = 8; err = none; duration = 2 }

-- The job is counted and its result is held by the worker.
counted_state : (s : World ℕ ℕ) × Reach (launch small) s
counted_state = (
  _,
  next
      (next
        (next
          (next
            (next
              (next
                (next
                  (next (next here (Step.begin_call true 7 refl))
                    (Step.call [] [] refl refl (admit refl)))
                  (Step.call [] [] refl refl (number job refl)))
                (Step.call [] [] refl refl submit))
              (Step.call [] [] refl refl (enqueue refl (omega arith))))
            (Step.work [] [] refl refl (fetch refl)))
          (Step.work [] [] refl refl begin))
        (Step.work [] [] refl refl (process outcome)))
      (Step.work [] [] refl refl count),
)

stopped_state : (s : World ℕ ℕ) × Reach (launch small) s
unfolding counted_state
stopped_state = (
  _,
  next
      (next
        (next
          (next
            (next (next counted_state.1 (Step.work [] [] refl refl (settle refl)))
              (Step.work [] [] refl refl (send refl (omega arith))))
            (Step.halt refl stop))
          (Step.halt refl g_close))
        (Step.work [] [] refl refl (drained refl refl)))
      (Step.halt refl (g_wait refl)),
)

counted_run : (counted_state.0.pool.stats.completed ≡ 1) × (pending counted_state.0.pool.stats ≡ 0)
unfolding counted_state pending
counted_run = (refl, refl)

backpressure_example :
    (length counted_state.0.pool.input_q ≤ counted_state.0.pool.queue_size)
    × (length counted_state.0.pool.output_q ≤ counted_state.0.pool.out_size)
    × (counted_state.0.pool.stats.in_progress ≤ counted_state.0.pool.num_workers)
backpressure_example = backpressure "" 1 1 false false small_made counted_state.1

pending_example :
    pending stopped_state.0.pool.stats
    ≡ length stopped_state.0.pool.input_q
      + sum_by uncounted stopped_state.0.workers
      + sum_by in_flight stopped_state.0.calls
pending_example = pending_lem "" 1 1 false false small_made stopped_state.1

delivery_example :
    counted_state.0.pool.stats.completed + counted_state.0.pool.stats.failed
    ≡ length counted_state.0.received
      + length counted_state.0.pool.output_q
      + sum_by undelivered counted_state.0.workers
unfolding counted_state
delivery_example = delivery "" 1 1 false false small_made counted_state.1 refl refl

stop_drains_example :
    (length stopped_state.0.pool.input_q ≡ 0)
    × (stopped_state.0.pool.stats.in_progress ≡ 0)
    × (stopped_state.0.pool.stats.submitted
        ≡ stopped_state.0.pool.stats.completed
          + stopped_state.0.pool.stats.failed
          + sum_by in_flight stopped_state.0.calls)
    × (stopped_state.0.pool.discard_output ≡ false
        → stopped_state.0.pool.stats.completed + stopped_state.0.pool.stats.failed
          ≡ length stopped_state.0.received + length stopped_state.0.pool.output_q)
unfolding stopped_state
stop_drains_example = stop_drains "" 1 1 false false small_made stopped_state.1 refl refl

stop_race_example : (s : World ℕ ℕ) × Reach (launch small) s × (s.panicked ≡ true)
stop_race_example = stop_race "" 1 1 false false small_made true job
