-- ===== src/WorkerPool.antt =====
-- internal/workerpool/workerpool.go: the data of a pool, its counters and its construction.
pub mod Ids
pub mod Step
pub mod Invariant
pub mod Safety
use poly_asian_data.Base.{
  leb, ◌||◌, ℕ, ◌+◌, ◌-◌, ◌*◌, ◌/◌, ◌%◌, ◌^◌, String, Bool, true, false, not, Option, none, some,
  List, [], ◌∷◌, ltb, ◌==◌, is_empty, if◌then◌else◌,
}

-- The errors that the package returns, the two of a context, and any other.
pub data Error : Type 0 where
  pool_stopped invalid_config queue_full canceled deadline_exceeded : Error
  failure : String → Error

-- A job with its tracking metadata. `id` is the decimal text of the sequence number, as bytes.
pub record Input (T : Type 0) : Type 0 where
  pub id : List ℕ
  pub worker_id : ℕ
  pub payload : T
  pub submitted_at : ℕ

pub record Result (R : Type 0) : Type 0 where
  pub value : R
  pub err : Option Error
  pub duration : ℕ

-- The atomic counters. No counter of the code goes below 0 (Inv.accounts, Inv.busy), so they are
-- natural numbers; int64 overflow is not modelled.
pub record Stats : Type 0 where
  pub submitted : ℕ
  pub completed : ℕ
  pub failed : ℕ
  pub in_progress : ℕ
  pub total_duration : ℕ

-- `Snapshot`, where no other goroutine runs between its five atomic loads. The code loads one counter
-- after the other, so that with others running its result may be that of no single state.
abbrev pub snapshot : Stats → Stats
snapshot s = s

-- `AverageDuration`, with the division that follows the test for 0.
unfoldable pub average_duration : Stats → ℕ
average_duration s =
    let total = s.completed + s.failed in if total == 0 then 0 else s.total_duration / total

-- `StatsSnapshot.Pending`: the subtraction of ℕ stops at 0, as the code's clamp does.
unfoldable pub pending : Stats → ℕ
pending s = s.submitted - s.completed - s.failed

-- A pool without its goroutines. `output_q` stays empty where the code's OutputQ is nil.
pub record Pool (T R : Type 0) : Type 0 where
  pub name : String
  pub num_workers : ℕ
  pub queue_size : ℕ
  pub out_size : ℕ
  pub input_q : List (Input T)
  pub input_closed : Bool
  pub output_q : List (Result R)
  pub output_closed : Bool
  pub discard_output : Bool
  pub stats : Stats
  pub cancelled : Bool
  pub stopped : Bool
  pub id_seq : ℕ

abbrev pub no_stats : Stats
no_stats = record { submitted = 0; completed = 0; failed = 0; in_progress = 0; total_duration = 0 }

abbrev pub int_mod : ℕ
int_mod = 2 ^ 64

-- The output capacity of `NewPool`, with the guard against a sum that wraps: from 2^63 on the sum is a
-- negative int.
unfoldable pub out_capacity : ℕ → ℕ → ℕ
out_capacity num_workers queue_size =
    let out = (queue_size * 2 + num_workers) % int_mod in
    if leb (2 ^ 63) out || ltb out queue_size then queue_size else out

pub data Created (T R : Type 0) : Type 0 where
  refused : Error → Created T R
  started : Pool T R → Created T R

-- `NewPool` up to the goroutines. A count that is not positive is 0, `has_process` says that
-- processFunc is not nil, and `cancelled` that the parent context is done already.
module _ {T R : Type 0} where
  unfoldable pub new_pool : String → ℕ → ℕ → Bool → Bool → Bool → Created T R
  unfolding out_capacity
  new_pool name num_workers queue_size has_process discard cancelled =
      if num_workers == 0
      then refused invalid_config
      else if queue_size == 0
      then refused invalid_config
      else if not has_process
      then refused invalid_config
      else started (record {
        name = if is_empty name then "pool" else name;
        num_workers = num_workers;
        queue_size = queue_size;
        out_size = if discard then 0 else out_capacity num_workers queue_size;
        input_q = [];
        input_closed = false;
        output_q = [];
        output_closed = false;
        discard_output = discard;
        stats = no_stats;
        cancelled = cancelled;
        stopped = false;
        id_seq = 0;
      })
