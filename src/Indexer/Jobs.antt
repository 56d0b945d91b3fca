-- ===== src/Indexer/Jobs.antt =====
-- indexer/src/job_queue: the queues of the service (mod.rs, types.rs) and the worker (worker.rs). Redis is
-- the parameter `Redis`, over any type of its states and of the texts it keeps; the JSON of the jobs
-- is the parameter `Json`. Errors of the connection are left out. A queue without a connection is `none`.
-- How an attempt to process a job ends is an argument. The texts in a job are numbers. Of the worker
-- its counters are kept, not its name and whether it runs.
pub mod Dequeue
pub mod Retries
use stellar_escrow.Prelude.{
  ℕ, ◌+◌, ◌-◌, ◌^◌, Bool, true, false, Option, none, some, List, [], ◌∷◌, ltb, leb, if◌then◌else◌,
}
use stellar_escrow.Soroban.{Result, ok, trap, ◌>>=◌, ◌>>◌, u32_mod, u64_mod, within_or_trap}

pub data JobType : Type 0 where
  event notification cache_warm compliance : JobType

pub data JobPriority : Type 0 where
  critical high normal low : JobPriority

pub record Job : Type 0 where
  pub id : ℕ
  pub job_type : JobType
  pub event_id : ℕ
  pub trade_id : ℕ
  pub payload : ℕ
  pub priority : JobPriority
  pub attempts : ℕ
  pub max_attempts : ℕ
  pub run_at : Option ℕ
  pub created_at : ℕ
  pub last_error : Option ℕ

abbrev pub default_max_attempts : ℕ
default_max_attempts = 3

unfoldable pub new : ℕ → JobType → ℕ → ℕ → ℕ → JobPriority → ℕ → Job
new id job_type event_id trade_id payload priority now = record {
  id = id;
  job_type = job_type;
  event_id = event_id;
  trade_id = trade_id;
  payload = payload;
  priority = priority;
  attempts = 0;
  max_attempts = default_max_attempts;
  run_at = none;
  created_at = now;
  last_error = none;
}

-- the lists of jobs that have a key in Redis
pub data Queue : Type 0 where
  of_priority : JobPriority → Queue
  dead_letters : Queue
  retries : Queue
  processed : Queue

abbrev pub queue_for_priority : JobPriority → Queue
queue_for_priority p = of_priority p

-- The commands that the queue sends, over the texts `P` that Redis keeps; `items` is the content of a list.
-- The sorted set is the one of the scheduled jobs.
pub record Redis (R P : Type 0) : Type 0 where
  pub items : Queue → R → List P
  pub rpush : Queue → P → R → R
  pub lpush : Queue → P → R → R
  pub lpop : Queue → R → R × Option P
  pub ltrim : Queue → ℕ → ℕ → R → R
  pub zadd : P → ℕ → R → R
  pub zrangebyscore : ℕ → R → List P
  pub zrem : P → R → R

-- serde_json on jobs: writing one always succeeds, reading a text may fail.
pub record Json (P : Type 0) : Type 0 where
  pub to_string : Job → P
  pub from_str : P → Option Job

-- `Ok(None)`, `Ok(Some(job))`, and the error of a text that is no job
pub data Dequeued : Type 0 where
  no_job : Dequeued
  next_job : Job → Dequeued
  parse_error : Dequeued

abbrev pub parsed : Option Job → Dequeued
parsed none = parse_error
parsed (some job) = next_job job

pub record JobWorkerState : Type 0 where
  pub processed_jobs : ℕ
  pub failed_jobs : ℕ

abbrev pub retry_priority : JobPriority → JobPriority
retry_priority critical = high
retry_priority high = high
retry_priority normal = normal
retry_priority low = low

abbrev pub with_conn : {R : Type 0} → (R → R) → Option R → Option R
with_conn f none = none
with_conn f (some r) = some (f r)

-- the job after an attempt that failed
abbrev pub failed_once : ℕ → ℕ → Job → Job
failed_once attempts error job = record job { attempts = attempts; last_error = some error }

-- the job that is scheduled again
abbrev pub rescheduled : ℕ → Job → Job
rescheduled next_run job = record job {
  run_at = some next_run;
  priority = retry_priority job.priority;
}

module _ {R P : Type 0} (redis : Redis R P) (json : Json P) where
  unfoldable pub enqueue_at : Job → ℕ → Option R → Option R
  enqueue_at job run_at conn = with_conn (redis.zadd (json.to_string job) run_at) conn

  abbrev pub enqueue_by : Option ℕ → Job → Option R → Option R
  enqueue_by none job conn =
      with_conn (redis.rpush (queue_for_priority job.priority) (json.to_string job)) conn
  enqueue_by (some run_at) job conn = with_conn (redis.zadd (json.to_string job) run_at) conn

  unfoldable pub enqueue : Job → Option R → Option R
  enqueue job conn = enqueue_by job.run_at job conn

  unfoldable pub record_retry : Job → Option R → Option R
  record_retry job conn = with_conn (redis.lpush retries (json.to_string job)) conn

  unfoldable pub record_processed : Job → Option R → Option R
  record_processed job conn =
      with_conn (λ r. redis.ltrim processed 0 199 (redis.lpush processed (json.to_string job) r))
        conn

  unfoldable pub dead_letter : Job → Option R → Option R
  dead_letter job conn = with_conn (redis.lpush dead_letters (json.to_string job)) conn

  -- A text that was popped is gone from Redis, whether it can be read or not.
  abbrev pub or_else : R × Option P → (R → R × Dequeued) → R × Dequeued
  or_else (r, some payload) rest = (r, parsed (json.from_str payload))
  or_else (r, none) rest = rest r

  -- the loop of dequeue over the queues that are left
  abbrev pub pop_first : List JobPriority → R → R × Dequeued
  pop_first [] r = (r, no_job)
  pop_first (p ∷ ps) r = or_else (redis.lpop (queue_for_priority p) r) (pop_first ps)

  unfoldable pub dequeue : Option R → Option R × Dequeued
  dequeue none = (none, no_job)
  dequeue (some r) =
      let (rest, job) = pop_first (critical ∷ high ∷ normal ∷ low ∷ []) r in (some rest, job)

  -- The end of an iteration of promote_scheduled, after the text was removed; `rest` are the later ones.
  abbrev pub promote_parsed : Option Job → P → (R → R × Option ℕ) → R → R × Option ℕ
  promote_parsed none payload rest r = (r, none)
  promote_parsed (some job) payload rest r =
      rest (redis.rpush (queue_for_priority job.priority) payload r)

  -- the loop of promote_scheduled over the texts that are due
  abbrev pub promote_each : List P → ℕ → R → R × Option ℕ
  promote_each [] promoted r = (r, some promoted)
  promote_each (payload ∷ payloads) promoted r =
      promote_parsed (json.from_str payload) payload (promote_each payloads (promoted + 1))
        (redis.zrem payload r)

  -- the number of jobs promoted, or `none` for the error of a text that is no job
  unfoldable pub promote_scheduled : ℕ → Option R → Option R × Option ℕ
  promote_scheduled now none = (none, some 0)
  promote_scheduled now (some r) =
      let (rest, promoted) = promote_each (redis.zrangebyscore now r) 0 r in (some rest, promoted)

  -- `error` is what the attempt to process the job failed with. A count and a time that do not fit
  -- trap, as in a build with debug assertions; a release build would wrap them.
  unfoldable pub process_with_retry :
      ℕ → Option ℕ → Job → Option R × JobWorkerState → Result (Option R × JobWorkerState)
  unfolding record_processed dead_letter record_retry enqueue_at
  process_with_retry now none job (conn, w) = do
    count ← within_or_trap u64_mod (w.processed_jobs + 1)
    ok (record_processed job conn, record w { processed_jobs = count })
  process_with_retry now (some error) job (conn, w) = do
    attempts ← within_or_trap u32_mod (job.attempts + 1)
    let failed = failed_once attempts error job
    if leb job.max_attempts attempts
        then (do
          count ← within_or_trap u64_mod (w.failed_jobs + 1)
          ok (dead_letter failed conn, record w { failed_jobs = count }))
        else (do
          delay ← within_or_trap (2 ^ 63) (2 ^ (attempts - 1))
          next_run ← within_or_trap (2 ^ 63) (now + delay)
          let again = rescheduled next_run failed
          ok (enqueue_at again next_run (record_retry again conn), w))
