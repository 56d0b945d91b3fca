-- ===== src/Indexer/Jobs/Retries.antt =====
-- How often a job that always fails is tried, and where it ends.
use stellar_escrow.Prelude.{
  ℕ, zero, suc, ◌+◌, ◌-◌, ◌^◌, ◌≤◌, ◌<◌, ◌≡◌, refl, ap, ◌∙◌, arith, true, false, Option, some, leb,
}
use native.Mathlib.Nat.{pow-le-pow_right}
use stellar_escrow.Soroban.{ok, u32_mod, u64_mod, within_or_trap}
use stellar_escrow.Indexer.Jobs.{
  Job, Redis, Json, JobWorkerState, enqueue_at, record_retry, dead_letter, failed_once, rescheduled,
  process_with_retry,
}

-- The job as it is scheduled again after `n` attempts have failed, the k-th at time `at k` with `error k`.
unfoldable pub after_failures : (at error : ℕ → ℕ) → ℕ → Job → Job
after_failures at error zero job = job
after_failures at error (suc n) job =
    let before = after_failures at error n job in
    rescheduled (at n + 2 ^ before.attempts) (failed_once (before.attempts + 1) (error n) before)

after_failures-attempts :
    (at error : ℕ → ℕ) (n : ℕ) (job : Job)
    → ((after_failures at error n job).attempts ≡ job.attempts + n)
      × ((after_failures at error n job).max_attempts ≡ job.max_attempts)
unfolding after_failures
after_failures-attempts at error zero job = (omega arith, refl)
after_failures-attempts at error (suc n) job =
    let (a, m) = after_failures-attempts at error n job in (omega (arith, a), m)

-- The queues after the job has been put aside for another attempt.
again : {R P : Type 0} → Redis R P → Json P → (now error : ℕ) → Job → Option R → Option R
again redis json now error job conn =
    let next = rescheduled (now + 2 ^ job.attempts) (failed_once (job.attempts + 1) error job) in
    enqueue_at redis json next (now + 2 ^ job.attempts) (record_retry redis json next conn)

fits : (w n : ℕ) → n < w → within_or_trap w n ≡ ok n
unfolding within_or_trap
fits w n lt = ground arith

pow_small : (n : ℕ) → n < 32 → 2 ^ n < 2 ^ 62
pow_small n lt =
    omega (arith, pow-le-pow_right {n = 2} (omega arith) {i = n} {j = 32} (omega arith))

module _ {R P : Type 0} (redis : Redis R P) (json : Json P) where
  reschedules :
      (now error : ℕ) (job : Job) (conn : Option R) (w : JobWorkerState)
      → job.attempts + 1 < job.max_attempts
      → job.max_attempts ≤ 32
      → now < 2 ^ 62
      → process_with_retry redis json now (some error) job (conn, w)
        ≡ ok (again redis json now error job conn, w)
  unfolding process_with_retry again
  reschedules now error job conn w few small early =
      let one : within_or_trap u32_mod (job.attempts + 1) ≡ ok (job.attempts + 1) =
        fits u32_mod (job.attempts + 1) (omega arith) in
      let more : leb job.max_attempts (job.attempts + 1) ≡ false = ground arith in
      let pow = pow_small job.attempts (omega arith) in
      let same : job.attempts + 1 - 1 ≡ job.attempts = omega arith in
      let delay : within_or_trap (2 ^ 63) (2 ^ (job.attempts + 1 - 1)) ≡ ok (2 ^ job.attempts) =
        ap (λ k. within_or_trap (2 ^ 63) (2 ^ k)) same
        ∙ fits (2 ^ 63) (2 ^ job.attempts) (omega arith) in
      let next : within_or_trap (2 ^ 63) (now + 2 ^ job.attempts) ≡ ok (now + 2 ^ job.attempts) =
        fits (2 ^ 63) (now + 2 ^ job.attempts) (omega arith) in
      rw one (rw more (rw delay (rw next refl)))

  gives_up :
      (now error : ℕ) (job : Job) (conn : Option R) (w : JobWorkerState)
      → job.attempts + 1 ≡ job.max_attempts
      → job.max_attempts ≤ 32
      → w.failed_jobs + 1 < u64_mod
      → process_with_retry redis json now (some error) job (conn, w)
        ≡ ok (
          dead_letter redis json (failed_once job.max_attempts error job) conn,
          record w { failed_jobs = w.failed_jobs + 1 },
        )
  unfolding process_with_retry
  gives_up now error job conn w last small room =
      let one : within_or_trap u32_mod (job.attempts + 1) ≡ ok (job.attempts + 1) =
        fits u32_mod (job.attempts + 1) (omega arith) in
      let over : leb job.max_attempts (job.attempts + 1) ≡ true = ground arith in
      rw one (
        rw over (
          rw (fits u64_mod (w.failed_jobs + 1) room) (
            ap
              (λ m. ok (
                dead_letter redis json (failed_once m error job) conn,
                record w { failed_jobs = w.failed_jobs + 1 },
              ))
              last)))

-- A job that fails at every attempt is scheduled again after each but the last of its attempts, each time
-- with one attempt more and a delay that doubles from one second on, and is a dead letter after the
-- last: for a new job with at most 32 attempts, at times before 2^62, whatever is in the queues
-- in between.
pub process_with_retry-exhausts :
    {R P : Type 0} (redis : Redis R P) (json : Json P) (at error : ℕ → ℕ) (job : Job) (n : ℕ)
    → job.attempts ≡ 0
    → job.max_attempts ≡ n + 1
    → n < 32
    → ((k : ℕ) → at k < 2 ^ 62)
    → ((k : ℕ) (conn : Option R) (w : JobWorkerState)
        → k < n
        → process_with_retry redis json
            (at k)
            (some (error k))
            (after_failures at error k job)
            (conn, w)
          ≡ ok (
            enqueue_at redis json
                (after_failures at error (suc k) job)
                (at k + 2 ^ k)
                (record_retry redis json (after_failures at error (suc k) job) conn),
            w,
          ))
      × ((conn : Option R) (w : JobWorkerState)
          → w.failed_jobs + 1 < u64_mod
          → process_with_retry redis json
              (at n)
              (some (error n))
              (after_failures at error n job)
              (conn, w)
            ≡ ok (
              dead_letter redis json
                  (failed_once (n + 1) (error n) (after_failures at error n job))
                  conn,
              record w { failed_jobs = w.failed_jobs + 1 },
            ))
unfolding after_failures again
process_with_retry-exhausts redis json at error job n first most small early = (
  λ k conn w lt.
      let (a, m) = after_failures-attempts at error k job in
      let count : (after_failures at error k job).attempts ≡ k = a ∙ omega arith in
      reschedules redis json (at k) (error k) (after_failures at error k job) conn w (omega arith)
        (omega arith) (early k)
      ∙ ap
          (λ i. ok (
            enqueue_at redis json (after_failures at error (suc k) job) (at k + 2 ^ i)
                (record_retry redis json (after_failures at error (suc k) job) conn),
            w,
          ))
          count,
  λ conn w room.
      let (a, m) = after_failures-attempts at error n job in
      gives_up redis json (at n) (error n) (after_failures at error n job) conn w (omega arith)
        (omega arith) room
      ∙ ap
          (λ i. ok (
            dead_letter redis json (failed_once i (error n) (after_failures at error n job)) conn,
            record w { failed_jobs = w.failed_jobs + 1 },
          ))
          (m ∙ most),
)
