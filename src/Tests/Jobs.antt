-- ===== src/Tests/Jobs.antt =====
-- The queues and the gateway of the service on small inputs, over lists of jobs that are written out.
use stellar_escrow.Prelude.{
  ℕ, suc, ◌+◌, ◌^◌, ◌<◌, ◌≡◌, ◌≢◌, ◌↔◌, ◌⊎◌, refl, sym, ap, ◌∙◌, arith, true, false, Option, none,
  some, List, [], ◌∷◌, All, ◌++◌, ◌==◌, ==-refl, ==→eq, if◌then◌else◌, Bool-cases, inl, inr,
}
use stellar_escrow.Soroban.{ok, u64_mod}
use stellar_escrow.Indexer.Jobs.{
  notification, critical, high, normal, low, JobPriority, Job, Queue, of_priority, dead_letters,
  retries, processed, Redis, Json, no_job, parsed, JobWorkerState, new, enqueue_at, record_retry,
  dead_letter, failed_once, dequeue, process_with_retry,
}
use stellar_escrow.Indexer.Jobs.Dequeue.{LpopLaws, Taken, dequeue-Taken}
use stellar_escrow.Indexer.Jobs.Retries.{after_failures, process_with_retry-exhausts}
use stellar_escrow.Indexer.Gateway.{
  codes, AuthConfig, Request, holds, extract_api_key, is_public_path, gateway_admits,
}
use stellar_escrow.Indexer.Gateway.Access.{gateway_admits-admin}
use stellar_escrow.Indexer.Auth.{handled, auth_middleware}
use stellar_escrow.Indexer.Auth.Agreement.{auth_middleware-gateway_admits}
use stellar_escrow.Indexer.Coordinator.{confirmed, TradeStates}

abbrev number : Queue → ℕ
number (of_priority critical) = 0
number (of_priority high) = 1
number (of_priority normal) = 2
number (of_priority low) = 3
number dead_letters = 4
number retries = 5
number processed = 6

abbrev numbered : ℕ → Queue
numbered n =
    if n == 0
    then of_priority critical
    else if n == 1
    then of_priority high
    else if n == 2
    then of_priority normal
    else if n == 3
    then of_priority low
    else if n == 4
    then dead_letters
    else if n == 5
    then retries
    else processed

numbered-number : (q : Queue) → numbered (number q) ≡ q
numbered-number (of_priority critical) = refl
numbered-number (of_priority high) = refl
numbered-number (of_priority normal) = refl
numbered-number (of_priority low) = refl
numbered-number dead_letters = refl
numbered-number retries = refl
numbered-number processed = refl

-- A text is a job, or one that cannot be read.
abbrev json : Json (Option Job)
json = record { to_string = some; from_str = λ text. text }

abbrev Lists : Type 0
Lists = Queue → List (Option Job)

abbrev set : Queue → List (Option Job) → Lists → Lists
set q jobs r = λ p. if number p == number q then jobs else r p

abbrev popped : Queue → Lists → List (Option Job) → Lists × Option (Option Job)
popped q r [] = (r, none)
popped q r (job ∷ jobs) = (set q jobs r, some job)

-- The scheduled jobs are left out.
abbrev redis : Redis Lists (Option Job)
redis = record {
  items = λ q r. r q;
  rpush = λ q job r. set q (r q ++ job ∷ []) r;
  lpush = λ q job r. set q (job ∷ r q) r;
  lpop = λ q r. popped q r (r q);
  ltrim = λ q i j r. r;
  zadd = λ job at r. r;
  zrangebyscore = λ now r. [];
  zrem = λ job r. r;
}

apart : (p q : Queue) → p ≢ q → (number p == number q) ≡ false
apart p q ne = elim (Bool-cases (number p == number q)) [
  | inl e ↦
      let same = ==→eq (number p) (number q) e in
      absurd (ne (sym (numbered-number p) ∙ ap numbered same ∙ numbered-number q))
  | inr e ↦ e
]

popped-others :
    (q p : Queue) (r : Lists) (jobs : List (Option Job)) → p ≢ q → (popped q r jobs).0 p ≡ r p
popped-others q p r [] ne = refl
popped-others q p r (job ∷ jobs) ne = rw (apart p q ne) refl

redis_laws : LpopLaws redis
redis_laws = record {
  on_nil = λ q r e. ap (popped q r) e;
  on_cons = λ q r job jobs e. (
    ap (λ (xs : List (Option Job)). (popped q r xs).1) e,
    ap (λ (xs : List (Option Job)). (popped q r xs).0 q) e ∙ rw (==-refl (number q)) refl,
  );
  others = λ q p r ne. popped-others q p r (r q) ne;
}

abbrev job : Job
job = new 1 notification 2 3 0 high 1000

-- One job is waiting.
abbrev one_waiting : Lists
one_waiting = set (of_priority high) (some job ∷ []) (λ _. [])

dequeue-Taken_example :
    (All
        (λ (p : JobPriority). one_waiting (of_priority p) ≡ [])
        (critical ∷ high ∷ normal ∷ low ∷ [])
      × (dequeue redis json (some one_waiting) ≡ (some one_waiting, no_job)))
    ⊎ ((text : Option Job) × (r : Lists) × (dequeue redis json (some one_waiting)
          ≡ (some r, parsed text))
        × Taken redis (critical ∷ high ∷ normal ∷ low ∷ []) text one_waiting r)
dequeue-Taken_example = dequeue-Taken redis json redis_laws one_waiting

-- The second after the k-th failure, and an error that is always the same.
abbrev at : ℕ → ℕ
at k = 1000

process_with_retry-exhausts_example :
    ((k : ℕ) (conn : Option Lists) (w : JobWorkerState)
      → k < 2
      → process_with_retry redis json 1000 (some 7) (after_failures at (λ _. 7) k job) (conn, w)
        ≡ ok (
          enqueue_at redis json
              (after_failures at (λ _. 7) (suc k) job)
              (1000 + 2 ^ k)
              (record_retry redis json (after_failures at (λ _. 7) (suc k) job) conn),
          w,
        ))
    × ((conn : Option Lists) (w : JobWorkerState)
        → w.failed_jobs + 1 < u64_mod
        → process_with_retry redis json 1000 (some 7) (after_failures at (λ _. 7) 2 job) (conn, w)
          ≡ ok (
            dead_letter redis json (failed_once 3 7 (after_failures at (λ _. 7) 2 job)) conn,
            record w { failed_jobs = w.failed_jobs + 1 },
          ))
unfolding new
process_with_retry-exhausts_example =
    process_with_retry-exhausts redis json at (λ _. 7) job 2 refl refl (omega arith)
      (λ k. omega arith)

abbrev auth : AuthConfig
auth = record { api_keys = codes "user" ∷ []; admin_keys = codes "root" ∷ [] }

abbrev request : Request
request = record {
  path = codes "/admin/stats";
  authorization = some (some (codes "Bearer root"));
  x_api_key = none;
}

gateway_admits-admin_example :
    (gateway_admits auth request ≡ true)
    ↔ ((key : List ℕ) × (extract_api_key request ≡ some key) × (holds auth.admin_keys key ≡ true))
gateway_admits-admin_example = gateway_admits-admin auth request refl

auth_middleware-gateway_admits_example : (auth_middleware auth request ≡ handled) ↔ (
    (gateway_admits auth request ≡ true)
    × ((is_public_path request.path ≡ true) ⊎ (extract_api_key request ≢ some [])))
auth_middleware-gateway_admits_example = auth_middleware-gateway_admits auth request

-- The trade 1 was confirmed at 100 and fails at 500.
abbrev bridge_states : TradeStates
bridge_states id =
    if id == 1
    then some (record { trade_id = 1; retry_count = 0; last_retry_time = 100; status = confirmed })
    else none
