-- ===== src/Indexer/Jobs/Dequeue.antt =====
-- Which job the worker takes next, and what becomes of a text that is no job.
use stellar_escrow.Prelude.{
  ◌≡◌, ◌≢◌, refl, ap, arith, Option, none, some, List, [], ◌∷◌, ◌++◌, All, ◌⊎◌, inl, inr,
}
use stellar_escrow.Indexer.Jobs.{
  JobPriority, critical, high, normal, low, Queue, of_priority, Redis, Json, Dequeued, no_job,
  parsed, or_else, pop_first, dequeue,
}

-- What Redis says of LPOP.
pub record LpopLaws {R P : Type 0} (redis : Redis R P) : Type 0 where
  pub on_nil : (q : Queue) (r : R) → redis.items q r ≡ [] → redis.lpop q r ≡ (r, none)
  pub on_cons :
      (q : Queue) (r : R) (payload : P) (payloads : List P)
      → redis.items q r ≡ payload ∷ payloads
      → ((redis.lpop q r).1 ≡ some payload) × (redis.items q (redis.lpop q r).0 ≡ payloads)
  pub others : (q p : Queue) (r : R) → p ≢ q → redis.items p (redis.lpop q r).0 ≡ redis.items p r

-- The text is the first one of the most urgent queue that has one, and only that queue has lost it.
pub record Taken {R P : Type 0} (redis : Redis R P) (ps : List JobPriority) (payload : P) (r r' : R)
    : Type 0 where
  pub priority : JobPriority
  pub more_urgent : List JobPriority
  pub less_urgent : List JobPriority
  pub place : ps ≡ more_urgent ++ priority ∷ less_urgent
  pub urgent_empty : All (λ (p : JobPriority). redis.items (of_priority p) r ≡ []) more_urgent
  pub first : redis.items (of_priority priority) r ≡ payload ∷ redis.items (of_priority priority) r'
  pub others : (q : Queue) → q ≢ of_priority priority → redis.items q r' ≡ redis.items q r

module _ {R P : Type 0} (redis : Redis R P) (json : Json P) (laws : LpopLaws redis) where
  or_else-some :
      (x : R × Option P) (payload : P) (f : R → R × Dequeued)
      → x.1 ≡ some payload
      → or_else redis json x f ≡ (x.0, parsed (json.from_str payload))
  or_else-some (r, none) payload f e = absurd (ground (arith, e))
  or_else-some (r, some p) payload f e = ap (λ (o : Option P). or_else redis json (r, o) f) e

  -- The loop over the queues `ps` ends in `x`.
  Picked : List JobPriority → R → R × Dequeued → Type 0
  Picked ps r x =
      (All (λ (p : JobPriority). redis.items (of_priority p) r ≡ []) ps × (x ≡ (r, no_job)))
      ⊎ ((payload : P) × (r' : R) × (x ≡ (r', parsed (json.from_str payload)))
          × Taken redis ps payload r r')

  pop_next-Picked :
      (p : JobPriority) (ps : List JobPriority) (r : R) (payloads : List P)
      → redis.items (of_priority p) r ≡ payloads
      → Picked ps r (pop_first redis json ps r)
      → Picked (p ∷ ps) r (pop_first redis json (p ∷ ps) r)
  unfolding Picked
  pop_next-Picked p ps r [] e (inl (empty, none_)) =
      inl ((e, empty), rw (laws.on_nil (of_priority p) r e) none_)
  pop_next-Picked p ps r [] e (inr (payload, r', some_, t)) = inr (
    payload,
    r',
    rw (laws.on_nil (of_priority p) r e) some_,
    record {
      priority = t.priority;
      more_urgent = p ∷ t.more_urgent;
      less_urgent = t.less_urgent;
      place = ap (λ (xs : List JobPriority). p ∷ xs) t.place;
      urgent_empty = (e, t.urgent_empty);
      first = t.first;
      others = t.others;
    },
  )
  pop_next-Picked p ps r (payload ∷ payloads) e _ =
      let (got, left) = laws.on_cons (of_priority p) r payload payloads e in
      inr (
        payload,
        (redis.lpop (of_priority p) r).0,
        or_else-some (redis.lpop (of_priority p) r) payload (pop_first redis json ps) got,
        record {
          priority = p;
          more_urgent = [];
          less_urgent = ps;
          place = refl;
          urgent_empty = tt;
          first = rw left e;
          others = λ q ne. laws.others (of_priority p) q r ne;
        },
      )

  pop_first-Picked : (ps : List JobPriority) (r : R) → Picked ps r (pop_first redis json ps r)
  unfolding Picked
  pop_first-Picked [] r = inl (tt, refl)
  pop_first-Picked (p ∷ ps) r =
      pop_next-Picked p ps r (redis.items (of_priority p) r) refl (pop_first-Picked ps r)

  abbrev pub by_urgency : List JobPriority
  by_urgency = critical ∷ high ∷ normal ∷ low ∷ []

  -- The worker finds no job exactly if all four queues are empty, which leaves Redis as it was; otherwise
  -- the first text of the most urgent queue that is not empty is taken from that queue, while every other
  -- queue stays as it was, and the worker gets the job that the text stands for, or the error of reading
  -- it where it stands for none.
  pub dequeue-Taken :
      (r : R)
      → (All (λ (p : JobPriority). redis.items (of_priority p) r ≡ []) by_urgency
          × (dequeue redis json (some r) ≡ (some r, no_job)))
        ⊎ ((payload : P) × (r' : R) × (dequeue redis json (some r)
              ≡ (some r', parsed (json.from_str payload)))
            × Taken redis by_urgency payload r r')
  unfolding dequeue Picked
  dequeue-Taken r = elim (pop_first-Picked by_urgency r) [
    | inl (empty, e) ↦ inl (empty, ap (λ (x : R × Dequeued). (some x.0, x.1)) e)
    | inr (payload, r', e, t) ↦ inr (payload, r', ap (λ (x : R × Dequeued). (some x.0, x.1)) e, t)
  ]
