-- ===== src/Indexer/RateLimit/Window.antt =====
-- How many requests one bucket lets through in the minute after its last refill.
use stellar_escrow.Prelude.{
  ℕ, zero, suc, ◌+◌, ◌-◌, ◌<◌, ◌≡◌, ◌≢◌, refl, ◌∙◌, arith, true, false, Option, some, List, ltb,
  leb, ◌==◌, ==-refl, get_or, Bool-cases, ◌⊎◌, inl, inr,
}
use stellar_escrow.Indexer.RateLimit.Lists.{unlisted-without, other-with_ip}
use stellar_escrow.Indexer.RateLimit.{
  RateTier, default, RateLimiter, Bucket, allowed, capacity, minute, new_bucket, consume, contains,
  draw, check, add_whitelist, remove_whitelist, add_blacklist, remove_blacklist, set_tier,
}

-- The operations of the limiter, in an order in which `ip` is neither put on the whitelist nor given
-- another tier, and is checked only in the minute from `since` on; with the number of its requests
-- that were let through.
pub data Trace (ip since : ℕ) (s : RateLimiter) : ℕ → RateLimiter → Type 0 where
  start : Trace ip since s 0 s
  passed :
      {n : ℕ} {s' : RateLimiter} (now limit left reset : ℕ)
      → Trace ip since s n s'
      → now < since + minute
      → (check ip now s').1 ≡ allowed limit left reset
      → Trace ip since s (suc n) (check ip now s').0
  turned_away :
      {n : ℕ} {s' : RateLimiter} (now : ℕ)
      → Trace ip since s n s'
      → now < since + minute
      → ((limit left reset : ℕ) → (check ip now s').1 ≢ allowed limit left reset)
      → Trace ip since s n (check ip now s').0
  checked_other :
      {n : ℕ} {s' : RateLimiter} (j now : ℕ)
      → Trace ip since s n s'
      → ip ≢ j
      → Trace ip since s n (check j now s').0
  whitelisted_other :
      {n : ℕ} {s' : RateLimiter} (j : ℕ)
      → Trace ip since s n s'
      → ip ≢ j
      → Trace ip since s n (add_whitelist j s')
  unwhitelisted :
      {n : ℕ} {s' : RateLimiter} (j : ℕ)
      → Trace ip since s n s'
      → Trace ip since s n (remove_whitelist j s')
  blacklisting :
      {n : ℕ} {s' : RateLimiter} (j : ℕ)
      → Trace ip since s n s'
      → Trace ip since s n (add_blacklist j s')
  unblacklisting :
      {n : ℕ} {s' : RateLimiter} (j : ℕ)
      → Trace ip since s n s'
      → Trace ip since s n (remove_blacklist j s')
  retiered_other :
      {n : ℕ} {s' : RateLimiter} (j : ℕ) (tier : RateTier)
      → Trace ip since s n s'
      → ip ≢ j
      → Trace ip since s n (set_tier j tier s')

-- The address has a bucket that was refilled at `since` and holds `k` tokens, and no free pass.
record Holds (ip since k : ℕ) (s : RateLimiter) : Type 0 where
  bucket : Bucket
  found : s.buckets ip ≡ some bucket
  refill : bucket.last_refill ≡ since
  tokens : bucket.tokens ≡ k
  listed : contains ip s.whitelist ≡ false

counted_state :
    {ip since k : ℕ} {s : RateLimiter} (m : ℕ → Option Bucket) (a b c : ℕ)
    → m ip ≡ s.buckets ip
    → Holds ip since k s
    → Holds ip since k
        (record s { buckets = m; total_allowed = a; total_blocked = b; total_blacklisted = c })
counted_state m a b c e h = record {
  bucket = h.bucket;
  found = e ∙ h.found;
  refill = h.refill;
  tokens = h.tokens;
  listed = h.listed;
}

module _ (ip since now : ℕ) (early : now < since + minute) where
  draw-Holds :
      (k cap : ℕ) (b : Bucket) (s : RateLimiter)
      → b.last_refill ≡ since
      → b.tokens ≡ suc k
      → contains ip s.whitelist ≡ false
      → Holds ip since k (draw ip now cap b s).0
        × ((limit : ℕ) × (left : ℕ) × (reset : ℕ) × ((draw ip now cap b s).1
              ≡ allowed limit left reset))
  unfolding draw consume
  draw-Holds k cap b s r n l =
      let fresh : leb minute (now - b.last_refill) ≡ false = ground arith in
      let some_ : ltb 0 b.tokens ≡ true = ground arith in
      rw (fresh, some_)
        (
          record {
            bucket = record b { tokens = b.tokens - 1 };
            found = rw (==-refl ip) refl;
            refill = r;
            tokens = omega (arith, n);
            listed = l;
          },
          (_, _, _, refl),
        )

  draw_empty :
      (cap : ℕ) (b : Bucket) (s : RateLimiter)
      → b.last_refill ≡ since
      → b.tokens ≡ 0
      → contains ip s.whitelist ≡ false
      → Holds ip since 0 (draw ip now cap b s).0
        × ((limit left reset : ℕ) → (draw ip now cap b s).1 ≢ allowed limit left reset)
  unfolding draw consume
  draw_empty cap b s r n l =
      let fresh : leb minute (now - b.last_refill) ≡ false = ground arith in
      let none_ : ltb 0 b.tokens ≡ false = ground arith in
      rw (fresh, none_)
        (
          record { bucket = b; found = rw (==-refl ip) refl; refill = r; tokens = n; listed = l },
          λ limit left reset. cc,
        )

  -- A check either takes one of the tokens and passes, or leaves the bucket as it is and does not.
  check-Holds :
      (k : ℕ) (s : RateLimiter)
      → Holds ip since k s
      → ((left : ℕ) × (k ≡ suc left)
          × Holds ip since left (check ip now s).0
          × ((limit : ℕ) × (rest : ℕ) × (reset : ℕ) × ((check ip now s).1
                ≡ allowed limit rest reset)))
        ⊎ (Holds ip since k (check ip now s).0
            × ((limit rest reset : ℕ) → (check ip now s).1 ≢ allowed limit rest reset))
  unfolding check
  check-Holds zero s h = elim (Bool-cases (contains ip s.blacklist)) [
    | inl e ↦ inr (rw (h.listed, e) (counted_state s.buckets _ _ _ refl h, λ limit rest reset. cc))
    | inr e ↦
        inr (rw (h.listed, e) (rw h.found (draw_empty _ h.bucket s h.refill h.tokens h.listed)))
  ]
  check-Holds (suc k) s h = elim (Bool-cases (contains ip s.blacklist)) [
    | inl e ↦ inr (rw (h.listed, e) (counted_state s.buckets _ _ _ refl h, λ limit rest reset. cc))
    | inr e ↦
        let (kept, pass) = draw-Holds k _ h.bucket s h.refill h.tokens h.listed in
        inl (k, refl, rw (h.listed, e) (rw h.found kept), rw (h.listed, e) (rw h.found pass))
  ]

module _ {ip since k : ℕ} (s : RateLimiter) (h : Holds ip since k s) where
  check-other : (j now : ℕ) → ip ≢ j → Holds ip since k (check j now s).0
  unfolding check draw
  check-other j now ne =
      let apart : (ip == j) ≡ false = ground arith in
      let tier = get_or (s.tier_overrides j) default in
      let cap = capacity tier s.cfg in
      let b = get_or (s.buckets j) (new_bucket tier cap now) in
      elim (Bool-cases (contains j s.whitelist)) [
        | inl e ↦ rw e (counted_state s.buckets _ _ _ refl h)
        | inr e ↦ elim (Bool-cases (contains j s.blacklist)) [
          | inl f ↦ rw (e, f) (counted_state s.buckets _ _ _ refl h)
          | inr f ↦ elim (Bool-cases (consume now cap b).1) [
            | inl g ↦ rw (e, f, g) (counted_state _ _ _ _ (rw apart refl) h)
            | inr g ↦ rw (e, f, g) (counted_state _ _ _ _ (rw apart refl) h)
          ]
        ]
      ]

  relisted :
      (ws bs : List ℕ)
      → contains ip ws ≡ false
      → Holds ip since k (record s { whitelist = ws; blacklist = bs })
  relisted ws bs e = record {
    bucket = h.bucket;
    found = h.found;
    refill = h.refill;
    tokens = h.tokens;
    listed = e;
  }

  set_tier-other : (j : ℕ) (tier : RateTier) → ip ≢ j → Holds ip since k (set_tier j tier s)
  unfolding set_tier
  set_tier-other j tier ne =
      let apart : (ip == j) ≡ false = ground arith in
      record {
        bucket = h.bucket;
        found = rw apart h.found;
        refill = h.refill;
        tokens = h.tokens;
        listed = h.listed;
      }

trace-Holds :
    {ip since k : ℕ} {s : RateLimiter} {n : ℕ} {s' : RateLimiter}
    → Holds ip since k s
    → Trace ip since s n s'
    → (left : ℕ) × (n + left ≡ k) × Holds ip since left s'
unfolding add_whitelist remove_whitelist add_blacklist remove_blacklist
trace-Holds {k = k} h start = (k, omega arith, h)
trace-Holds {ip} {since} h (passed {n = n} {s' = s'} now limit rest reset calls early pass) =
    let (left, sum, held) = trace-Holds h calls in
    elim (check-Holds ip since now early left s' held) [
      | inl (fewer, more, kept, _) ↦ (fewer, omega (arith, sum, more), kept)
      | inr (kept, no_pass) ↦ absurd (no_pass limit rest reset pass)
    ]
trace-Holds {ip} {since} h (turned_away {n = n} {s' = s'} now calls early no_pass) =
    let (left, sum, held) = trace-Holds h calls in
    elim (check-Holds ip since now early left s' held) [
      | inl (fewer, more, kept, (limit, rest, reset, pass)) ↦ absurd (no_pass limit rest reset pass)
      | inr (kept, _) ↦ (left, sum, kept)
    ]
trace-Holds h (checked_other {s' = s'} j now calls ne) =
    let (left, sum, held) = trace-Holds h calls in (left, sum, check-other s' held j now ne)
trace-Holds {ip} h (whitelisted_other {s' = s'} j calls ne) =
    let (left, sum, held) = trace-Holds h calls in
    (left, sum, relisted s' held _ _ (other-with_ip ip j s'.whitelist ne ∙ held.listed))
trace-Holds {ip} h (unwhitelisted {s' = s'} j calls) =
    let (left, sum, held) = trace-Holds h calls in
    (left, sum, relisted s' held _ _ (unlisted-without ip j s'.whitelist held.listed))
trace-Holds {ip} h (blacklisting {s' = s'} j calls) =
    let (left, sum, held) = trace-Holds h calls in
    (left, sum, relisted s' held _ _ (unlisted-without ip j s'.whitelist held.listed))
trace-Holds h (unblacklisting {s' = s'} j calls) =
    let (left, sum, held) = trace-Holds h calls in (left, sum, relisted s' held _ _ held.listed)
trace-Holds h (retiered_other {s' = s'} j tier calls ne) =
    let (left, sum, held) = trace-Holds h calls in (left, sum, set_tier-other s' held j tier ne)

-- An address that is not on the whitelist, and that from the last refill of its bucket on is neither put
-- on the whitelist nor given a tier by set_tier, which drops the bucket, and is checked only within
-- a minute, is let through at most as often as its bucket held tokens, and what is left in the bucket is
-- exactly the difference. The other calls of the limiter, for this address and for others, may come in
-- between.
pub trace-tokens :
    (ip since n : ℕ) (s s' : RateLimiter) (b : Bucket)
    → s.buckets ip ≡ some b
    → b.last_refill ≡ since
    → contains ip s.whitelist ≡ false
    → Trace ip since s n s'
    → (b' : Bucket) × (s'.buckets ip ≡ some b') × (n + b'.tokens ≡ b.tokens)
trace-tokens ip since n s s' b e r l calls =
    let (left, sum, held) =
      trace-Holds (record { bucket = b; found = e; refill = r; tokens = refl; listed = l }) calls in
    let t = held.tokens in (held.bucket, held.found, omega (arith, sum, t))
