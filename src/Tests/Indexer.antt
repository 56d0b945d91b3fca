-- ===== src/Tests/Indexer.antt =====
-- The rate limiter and the webhooks on small inputs.
use stellar_escrow.Prelude.{
  ℕ, ◌-◌, ◌+◌, ◌≡◌, refl, arith, true, false, Option, none, some, [], ◌∷◌, if◌then◌else◌, ◌==◌,
}
use stellar_escrow.Indexer.RateLimit.{
  default, RateLimiter, Bucket, consume, remaining, reset_secs, contains, draw, check,
}
use stellar_escrow.Indexer.RateLimit.Window.{Trace, trace-tokens}
use stellar_escrow.Indexer.Webhooks.{WebhookEndpoint, deliver_with_retry}
use stellar_escrow.Indexer.Webhooks.Delivery.{Reports, doubling, deliver_with_retry-Reports}
use stellar_escrow.Indexer.Webhooks.Failures.{
  note_results, Counted, entry, note_results-Counted, failures,
}

-- The address 1 has two tokens left.
abbrev limiter : RateLimiter
limiter = record {
  cfg = record { default_rpm = 60; elevated_rpm = 300; admin_rpm = 1000 };
  buckets =
      λ ip. if ip == 1 then some (record { tokens = 2; last_refill = 0; tier = default }) else none;
  tier_overrides = λ _. none;
  whitelist = 8 ∷ [];
  blacklist = [];
  total_allowed = 0;
  total_blocked = 0;
  total_blacklisted = 0;
}

abbrev after_first : RateLimiter
after_first = (check 1 100 limiter).0

one_request : Trace 1 0 limiter 1 after_first
unfolding check draw consume remaining reset_secs contains
one_request = Trace.passed 100 60 1 60 Trace.start (omega arith) refl

trace-tokens_example : (b : Bucket) × (after_first.buckets 1 ≡ some b) × (1 + b.tokens ≡ 2)
unfolding contains
trace-tokens_example =
    trace-tokens 1 0 1 limiter after_first (record { tokens = 2; last_refill = 0; tier = default })
      refl refl refl one_request

-- The second attempt is answered by 200.
abbrev send : ℕ → Option ℕ
send n = if n == 2 then some 200 else some 503

deliver_with_retry-Reports_example :
    Reports send 1 4 (deliver_with_retry send 9 3).0
    × ((deliver_with_retry send 9 3).1 ≡ doubling 1 ((deliver_with_retry send 9 3).0.attempt - 1))
deliver_with_retry-Reports_example = deliver_with_retry-Reports send 9 3

abbrev endpoint : WebhookEndpoint
endpoint = record { id = 4; url = 0; event_types = []; active = true; failure_count = 8 }

note_results-Counted_example :
    (e : WebhookEndpoint) × (entry 4 (note_results 4 (false ∷ true ∷ false ∷ []) (endpoint ∷ []))
      ≡ some e)
    × Counted endpoint 2 e
unfolding entry failures
note_results-Counted_example =
    note_results-Counted 4 (false ∷ true ∷ false ∷ []) (endpoint ∷ []) endpoint refl (omega arith)
