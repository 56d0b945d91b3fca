-- ===== src/Indexer/Webhooks/Delivery.antt =====
-- What a delivery with retries reports.
use stellar_escrow.Prelude.{
  ℕ, zero, suc, ◌+◌, ◌-◌, ◌^◌, ◌%◌, List, [], ◌∷◌, ltb, ◌≤◌, ◌<◌, ◌≡◌, refl, ap, ◌∙◌, arith, true,
  false, Option, none, some, Bool-cases, ◌⊎◌, inl, inr,
}
use stellar_escrow.Soroban.{u64_mod}
use stellar_escrow.Indexer.Webhooks.{
  WebhookDeliveryRecord, first_record, after_attempt, delivered, backoff, slept, attempts,
  deliver_with_retry,
}

-- Either the attempt that is reported is the first one with a success status, or no attempt from
-- `from` to before `until` had one and the last of them is reported.
pub Reports : (send : ℕ → Option ℕ) (from until : ℕ) → WebhookDeliveryRecord → Type 0
Reports send from until r =
    ((r.success ≡ true)
      × (from ≤ r.attempt)
      × (r.attempt < until)
      × (delivered (send r.attempt) ≡ true)
      × ((k : ℕ) → from ≤ k → k < r.attempt → delivered (send k) ≡ false))
    ⊎ ((r.success ≡ false)
        × (r.attempt + 1 ≡ until)
        × ((k : ℕ) → from ≤ k → k < until → delivered (send k) ≡ false))

attempted :
    (attempt : ℕ) (answer : Option ℕ) (r : WebhookDeliveryRecord)
    → r.success ≡ false
    → ((after_attempt attempt answer r).success ≡ delivered answer)
      × ((after_attempt attempt answer r).attempt ≡ attempt)
unfolding after_attempt
attempted attempt none r h = (h, refl)
attempted attempt (some status) r h = (refl, refl)

-- One more attempt in front, without success.
widened :
    (send : ℕ → Option ℕ) (from left until : ℕ) (r : WebhookDeliveryRecord)
    → delivered (send from) ≡ false
    → until ≡ from + left
    → Reports send (from + 1) until r
    → Reports send from (from + left) r
unfolding Reports
widened send from left until r d e (inl (s, a, b, g, before)) =
    inl (s, omega (arith, a), omega (arith, b, e), g, λ k le lt. ground (arith, before k, d))
widened send from left until r d e (inr (s, b, before)) =
    inr (s, omega (arith, b, e), λ k le lt. ground (arith, before k, d, e))

-- The delays after `n` attempts from the one at `from` on, that many of them and each the double of the one
-- before as long as it fits 64 bits.
unfoldable pub doubling : (from n : ℕ) → List ℕ
doubling from zero = []
doubling from (suc n) = 2 ^ (from - 1) % u64_mod ∷ doubling (from + 1) n

-- The record reports the attempts, and the delays are those before the attempt that is reported.
Told : (send : ℕ → Option ℕ) (from until : ℕ) → WebhookDeliveryRecord × List ℕ → Type 0
Told send from until x = Reports send from until x.0 × (x.1 ≡ doubling from (x.0.attempt - from))

reached :
    (send : ℕ → Option ℕ) (from until : ℕ) (r : WebhookDeliveryRecord)
    → from < until
    → Reports send from until r
    → from ≤ r.attempt
unfolding Reports
reached send from until r lt (inl (_, le, _, _, _)) = le
reached send from until r lt (inr (_, e, _)) = omega (arith, e)

plus_zero : (n : ℕ) → n + 0 ≡ n
plus_zero n = omega arith

at_end :
    (send : ℕ → Option ℕ) (until : ℕ) (r : WebhookDeliveryRecord)
    → Reports send until until r
    → r.attempt + 1 ≡ until
unfolding Reports
at_end send until r (inl (_, le, lt, _, _)) = absurd (omega (arith, le, lt))
at_end send until r (inr (_, e, _)) = e

module _ (send : ℕ → Option ℕ) (max_attempts : ℕ) where
  -- A round that fails, in front of the rounds that follow.
  failed_round :
      (left from : ℕ) (x : WebhookDeliveryRecord × List ℕ)
      → from + left ≡ max_attempts
      → delivered (send from) ≡ false
      → Told send (from + 1) (from + 1 + left) x
      → Told send from (from + suc left) (slept from max_attempts x)
  unfolding Told doubling
  failed_round zero from (r, delays) e d (reports, same) =
      let all =
        widened send from 1 (from + 1) r d (omega arith) (rw (plus_zero (from + 1)) at reports) in
      let last : r.attempt + 1 ≡ from + 1 =
        at_end send (from + 1) r (rw (plus_zero (from + 1)) at reports) in
      let ends : ltb from max_attempts ≡ false = ground arith in
      let one : r.attempt - from ≡ 0 = omega (arith, last) in
      let none_left : r.attempt - (from + 1) ≡ 0 = omega (arith, last) in
      (all, rw (ends, one) (same ∙ rw none_left refl))
  failed_round (suc left) from (r, delays) e d (reports, same) =
      let all =
        widened send from (suc (suc left)) (from + 1 + suc left) r d (omega arith) reports in
      let goes_on : ltb from max_attempts ≡ true = ground arith in
      let at_least = reached send (from + 1) (from + 1 + suc left) r (omega arith) reports in
      let more : r.attempt - from ≡ suc (r.attempt - (from + 1)) = omega (arith, at_least) in
      (all, rw (goes_on, more) (ap (λ (ds : List ℕ). backoff from ∷ ds) same))

  attempts-Told :
      (left from : ℕ) (r : WebhookDeliveryRecord)
      → r.success ≡ false
      → r.attempt + 1 ≡ from
      → from + left ≡ max_attempts + 1
      → Told send from (from + left) (attempts send max_attempts left from r)
  unfolding attempts Told Reports doubling
  attempts-Told zero from r h e all =
      let done : r.attempt - from ≡ 0 = omega (arith, e) in
      (inr (h, omega arith, λ k a b. absurd (omega arith)), rw done refl)
  attempts-Told (suc left) from r h e all =
      let (ok_, at_) = attempted from (send from) r h in
      elim (Bool-cases (delivered (send from))) [
        | inl d ↦
            let done : (after_attempt from (send from) r).attempt - from ≡ 0 = omega (arith, at_) in
            rw d (
              inl (
                ok_ ∙ d,
                omega (arith, at_),
                omega (arith, at_),
                ap (λ k. delivered (send k)) at_ ∙ d,
                λ k a b. absurd (omega (arith, at_)),
              ),
              rw done refl,
            )
        | inr d ↦
            let later =
              attempts-Told left (from + 1) (after_attempt from (send from) r) (ok_ ∙ d)
                (omega (arith, at_)) (omega arith) in
            rw d (
              failed_round left from
                (attempts send max_attempts left (from + 1) (after_attempt from (send from) r))
                (omega arith) d later)
      ]

-- A delivery makes its attempts in order and stops at the first one that is answered by
-- a success status, which is the attempt it reports as a success; where none of them is, it reports
-- a failure at the last attempt allowed. Between two attempts it sleeps, for 1 second, 2 seconds and so
-- on, doubling until the delay wraps at 64 bits, and it does not sleep after the last.
pub deliver_with_retry-Reports :
    (send : ℕ → Option ℕ) (endpoint_id max_attempts : ℕ)
    → Reports send 1 (1 + max_attempts) (deliver_with_retry send endpoint_id max_attempts).0
      × ((deliver_with_retry send endpoint_id max_attempts).1
          ≡ doubling 1 ((deliver_with_retry send endpoint_id max_attempts).0.attempt - 1))
unfolding deliver_with_retry first_record Told
deliver_with_retry-Reports send endpoint_id max_attempts =
    attempts-Told send max_attempts max_attempts 1 (first_record endpoint_id) refl refl
      (omega arith)
