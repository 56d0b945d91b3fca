-- ===== src/Indexer/Webhooks.antt =====
-- indexer/src/webhook_service: which endpoints get an event, the delivery with its retries, and what a
-- failed delivery does to its endpoint. Ids, urls and event types are numbers. What an HTTP request
-- answers is the parameter `send`: the status code of an attempt, or none where the request fails.
-- Of the times only the delays between attempts are kept; the texts of errors are left out.
pub mod Delivery
pub mod Failures
use stellar_escrow.Prelude.{
  ℕ, zero, suc, ◌+◌, ◌-◌, ◌^◌, ◌%◌, Bool, true, false, ◌&&◌, ◌||◌, Option, none, some, List, [],
  ◌∷◌, ltb, leb, ◌==◌, if◌then◌else◌,
}
use stellar_escrow.Soroban.{u32_mod, u64_mod}

pub record WebhookEndpoint : Type 0 where
  pub id : ℕ
  pub url : ℕ
  pub event_types : List ℕ
  pub active : Bool
  pub failure_count : ℕ

pub record WebhookDeliveryRecord : Type 0 where
  pub endpoint_id : ℕ
  pub status_code : Option ℕ
  pub success : Bool
  pub attempt : ℕ
  pub has_error : Bool

-- `StatusCode::is_success`
abbrev pub is_success : ℕ → Bool
is_success status = leb 200 status && ltb status 300

unfoldable pub first_record : ℕ → WebhookDeliveryRecord
first_record endpoint_id = record {
  endpoint_id = endpoint_id;
  status_code = none;
  success = false;
  attempt = 0;
  has_error = false;
}

-- The record after one attempt. A request that fails leaves the status of an earlier attempt.
unfoldable pub after_attempt : ℕ → Option ℕ → WebhookDeliveryRecord → WebhookDeliveryRecord
after_attempt attempt none r = record r { has_error = true; attempt = attempt }
after_attempt attempt (some status) r = record r {
  status_code = some status;
  success = is_success status;
  attempt = attempt;
  has_error = if is_success status then r.has_error else true;
}

-- the early return of the loop
abbrev pub delivered : Option ℕ → Bool
delivered none = false
delivered (some status) = is_success status

-- `2u64.pow(attempt - 1)` seconds, which wraps in a release build, as the one of the Dockerfile is
abbrev pub backoff : ℕ → ℕ
backoff attempt = 2 ^ (attempt - 1) % u64_mod

-- The sleep at the end of a round, where it is not the last one; with the sleeps that follow.
abbrev pub slept : ℕ → ℕ → WebhookDeliveryRecord × List ℕ → WebhookDeliveryRecord × List ℕ
slept attempt max_attempts (r, delays) =
    (r, (if ltb attempt max_attempts then backoff attempt ∷ delays else delays))

-- The rounds `attempt..=max_attempts` of the loop, `left` in number, with the seconds slept in between.
unfoldable pub attempts :
    (ℕ → Option ℕ)
    → (max_attempts left attempt : ℕ) → WebhookDeliveryRecord
    → WebhookDeliveryRecord × List ℕ
unfolding after_attempt
attempts send max_attempts zero attempt r = (r, [])
attempts send max_attempts (suc left) attempt r =
    let now = after_attempt attempt (send attempt) r in
    let later = attempts send max_attempts left (attempt + 1) now in
    if delivered (send attempt) then (now, []) else slept attempt max_attempts later

-- the record that is returned, and the delays on the way
unfoldable pub deliver_with_retry : (ℕ → Option ℕ) → ℕ → ℕ → WebhookDeliveryRecord × List ℕ
unfolding attempts first_record
deliver_with_retry send endpoint_id max_attempts =
    attempts send max_attempts max_attempts 1 (first_record endpoint_id)

abbrev pub any_is : ℕ → List ℕ → Bool
any_is event_type [] = false
any_is event_type (t ∷ ts) = t == event_type || any_is event_type ts

abbrev pub is_nil : List ℕ → Bool
is_nil [] = true
is_nil (_ ∷ _) = false

unfoldable pub matches : WebhookEndpoint → ℕ → Bool
matches endpoint event_type = is_nil endpoint.event_types || any_is event_type endpoint.event_types

-- the endpoints that process_event delivers to
unfoldable pub matching : ℕ → List WebhookEndpoint → List WebhookEndpoint
unfolding matches
matching event_type [] = []
matching event_type (e ∷ es) =
    let rest = matching event_type es in if e.active && matches e event_type then e ∷ rest else rest

-- the endpoint after a delivery that failed
unfoldable pub failed_once : WebhookEndpoint → WebhookEndpoint
failed_once e =
    let count = (e.failure_count + 1) % u32_mod in
    record e { failure_count = count; active = if leb 10 count then false else e.active }

-- `endpoints.iter_mut().find(|e| e.id == id)` with the change
unfoldable pub note_failure : ℕ → List WebhookEndpoint → List WebhookEndpoint
unfolding failed_once
note_failure id [] = []
note_failure id (e ∷ es) = if e.id == id then failed_once e ∷ es else e ∷ note_failure id es

-- the end of a delivery to the endpoint `id`
unfoldable pub note_result : ℕ → Bool → List WebhookEndpoint → List WebhookEndpoint
unfolding note_failure
note_result id true es = es
note_result id false es = note_failure id es

unfoldable pub deactivate : ℕ → List WebhookEndpoint → List WebhookEndpoint
deactivate id [] = []
deactivate id (e ∷ es) =
    if e.id == id then record e { active = false } ∷ es else e ∷ deactivate id es
