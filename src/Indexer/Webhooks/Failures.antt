-- ===== src/Indexer/Webhooks/Failures.antt =====
-- When an endpoint is switched off.
use stellar_escrow.Prelude.{
  ℕ, zero, suc, ◌+◌, ◌%◌, ◌≤◌, ◌<◌, ◌≡◌, refl, ap, ◌∙◌, arith, Bool, true, false, Option, none,
  some, List, [], ◌∷◌, ◌==◌, if◌then◌else◌, Bool-cases, inl, inr,
}
use stellar_escrow.Soroban.{u32_mod}
use stellar_escrow.Indexer.Webhooks.{WebhookEndpoint, failed_once, note_failure, note_result}

-- The entry that `find` gives for an id.
unfoldable pub entry : ℕ → List WebhookEndpoint → Option WebhookEndpoint
entry id [] = none
entry id (e ∷ es) = if e.id == id then some e else entry id es

-- The deliveries to one endpoint, in the order in which they end.
unfoldable pub note_results : ℕ → List Bool → List WebhookEndpoint → List WebhookEndpoint
unfolding note_result
note_results id [] es = es
note_results id (r ∷ rs) es = note_results id rs (note_result id r es)

unfoldable pub failures : List Bool → ℕ
failures [] = 0
failures (true ∷ rs) = failures rs
failures (false ∷ rs) = failures rs + 1

entry-note_failure :
    (id : ℕ) (es : List WebhookEndpoint) (e : WebhookEndpoint)
    → entry id es ≡ some e
    → entry id (note_failure id es) ≡ some (failed_once e)
unfolding entry note_failure failed_once
entry-note_failure id [] e h = ground arith
entry-note_failure id (x ∷ xs) e h = elim (Bool-cases (x.id == id)) [
  | inl t ↦
      let found : some x ≡ some e = rw t at h in
      let same : x ≡ e = ground (arith, found) in rw t (rw t (ap (λ y. some (failed_once y)) same))
  | inr t ↦
      let later : entry id xs ≡ some e = rw t at h in rw t (rw t (entry-note_failure id xs e later))
]

-- What a run of deliveries has made of an endpoint: every failure is counted, whatever successes lie
-- between; it is off if the count has reached ten by a failure, and as before if there was none or the
-- count is below ten.
pub record Counted (e : WebhookEndpoint) (n : ℕ) (e' : WebhookEndpoint) : Type 0 where
  pub count : e'.failure_count ≡ e.failure_count + n
  pub off : 0 < n → 10 ≤ e.failure_count + n → e'.active ≡ false
  pub on : e.failure_count + n < 10 → e'.active ≡ e.active
  pub idle : n ≡ 0 → e'.active ≡ e.active

one_failure : (e : WebhookEndpoint) → e.failure_count + 1 < u32_mod → Counted e 1 (failed_once e)
unfolding failed_once
one_failure e lt =
    let fits : (e.failure_count + 1) % u32_mod ≡ e.failure_count + 1 = omega arith in
    rw fits (record {
      count = refl;
      off = λ _ le. ground arith;
      on = λ few. ground arith;
      idle = λ z. absurd (omega arith);
    })

joined : (a b c : WebhookEndpoint) (n : ℕ) → Counted a 1 b → Counted b n c → Counted a (n + 1) c
joined a b c zero h k = record {
  count = omega (arith, h.count, k.count);
  off = λ _ le. let first = h.off (omega arith) (omega arith) in k.idle refl ∙ first;
  on = λ few. k.idle refl ∙ h.on (omega arith);
  idle = λ z. absurd (omega arith);
}
joined a b c (suc n) h k = record {
  count = omega (arith, h.count, k.count);
  off = λ _ le. k.off (omega arith) (omega (arith, h.count));
  on = λ few. k.on (omega (arith, h.count)) ∙ h.on (omega arith);
  idle = λ z. absurd (omega arith);
}

-- Every failed delivery to an endpoint is counted, and successes in between do not lower the count: the
-- endpoint is off from the failure on that brings the count to ten, and keeps its state while the
-- count is below ten.
pub note_results-Counted :
    (id : ℕ) (rs : List Bool) (es : List WebhookEndpoint) (e : WebhookEndpoint)
    → entry id es ≡ some e
    → e.failure_count + failures rs < u32_mod
    → (e' : WebhookEndpoint) × (entry id (note_results id rs es) ≡ some e')
      × Counted e (failures rs) e'
unfolding note_results failures note_result
note_results-Counted id [] es e h lt = (
  e,
  h,
  record { count = omega arith; off = λ p. absurd (omega arith); on = λ _. refl; idle = λ _. refl },
)
note_results-Counted id (true ∷ rs) es e h lt = note_results-Counted id rs es e h lt
note_results-Counted id (false ∷ rs) es e h lt =
    let step = one_failure e (omega (arith, lt)) in
    let (e', found, rest) =
      note_results-Counted id rs (note_failure id es) (failed_once e) (entry-note_failure id es e h)
        (omega (arith, step.count, lt)) in
    (e', found, joined e (failed_once e) e' (failures rs) step rest)
