-- ===== src/Bridge/Retries.antt =====
-- A pending cross-chain trade after the timeout of its attestation, and the bound on retries.
use stellar_escrow.Prelude.{
  ℕ, ◌+◌, ◌≤◌, ◌<◌, ◌≡◌, refl, ap, ◌∙◌, arith, not, ◌&&◌, Option, none, some, length, ltb, leb,
  ◌==◌, ==→eq, get_or, update, Bool-cases, Option-cases, inl, inr,
}
use stellar_escrow.Errors.{
  bridge_provider_limit_exceeded, bridge_provider_already_registered, bridge_provider_not_found,
  bridge_trade_expired, bridge_retry_limit_exceeded, invalid_status,
}
use stellar_escrow.Soroban.{
  err, Ctx, step, returned, at_ok, fail_if, fail_if-ok, ok_or, ok_or-ok, within_or_trap,
  within_or_trap-ok, checked_add, u32_mod, u64_mod,
}
use stellar_escrow.Bridge.{
  pending, CrossChainTrade, Bridge, max_bridge_providers, bridge_attestation_timeout_secs,
  bridge_retry_limit, is_failed, is_expired, has_provider, get_bridge_providers,
  get_bridge_provider, get_cross_chain_trade, register_bridge_provider, deactivate_bridge_provider,
  create_cross_chain_trade, update_attestation_status, pause_bridge, resume_bridge,
  get_next_bridge_nonce, retry_bridge_attestation, rollback_cross_chain_trade,
}
use stellar_escrow.Bridge.Calls.{
  Call, registering, deactivating, creating, updating, pausing, resuming, numbering, retrying,
  rolling_back, Creates, LateTrace, begin, late_call, late_check,
}
use stellar_escrow.Bridge.Attestations.{validate_bridge_attestation-Answered}

-- The trade is pending since `since`, with at most three retries.
abbrev pub Waiting : ℕ → Option CrossChainTrade → Type 0
Waiting since none = ⊥
Waiting since (some x) =
    (x.attestation_status ≡ pending)
    × (x.attestation_timestamp ≡ since)
    × (x.retry_count ≤ bridge_retry_limit)

overwritten :
    (since id j : ℕ) (m : ℕ → Option CrossChainTrade) (x : CrossChainTrade)
    → (id ≡ j → Waiting since (some x))
    → Waiting since (m id)
    → Waiting since (update m j (some x) id)
overwritten since id j m x here w = elim (Bool-cases (id == j)) [
  | inl e ↦ rw e (here (==→eq id j e))
  | inr e ↦ rw e w
]

module _ (c : Ctx) (since id : ℕ) (s : Bridge) (w : Waiting since (s.trades id)) where
  -- What is found under the id is the waiting trade.
  at_id : (j : ℕ) (x : CrossChainTrade) → s.trades j ≡ some x → id ≡ j → Waiting since (some x)
  at_id j x e q = let found : s.trades id ≡ some x = ap s.trades q ∙ e in rw found at w

  Call-Waiting :
      (s' : Bridge)
      → since + bridge_attestation_timeout_secs < c.timestamp
      → (k : Call c s s') → ¬ Creates k id
      → Waiting since (s'.trades id)
  unfolding register_bridge_provider deactivate_bridge_provider create_cross_chain_trade
      update_attestation_status get_next_bridge_nonce retry_bridge_attestation
      rollback_cross_chain_trade pause_bridge resume_bridge get_cross_chain_trade
  Call-Waiting s' late (registering config h) other =
      at_ok {P = λ (s' : Bridge). Waiting since (s'.trades id)}
        (step
          (fail_if (leb max_bridge_providers (length (get_bridge_providers s)))
            bridge_provider_limit_exceeded)
          λ _ _.
            step
              (fail_if (has_provider config.provider (get_bridge_providers s))
                bridge_provider_already_registered)
              λ _ _. returned w)
        h
  Call-Waiting s' late (deactivating p h) other =
      at_ok {P = λ (s' : Bridge). Waiting since (s'.trades id)}
        (step (fail_if (not (has_provider p (get_bridge_providers s))) bridge_provider_not_found)
          λ _ _. returned w)
        h
  Call-Waiting s' late (creating j chain hash p attestation fee x h) other =
      at_ok {P = λ (r : Bridge × CrossChainTrade). Waiting since (r.0.trades id)}
        (step (get_bridge_provider p s)
          λ _ _. returned (overwritten since id j s.trades _ (λ q. absurd (other q)) w))
        h
  Call-Waiting s' late (updating j status confirmations h) other =
      at_ok {P = λ (s' : Bridge). Waiting since (s'.trades id)}
        (step (get_cross_chain_trade j s) λ x e.
          step (within_or_trap u64_mod (x.attestation_timestamp + bridge_attestation_timeout_secs))
            λ deadline d.
              step (fail_if (ltb deadline c.timestamp) bridge_trade_expired) λ _ in_time.
                let sum =
                  (within_or_trap-ok u64_mod
                    (x.attestation_timestamp + bridge_attestation_timeout_secs) d).1 in
                let open_now = fail_if-ok _ _ in_time in
                returned (
                  overwritten since id j s.trades _
                    (λ q.
                      let here = at_id j x (ok_or-ok (s.trades j) _ e) q in
                      let since_is = here.1 in let r : ⊥ = ground arith in absurd r)
                    w))
        h
  Call-Waiting s' late (pausing e) other = rw e w
  Call-Waiting s' late (resuming e) other = rw e w
  Call-Waiting s' late (numbering n h) other =
      at_ok {P = λ (r : Bridge × ℕ). Waiting since (r.0.trades id)}
        (step (checked_add u64_mod (get_or s.nonce 0) 1) λ _ _. returned w) h
  Call-Waiting s' late (retrying j h) other =
      at_ok {P = λ (s' : Bridge). Waiting since (s'.trades id)}
        (step (get_cross_chain_trade j s) λ x e.
          step (fail_if (leb bridge_retry_limit x.retry_count) bridge_retry_limit_exceeded)
            λ _ more. step (within_or_trap u32_mod (x.retry_count + 1)) λ count k.
              let count_is = (within_or_trap-ok u32_mod (x.retry_count + 1) k).1 in
              let few = fail_if-ok _ _ more in
              returned (
                overwritten since id j s.trades _
                  (λ q.
                    let here = at_id j x (ok_or-ok (s.trades j) _ e) q in
                    (refl, here.1, ground arith))
                  w))
        h
  Call-Waiting s' late (rolling_back j y h) other =
      at_ok {P = λ (r : Bridge × CrossChainTrade). Waiting since (r.0.trades id)}
        (step (get_cross_chain_trade j s) λ x e.
          step
            (fail_if (not (is_failed x.attestation_status) && not (is_expired x.attestation_status))
              invalid_status)
            λ _ ended.
              let over = fail_if-ok _ _ ended in
              returned (
                overwritten since id j s.trades _
                  (λ q.
                    let here = at_id j x (ok_or-ok (s.trades j) _ e) q in
                    let status = here.0 in let r : ⊥ = ground arith in absurd r)
                  w))
        h

late-Waiting :
    {n id : ℕ} {s s' : Bridge} (since : ℕ)
    → since + bridge_attestation_timeout_secs < n
    → Waiting since (s.trades id)
    → LateTrace n id s s'
    → Waiting since (s'.trades id)
late-Waiting since late w begin = w
late-Waiting {n} {id} since late w (late_call {s' = s'} {s'' = s''} c calls le k other) =
    Call-Waiting c since id s' (late-Waiting since late w calls) s'' (omega arith) k other
late-Waiting {n} {id} since late w (late_check {s' = s'} {s'' = s''} a v calls h) =
    let same = (at_ok (validate_bridge_attestation-Answered a s') h).trades in
    let before = late-Waiting since late w calls in
    rw (ap (λ (m : ℕ → Option CrossChainTrade). m id) same) before

-- Once the timeout of a pending cross-chain trade has run out, no sequence of later calls, other than
-- creating the trade anew, takes it out of the pending status or beyond three retries, and its
-- rollback is refused in every state on the way.
pub late_pending_stays :
    (n id : ℕ) (s s' : Bridge) (x : CrossChainTrade)
    → s.trades id ≡ some x
    → x.attestation_status ≡ pending
    → x.retry_count ≤ bridge_retry_limit
    → x.attestation_timestamp + bridge_attestation_timeout_secs < n
    → LateTrace n id s s'
    → (y : CrossChainTrade) × (s'.trades id ≡ some y)
      × (y.attestation_status ≡ pending)
      × (y.retry_count ≤ bridge_retry_limit)
      × (rollback_cross_chain_trade id s' ≡ err invalid_status)
unfolding rollback_cross_chain_trade get_cross_chain_trade ok_or fail_if
late_pending_stays n id s s' x e f le late calls =
    let w : Waiting x.attestation_timestamp (s.trades id) = rw e (f, refl, le) in
    let stays = late-Waiting x.attestation_timestamp late w calls in
    elim (Option-cases (s'.trades id)) [
      | inl none_ ↦ let r : ⊥ = rw none_ at stays in absurd r
      | inr (y, found) ↦
          let (status, since, few) = rw found at stays in
          (y, found, status, few, rw found (rw status refl))
    ]
