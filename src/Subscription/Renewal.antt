-- ===== src/Subscription/Renewal.antt =====
-- What a subscriber has after subscribing and renewing, and what was paid for it.
use mathlib.Core.Path.{subst}
use stellar_escrow.Prelude.{
  ℕ, ◌+◌, ◌≤◌, ◌≡◌, ◌≢◌, refl, arith, true, some, leb, ==-refl, if◌then◌else◌,
}
use stellar_escrow.Errors.{not_initialized, subscription_already_active, subscription_not_found}
use stellar_escrow.Soroban.{
  ok, err, Ctx, Token, TokenLaws, transfer, step, returned, at_ok, fail_if, ok_or, ok_or-ok,
  checked_add, checked_add-ok, u32_mod,
}
use stellar_escrow.Escrow.Money.{Paid, transfer-Paid}
use stellar_escrow.Subscription.{
  SubscriptionTier, Plans, Subscription, Subscriptions, active_at, subscribe, renew,
  save_subscription, is_subscription_active, subscription_discount_bps, tier_at, discount_at,
}

-- The subscription runs at every ledger from `c` up to `until`, gives the discount of its tier, cannot
-- be bought again in that time, and its price was paid to the admin.
pub record Running {L : Type 0} (t : Token L) (plans : Plans) (c : Ctx) (subscriber admin : ℕ)
    (tier : SubscriptionTier) (until : ℕ) (s s' : Subscriptions L) : Type 0 where
  pub token : ℕ
  pub token_is : s.usdc_token ≡ some token
  pub paid : Paid t token subscriber admin (plans.price tier) s.ledger s'.ledger
  pub runs : (d : Ctx) → d.sequence ≤ until → is_subscription_active d subscriber s' ≡ true
  pub discount :
      (d : Ctx)
      → d.sequence ≤ until
      → subscription_discount_bps plans d subscriber s' ≡ plans.discount_bps tier
  pub once :
      (d : Ctx) (other : SubscriptionTier)
      → d.sequence ≤ until
      → subscribe t plans d subscriber other admin s' ≡ err subscription_already_active
  pub others : (v : ℕ) → v ≢ subscriber → s'.entries v ≡ s.entries v

module _ {L : Type 0} (t : Token L) (laws : TokenLaws t) (plans : Plans) (c : Ctx)
    (subscriber admin : ℕ) where
  runs_until :
      (s s' : Subscriptions L) (token : ℕ) (x : Subscription)
      → s.usdc_token ≡ some token
      → Paid t token subscriber admin (plans.price x.tier) s.ledger s'.ledger
      → s'.entries subscriber ≡ some x
      → ((v : ℕ) → v ≢ subscriber → s'.entries v ≡ s.entries v)
      → Running t plans c subscriber admin x.tier x.expires_at s s'
  unfolding is_subscription_active subscription_discount_bps tier_at discount_at active_at subscribe
      fail_if
  runs_until s s' token x k paid found others = record {
    token = token;
    token_is = k;
    paid = paid;
    runs = λ d le. rw found (ground arith);
    discount = λ d le. rw found (ground arith);
    once = λ d other le.
        let now : leb d.sequence x.expires_at ≡ true = ground arith in rw (found, now) refl;
    others = others;
  }

  saved :
      (s : Subscriptions L) (token : ℕ) (paid : L) (x : Subscription)
      → s.usdc_token ≡ some token
      → Paid t token subscriber admin (plans.price x.tier) s.ledger paid
      → Running t plans c subscriber admin x.tier x.expires_at s
          (save_subscription subscriber x (record s { ledger = paid }))
  saved s token paid x k p =
      runs_until s (save_subscription subscriber x (record s { ledger = paid })) token x k p
        (rw (==-refl subscriber) refl) λ v ne. ground arith

  -- A subscription that is bought runs from now for the full duration at the discount of its tier, cannot
  -- be bought a second time while it runs, and costs the subscriber exactly the price of the tier,
  -- which the admin receives; nobody else's subscription changes.
  pub subscribe-Running :
      (tier : SubscriptionTier) (s s' : Subscriptions L)
      → subscriber ≢ admin
      → subscribe t plans c subscriber tier admin s ≡ ok s'
      → Running t plans c subscriber admin tier (c.sequence + plans.duration) s s'
  unfolding subscribe
  subscribe-Running tier s s' ne h =
      at_ok {P = Running t plans c subscriber admin tier (c.sequence + plans.duration) s}
        (step (fail_if (active_at c (s.entries subscriber)) subscription_already_active) λ _ _.
          step (ok_or s.usdc_token not_initialized) λ token k.
            step (transfer t token subscriber admin (plans.price tier) s.ledger) λ paid m.
              step (checked_add u32_mod c.sequence plans.duration) λ expires_at e.
                let is = (checked_add-ok u32_mod c.sequence plans.duration e).1 in
                returned (
                  rw (← is) (
                    saved s token paid
                      (record {
                        subscriber = subscriber;
                        tier = tier;
                        expires_at = expires_at;
                        renewed_at = c.sequence;
                      })
                      (ok_or-ok s.usdc_token _ k)
                      (transfer-Paid t laws token subscriber admin (plans.price tier) s.ledger paid
                        ne m))))
        h

  -- Where the subscriber is not the admin, a renewal runs at least a full duration beyond the old expiry and at least a full duration from now,
  -- at the old tier, for exactly its price; nobody else's subscription changes.
  pub renew-Running :
      (sub : Subscription) (s s' : Subscriptions L)
      → subscriber ≢ admin
      → s.entries subscriber ≡ some sub
      → renew t plans c subscriber admin s ≡ ok s'
      → (until : ℕ) × Running t plans c subscriber admin sub.tier until s s'
        × (sub.expires_at + plans.duration ≤ until)
        × (c.sequence + plans.duration ≤ until)
  unfolding renew
  renew-Running sub s s' ne found h =
      at_ok
        {P = λ (s' : Subscriptions L).
          (until : ℕ) × Running t plans c subscriber admin sub.tier until s s'
          × (sub.expires_at + plans.duration ≤ until)
          × (c.sequence + plans.duration ≤ until)}
        (step (ok_or (s.entries subscriber) subscription_not_found) λ x f.
          step (ok_or s.usdc_token not_initialized) λ token k.
            step (transfer t token subscriber admin (plans.price x.tier) s.ledger) λ paid m.
              let base = if leb c.sequence x.expires_at then x.expires_at else c.sequence in
              step (checked_add u32_mod base plans.duration) λ expires_at e.
                let is = (checked_add-ok u32_mod base plans.duration e).1 in
                let same : x ≡ sub = ground (arith, ok_or-ok (s.entries subscriber) _ f) in
                let pay =
                  transfer-Paid t laws token subscriber admin (plans.price x.tier) s.ledger paid ne
                    m in
                returned (
                  expires_at,
                  subst
                      (λ (y : Subscription).
                        Running t plans c subscriber admin y.tier expires_at s (
                          save_subscription subscriber
                            (record {
                              subscriber = subscriber;
                              tier = x.tier;
                              expires_at = expires_at;
                              renewed_at = c.sequence;
                            })
                            (record s { ledger = paid })))
                      same
                      (saved s token paid
                        (record {
                          subscriber = subscriber;
                          tier = x.tier;
                          expires_at = expires_at;
                          renewed_at = c.sequence;
                        })
                        (ok_or-ok s.usdc_token _ k) pay),
                  ground arith,
                  ground arith,
                ))
        h
