-- ===== src/Subscription.antt =====
-- contract/src/subscription.rs and the subscription entries of contract/src/storage.rs. The constants
-- `SUB_PRICE_…`, `SUB_DISCOUNT_…_BPS` and `SUBSCRIPTION_DURATION_LEDGERS`, which types.rs does not
-- define, are the parameter `Plans`.
pub mod Renewal
use stellar_escrow.Prelude.{
  ℕ, ◌+◌, Bool, true, false, Option, none, some, ltb, leb, update, if◌then◌else◌,
}
use stellar_escrow.Errors.{not_initialized, subscription_already_active, subscription_not_found}
use stellar_escrow.Soroban.{
  Result, ok, ◌>>=◌, ◌>>◌, fail_if, ok_or, u32_mod, checked_add, Ctx, Token, transfer,
}

pub data SubscriptionTier : Type 0 where
  basic : SubscriptionTier
  pro : SubscriptionTier
  enterprise : SubscriptionTier

pub record Plans : Type 0 where
  pub price : SubscriptionTier → ℕ
  pub discount_bps : SubscriptionTier → ℕ
  pub duration : ℕ

pub record Subscription : Type 0 where
  pub subscriber : ℕ
  pub tier : SubscriptionTier
  pub expires_at : ℕ
  pub renewed_at : ℕ

pub record Subscriptions (L : Type 0) : Type 0 where
  pub usdc_token : Option ℕ
  pub entries : ℕ → Option Subscription
  pub ledger : L

-- the match on an unexpired subscription
unfoldable pub tier_at : Ctx → Option Subscription → Option SubscriptionTier
tier_at c none = none
tier_at c (some sub) = if leb c.sequence sub.expires_at then some sub.tier else none

unfoldable pub discount_at : Plans → Option SubscriptionTier → ℕ
discount_at plans none = 0
discount_at plans (some tier) = plans.discount_bps tier

unfoldable pub active_at : Ctx → Option Subscription → Bool
active_at c none = false
active_at c (some sub) = leb c.sequence sub.expires_at

unfoldable pub expired_at : Ctx → Option Subscription → Bool
expired_at c none = false
expired_at c (some sub) = ltb sub.expires_at c.sequence

abbrev is_none : Option Subscription → Bool
is_none none = true
is_none (some _) = false

module _ {L : Type 0} where
  abbrev pub save_subscription : ℕ → Subscription → Subscriptions L → Subscriptions L
  save_subscription subscriber sub s = record s { entries = update s.entries subscriber (some sub) }

  unfoldable pub get_subscription_tier : Ctx → ℕ → Subscriptions L → Option SubscriptionTier
  unfolding tier_at
  get_subscription_tier c subscriber s = tier_at c (s.entries subscriber)

  unfoldable pub is_subscription_active : Ctx → ℕ → Subscriptions L → Bool
  unfolding active_at
  is_subscription_active c subscriber s = active_at c (s.entries subscriber)

  unfoldable pub is_subscription_expired : Ctx → ℕ → Subscriptions L → Bool
  unfolding expired_at
  is_subscription_expired c subscriber s = expired_at c (s.entries subscriber)

  unfoldable pub subscription_discount_bps : Plans → Ctx → ℕ → Subscriptions L → ℕ
  unfolding tier_at discount_at
  subscription_discount_bps plans c user s = discount_at plans (tier_at c (s.entries user))

  unfoldable pub cancel : ℕ → Subscriptions L → Result (Subscriptions L)
  cancel subscriber s = do
    fail_if (is_none (s.entries subscriber)) subscription_not_found
    ok (record s { entries = update s.entries subscriber none })

module _ {L : Type 0} (t : Token L) (plans : Plans) (c : Ctx) where
  unfoldable pub subscribe : ℕ → SubscriptionTier → ℕ → Subscriptions L → Result (Subscriptions L)
  unfolding active_at
  subscribe subscriber tier admin s = do
    fail_if (active_at c (s.entries subscriber)) subscription_already_active
    token ← ok_or s.usdc_token not_initialized
    paid ← transfer t token subscriber admin (plans.price tier) s.ledger
    expires_at ← checked_add u32_mod c.sequence plans.duration
    ok (
        save_subscription subscriber
          (record {
            subscriber = subscriber;
            tier = tier;
            expires_at = expires_at;
            renewed_at = c.sequence;
          })
          (record s { ledger = paid }))

  unfoldable pub renew : ℕ → ℕ → Subscriptions L → Result (Subscriptions L)
  renew subscriber admin s = do
    sub ← ok_or (s.entries subscriber) subscription_not_found
    token ← ok_or s.usdc_token not_initialized
    paid ← transfer t token subscriber admin (plans.price sub.tier) s.ledger
    let base = if leb c.sequence sub.expires_at then sub.expires_at else c.sequence
    expires_at ← checked_add u32_mod base plans.duration
    ok (
        save_subscription subscriber
          (record {
            subscriber = subscriber;
            tier = sub.tier;
            expires_at = expires_at;
            renewed_at = c.sequence;
          })
          (record s { ledger = paid }))
