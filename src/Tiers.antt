-- ===== src/Tiers.antt =====
-- contract/src/tiers.rs and the tier entries of contract/src/storage.rs. `TIER_SILVER_THRESHOLD`
-- and `TIER_GOLD_THRESHOLD`, which types.rs does not define, are the parameters `silver` and `gold`.
pub mod Promotion
use stellar_escrow.Prelude.{
  ℕ, ◌+◌, ◌-◌, Bool, true, false, Option, none, some, ltb, leb, ◌||◌, if◌then◌else◌, update, get_or,
}
use stellar_escrow.Errors.{invalid_tier_config, invalid_fee_bps}
use stellar_escrow.Soroban.{Result, ok, err, ◌>>=◌, ◌>>◌, fail_if, u64_mod, checked_add}

pub data UserTier : Type 0 where
  bronze : UserTier
  silver : UserTier
  gold : UserTier
  custom : UserTier

pub record UserTierInfo : Type 0 where
  pub tier : UserTier
  pub total_volume : ℕ
  pub custom_fee_bps : Option ℕ

pub record TierConfig : Type 0 where
  pub bronze_fee_bps : ℕ
  pub silver_fee_bps : ℕ
  pub gold_fee_bps : ℕ

pub record Tiers : Type 0 where
  pub config : Option TierConfig
  pub users : ℕ → Option UserTierInfo

unfoldable pub save_user_tier : ℕ → UserTierInfo → Tiers → Tiers
save_user_tier user info s = record s { users = update s.users user (some info) }

unfoldable pub tier_fee : UserTier → TierConfig → ℕ → ℕ
tier_fee bronze cfg base = cfg.bronze_fee_bps
tier_fee silver cfg base = cfg.silver_fee_bps
tier_fee gold cfg base = cfg.gold_fee_bps
tier_fee custom cfg base = base

unfoldable pub config_fee : Option TierConfig → UserTier → ℕ → ℕ
unfolding tier_fee
config_fee none tier base = base
config_fee (some cfg) tier base = tier_fee tier cfg base

-- the early return on a custom fee
unfoldable pub info_fee : Option TierConfig → UserTier → Option ℕ → ℕ → ℕ
unfolding config_fee
info_fee cfg custom (some fee) base = fee
info_fee cfg custom none base = config_fee cfg custom base
info_fee cfg bronze fee base = config_fee cfg bronze base
info_fee cfg silver fee base = config_fee cfg silver base
info_fee cfg gold fee base = config_fee cfg gold base

unfoldable pub user_fee : Option TierConfig → Option UserTierInfo → ℕ → ℕ
unfolding info_fee
user_fee cfg none base = base
user_fee cfg (some info) base = info_fee cfg info.tier info.custom_fee_bps base

unfoldable pub effective_fee_bps : Tiers → ℕ → ℕ → ℕ
unfolding user_fee
effective_fee_bps s user base = user_fee s.config (s.users user) base

unfoldable pub set_tier_config : TierConfig → Tiers → Result Tiers
set_tier_config cfg s = do
  fail_if
      (ltb 10000 cfg.bronze_fee_bps || ltb 10000 cfg.silver_fee_bps || ltb 10000 cfg.gold_fee_bps)
      invalid_tier_config
  fail_if (ltb cfg.bronze_fee_bps cfg.silver_fee_bps || ltb cfg.silver_fee_bps cfg.gold_fee_bps)
      invalid_tier_config
  ok (record s { config = some cfg })

unfoldable pub set_custom_fee : ℕ → ℕ → Tiers → Result Tiers
unfolding save_user_tier
set_custom_fee user fee_bps s = do
  fail_if (ltb 10000 fee_bps) invalid_fee_bps
  let info : UserTierInfo =
      get_or (s.users user) (record { tier = custom; total_volume = 0; custom_fee_bps = none })
  ok (save_user_tier user (record info { tier = custom; custom_fee_bps = some fee_bps }) s)

unfoldable pub default_info : UserTierInfo
default_info = record { tier = bronze; total_volume = 0; custom_fee_bps = none }

module _ (silver_threshold gold_threshold : ℕ) where
  unfoldable pub volume_tier : ℕ → UserTier
  volume_tier volume =
      if leb gold_threshold volume
      then gold
      else if leb silver_threshold volume
      then silver
      else bronze

  -- The source compares the new tier with the old one to choose the event and saves in both cases.
  unfoldable pub promoted : UserTier → ℕ → UserTier
  unfolding volume_tier
  promoted custom volume = custom
  promoted bronze volume = volume_tier volume
  promoted silver volume = volume_tier volume
  promoted gold volume = volume_tier volume

  unfoldable pub record_volume : ℕ → ℕ → Tiers → Result Tiers
  unfolding promoted save_user_tier default_info
  record_volume user amount s = do
    let info = get_or (s.users user) default_info
    volume ← checked_add u64_mod info.total_volume amount
    ok (
        save_user_tier user
          (record info { tier = promoted info.tier volume; total_volume = volume }) s)

  unfoldable pub remove_custom_fee : ℕ → Tiers → Tiers
  unfolding volume_tier save_user_tier default_info
  remove_custom_fee user s =
      let info = get_or (s.users user) default_info in
      save_user_tier user
        (record info { tier = volume_tier info.total_volume; custom_fee_bps = none }) s

  unfoldable pub volume_to_next_tier : UserTierInfo → ℕ
  volume_to_next_tier info = elim info.tier [
    | bronze ↦ silver_threshold - info.total_volume
    | silver ↦ gold_threshold - info.total_volume
    | gold ↦ 0
    | custom ↦ 0
  ]
