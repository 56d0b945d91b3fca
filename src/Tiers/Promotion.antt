-- ===== src/Tiers/Promotion.antt =====
-- What the tiers of tiers.rs keep: fees in range, and the promotion that `volume_to_next_tier` announces.
use stellar_escrow.Prelude.{
  ℕ, ◌≤◌, ◌≡◌, ◌↔◌, arith, Option, none, some, ltb, Bool-cases, get_or, inl, inr, ◌<◌, ◌==◌, ◌||◌,
}
use stellar_escrow.Soroban.{ok, u64_mod, fail_if, fail_if-ok, checked_add, at_ok, step, returned}
use stellar_escrow.Errors.{invalid_tier_config, invalid_fee_bps}
use stellar_escrow.Tiers.{
  UserTier, bronze, silver, gold, custom, UserTierInfo, TierConfig, Tiers, effective_fee_bps,
  set_tier_config, set_custom_fee, record_volume, save_user_tier, tier_fee, config_fee, info_fee,
  default_info, volume_to_next_tier, user_fee,
}

abbrev pub FeeInRange : Option ℕ → Type 0
FeeInRange none = Unit
FeeInRange (some fee) = fee ≤ 10000

abbrev pub InfoInRange : Option UserTierInfo → Type 0
InfoInRange none = Unit
InfoInRange (some info) = FeeInRange info.custom_fee_bps

abbrev pub ConfigInRange : Option TierConfig → Type 0
ConfigInRange none = Unit
ConfigInRange (some cfg) =
    (cfg.bronze_fee_bps ≤ 10000) × (cfg.silver_fee_bps ≤ 10000) × (cfg.gold_fee_bps ≤ 10000)

-- The configured fees and every stored custom fee are at most 10 000 basis points.
pub record IsValid (s : Tiers) : Type 0 where
  pub config_ok : ConfigInRange s.config
  pub users_ok : (user : ℕ) → InfoInRange (s.users user)

tier_fee_le :
    (tier : UserTier) (cfg : TierConfig) (base : ℕ)
    → ConfigInRange (some cfg)
    → base ≤ 10000
    → tier_fee tier cfg base ≤ 10000
unfolding tier_fee
tier_fee_le bronze cfg base (b, _, _) le = b
tier_fee_le silver cfg base (_, s, _) le = s
tier_fee_le gold cfg base (_, _, g) le = g
tier_fee_le custom cfg base _ le = le

config_fee_le :
    (cfg : Option TierConfig) (tier : UserTier) (base : ℕ)
    → ConfigInRange cfg
    → base ≤ 10000
    → config_fee cfg tier base ≤ 10000
unfolding config_fee
config_fee_le none tier base r le = le
config_fee_le (some cfg) tier base r le = tier_fee_le tier cfg base r le

info_fee_le :
    (cfg : Option TierConfig) (tier : UserTier) (fee : Option ℕ) (base : ℕ)
    → ConfigInRange cfg
    → FeeInRange fee
    → base ≤ 10000
    → info_fee cfg tier fee base ≤ 10000
unfolding info_fee
info_fee_le cfg custom (some fee) base r f le = f
info_fee_le cfg custom none base r f le = config_fee_le cfg custom base r le
info_fee_le cfg bronze fee base r f le = config_fee_le cfg bronze base r le
info_fee_le cfg silver fee base r f le = config_fee_le cfg silver base r le
info_fee_le cfg gold fee base r f le = config_fee_le cfg gold base r le

user_fee_le :
    (cfg : Option TierConfig) (info : Option UserTierInfo) (base : ℕ)
    → ConfigInRange cfg
    → InfoInRange info
    → base ≤ 10000
    → user_fee cfg info base ≤ 10000
unfolding user_fee
user_fee_le cfg none base r i le = le
user_fee_le cfg (some info) base r i le = info_fee_le cfg info.tier info.custom_fee_bps base r i le

-- In a valid state every user's fee is at most 10 000 basis points when the base fee is.
pub effective_fee_bps_le :
    (s : Tiers) (user base : ℕ) → IsValid s → base ≤ 10000 → effective_fee_bps s user base ≤ 10000
unfolding effective_fee_bps
effective_fee_bps_le s user base v le =
    user_fee_le s.config (s.users user) base v.config_ok (v.users_ok user) le

-- The rest of a tier state is as it was after one user's entry is replaced by one in range.
save_user_tier-IsValid :
    (user : ℕ) (info : UserTierInfo) (s : Tiers)
    → IsValid s
    → InfoInRange (some info)
    → IsValid (save_user_tier user info s)
unfolding save_user_tier
save_user_tier-IsValid user info s v h = record {
  config_ok = v.config_ok;
  users_ok = λ u. elim (Bool-cases (u == user)) [ inl e ↦ rw e h | inr e ↦ rw e (v.users_ok u) ];
}

-- The info that `unwrap_or` yields is in range.
found-InRange :
    (o : Option UserTierInfo) → InfoInRange o → InfoInRange (some (get_or o default_info))
unfolding default_info
found-InRange none r = tt
found-InRange (some info) r = r

-- Setting the tier fees keeps the state valid.
pub set_tier_config-IsValid :
    (cfg : TierConfig) (s s' : Tiers) → IsValid s → set_tier_config cfg s ≡ ok s' → IsValid s'
unfolding set_tier_config
set_tier_config-IsValid cfg s s' v h =
    at_ok {P = IsValid}
      (step
        (fail_if
          (ltb 10000 cfg.bronze_fee_bps
            || ltb 10000 cfg.silver_fee_bps
            || ltb 10000 cfg.gold_fee_bps)
          invalid_tier_config)
        λ _ e.
          step
            (fail_if
              (ltb cfg.bronze_fee_bps cfg.silver_fee_bps || ltb cfg.silver_fee_bps cfg.gold_fee_bps)
              invalid_tier_config)
            λ _ _.
              returned
                (record { config_ok = ground (arith, fail_if-ok _ _ e); users_ok = v.users_ok }))
      h

-- Giving a user a custom fee keeps the state valid.
pub set_custom_fee-IsValid :
    (user fee : ℕ) (s s' : Tiers) → IsValid s → set_custom_fee user fee s ≡ ok s' → IsValid s'
unfolding set_custom_fee
set_custom_fee-IsValid user fee s s' v h =
    at_ok {P = IsValid}
      (step (fail_if (ltb 10000 fee) invalid_fee_bps)
        λ _ e. returned (save_user_tier-IsValid user _ s v (ground (arith, fail_if-ok _ _ e))))
      h

module _ (silver_threshold gold_threshold : ℕ) where
  -- Recording a user's volume keeps the state valid.
  pub record_volume-IsValid :
      (user amount : ℕ) (s s' : Tiers)
      → IsValid s
      → record_volume silver_threshold gold_threshold user amount s ≡ ok s'
      → IsValid s'
  unfolding record_volume
  record_volume-IsValid user amount s s' v h =
      at_ok {P = IsValid}
        (step (checked_add u64_mod (get_or (s.users user) default_info).total_volume amount) λ _ _.
          returned
            (save_user_tier-IsValid user _ s v (found-InRange (s.users user) (v.users_ok user))))
        h

  -- Below the silver threshold a user stays bronze exactly when the recorded amount is less than
  -- `volume_to_next_tier` announced.
  pub record_volume-volume_to_next_tier :
      (user amount : ℕ) (info info' : UserTierInfo) (s s' : Tiers)
      → silver_threshold ≤ gold_threshold
      → s.users user ≡ some info
      → info.tier ≡ bronze
      → info.total_volume < silver_threshold
      → record_volume silver_threshold gold_threshold user amount s ≡ ok s'
      → s'.users user ≡ some info'
      → info'.tier ≡ bronze ↔ amount < volume_to_next_tier silver_threshold gold_threshold info
  unfolding record_volume volume_to_next_tier checked_add
  record_volume-volume_to_next_tier user amount info info' s s' le found tier small h found' =
      ground arith
