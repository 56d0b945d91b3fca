-- ===== src/Errors.antt =====
-- contract/src/errors.rs: the error codes of the contract, each name once. Several names are
-- written twice or three times in the source, under different numbers; the model keeps the names.
pub data ContractError : Type 0 where
  already_initialized not_initialized invalid_amount invalid_fee_bps overflow : ContractError
  unauthorized contract_paused invalid_status trade_not_found : ContractError
  arbitrator_not_registered kyc_not_verified aml_not_cleared : ContractError
  jurisdiction_restricted trade_amount_limit_exceeded compliance_data_missing : ContractError
  no_fees_to_withdraw invalid_metadata metadata_value_too_long invalid_expiry : ContractError
  no_arbitrator trade_expired trade_not_expired migration_already_applied : ContractError
  migration_version_mismatch bridge_oracle_not_set bridge_trade_expired : ContractError
  bridge_trade_not_expired insurance_provider_not_registered : ContractError
  insurance_premium_too_high trade_not_insured insurance_already_claimed : ContractError
  insurance_claim_not_eligible invalid_split_bps invalid_tier_config : ContractError
  tier_not_found template_not_found template_inactive template_name_too_long : ContractError
  template_version_limit_exceeded template_amount_mismatch : ContractError
  subscription_not_found subscription_expired subscription_already_active : ContractError
  proposal_not_found proposal_not_active already_voted : ContractError
  insufficient_voting_power proposal_not_passed proposal_already_executed : ContractError
  voting_ended privacy_data_too_long disclosure_grant_not_found : ContractError
  disclosure_unauthorized oracle_not_found oracle_already_registered : ContractError
  oracle_list_full oracle_unavailable oracle_price_invalid amm_pool_not_found : ContractError
  bridge_provider_not_found bridge_provider_already_registered : ContractError
  bridge_provider_limit_exceeded bridge_trade_not_found bridge_retry_limit_exceeded : ContractError
  bridge_attestation_invalid bridge_attestation_expired bridge_amount_out_of_range : ContractError
  bridge_chain_not_supported bridge_oracle_not_authorized bridge_paused : ContractError
  bridge_signature_invalid bridge_nonce_already_used amm_slippage_exceeded : ContractError
  amm_insufficient_shares amm_invalid_pair amm_pool_already_exists : ContractError
  upgrade_in_progress no_upgrade_proposal upgrade_timelock_active : ContractError
  no_upgrade_in_progress rollback_window_expired invalid_multi_sig_config : ContractError
  voting_expired voting_not_expired no_consensus cannot_follow_self not_following : ContractError
  no_trigger price_condition_not_met : ContractError
  -- named by reputation.rs and social.rs, but missing from the enum
  already_rated invalid_rating : ContractError
