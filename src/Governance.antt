-- ===== src/Governance.antt =====
-- contract/src/governance.rs and the governance entries of contract/src/storage.rs: proposals, votes,
-- delegation and execution, on top of the state of the escrow that a passed proposal changes. The
-- constants `GOV_PROPOSAL_THRESHOLD`, `GOV_QUORUM_BPS`, `GOV_TOTAL_SUPPLY` and `GOV_VOTING_PERIOD`,
-- which types.rs does not define, are the parameter `Rules`. Balances of the governance token are
-- not negative.
pub mod Steps
pub mod Effects
pub mod Calls
pub mod Votes
pub mod Execution
pub mod Delegation
use stellar_escrow.Prelude.{
  ℕ, ◌+◌, ◌*◌, ◌/◌, Bool, true, false, not, ◌&&◌, ◌||◌, Option, none, some, ltb, leb, ◌==◌, update,
  if◌then◌else◌, get_or,
}
use stellar_escrow.Errors.{
  not_initialized, already_initialized, invalid_fee_bps, no_fees_to_withdraw, proposal_not_found,
  proposal_not_active, already_voted, insufficient_voting_power, proposal_not_passed,
  proposal_already_executed, voting_ended,
}
use stellar_escrow.Soroban.{
  Result, ok, err, ◌>>=◌, ◌>>◌, fail_if, ok_or, or_trap, u32_mod, u64_mod, i128_mod, checked_add,
  checked_mul, Ctx, Token, transfer,
}
use stellar_escrow.Tiers.{TierConfig, set_tier_config}
use stellar_escrow.Escrow.State.{Escrow, get_usdc_token}

pub record Rules : Type 0 where
  pub proposal_threshold : ℕ
  pub quorum_bps : ℕ
  pub total_supply : ℕ
  pub voting_period : ℕ

pub data ProposalStatus : Type 0 where
  active : ProposalStatus
  rejected : ProposalStatus
  executed : ProposalStatus

pub data ProposalAction : Type 0 where
  update_fee_bps : ℕ → ProposalAction
  update_tier_config : TierConfig → ProposalAction
  distribute_fees : ℕ → ProposalAction

pub record Proposal : Type 0 where
  pub id : ℕ
  pub proposer : ℕ
  pub action : ProposalAction
  pub votes_for : ℕ
  pub votes_against : ℕ
  pub status : ProposalStatus
  pub created_at : ℕ
  pub ends_at : ℕ

pub record Governance (L : Type 0) : Type 0 where
  pub escrow : Escrow L
  pub gov_token : Option ℕ
  pub proposal_counter : Option ℕ
  pub proposals : ℕ → Option Proposal
  pub votes : ℕ → ℕ → Bool
  pub delegates : ℕ → Option ℕ

abbrev pub is_active : ProposalStatus → Bool
is_active active = true
is_active _ = false

abbrev pub is_executed : ProposalStatus → Bool
is_executed executed = true
is_executed _ = false

abbrev pub is_some : {A : Type 0} → Option A → Bool
is_some none = false
is_some (some _) = true

module _ {L : Type 0} where
  unfoldable pub get_proposal : Governance L → ℕ → Result Proposal
  get_proposal s id = ok_or (s.proposals id) proposal_not_found

  abbrev pub save_proposal : ℕ → Proposal → Governance L → Governance L
  save_proposal id proposal s = record s { proposals = update s.proposals id (some proposal) }

  abbrev pub mark_voted : ℕ → ℕ → Governance L → Governance L
  mark_voted id voter s = record s { votes = update s.votes id (update (s.votes id) voter true) }

  -- the new counter and the state with it
  unfoldable pub increment_proposal_counter : Governance L → Result (Governance L × ℕ)
  increment_proposal_counter s = do
    next ← checked_add u64_mod (get_or s.proposal_counter 0) 1
    ok (record s { proposal_counter = some next }, next)

  unfoldable pub delegate : ℕ → ℕ → Governance L → Governance L
  delegate delegator delegatee s = record s {
    delegates = update s.delegates delegator (some delegatee);
  }

  unfoldable pub undelegate : ℕ → Governance L → Governance L
  undelegate delegator s = record s { delegates = update s.delegates delegator none }

  unfoldable pub get_accumulated_fees : Governance L → Result ℕ
  get_accumulated_fees s = ok_or s.escrow.accumulated_fees not_initialized

  -- `mint` is that of the governance token, which may panic.
  unfoldable pub initialize_gov_token :
      Rules → (ℕ → ℕ → ℕ → L → Option L) → ℕ → ℕ → Governance L → Result (Governance L)
  initialize_gov_token rules mint gov_token initial_holder s = do
    fail_if (is_some s.gov_token) already_initialized
    minted ← or_trap (mint gov_token initial_holder rules.total_supply s.escrow.ledger)
    ok (record s { gov_token = some gov_token; escrow = record s.escrow { ledger = minted } })

-- the quorum, in tokens
unfoldable pub quorum_of : Rules → Result ℕ
quorum_of rules = do
  product ← checked_mul i128_mod rules.total_supply rules.quorum_bps
  ok (product / 10000)

module _ {L : Type 0} (t : Token L) where
  abbrev pub token_power : Option ℕ → Option ℕ → ℕ → L → ℕ
  token_power none delegatee voter l = 0
  token_power (some gov) (some _) voter l = 0
  token_power (some gov) none voter l = t.balance gov voter l

  unfoldable pub voting_power : Governance L → ℕ → ℕ
  voting_power s voter = token_power s.gov_token (s.delegates voter) voter s.escrow.ledger

module _ {L : Type 0} (t : Token L) (rules : Rules) (c : Ctx) where
  -- the new state and the id of the proposal
  unfoldable pub create_proposal : ℕ → ProposalAction → Governance L → Result (Governance L × ℕ)
  unfolding voting_power
  create_proposal proposer action s = do
    fail_if (ltb (voting_power t s proposer) rules.proposal_threshold) insufficient_voting_power
    (counted, id) ← increment_proposal_counter s
    ends_at ← checked_add u32_mod c.sequence rules.voting_period
    ok (
      save_proposal id
          (record {
            id = id;
            proposer = proposer;
            action = action;
            votes_for = 0;
            votes_against = 0;
            status = active;
            created_at = c.sequence;
            ends_at = ends_at;
          })
          counted,
      id,
    )

  unfoldable pub add_vote : Bool → ℕ → Proposal → Result Proposal
  add_vote true weight p = do
    total ← checked_add i128_mod p.votes_for weight
    ok (record p { votes_for = total })
  add_vote false weight p = do
    total ← checked_add i128_mod p.votes_against weight
    ok (record p { votes_against = total })

  unfoldable pub cast_vote : ℕ → ℕ → Bool → Governance L → Result (Governance L)
  unfolding voting_power add_vote
  cast_vote voter proposal_id support s = do
    proposal ← get_proposal s proposal_id
    fail_if (not (is_active proposal.status)) proposal_not_active
    fail_if (ltb proposal.ends_at c.sequence) voting_ended
    fail_if (s.votes proposal_id voter) already_voted
    let weight = voting_power t s voter
    fail_if (weight == 0) insufficient_voting_power
    counted ← add_vote support weight proposal
    ok (save_proposal proposal_id counted (mark_voted proposal_id voter s))

  -- `distribute_fees_to_holders`, which is also the action `DistributeFees`
  unfoldable pub distribute_fees_to_holders : ℕ → Governance L → Result (Governance L)
  distribute_fees_to_holders recipient s = do
    fees ← get_accumulated_fees s
    fail_if (fees == 0) no_fees_to_withdraw
    token ← get_usdc_token s.escrow
    paid ← transfer t token c.contract recipient fees s.escrow.ledger
    ok (record s { escrow = record s.escrow { ledger = paid; accumulated_fees = some 0 } })

  unfoldable pub run_action : ProposalAction → Governance L → Result (Governance L)
  unfolding distribute_fees_to_holders
  run_action (update_fee_bps bps) s = do
    fail_if (ltb 10000 bps) invalid_fee_bps
    ok (record s { escrow = record s.escrow { fee_bps = some bps } })
  run_action (update_tier_config config) s = do
    tiers ← set_tier_config config s.escrow.tiers
    ok (record s { escrow = record s.escrow { tiers = tiers } })
  run_action (distribute_fees recipient) s = distribute_fees_to_holders recipient s

  -- A proposal that has not passed ends in an error, which rolls the saved `Rejected` back.
  unfoldable pub execute_proposal : ℕ → Governance L → Result (Governance L)
  unfolding run_action
  execute_proposal proposal_id s = do
    proposal ← get_proposal s proposal_id
    fail_if (is_executed proposal.status) proposal_already_executed
    fail_if (is_active proposal.status && leb c.sequence proposal.ends_at) proposal_not_active
    quorum ← quorum_of rules
    total_votes ← checked_add i128_mod proposal.votes_for proposal.votes_against
    fail_if (ltb total_votes quorum || leb proposal.votes_for proposal.votes_against)
        proposal_not_passed
    acted ← run_action proposal.action s
    ok (save_proposal proposal_id (record proposal { status = executed }) acted)

  unfoldable pub has_proposal_passed : ℕ → Governance L → Result Bool
  has_proposal_passed proposal_id s = do
    proposal ← get_proposal s proposal_id
    if leb c.sequence proposal.ends_at then ok false else do
      quorum ← quorum_of rules
      total_votes ← checked_add i128_mod proposal.votes_for proposal.votes_against
      if ltb total_votes quorum
          then ok false
          else ok (ltb proposal.votes_against proposal.votes_for)

  unfoldable pub get_voting_summary : ℕ → Governance L → Result (ℕ × ℕ × Bool)
  get_voting_summary proposal_id s = do
    proposal ← get_proposal s proposal_id
    ok (proposal.votes_for, proposal.votes_against, ltb proposal.ends_at c.sequence)
