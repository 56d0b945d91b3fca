-- ===== src/Governance/Steps.antt =====
-- The calls of governance.rs as steps, and what each of them does to one proposal and its voters.
use stellar_escrow.Prelude.{
  ℕ, ◌+◌, ◌≤◌, ◌<◌, ◌≡◌, ◌≢◌, refl, Bool, true, false, not, ◌&&◌, Option, none, some, get_or,
}
use stellar_escrow.Soroban.{ok, Ctx, Token}
use stellar_escrow.Governance.{
  Rules, ProposalStatus, active, rejected, executed, Proposal, Governance, is_active, is_executed,
  quorum_of, voting_power, save_proposal, mark_voted,
}

-- The votes reach the quorum, and more of them are in favour than against.
pub record Passed (rules : Rules) (x : Proposal) : Type 0 where
  pub quorum : ℕ
  pub quorum_is : quorum_of rules ≡ ok quorum
  pub reached : quorum ≤ x.votes_for + x.votes_against
  pub majority : x.votes_against < x.votes_for

abbrev pub with_vote : Bool → ℕ → Proposal → Proposal
with_vote true weight x = record x { votes_for = x.votes_for + weight }
with_vote false weight x = record x { votes_against = x.votes_against + weight }

-- What one call, at ledger `now`, does to the entry of one proposal.
pub data Change (rules : Rules) (now : ℕ) (o : Option Proposal) : Option Proposal → Type 0 where
  same : Change rules now o o
  opened :
      (x : Proposal)
      → o ≡ none
      → x.status ≡ active
      → x.votes_for ≡ 0
      → x.votes_against ≡ 0
      → Change rules now o (some x)
  counted :
      (x : Proposal) (support : Bool) (weight : ℕ)
      → o ≡ some x
      → x.status ≡ active
      → now ≤ x.ends_at
      → Change rules now o (some (with_vote support weight x))
  carried_out :
      (x : Proposal)
      → o ≡ some x
      → x.status ≢ executed
      → (x.status ≡ active → x.ends_at < now)
      → Passed rules x
      → Change rules now o (some (record x { status = executed }))

-- No proposal has an id above the counter.
abbrev pub IdsBelow : {L : Type 0} → Governance L → Type 0
IdsBelow s = (j : ℕ) → get_or s.proposal_counter 0 < j → s.proposals j ≡ none

-- What every call but a vote on `p` keeps.
pub record Keeps {L : Type 0} (rules : Rules) (now p : ℕ) (s s' : Governance L) : Type 0 where
  pub change : Change rules now (s.proposals p) (s'.proposals p)
  pub no_vote :
      (x y : Proposal)
      → s.proposals p ≡ some x
      → s'.proposals p ≡ some y
      → (y.votes_for ≡ x.votes_for) × (y.votes_against ≡ x.votes_against)
  pub voters : s'.votes p ≡ s.votes p
  pub below : IdsBelow s'

pub active-is : (st : ProposalStatus) → not (is_active st) ≡ false → st ≡ active
active-is active h = refl
active-is rejected h = cc
active-is executed h = cc

pub not_executed : (st : ProposalStatus) → is_executed st ≡ false → st ≢ executed
not_executed active h = cc
not_executed rejected h = cc
not_executed executed h = cc

pub late : (st : ProposalStatus) (b : Bool) → is_active st && b ≡ false → st ≡ active → b ≡ false
late active b h e = h
late rejected b h e = cc
late executed b h e = cc

-- What a vote that counts has found and left behind.
pub record Voted {L : Type 0} (t : Token L) (c : Ctx) (s : Governance L) (voter id : ℕ)
    (support : Bool) (s' : Governance L) : Type 0 where
  pub proposal : Proposal
  pub found : s.proposals id ≡ some proposal
  pub open_now : proposal.status ≡ active
  pub in_time : c.sequence ≤ proposal.ends_at
  pub first : s.votes id voter ≡ false
  pub has_power : 0 < voting_power t s voter
  pub after :
      s'
      ≡ save_proposal id
          (with_vote support (voting_power t s voter) proposal)
          (mark_voted id voter s)
