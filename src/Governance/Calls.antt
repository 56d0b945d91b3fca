-- ===== src/Governance/Calls.antt =====
-- Sequences of the calls of governance.rs, with the votes cast on one proposal.
use stellar_escrow.Prelude.{ℕ, ◌≡◌, ◌≢◌, refl, arith, Bool, Option, List, [], ◌∷◌}
use stellar_escrow.Errors.{already_initialized}
use stellar_escrow.Soroban.{ok, Ctx, Token, Ensures, step, returned, at_ok, fail_if, or_trap}
use stellar_escrow.Escrow.State.{Escrow}
use stellar_escrow.Governance.{
  Rules, ProposalAction, Governance, is_some, delegate, undelegate, initialize_gov_token,
  voting_power, create_proposal, cast_vote, distribute_fees_to_holders, execute_proposal,
}
use stellar_escrow.Governance.Steps.{Keeps, same, IdsBelow}
use stellar_escrow.Governance.Effects.{
  same_escrow, create_proposal-Keeps, distribute_fees_to_holders-Keeps, execute_proposal-Keeps,
  cast_vote-Keeps,
}

-- A vote that was counted, with the weight that it had.
pub record Ballot : Type 0 where
  pub voter : ℕ
  pub support : Bool
  pub weight : ℕ

module _ {L : Type 0} (t : Token L) (rules : Rules) (mint : ℕ → ℕ → ℕ → L → Option L) where
  -- One successful call that is no vote on the proposal `p`. Between the calls the rest of the contract
  -- and the token contracts may change the escrow and the ledger at will.
  pub data Call (c : Ctx) (p : ℕ) (s s' : Governance L) : Type 0 where
    creating :
        (proposer : ℕ) (action : ProposalAction) (id : ℕ)
        → create_proposal t rules c proposer action s ≡ ok (s', id)
        → Call c p s s'
    voting :
        (voter id : ℕ) (support : Bool)
        → p ≢ id
        → cast_vote t rules c voter id support s ≡ ok s'
        → Call c p s s'
    executing : (id : ℕ) → execute_proposal t rules c id s ≡ ok s' → Call c p s s'
    distributing :
        (recipient : ℕ) → distribute_fees_to_holders t rules c recipient s ≡ ok s' → Call c p s s'
    delegating : (from to : ℕ) → s' ≡ delegate from to s → Call c p s s'
    undelegating : (from : ℕ) → s' ≡ undelegate from s → Call c p s s'
    starting :
        (token holder : ℕ) → initialize_gov_token rules mint token holder s ≡ ok s' → Call c p s s'
    elsewhere : (e : Escrow L) → s' ≡ record s { escrow = e } → Call c p s s'

  -- Calls one after the other, with the votes on `p` in the order from the last to the first.
  pub data Trace (p : ℕ) (s : Governance L) : List Ballot → Governance L → Type 0 where
    start : Trace p s [] s
    call :
        {ballots : List Ballot} {s' s'' : Governance L} (c : Ctx)
        → Trace p s ballots s'
        → Call c p s' s''
        → Trace p s ballots s''
    vote :
        {ballots : List Ballot} {s' s'' : Governance L} (c : Ctx) (voter : ℕ) (support : Bool)
        → Trace p s ballots s'
        → cast_vote t rules c voter p support s' ≡ ok s''
        → Trace p s
            (record { voter = voter; support = support; weight = voting_power t s' voter }
              ∷ ballots)
            s''

  module _ (c : Ctx) (p : ℕ) (s : Governance L) (ids : IdsBelow s) where
    initialize_gov_token-Keeps :
        (token holder : ℕ)
        → Ensures (Keeps rules c.sequence p s) (initialize_gov_token rules mint token holder s)
    unfolding initialize_gov_token
    initialize_gov_token-Keeps token holder =
        step (fail_if (is_some s.gov_token) already_initialized) λ _ _.
          step (or_trap (mint token holder rules.total_supply s.escrow.ledger)) λ minted _.
            returned (record {
              change = same;
              no_vote = λ x y a b. (ground arith, ground arith);
              voters = refl;
              below = ids;
            })

    delegates-Keeps : (m : ℕ → Option ℕ) → Keeps rules c.sequence p s (record s { delegates = m })
    delegates-Keeps m = record {
      change = same;
      no_vote = λ x y a b. (ground arith, ground arith);
      voters = refl;
      below = ids;
    }

    pub Call-Keeps : (s' : Governance L) → Call c p s s' → Keeps rules c.sequence p s s'
    unfolding delegate undelegate
    Call-Keeps s' (creating proposer action id h) =
        at_ok (create_proposal-Keeps t rules c s ids p proposer action) h
    Call-Keeps s' (voting voter id support ne h) =
        at_ok (cast_vote-Keeps t rules c s ids p voter id support ne) h
    Call-Keeps s' (executing id h) = at_ok (execute_proposal-Keeps t rules c s ids p id) h
    Call-Keeps s' (distributing recipient h) =
        at_ok (distribute_fees_to_holders-Keeps t rules c s ids p recipient) h
    Call-Keeps s' (delegating from to e) = rw e (delegates-Keeps _)
    Call-Keeps s' (undelegating from e) = rw e (delegates-Keeps _)
    Call-Keeps s' (starting token holder h) = at_ok (initialize_gov_token-Keeps token holder) h
    Call-Keeps s' (elsewhere e q) = rw q (same_escrow t rules c s ids p e)
