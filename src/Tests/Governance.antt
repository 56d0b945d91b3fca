-- ===== src/Tests/Governance.antt =====
-- A proposal that is opened, voted on and carried out.
use stellar_escrow.Prelude.{
  ℕ, ◌≡◌, ◌<◌, refl, arith, true, false, Option, none, some, List, [], ◌∷◌, All, ◌⊎◌,
}
use stellar_escrow.Errors.{proposal_already_executed}
use stellar_escrow.Soroban.{ok, err, Ctx, fail_if, ok_or, within, checked_add, checked_mul}
use stellar_escrow.Governance.{
  Rules, active, executed, update_fee_bps, Proposal, Governance, get_proposal, save_proposal,
  increment_proposal_counter, quorum_of, voting_power, create_proposal, add_vote, cast_vote,
  run_action, execute_proposal, has_proposal_passed,
}
use stellar_escrow.Governance.Steps.{Passed}
use stellar_escrow.Governance.Calls.{Ballot, Call, Trace}
use stellar_escrow.Governance.Votes.{weight_of, Distinct, Unopened, trace-weight_of}
use stellar_escrow.Governance.Execution.{
  trace_executed_once, trace_executed-Passed, passed_fee_executes,
}
use stellar_escrow.Tests.Ledger.{Ledger, token, the, ctx}
use stellar_escrow.Tests.Trades.{start}

abbrev rules : Rules
rules = record {
  proposal_threshold = 100;
  quorum_bps = 4000;
  total_supply = 20000;
  voting_period = 50;
}

abbrev mint : ℕ → ℕ → ℕ → Ledger → Option Ledger
mint _ _ _ l = some l

abbrev fresh : Governance Ledger
fresh = record {
  escrow = record start { accumulated_fees = some 30 };
  gov_token = some 7;
  proposal_counter = none;
  proposals = λ _. none;
  votes = λ _ _. false;
  delegates = λ _. none;
}

fresh-Unopened : Unopened 1 fresh
fresh-Unopened = record { below = λ j lt. refl; absent = refl; no_votes = λ v. refl }

abbrev opened_state : Governance Ledger
opened_state = (the (create_proposal token rules ctx 3 (update_fee_bps 250) fresh) (fresh, 0)).0

opening_runs : create_proposal token rules ctx 3 (update_fee_bps 250) fresh ≡ ok (opened_state, 1)
unfolding create_proposal voting_power increment_proposal_counter fail_if checked_add within
opening_runs = refl

abbrev voted_once : Governance Ledger
voted_once = the (cast_vote token rules ctx 3 1 true opened_state) fresh

first_vote_runs : cast_vote token rules ctx 3 1 true opened_state ≡ ok voted_once
unfolding create_proposal voting_power increment_proposal_counter fail_if checked_add within
    cast_vote get_proposal ok_or add_vote
first_vote_runs = refl

abbrev voted_twice : Governance Ledger
voted_twice = the (cast_vote token rules ctx 2 1 true voted_once) fresh

second_vote_runs : cast_vote token rules ctx 2 1 true voted_once ≡ ok voted_twice
unfolding create_proposal voting_power increment_proposal_counter fail_if checked_add within
    cast_vote get_proposal ok_or add_vote
second_vote_runs = refl

abbrev ballots : List Ballot
ballots =
    record { voter = 2; support = true; weight = 5000 }
    ∷ record { voter = 3; support = true; weight = 5000 }
    ∷ []

abbrev proposal : Proposal
proposal = record {
  id = 1;
  proposer = 3;
  action = update_fee_bps 250;
  votes_for = 10000;
  votes_against = 0;
  status = active;
  created_at = 100;
  ends_at = 150;
}

voting : Trace token rules mint 1 fresh ballots voted_twice
unfolding create_proposal voting_power increment_proposal_counter fail_if checked_add cast_vote
    get_proposal ok_or
voting =
    Trace.vote ctx 2 true
      (Trace.vote ctx 3 true
        (Trace.call ctx Trace.start (Call.creating 3 (update_fee_bps 250) 1 opening_runs))
        first_vote_runs)
      second_vote_runs

voted_proposal : voted_twice.proposals 1 ≡ some proposal
unfolding create_proposal voting_power increment_proposal_counter fail_if checked_add within
    cast_vote get_proposal ok_or add_vote
voted_proposal = refl

trace-weight_of_example :
    (10000 ≡ weight_of true ballots)
    × (0 ≡ weight_of false ballots)
    × Distinct ballots
    × All (λ (b : Ballot). 0 < b.weight) ballots
trace-weight_of_example =
    trace-weight_of token rules mint 1 fresh voted_twice ballots proposal fresh-Unopened voting
      voted_proposal

abbrev later : Ctx
later = record ctx { sequence = 200 }

has_passed : has_proposal_passed token rules later 1 voted_twice ≡ ok true
unfolding create_proposal voting_power increment_proposal_counter fail_if checked_add within
    cast_vote get_proposal ok_or add_vote has_proposal_passed quorum_of checked_mul
has_passed = refl

abbrev done_state : Governance Ledger
done_state =
    save_proposal 1 (record proposal { status = executed })
      (record voted_twice { escrow = record voted_twice.escrow { fee_bps = some 250 } })

passed_fee_executes_example : execute_proposal token rules later 1 voted_twice ≡ ok done_state
passed_fee_executes_example =
    passed_fee_executes token rules later 1 250 voted_twice proposal voted_proposal refl refl
      (omega arith) has_passed

executing_runs : execute_proposal token rules later 1 voted_twice ≡ ok done_state
unfolding create_proposal voting_power increment_proposal_counter fail_if checked_add within
    cast_vote get_proposal ok_or add_vote quorum_of checked_mul execute_proposal run_action
executing_runs = refl

trace_executed-Passed_example :
    (executed ≡ active)
    ⊎ ((executed ≡ executed) × Passed rules (record proposal { status = executed }))
trace_executed-Passed_example =
    trace_executed-Passed token rules mint 1 fresh done_state ballots
      (record proposal { status = executed }) fresh-Unopened
      (Trace.call later voting (Call.executing 1 executing_runs)) refl

trace_executed_once_example :
    (done_state.proposals 1 ≡ some (record proposal { status = executed }))
    × (execute_proposal token rules later 1 done_state ≡ err proposal_already_executed)
unfolding create_proposal voting_power increment_proposal_counter fail_if checked_add within
    cast_vote get_proposal ok_or add_vote
trace_executed_once_example =
    trace_executed_once token rules mint 1 done_state done_state []
      (record proposal { status = executed }) later (λ j lt. ground arith) refl refl Trace.start
