-- ===== src/Governance/Effects.antt =====
-- What each call of governance.rs does to one proposal and its voters.
use stellar_escrow.Prelude.{
  ℕ, ◌+◌, ◌<◌, ◌≡◌, ◌≢◌, refl, ap, ◌∙◌, arith, Bool, true, false, not, ◌&&◌, ◌||◌, Option, none,
  some, ltb, leb, ◌==◌, get_or, update, Bool-cases, ==→eq, inl, inr,
}
use stellar_escrow.Errors.{
  insufficient_voting_power, proposal_not_active, voting_ended, already_voted,
  proposal_already_executed, proposal_not_passed, invalid_fee_bps, no_fees_to_withdraw,
}
use stellar_escrow.Soroban.{
  ok, Ctx, Token, Ensures, step, returned, at_ok, ensured, fail_if, fail_if-ok, ok_or-ok,
  checked_add, checked_add-ok, u32_mod, u64_mod, i128_mod, transfer,
}
use stellar_escrow.Tiers.{set_tier_config}
use stellar_escrow.Escrow.State.{Escrow, get_usdc_token}
use stellar_escrow.Governance.{
  Rules, active, executed, ProposalAction, update_fee_bps, update_tier_config, distribute_fees,
  Proposal, Governance, is_active, is_executed, get_proposal, increment_proposal_counter,
  get_accumulated_fees, quorum_of, voting_power, create_proposal, add_vote, cast_vote,
  distribute_fees_to_holders, run_action, execute_proposal, save_proposal, mark_voted,
}
use stellar_escrow.Governance.Steps.{
  Passed, with_vote, Change, same, opened, carried_out, IdsBelow, Keeps, Voted, active-is,
  not_executed, late,
}

increment_lem :
    {L : Type 0} (s : Governance L)
    → Ensures
        (λ (r : Governance L × ℕ).
          (r.1 ≡ get_or s.proposal_counter 0 + 1)
          × (r.0 ≡ record s { proposal_counter = some r.1 }))
        (increment_proposal_counter s)
unfolding increment_proposal_counter
increment_lem s =
    step (checked_add u64_mod (get_or s.proposal_counter 0) 1)
      λ next e. returned ((checked_add-ok u64_mod (get_or s.proposal_counter 0) 1 e).1, refl)

-- Where one entry is written, another proposal does not change.
written :
    (rules : Rules) (now p id : ℕ) (m : ℕ → Option Proposal) (x : Proposal)
    → (p ≡ id → Change rules now (m p) (some x))
    → Change rules now (m p) (update m id (some x) p)
written rules now p id m x here = elim (Bool-cases (p == id)) [
  | inl e ↦ rw e (here (==→eq p id e))
  | inr e ↦ rw e same
]

quorum_from :
    (rules : Rules) (x : Proposal) (quorum : ℕ)
    → quorum_of rules ≡ ok quorum
    → ltb (x.votes_for + x.votes_against) quorum || leb x.votes_for x.votes_against ≡ false
    → Passed rules x
quorum_from rules x quorum e h = record {
  quorum = quorum;
  quorum_is = e;
  reached = ground arith;
  majority = ground arith;
}

module _ {L : Type 0} (t : Token L) (rules : Rules) (c : Ctx) (s : Governance L)
    (ids : IdsBelow s) where
  pub same_escrow : (p : ℕ) (e : Escrow L) → Keeps rules c.sequence p s (record s { escrow = e })
  same_escrow p e = record {
    change = same;
    no_vote = λ x y a b. (ground arith, ground arith);
    voters = refl;
    below = ids;
  }

  opened_at :
      (p n : ℕ) (x : Proposal)
      → n ≡ get_or s.proposal_counter 0 + 1
      → x.status ≡ active
      → x.votes_for ≡ 0
      → x.votes_against ≡ 0
      → Keeps rules c.sequence p s (save_proposal n x (record s { proposal_counter = some n }))
  opened_at p n x e a f g =
      let free : s.proposals n ≡ none = ids n (omega (arith, e)) in
      record {
        change =
            written rules c.sequence p n s.proposals x
              λ q. opened x (ap s.proposals q ∙ free) a f g;
        no_vote = λ y z h k. ground arith;
        voters = refl;
        below = λ j lt. ground (arith, ids j);
      }

  pub create_proposal-Keeps :
      (p proposer : ℕ) (action : ProposalAction)
      → Ensures
          (λ (r : Governance L × ℕ). Keeps rules c.sequence p s r.0)
          (create_proposal t rules c proposer action s)
  unfolding create_proposal
  create_proposal-Keeps p proposer action =
      step (fail_if (ltb (voting_power t s proposer) rules.proposal_threshold) _) λ _ _.
        step (increment_proposal_counter s) λ r e.
          step (checked_add u32_mod c.sequence rules.voting_period) λ ends_at _.
            let (next, counted_s) = at_ok (increment_lem s) e in
            returned (rw counted_s (opened_at p r.1 _ next refl refl refl))

  pub distribute_fees_to_holders-Keeps :
      (p recipient : ℕ)
      → Ensures (Keeps rules c.sequence p s) (distribute_fees_to_holders t rules c recipient s)
  unfolding distribute_fees_to_holders
  distribute_fees_to_holders-Keeps p recipient = step (get_accumulated_fees s) λ fees _.
      step (fail_if (fees == 0) no_fees_to_withdraw) λ _ _.
        step (get_usdc_token s.escrow) λ token _.
          step (transfer t token c.contract recipient fees s.escrow.ledger)
            λ paid _. returned (same_escrow p _)

  -- An action changes the escrow only.
  pub run_action_lem :
      (action : ProposalAction)
      → Ensures
          (λ (s' : Governance L). (e : Escrow L) × (s' ≡ record s { escrow = e }))
          (run_action t rules c action s)
  unfolding run_action distribute_fees_to_holders
  run_action_lem (update_fee_bps bps) =
      step (fail_if (ltb 10000 bps) invalid_fee_bps) λ _ _. returned (_, refl)
  run_action_lem (update_tier_config config) =
      step (set_tier_config config s.escrow.tiers) λ tiers _. returned (_, refl)
  run_action_lem (distribute_fees recipient) = step (get_accumulated_fees s) λ fees _.
      step (fail_if (fees == 0) no_fees_to_withdraw) λ _ _.
        step (get_usdc_token s.escrow) λ token _.
          step (transfer t token c.contract recipient fees s.escrow.ledger)
            λ paid _. returned (_, refl)

  executed_at :
      (p id : ℕ) (x : Proposal) (e : Escrow L)
      → s.proposals id ≡ some x
      → x.status ≢ executed
      → (x.status ≡ active → x.ends_at < c.sequence)
      → Passed rules x
      → Keeps rules c.sequence p s
          (save_proposal id (record x { status = executed }) (record s { escrow = e }))
  executed_at p id x e found ne ended passed = record {
    change =
        written rules c.sequence p id s.proposals (record x { status = executed })
          λ q. carried_out x (ap s.proposals q ∙ found) ne ended passed;
    no_vote = λ y z h k. ground arith;
    voters = refl;
    below = λ j lt. ground (arith, ids j);
  }

  pub execute_proposal-Keeps :
      (p id : ℕ) → Ensures (Keeps rules c.sequence p s) (execute_proposal t rules c id s)
  unfolding execute_proposal get_proposal
  execute_proposal-Keeps p id = step (get_proposal s id) λ x found.
      step (fail_if (is_executed x.status) proposal_already_executed) λ _ fresh.
        step (fail_if (is_active x.status && leb c.sequence x.ends_at) proposal_not_active)
          λ _ ended. step (quorum_of rules) λ quorum is.
            step (checked_add i128_mod x.votes_for x.votes_against) λ total sum.
              step
                (fail_if (ltb total quorum || leb x.votes_for x.votes_against) proposal_not_passed)
                λ _ won. step (run_action t rules c x.action s) λ acted e.
                  let (escrow, only) = at_ok (run_action_lem x.action) e in
                  let total_is = (checked_add-ok i128_mod x.votes_for x.votes_against sum).1 in
                  returned (
                    rw only (
                      executed_at p id x escrow (ok_or-ok (s.proposals id) _ found)
                        (not_executed x.status (fail_if-ok _ _ fresh))
                        (λ a. let l = late x.status _ (fail_if-ok _ _ ended) a in ground arith)
                        (quorum_from rules x quorum is (rw (← total_is) (fail_if-ok _ _ won)))))

  add_vote_lem :
      (support : Bool) (weight : ℕ) (x : Proposal)
      → Ensures
          (λ (y : Proposal). y ≡ with_vote support weight x)
          (add_vote t rules c support weight x)
  unfolding add_vote
  add_vote_lem true weight x = step (checked_add i128_mod x.votes_for weight) λ total e.
      let is = (checked_add-ok i128_mod x.votes_for weight e).1 in returned (ground arith)
  add_vote_lem false weight x = step (checked_add i128_mod x.votes_against weight) λ total e.
      let is = (checked_add-ok i128_mod x.votes_against weight e).1 in returned (ground arith)

  pub cast_vote_lem :
      (voter id : ℕ) (support : Bool)
      → Ensures (Voted t c s voter id support) (cast_vote t rules c voter id support s)
  unfolding cast_vote get_proposal
  cast_vote_lem voter id support = step (get_proposal s id) λ x found.
      step (fail_if (not (is_active x.status)) proposal_not_active) λ _ open_.
        step (fail_if (ltb x.ends_at c.sequence) voting_ended) λ _ in_time.
          step (fail_if (s.votes id voter) already_voted) λ _ new.
            step (fail_if (voting_power t s voter == 0) insufficient_voting_power) λ _ some_power.
              step (add_vote t rules c support (voting_power t s voter) x) λ y e.
                let time = fail_if-ok _ _ in_time in
                let power = fail_if-ok _ _ some_power in
                let is = at_ok (add_vote_lem support (voting_power t s voter) x) e in
                returned (record {
                  proposal = x;
                  found = ok_or-ok (s.proposals id) _ found;
                  open_now = active-is x.status (fail_if-ok _ _ open_);
                  in_time = ground arith;
                  first = fail_if-ok _ _ new;
                  has_power = ground arith;
                  after = ap (λ (z : Proposal). save_proposal id z (mark_voted id voter s)) is;
                })

  pub cast_vote-Keeps :
      (p voter id : ℕ) (support : Bool)
      → p ≢ id
      → Ensures (Keeps rules c.sequence p s) (cast_vote t rules c voter id support s)
  cast_vote-Keeps p voter id support ne = ensured (cast_vote t rules c voter id support s) λ s' e.
      let v = at_ok (cast_vote_lem voter id support) e in
      let found = v.found in
      rw v.after (record {
        change =
            written rules c.sequence p id s.proposals
              (with_vote support (voting_power t s voter) v.proposal) λ q. absurd (ne q);
        no_vote = λ y z h k. ground arith;
        voters = ground arith;
        below = λ j lt. ground (arith, ids j);
      })
