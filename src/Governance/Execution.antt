-- ===== src/Governance/Execution.antt =====
-- What it takes to carry a proposal out, and what follows for every later state.
use stellar_escrow.Prelude.{
  ℕ, ◌+◌, ◌≤◌, ◌≡◌, refl, ap, ◌∙◌, arith, Bool, true, false, Option, none, some, List, ltb, leb,
  ==-refl, Bool-cases, ◌⊎◌, inl, inr,
}
use stellar_escrow.Errors.{proposal_already_executed}
use stellar_escrow.Soroban.{
  ok, err, Ctx, Token, at_ok, Ensures, step, returned, fail_if, ok_or, checked_add, checked_add-ok,
  ok_or-ok, i128_mod,
}
use stellar_escrow.Governance.{
  Rules, active, executed, update_fee_bps, Proposal, Governance, save_proposal, get_proposal,
  quorum_of, voting_power, run_action, execute_proposal, has_proposal_passed, cast_vote,
}
use stellar_escrow.Governance.Steps.{
  Passed, Change, same, opened, counted, carried_out, with_vote, IdsBelow,
}
use stellar_escrow.Governance.Effects.{cast_vote_lem}
use stellar_escrow.Governance.Calls.{Ballot, Trace, start, call, vote, Call-Keeps}
use stellar_escrow.Governance.Votes.{Unopened}

-- An entry is absent, active, or carried out with the votes that it takes.
abbrev IsSound : Rules → Option Proposal → Type 0
IsSound rules none = Unit
IsSound rules (some x) = (x.status ≡ active) ⊎ ((x.status ≡ executed) × Passed rules x)

with_vote-status :
    (support : Bool) (weight : ℕ) (x : Proposal) → (with_vote support weight x).status ≡ x.status
with_vote-status true weight x = refl
with_vote-status false weight x = refl

IsSound-after :
    (rules : Rules) (now : ℕ) (o o' : Option Proposal)
    → Change rules now o o'
    → IsSound rules o
    → IsSound rules o'
IsSound-after rules now o o' same h = h
IsSound-after rules now o o' (opened x e a f g) h = inl a
IsSound-after rules now o o' (counted x support weight e a le) h =
    inl (with_vote-status support weight x ∙ a)
IsSound-after rules now o o' (carried_out x e ne ended p) h = inr (
  refl,
  record { quorum = p.quorum; quorum_is = p.quorum_is; reached = p.reached; majority = p.majority },
)

-- An entry that is carried out does not change.
fixed_after :
    (rules : Rules) (now : ℕ) (o o' : Option Proposal) (x : Proposal)
    → Change rules now o o'
    → o ≡ some x
    → x.status ≡ executed
    → o' ≡ some x
fixed_after rules now o o' x same e f = e
fixed_after rules now o o' x (opened y q a b c) e f = ground arith
fixed_after rules now o o' x (counted y support weight q a le) e f = ground arith
fixed_after rules now o o' x (carried_out y q ne ended p) e f =
    let y_is : y ≡ x = ground arith in absurd (ne (ap (λ (z : Proposal). z.status) y_is ∙ f))

module _ {L : Type 0} (t : Token L) (rules : Rules) (mint : ℕ → ℕ → ℕ → L → Option L) where
  vote_change :
      (c : Ctx) (p voter : ℕ) (support : Bool) (s s' : Governance L)
      → IdsBelow s
      → cast_vote t rules c voter p support s ≡ ok s'
      → Change rules c.sequence (s.proposals p) (s'.proposals p) × IdsBelow s'
  vote_change c p voter support s s' ids h =
      let v = at_ok (cast_vote_lem t rules c s ids voter p support) h in
      let found = v.found in
      rw v.after (
        rw (==-refl p) (
          counted v.proposal support (voting_power t s voter) v.found v.open_now v.in_time,
          λ j lt. ground (arith, ids j),
        ))

  -- What every change of an entry keeps holds of it along every sequence of calls.
  trace_keeps :
      (P : Option Proposal → Type 0)
      → ((now : ℕ) (o o' : Option Proposal) → Change rules now o o' → P o → P o')
      → {p : ℕ} {s : Governance L} {bs : List Ballot} {s' : Governance L} → IdsBelow s
      → P (s.proposals p)
      → Trace t rules mint p s bs s'
      → P (s'.proposals p) × IdsBelow s'
  trace_keeps P keep ids h start = (h, ids)
  trace_keeps P keep {p} ids h (call {s' = s'} {s'' = s''} c calls k) =
      let (before, below) = trace_keeps P keep ids h calls in
      let keeps = Call-Keeps t rules mint c p s' below s'' k in
      (keep c.sequence (s'.proposals p) (s''.proposals p) keeps.change before, keeps.below)
  trace_keeps P keep {p} ids h (vote {s' = s'} {s'' = s''} c voter support calls e) =
      let (before, below) = trace_keeps P keep ids h calls in
      let (change, below') = vote_change c p voter support s' s'' below e in
      (keep c.sequence (s'.proposals p) (s''.proposals p) change before, below')

  -- A proposal that was carried out stays as it is in every later state, no vote is added to it, and
  -- every further attempt to execute it is refused.
  pub trace_executed_once :
      (p : ℕ) (s s' : Governance L) (ballots : List Ballot) (x : Proposal) (c : Ctx)
      → IdsBelow s
      → s.proposals p ≡ some x
      → x.status ≡ executed
      → Trace t rules mint p s ballots s'
      → (s'.proposals p ≡ some x)
        × (execute_proposal t rules c p s' ≡ err proposal_already_executed)
  unfolding execute_proposal get_proposal ok_or fail_if
  trace_executed_once p s s' ballots x c ids e f calls =
      let stays =
        (trace_keeps (λ o. o ≡ some x) (λ now o o' ch q. fixed_after rules now o o' x ch q f) ids e
          calls).0 in
      (stays, rw stays (rw f refl))

  -- In every state that is reached before and after a proposal is opened, it is active or carried out,
  -- never rejected, and if it is carried out then its votes reach the quorum and most of them are in
  -- favour.
  pub trace_executed-Passed :
      (p : ℕ) (s s' : Governance L) (ballots : List Ballot) (x : Proposal)
      → Unopened p s
      → Trace t rules mint p s ballots s'
      → s'.proposals p ≡ some x
      → (x.status ≡ active) ⊎ ((x.status ≡ executed) × Passed rules x)
  trace_executed-Passed p s s' ballots x u calls e =
      let first : IsSound rules (s.proposals p) = rw u.absent tt in
      let sound =
        (trace_keeps (IsSound rules) (λ now o o' ch q. IsSound-after rules now o o' ch q) u.below
          first calls).0 in
      rw e at sound

-- What a positive answer of has_proposal_passed has established.
record Accepted {L : Type 0} (rules : Rules) (c : Ctx) (p : ℕ) (s : Governance L) : Type 0 where
  proposal : Proposal
  found : s.proposals p ≡ some proposal
  quorum : ℕ
  quorum_is : quorum_of rules ≡ ok quorum
  ended : leb c.sequence proposal.ends_at ≡ false
  sum_is :
      checked_add i128_mod proposal.votes_for proposal.votes_against
      ≡ ok (proposal.votes_for + proposal.votes_against)
  reached : ltb (proposal.votes_for + proposal.votes_against) quorum ≡ false
  majority : ltb proposal.votes_against proposal.votes_for ≡ true

module _ {L : Type 0} (t : Token L) (rules : Rules) (c : Ctx) where
  passed_lem :
      (p : ℕ) (s : Governance L)
      → Ensures (λ (b : Bool). b ≡ true → Accepted rules c p s) (has_proposal_passed t rules c p s)
  unfolding has_proposal_passed get_proposal
  passed_lem p s = step (get_proposal s p) λ x found. elim (Bool-cases (leb c.sequence x.ends_at)) [
    | inl e ↦ rw e (returned (λ f. absurd (ground arith)))
    | inr e ↦ rw e (
        step (quorum_of rules) λ quorum is.
          step (checked_add i128_mod x.votes_for x.votes_against) λ total sum.
            elim (Bool-cases (ltb total quorum)) [
              | inl few ↦ rw few (returned (λ f. absurd (ground arith)))
              | inr enough ↦ rw enough (
                  returned (λ f.
                    let total_is = checked_add-ok i128_mod x.votes_for x.votes_against sum in
                    record {
                      proposal = x;
                      found = ok_or-ok (s.proposals p) _ found;
                      quorum = quorum;
                      quorum_is = is;
                      ended = ground arith;
                      sum_is = sum ∙ ap ok total_is.1;
                      reached = ground arith;
                      majority = f;
                    }))
            ])
  ]

  -- Where has_proposal_passed answers yes on an active proposal to set a fee rate of at most 10 000
  -- basis points, executing it at that ledger succeeds: the rate is set, the proposal is marked as
  -- carried out, and nothing else is changed.
  pub passed_fee_executes :
      (p bps : ℕ) (s : Governance L) (x : Proposal)
      → s.proposals p ≡ some x
      → x.status ≡ active
      → x.action ≡ update_fee_bps bps
      → bps ≤ 10000
      → has_proposal_passed t rules c p s ≡ ok true
      → execute_proposal t rules c p s
        ≡ ok (
            save_proposal p
              (record x { status = executed })
              (record s { escrow = record s.escrow { fee_bps = some bps } }))
  unfolding execute_proposal get_proposal ok_or fail_if run_action
  passed_fee_executes p bps s x e f g le h =
      let a = at_ok (passed_lem p s) h refl in
      let is : a.proposal ≡ x = ground (arith, a.found) in
      let ended : leb c.sequence x.ends_at ≡ false = ground (arith, a.ended) in
      let sum_is : checked_add i128_mod x.votes_for x.votes_against
          ≡ ok (x.votes_for + x.votes_against) =
        rw is at a.sum_is in
      let reached : ltb (x.votes_for + x.votes_against) a.quorum ≡ false = rw is at a.reached in
      let won : leb x.votes_for x.votes_against ≡ false = ground (arith, rw is at a.majority) in
      let bounded : ltb 10000 bps ≡ false = ground arith in
      simp (e, f, g, ended, a.quorum_is, sum_is, reached, won, bounded)
