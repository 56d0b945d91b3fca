-- ===== src/Governance/Votes.antt =====
-- The tally of a proposal against the votes that were cast on it.
use stellar_escrow.Prelude.{
  ℕ, ◌+◌, ◌<◌, ◌≡◌, ◌≢◌, refl, ap, sym, ◌∙◌, arith, Bool, true, false, Option, none, some, List, [],
  ◌∷◌, All, ◌==◌, if◌then◌else◌, ==-refl,
}
use stellar_escrow.Soroban.{ok, Ctx, Token, at_ok}
use stellar_escrow.Governance.{Rules, Proposal, Governance, voting_power, cast_vote}
use stellar_escrow.Governance.Steps.{
  Change, same, opened, counted, carried_out, with_vote, IdsBelow,
}
use stellar_escrow.Governance.Effects.{cast_vote_lem}
use stellar_escrow.Governance.Calls.{Ballot, Trace, start, call, vote, Call-Keeps}

-- The weight of the votes on one side.
pub weight_of : Bool → List Ballot → ℕ
weight_of side [] = 0
weight_of true (b ∷ bs) = (if b.support then b.weight else 0) + weight_of true bs
weight_of false (b ∷ bs) = (if b.support then 0 else b.weight) + weight_of false bs

abbrev pub voted_in : ℕ → List Ballot → Bool
voted_in v [] = false
voted_in v (b ∷ bs) = if v == b.voter then true else voted_in v bs

-- Nobody has two of the votes.
abbrev pub Distinct : List Ballot → Type 0
Distinct [] = Unit
Distinct (b ∷ bs) = (voted_in b.voter bs ≡ false) × Distinct bs

abbrev Tally : List Ballot → Option Proposal → Type 0
Tally bs none = bs ≡ []
Tally bs (some x) = (x.votes_for ≡ weight_of true bs) × (x.votes_against ≡ weight_of false bs)

record Counted {L : Type 0} (p : ℕ) (bs : List Ballot) (s : Governance L) : Type 0 where
  below : IdsBelow s
  tally : Tally bs (s.proposals p)
  voters : (v : ℕ) → s.votes p v ≡ voted_in v bs
  distinct : Distinct bs
  positive : All (λ (b : Ballot). 0 < b.weight) bs

-- Before the proposal exists: ids above the counter are free, and nobody has voted on `p`.
pub record Unopened {L : Type 0} (p : ℕ) (s : Governance L) : Type 0 where
  pub below : IdsBelow s
  pub absent : s.proposals p ≡ none
  pub no_votes : (v : ℕ) → s.votes p v ≡ false

opened_empty :
    (rules : Rules) (now : ℕ) (o o' : Option Proposal)
    → Change rules now o o'
    → o ≡ none
    → (y : Proposal) → o' ≡ some y
    → (y.votes_for ≡ 0) × (y.votes_against ≡ 0)
opened_empty rules now o o' same e y f = ground arith
opened_empty rules now o o' (opened x q a b c) e y f = ground arith
opened_empty rules now o o' (counted x support weight q a b) e y f = ground arith
opened_empty rules now o o' (carried_out x q a b c) e y f = ground arith

stays_some :
    (rules : Rules) (now : ℕ) (o o' : Option Proposal)
    → Change rules now o o'
    → (x : Proposal) → o ≡ some x
    → o' ≢ none
stays_some rules now o o' same x e f = ground arith
stays_some rules now o o' (opened y q a b c) x e f = ground arith
stays_some rules now o o' (counted y support weight q a b) x e f = ground arith
stays_some rules now o o' (carried_out y q a b c) x e f = ground arith

kept_tally :
    (rules : Rules) (now : ℕ) (bs : List Ballot) (o o' : Option Proposal)
    → Change rules now o o'
    → ((x y : Proposal)
        → o ≡ some x
        → o' ≡ some y
        → (y.votes_for ≡ x.votes_for) × (y.votes_against ≡ x.votes_against))
    → Tally bs o
    → Tally bs o'
unfolding weight_of
kept_tally rules now bs none none ch no_vote t = t
kept_tally rules now bs none (some y) ch no_vote t =
    let zeros = opened_empty rules now none (some y) ch refl y refl in rw t (ground (arith, zeros))
kept_tally rules now bs (some x) none ch no_vote t =
    absurd (stays_some rules now (some x) none ch x refl refl)
kept_tally rules now bs (some x) (some y) ch no_vote t = ground (arith, no_vote x y refl refl)

voted_tally :
    (x : Proposal) (support : Bool) (weight voter : ℕ) (bs : List Ballot)
    → Tally bs (some x)
    → Tally
        (record { voter = voter; support = support; weight = weight } ∷ bs)
        (some (with_vote support weight x))
unfolding weight_of
voted_tally x true weight voter bs t = ground arith
voted_tally x false weight voter bs t = ground arith

module _ {L : Type 0} (t : Token L) (rules : Rules) (mint : ℕ → ℕ → ℕ → L → Option L) where
  vote-Counted :
      (c : Ctx) (p voter : ℕ) (support : Bool) (bs : List Ballot) (s s' : Governance L)
      → Counted p bs s
      → cast_vote t rules c voter p support s ≡ ok s'
      → Counted p
          (record { voter = voter; support = support; weight = voting_power t s voter } ∷ bs)
          s'
  vote-Counted c p voter support bs s s' k h =
      let v = at_ok (cast_vote_lem t rules c s k.below voter p support) h in
      let found = v.found in
      let first = v.first in
      let power = v.has_power in
      let here : Tally bs (some v.proposal) = rw found at k.tally in
      let new_tally = voted_tally v.proposal support (voting_power t s voter) voter bs here in
      rw v.after (record {
        below = λ j lt. ground (arith, k.below j);
        tally = rw (==-refl p) new_tally;
        voters = λ w. rw (==-refl p) (ground (arith, k.voters w));
        distinct = (sym (k.voters voter) ∙ first, k.distinct);
        positive = (power, k.positive);
      })

  trace-Counted :
      {p : ℕ} {s : Governance L} {bs : List Ballot} {s' : Governance L}
      → Unopened p s
      → Trace t rules mint p s bs s'
      → Counted p bs s'
  unfolding weight_of
  trace-Counted {p} {s = s} u start = record {
    below = u.below;
    tally = rw u.absent refl;
    voters = u.no_votes;
    distinct = tt;
    positive = tt;
  }
  trace-Counted {p} u (call {ballots = bs} {s' = s'} {s'' = s''} c calls k) =
      let before = trace-Counted u calls in
      let keeps = Call-Keeps t rules mint c p s' before.below s'' k in
      record {
        below = keeps.below;
        tally =
            kept_tally rules c.sequence bs (s'.proposals p) (s''.proposals p) keeps.change
              keeps.no_vote before.tally;
        voters = λ v. ap (λ (m : ℕ → Bool). m v) keeps.voters ∙ before.voters v;
        distinct = before.distinct;
        positive = before.positive;
      }
  trace-Counted {p} u (vote {ballots = bs} {s' = s'} {s'' = s''} c voter support calls h) =
      vote-Counted c p voter support bs s' s'' (trace-Counted u calls) h

  -- However the calls are ordered, and whatever happens to the tokens between them, an opened
  -- proposal's tallies are the summed weights of the votes cast on it for and against, no two of those
  -- votes are by one voter, and none of them weighs nothing.
  pub trace-weight_of :
      (p : ℕ) (s s' : Governance L) (ballots : List Ballot) (x : Proposal)
      → Unopened p s
      → Trace t rules mint p s ballots s'
      → s'.proposals p ≡ some x
      → (x.votes_for ≡ weight_of true ballots)
        × (x.votes_against ≡ weight_of false ballots)
        × Distinct ballots
        × All (λ (b : Ballot). 0 < b.weight) ballots
  trace-weight_of p s s' ballots x u calls e =
      let k = trace-Counted u calls in
      let tally : Tally ballots (some x) = rw e at k.tally in
      (tally.0, tally.1, k.distinct, k.positive)
