-- ===== src/Governance/Delegation.antt =====
-- What a delegation does to the voting powers, and what a distribution of the fees pays.
use stellar_escrow.Prelude.{
  ℕ, ◌<◌, ◌≡◌, ◌≢◌, refl, arith, Option, none, some, ◌==◌, ==-refl, ==→eq, Bool-cases, inl, inr,
}
use stellar_escrow.Errors.{no_fees_to_withdraw}
use stellar_escrow.Soroban.{
  ok, Ctx, Token, TokenLaws, transfer, step, returned, at_ok, fail_if, fail_if-ok, ok_or-ok,
}
use stellar_escrow.Escrow.State.{get_usdc_token}
use stellar_escrow.Escrow.Money.{Paid, transfer-Paid}
use stellar_escrow.Governance.{
  Rules, Governance, token_power, voting_power, delegate, undelegate, get_accumulated_fees,
  distribute_fees_to_holders,
}

no_power :
    {L : Type 0} (t : Token L) (gov : Option ℕ) (to voter : ℕ) (l : L)
    → token_power t gov (some to) voter l ≡ 0
no_power t none to voter l = refl
no_power t (some gov) to voter l = refl

module _ {L : Type 0} (t : Token L) (s : Governance L) (from to : ℕ) where
  -- A delegation takes the whole voting power from the delegator and gives none of it to anybody else,
  -- the delegatee included; where the delegator had delegated to nobody before, taking the delegation
  -- back restores every voting power.
  pub delegate-voting_power :
      (voting_power t (delegate from to s) from ≡ 0)
      × ((v : ℕ) → v ≢ from → voting_power t (delegate from to s) v ≡ voting_power t s v)
      × (s.delegates from ≡ none
          → (v : ℕ) → voting_power t (undelegate from (delegate from to s)) v ≡ voting_power t s v)
  unfolding delegate undelegate voting_power
  delegate-voting_power = (
    rw (==-refl from) (no_power t s.gov_token to from s.escrow.ledger),
    λ v ne. elim (Bool-cases (v == from)) [
      | inl e ↦ absurd (ne (==→eq v from e))
      | inr e ↦ rw e refl
    ],
    λ free v. elim (Bool-cases (v == from)) [
      | inl e ↦ rw (e, ==→eq v from e, free) refl
      | inr e ↦ rw e refl
    ],
  )

-- What a distribution of the fees has done.
pub record Distributed {L : Type 0} (t : Token L) (contract recipient : ℕ) (s s' : Governance L)
    : Type 0 where
  pub token : ℕ
  pub fees : ℕ
  pub token_is : s.escrow.usdc_token ≡ some token
  pub fees_are : s.escrow.accumulated_fees ≡ some fees
  pub some_fees : 0 < fees
  pub paid : Paid t token contract recipient fees s.escrow.ledger s'.escrow.ledger
  pub none_left : s'.escrow.accumulated_fees ≡ some 0

module _ {L : Type 0} (t : Token L) (laws : TokenLaws t) (rules : Rules) (c : Ctx) where
  -- A distribution of the fees that returns has paid exactly the fees accumulated, which were not zero,
  -- from the contract to the recipient in the settlement token, and leaves no accumulated fees.
  pub distribute_fees_to_holders-Distributed :
      (recipient : ℕ) (s s' : Governance L)
      → c.contract ≢ recipient
      → distribute_fees_to_holders t rules c recipient s ≡ ok s'
      → Distributed t c.contract recipient s s'
  unfolding distribute_fees_to_holders get_accumulated_fees get_usdc_token
  distribute_fees_to_holders-Distributed recipient s s' ne h =
      at_ok {P = Distributed t c.contract recipient s}
        (step (get_accumulated_fees s) λ fees f.
          step (fail_if (fees == 0) no_fees_to_withdraw) λ _ positive.
            step (get_usdc_token s.escrow) λ token k.
              step (transfer t token c.contract recipient fees s.escrow.ledger) λ paid m.
                let more = fail_if-ok _ _ positive in
                returned (record {
                  token = token;
                  fees = fees;
                  token_is = ok_or-ok s.escrow.usdc_token _ k;
                  fees_are = ok_or-ok s.escrow.accumulated_fees _ f;
                  some_fees = ground arith;
                  paid =
                      transfer-Paid t laws token c.contract recipient fees s.escrow.ledger paid ne
                        m;
                  none_left = refl;
                }))
        h
