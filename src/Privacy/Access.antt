-- ===== src/Privacy/Access.antt =====
-- Whom a change of the privacy entries of a trade must name as its caller, and what a grant gives until it is revoked.
use stellar_escrow.Prelude.{
  ℕ, ◌≡◌, ◌≢◌, refl, arith, Bool, false, not, ◌&&◌, Option, none, some, List, length, ltb, ◌==◌,
  ==-refl, ==→eq, ◌⊎◌, inl, inr, Bool-cases,
}
use stellar_escrow.Errors.{
  trade_not_found, unauthorized, privacy_data_too_long, disclosure_grant_not_found,
}
use stellar_escrow.Soroban.{
  ok, err, Ensures, step, returned, at_ok, ensured, fail_if, fail_if-ok, ok_or, ok_or-ok,
}
use stellar_escrow.Escrow.State.{Trade}
use stellar_escrow.Privacy.{
  DisclosureGrant, Privacy, require_trade_party, too_long, set_trade_privacy, save_grant,
  grant_disclosure, revoke_disclosure, get_grant,
}

-- One successful call for a trade, with the argument `caller`.
pub data Call (max_len caller trade_id : ℕ) (s s' : Privacy) : Type 0 where
  setting :
      (hash : ℕ) (ptr : Option (List ℕ)) (hidden : Bool)
      → set_trade_privacy max_len caller trade_id hash ptr hidden s ≡ ok s'
      → Call max_len caller trade_id s s'
  granting :
      (grantee : ℕ) (key : List ℕ)
      → grant_disclosure max_len caller trade_id grantee key s ≡ ok s'
      → Call max_len caller trade_id s s'
  revoking :
      (grantee : ℕ)
      → revoke_disclosure caller trade_id grantee s ≡ ok s'
      → Call max_len caller trade_id s s'

-- The argument `caller` is the seller or the buyer of the trade, and no entry of another trade is changed.
pub record ByParty (caller trade_id : ℕ) (s s' : Privacy) : Type 0 where
  pub trade : Trade
  pub found : s.trades trade_id ≡ some trade
  pub party : (caller ≡ trade.seller) ⊎ (caller ≡ trade.buyer)
  pub same_trades : s'.trades ≡ s.trades
  pub other_privacy : (j : ℕ) → j ≢ trade_id → s'.privacy j ≡ s.privacy j
  pub other_grants : (j g : ℕ) → j ≢ trade_id → s'.grants j g ≡ s.grants j g

record Party (caller trade_id : ℕ) (s : Privacy) : Type 0 where
  trade : Trade
  found : s.trades trade_id ≡ some trade
  party : (caller ≡ trade.seller) ⊎ (caller ≡ trade.buyer)

one_of :
    (caller seller buyer : ℕ)
    → not (caller == seller) && not (caller == buyer) ≡ false
    → (caller ≡ seller) ⊎ (caller ≡ buyer)
one_of caller seller buyer h = elim (Bool-cases (caller == seller)) [
  | inl e ↦ inl (==→eq caller seller e)
  | inr e ↦ inr (ground arith)
]

module _ (max_len caller trade_id : ℕ) (s : Privacy) where
  require_trade_party-Party :
      Ensures (λ (u : Unit {0}). Party caller trade_id s) (require_trade_party trade_id caller s)
  unfolding require_trade_party
  require_trade_party-Party = step (ok_or (s.trades trade_id) trade_not_found) λ x e.
      ensured (fail_if (not (caller == x.seller) && not (caller == x.buyer)) unauthorized) λ _ h.
        record {
          trade = x;
          found = ok_or-ok (s.trades trade_id) _ e;
          party = one_of caller x.seller x.buyer (fail_if-ok _ _ h);
        }

  saved_grant :
      Party caller trade_id s
      → (grantee : ℕ) (grant : Option DisclosureGrant)
      → ByParty caller trade_id s (save_grant trade_id grantee grant s)
  saved_grant p grantee grant = record {
    trade = p.trade;
    found = p.found;
    party = p.party;
    same_trades = refl;
    other_privacy = λ j ne. refl;
    other_grants = λ j g ne. ground arith;
  }

  -- Every call of set_trade_privacy, grant_disclosure or revoke_disclosure that returns names the seller
  -- or the buyer of the trade as its caller, an argument that these functions do not authenticate; and
  -- it leaves the trades and the settings and grants of every other trade as they were.
  pub Call-ByParty :
      (s' : Privacy) → Call max_len caller trade_id s s' → ByParty caller trade_id s s'
  unfolding set_trade_privacy grant_disclosure revoke_disclosure
  Call-ByParty s' (setting hash ptr hidden h) =
      at_ok {P = ByParty caller trade_id s}
        (step (require_trade_party trade_id caller s) λ _ e.
          step (fail_if (too_long max_len ptr) privacy_data_too_long) λ _ _.
            let p = at_ok require_trade_party-Party e in
            returned (record {
              trade = p.trade;
              found = p.found;
              party = p.party;
              same_trades = refl;
              other_privacy = λ j ne. ground arith;
              other_grants = λ j g ne. refl;
            }))
        h
  Call-ByParty s' (granting grantee key h) =
      at_ok {P = ByParty caller trade_id s}
        (step (require_trade_party trade_id caller s) λ _ e.
          step (fail_if (ltb max_len (length key)) privacy_data_too_long)
            λ _ _. let p = at_ok require_trade_party-Party e in returned (saved_grant p grantee _))
        h
  Call-ByParty s' (revoking grantee h) =
      at_ok {P = ByParty caller trade_id s}
        (step (require_trade_party trade_id caller s)
          λ _ e. let p = at_ok require_trade_party-Party e in returned (saved_grant p grantee none))
        h

granted :
    (max_len caller trade_id grantee : ℕ) (key : List ℕ) (s : Privacy)
    → Ensures
        (λ (s' : Privacy).
          s'
          ≡ save_grant trade_id grantee
              (some (record { trade_id = trade_id; grantee = grantee; encrypted_key = key }))
              s)
        (grant_disclosure max_len caller trade_id grantee key s)
unfolding grant_disclosure
granted max_len caller trade_id grantee key s =
    step (require_trade_party trade_id caller s)
      λ _ _. step (fail_if (ltb max_len (length key)) privacy_data_too_long) λ _ _. returned refl

revoked :
    (caller trade_id grantee : ℕ) (s : Privacy)
    → Ensures
        (λ (s' : Privacy). s' ≡ save_grant trade_id grantee none s)
        (revoke_disclosure caller trade_id grantee s)
unfolding revoke_disclosure
revoked caller trade_id grantee s =
    step (require_trade_party trade_id caller s) λ _ _. returned refl

-- A grant that is made is found under its key until it is revoked, and is not found afterwards; no other
-- grantee's grant is changed by either.
pub grant-revoke_disclosure :
    (max_len caller other trade_id grantee : ℕ) (key : List ℕ) (s s₁ s₂ : Privacy)
    → grant_disclosure max_len caller trade_id grantee key s ≡ ok s₁
    → revoke_disclosure other trade_id grantee s₁ ≡ ok s₂
    → (get_grant trade_id grantee s₁
        ≡ ok (record { trade_id = trade_id; grantee = grantee; encrypted_key = key }))
      × (get_grant trade_id grantee s₂ ≡ err disclosure_grant_not_found)
      × ((g : ℕ) → g ≢ grantee → get_grant trade_id g s₂ ≡ get_grant trade_id g s)
unfolding get_grant ok_or
grant-revoke_disclosure max_len caller other trade_id grantee key s s₁ s₂ h k =
    let made = at_ok (granted max_len caller trade_id grantee key s) h in
    let gone = at_ok (revoked other trade_id grantee s₁) k in
    (
      rw made (rw (==-refl trade_id, ==-refl grantee) refl),
      rw gone (rw (==-refl trade_id, ==-refl grantee) refl),
      λ g ne.
          let apart : (g == grantee) ≡ false = ground arith in
          rw gone (rw (==-refl trade_id, apart) (rw made (rw (==-refl trade_id, apart) refl))),
    )
