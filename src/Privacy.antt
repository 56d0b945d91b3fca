-- ===== src/Privacy.antt =====
-- contract/src/privacy.rs and the privacy entries of contract/src/storage.rs. A hash is a number, a data
-- pointer and an encrypted key are lists of bytes; `PRIVACY_DATA_PTR_MAX_LEN`, which types.rs does not
-- define, is a parameter.
pub mod Access
use stellar_escrow.Prelude.{
  ℕ, Bool, true, false, not, ◌&&◌, Option, none, some, List, length, ltb, ◌==◌, update,
}
use stellar_escrow.Errors.{
  trade_not_found, unauthorized, privacy_data_too_long, disclosure_grant_not_found,
  disclosure_unauthorized,
}
use stellar_escrow.Soroban.{Result, ok, err, ◌>>=◌, ◌>>◌, fail_if, ok_or}
use stellar_escrow.Escrow.State.{Trade}

pub record TradePrivacy : Type 0 where
  pub data_hash : ℕ
  pub encrypted_ptr : Option (List ℕ)
  pub private_arbitration : Bool

pub record DisclosureGrant : Type 0 where
  pub trade_id : ℕ
  pub grantee : ℕ
  pub encrypted_key : List ℕ

pub record Privacy : Type 0 where
  pub trades : ℕ → Option Trade
  pub privacy : ℕ → Option TradePrivacy
  pub grants : ℕ → ℕ → Option DisclosureGrant

abbrev pub is_some : {A : Type 0} → Option A → Bool
is_some none = false
is_some (some _) = true

unfoldable pub require_trade_party : ℕ → ℕ → Privacy → Result (Unit {0})
require_trade_party trade_id caller s = do
  trade ← ok_or (s.trades trade_id) trade_not_found
  fail_if (not (caller == trade.seller) && not (caller == trade.buyer)) unauthorized

abbrev pub too_long : ℕ → Option (List ℕ) → Bool
too_long max_len none = false
too_long max_len (some ptr) = ltb max_len (length ptr)

unfoldable pub set_trade_privacy : ℕ → ℕ → ℕ → ℕ → Option (List ℕ) → Bool → Privacy → Result Privacy
unfolding require_trade_party
set_trade_privacy max_len caller trade_id data_hash encrypted_ptr private_arbitration s = do
  require_trade_party trade_id caller s
  fail_if (too_long max_len encrypted_ptr) privacy_data_too_long
  ok (record s {
    privacy = update s.privacy trade_id (
        some (record {
          data_hash = data_hash;
          encrypted_ptr = encrypted_ptr;
          private_arbitration = private_arbitration;
        }));
  })

abbrev pub save_grant : ℕ → ℕ → Option DisclosureGrant → Privacy → Privacy
save_grant trade_id grantee grant s = record s {
  grants = update s.grants trade_id (update (s.grants trade_id) grantee grant);
}

unfoldable pub grant_disclosure : ℕ → ℕ → ℕ → ℕ → List ℕ → Privacy → Result Privacy
unfolding require_trade_party
grant_disclosure max_len caller trade_id grantee encrypted_key s = do
  require_trade_party trade_id caller s
  fail_if (ltb max_len (length encrypted_key)) privacy_data_too_long
  ok (
      save_grant trade_id grantee
        (some (record { trade_id = trade_id; grantee = grantee; encrypted_key = encrypted_key })) s)

unfoldable pub revoke_disclosure : ℕ → ℕ → ℕ → Privacy → Result Privacy
unfolding require_trade_party
revoke_disclosure caller trade_id grantee s = do
  require_trade_party trade_id caller s
  ok (save_grant trade_id grantee none s)

unfoldable pub get_grant : ℕ → ℕ → Privacy → Result DisclosureGrant
get_grant trade_id grantee s = ok_or (s.grants trade_id grantee) disclosure_grant_not_found

unfoldable pub has_privacy : ℕ → Privacy → Bool
has_privacy trade_id s = is_some (s.privacy trade_id)

unfoldable pub has_disclosure_grant : ℕ → ℕ → Privacy → Bool
has_disclosure_grant trade_id grantee s = is_some (s.grants trade_id grantee)

unfoldable pub verify_data_hash : ℕ → ℕ → Privacy → Result Bool
verify_data_hash trade_id claimed_hash s = do
  privacy ← ok_or (s.privacy trade_id) disclosure_grant_not_found
  ok (privacy.data_hash == claimed_hash)

unfoldable pub require_privacy_compliance : ℕ → Bool → Privacy → Result (Unit {0})
require_privacy_compliance trade_id false s = ok tt
require_privacy_compliance trade_id true s = do
  privacy ← ok_or (s.privacy trade_id) disclosure_unauthorized
  fail_if (not privacy.private_arbitration) disclosure_unauthorized
