-- ===== src/Multisig.antt =====
-- contract/src/multisig.rs: the votes of a panel of arbitrators on a disputed trade. This module of
-- the source reads a panel configuration from the trade, so a trade is its status and that
-- configuration here.
pub mod Consensus
use stellar_escrow.Prelude.{
  ℕ, zero, suc, ◌+◌, Bool, true, false, not, ◌||◌, Option, none, some, List, [], ◌∷◌, length, ltb,
  leb, ◌==◌, if◌then◌else◌, update, get_or,
}
use stellar_escrow.Errors.{
  trade_not_found, invalid_status, unauthorized, arbitrator_not_registered, already_voted,
  voting_expired, voting_not_expired,
}
use stellar_escrow.Soroban.{
  Result, ok, err, ◌>>=◌, ◌>>◌, fail_if, ok_or, u64_mod, saturating_add, Ctx, require_auth,
}
use stellar_escrow.Escrow.State.{
  TradeStatus, disputed, is, DisputeResolution, release_to_buyer, release_to_seller, partial,
}

pub record ArbitratorVote : Type 0 where
  pub arbitrator : ℕ
  pub resolution : DisputeResolution
  pub timestamp : ℕ

pub record MultiSigConfig : Type 0 where
  pub arbitrators : List ℕ
  pub threshold : ℕ
  pub voting_timeout_seconds : ℕ
  pub voting_started_at : Option ℕ

pub record PanelTrade : Type 0 where
  pub status : TradeStatus
  pub config : Option MultiSigConfig

pub record Multisig : Type 0 where
  pub trades : ℕ → Option PanelTrade
  pub registered : ℕ → Bool
  pub votes : ℕ → ℕ → Option ArbitratorVote

pub record VotingSummary : Type 0 where
  pub total_arbitrators : ℕ
  pub votes_cast : ℕ
  pub threshold : ℕ
  pub has_consensus : Bool
  pub consensus_resolution : Option DisputeResolution
  pub voting_expired : Bool

unfoldable pub is_panel_member : ℕ → List ℕ → Bool
is_panel_member arbitrator [] = false
is_panel_member arbitrator (a ∷ panel) = a == arbitrator || is_panel_member arbitrator panel

unfoldable pub expired_after : Ctx → ℕ → Option ℕ → Bool
expired_after c timeout none = false
expired_after c timeout (some started) = ltb (saturating_add u64_mod started timeout) c.timestamp

unfoldable pub is_voting_expired : Ctx → MultiSigConfig → Bool
is_voting_expired c config = expired_after c config.voting_timeout_seconds config.voting_started_at

abbrev pub is_some : {A : Type 0} → Option A → Bool
is_some none = false
is_some (some _) = true

unfoldable pub cast_vote : Ctx → ℕ → ℕ → DisputeResolution → Multisig → Result Multisig
cast_vote c trade_id arbitrator resolution s = do
  trade ← ok_or (s.trades trade_id) trade_not_found
  fail_if (not (is trade.status disputed)) invalid_status
  config ← ok_or trade.config invalid_status
  fail_if (not (is_panel_member arbitrator config.arbitrators)) unauthorized
  fail_if (not (s.registered arbitrator)) arbitrator_not_registered
  fail_if (is_some (s.votes trade_id arbitrator)) already_voted
  fail_if (is_voting_expired c config) voting_expired
  require_auth c arbitrator
  let vote : ArbitratorVote = record {
    arbitrator = arbitrator;
    resolution = resolution;
    timestamp = c.timestamp;
  }
  ok (record s {
    votes = update s.votes trade_id (update (s.votes trade_id) arbitrator (some vote));
  })

abbrev pub cons_vote : Option ArbitratorVote → List ArbitratorVote → List ArbitratorVote
cons_vote none rest = rest
cons_vote (some v) rest = v ∷ rest

unfoldable pub get_all_votes_for_trade : Multisig → ℕ → List ℕ → List ArbitratorVote
get_all_votes_for_trade s trade_id [] = []
get_all_votes_for_trade s trade_id (a ∷ panel) =
    cons_vote (s.votes trade_id a) (get_all_votes_for_trade s trade_id panel)

-- The counts of the tally loop. A vector has fewer than 2 ^ 32 votes, so they do not overflow.
pub record Tally : Type 0 where
  pub to_buyer : ℕ
  pub to_seller : ℕ
  pub partials : List (ℕ × ℕ)

-- the inner loop over the split votes: raise the first count for these basis points, or append one
unfoldable pub bump : ℕ → List (ℕ × ℕ) → List (ℕ × ℕ)
bump buyer_bps [] = (buyer_bps, 1) ∷ []
bump buyer_bps ((bps, cnt) ∷ rest) =
    let bumped = bump buyer_bps rest in
    if bps == buyer_bps then (bps, cnt + 1) ∷ rest else (bps, cnt) ∷ bumped

unfoldable pub tally_vote : DisputeResolution → Tally → Tally
tally_vote release_to_buyer t = record t { to_buyer = t.to_buyer + 1 }
tally_vote release_to_seller t = record t { to_seller = t.to_seller + 1 }
tally_vote (partial buyer_bps) t = record t { partials = bump buyer_bps t.partials }

unfoldable pub tally : Tally → List ArbitratorVote → Tally
tally t [] = t
tally t (v ∷ votes) = tally (tally_vote v.resolution t) votes

unfoldable pub find_partial : ℕ → List (ℕ × ℕ) → Option DisputeResolution
find_partial threshold [] = none
find_partial threshold ((bps, cnt) ∷ rest) =
    let later = find_partial threshold rest in
    if leb threshold cnt then some (partial bps) else later

unfoldable pub consensus : ℕ → Tally → Option DisputeResolution
consensus threshold t =
    if leb threshold t.to_buyer
    then some release_to_buyer
    else if leb threshold t.to_seller
    then some release_to_seller
    else find_partial threshold t.partials

abbrev pub no_votes : Tally
no_votes = record { to_buyer = 0; to_seller = 0; partials = [] }

unfoldable pub voting_summary : Ctx → ℕ → Multisig → Result VotingSummary
voting_summary c trade_id s = do
  trade ← ok_or (s.trades trade_id) trade_not_found
  config ← ok_or trade.config invalid_status
  let votes = get_all_votes_for_trade s trade_id config.arbitrators
  let agreed = consensus config.threshold (tally no_votes votes)
  ok (record {
    total_arbitrators = length config.arbitrators;
    votes_cast = length votes;
    threshold = config.threshold;
    has_consensus = is_some agreed;
    consensus_resolution = agreed;
    voting_expired = is_voting_expired c config;
  })

unfoldable pub resolve_expired_dispute : Ctx → ℕ → ℕ → Multisig → Result DisputeResolution
resolve_expired_dispute c trade_id admin s = do
  trade ← ok_or (s.trades trade_id) trade_not_found
  fail_if (not (is trade.status disputed)) invalid_status
  config ← ok_or trade.config invalid_status
  fail_if (not (is_voting_expired c config)) voting_not_expired
  require_auth c admin
  ok release_to_buyer
