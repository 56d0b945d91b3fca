-- ===== src/Tests/Services.antt =====
-- Upgrades, oracles, panels, scores, tiers and windows.
use mathlib.Core.List.{Mem}
use stellar_escrow.Prelude.{
  ℕ, ◌*◌, ◌≤◌, ◌≡◌, refl, Bool, true, false, not, Option, none, some, List, [], ◌∷◌, All, ◌==◌,
  if◌then◌else◌, arith, pos,
}
use stellar_escrow.Prelude.Sort.{insertion_sort, sort_into, insert_back}
use stellar_escrow.Soroban.{
  ok, fail_if, ok_or, or_trap, trap_unless, require_auth, within, checked_add,
}
use stellar_escrow.Upgrade.{Upgrade, require_admin, propose_upgrade}
use stellar_escrow.Upgrade.Timelock.{Call, Trace, trace_timelock}
use stellar_escrow.Oracle.{
  PriceData, Oracles, get_oracles, get_price, first_fresh, fresh_of, is_fresh, or_else,
}
use stellar_escrow.Oracle.Price.{Best, get_price-Best}
use stellar_escrow.Escrow.State.{disputed, release_to_buyer, partial}
use stellar_escrow.Multisig.{
  MultiSigConfig, PanelTrade, Multisig, VotingSummary, get_all_votes_for_trade, voting_summary,
  tally, tally_vote, bump, consensus, find_partial, is_voting_expired, expired_after,
}
use stellar_escrow.Multisig.Consensus.{Agreed, voting_summary-Agreed}
use stellar_escrow.Reputation.{
  ArbitratorReputation, composite_score, select_best_arbitrator, select_loop, consider,
  average_rating_x100, resolution_rate_bps, select_best_arbitrator_max,
}
use stellar_escrow.Tiers.{bronze, UserTierInfo, Tiers}
use stellar_escrow.Tests.Ledger.{the, ctx}

abbrev calm : Upgrade
calm = record {
  admin = some 5;
  version = some 3;
  fee_bps = some 100;
  proposal = none;
  snapshot = none;
  guard = none;
  code = 40;
}

abbrev proposed_state : Upgrade
proposed_state = the (propose_upgrade ctx 5 41 0 calm) calm

proposing_runs : propose_upgrade ctx 5 41 0 calm ≡ ok proposed_state
unfolding propose_upgrade require_admin require_auth trap_unless ok_or fail_if checked_add within
proposing_runs = refl

trace_timelock_example : proposed_state.code ≡ 40
trace_timelock_example =
    trace_timelock 100 100 calm proposed_state refl
      (Trace.call ctx Trace.start (ground arith) (Call.proposed 5 41 0 proposing_runs))
      (ground arith)

-- Two oracles for the pair (1, 2): the first has an old price, the second a fresh one.
abbrev answers : ℕ → ℕ → ℕ → Option (Option PriceData)
answers oracle base quote =
    if oracle == 11
    then some (some (record { price = pos 90; decimals = 2; timestamp = 100 }))
    else if oracle == 12
    then some (some (record { price = pos 95; decimals = 2; timestamp = 900 }))
    else none

abbrev two_oracles : Oracles
two_oracles base quote =
    some (record { address = 12; priority = 5 } ∷ record { address = 11; priority = 1 } ∷ [])

abbrev fresh_one : PriceData
fresh_one = record { price = pos 95; decimals = 2; timestamp = 900 }

pricing_runs : get_price answers ctx 1 2 two_oracles ≡ ok fresh_one
unfolding get_price get_oracles insertion_sort sort_into insert_back first_fresh fresh_of is_fresh
    or_else or_trap ok_or fail_if
pricing_runs = refl

get_price-Best_example : Best answers ctx 1 2 (get_oracles two_oracles 1 2) fresh_one
get_price-Best_example = get_price-Best answers ctx 1 2 two_oracles fresh_one pricing_runs

-- A panel of three with a threshold of two, of whom two want the same split.
abbrev panel : MultiSigConfig
panel = record {
  arbitrators = 1 ∷ 2 ∷ 3 ∷ [];
  threshold = 2;
  voting_timeout_seconds = 60;
  voting_started_at = none;
}

abbrev panel_trade : PanelTrade
panel_trade = record { status = disputed; config = some panel }

abbrev voted : Multisig
voted = record {
  trades = λ id. some panel_trade;
  registered = λ a. true;
  votes = λ id a.
      if a == 2
      then some (record { arbitrator = 2; resolution = release_to_buyer; timestamp = 0 })
      else some (record { arbitrator = a; resolution = partial 3000; timestamp = 0 });
}

abbrev summary : VotingSummary
summary = record {
  total_arbitrators = 3;
  votes_cast = 3;
  threshold = 2;
  has_consensus = true;
  consensus_resolution = some (partial 3000);
  voting_expired = false;
}

summing_runs : voting_summary ctx 1 voted ≡ ok summary
unfolding voting_summary get_all_votes_for_trade tally tally_vote bump consensus find_partial
    is_voting_expired expired_after ok_or
summing_runs = refl

voting_summary-Agreed_example :
    Agreed 2 (get_all_votes_for_trade voted 1 (1 ∷ 2 ∷ 3 ∷ [])) (some (partial 3000))
voting_summary-Agreed_example =
    voting_summary-Agreed ctx 1 voted panel_trade panel summary refl refl (ground arith)
      summing_runs

abbrev records : ℕ → ArbitratorReputation
records a = record { rating_sum = a * 4; rating_count = a; resolved_count = a; total_disputes = 10 }

abbrev candidates : List ℕ
candidates = 9 ∷ 3 ∷ 7 ∷ 5 ∷ []

abbrev known : ℕ → Bool
known a = not (a == 9)

choosing_runs : select_best_arbitrator known records candidates ≡ ok 7
unfolding select_best_arbitrator select_loop consider composite_score average_rating_x100
    resolution_rate_bps ok_or
choosing_runs = refl

select_best_arbitrator_max_example :
    (known 7 ≡ true)
    × Mem {A = ℕ} 7 candidates
    × All
        (λ x. known x ≡ true → composite_score (records x) ≤ composite_score (records 7))
        candidates
select_best_arbitrator_max_example =
    select_best_arbitrator_max known records candidates 7 choosing_runs

abbrev newcomer : UserTierInfo
newcomer = record { tier = bronze; total_volume = 400; custom_fee_bps = none }

abbrev tiers : Tiers
tiers = record { config = none; users = λ u. some newcomer }
