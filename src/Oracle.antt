-- ===== src/Oracle.antt =====
-- contract/src/oracle.rs: the oracles of an asset pair, and the price that they give. What an
-- oracle contract does when it is asked is the parameter `lastprice oracle base quote`: `none` where the
-- call traps, and else what it answers.
pub mod Price
pub mod Registry
use stellar_escrow.Prelude.{
  ℕ, ◌+◌, ◌-◌, Bool, true, false, not, Option, none, some, List, [], ◌∷◌, ◌++◌, length, ltb, leb,
  ◌==◌, ◌||◌, if◌then◌else◌, get_or, ℤ, leb_ℤ,
}
use stellar_escrow.Prelude.Sort.{insertion_sort}
use stellar_escrow.Errors.{
  oracle_list_full, oracle_already_registered, oracle_not_found, oracle_unavailable,
}
use stellar_escrow.Soroban.{Result, ok, err, ◌>>=◌, ◌>>◌, fail_if, ok_or, or_trap, Ctx}

abbrev pub max_oracles : ℕ
max_oracles = 5

abbrev pub price_max_age_secs : ℕ
price_max_age_secs = 300

pub record PriceData : Type 0 where
  pub price : ℤ
  pub decimals : ℕ
  pub timestamp : ℕ

pub record OracleEntry : Type 0 where
  pub address : ℕ
  pub priority : ℕ

pub data TriggerAction : Type 0 where
  cancel : TriggerAction
  release : TriggerAction

pub record PriceTrigger : Type 0 where
  pub base : ℕ
  pub quote : ℕ
  pub target_price : ℤ
  pub trigger_above : Bool
  pub action : TriggerAction

-- The storage entries under "ORC": a list for each pair of assets.
abbrev pub Oracles : Type 0
Oracles = ℕ → ℕ → Option (List OracleEntry)

unfoldable pub get_oracles : Oracles → ℕ → ℕ → List OracleEntry
get_oracles s base quote = get_or (s base quote) []

unfoldable pub save_oracles : ℕ → ℕ → List OracleEntry → Oracles → Oracles
save_oracles base quote list s b q =
    if b == base then (if q == quote then some list else s b q) else s b q

unfoldable pub registered : ℕ → List OracleEntry → Bool
registered oracle [] = false
registered oracle (e ∷ list) = e.address == oracle || registered oracle list

unfoldable pub register_oracle : ℕ → ℕ → ℕ → ℕ → Oracles → Result Oracles
unfolding registered get_oracles save_oracles
register_oracle base quote oracle priority s = do
  let list = get_oracles s base quote
  fail_if (leb max_oracles (length list)) oracle_list_full
  fail_if (registered oracle list) oracle_already_registered
  ok (save_oracles base quote (list ++ (record { address = oracle; priority = priority } ∷ [])) s)

-- `new_list`: every entry but those of the oracle
unfoldable pub without : ℕ → List OracleEntry → List OracleEntry
without oracle [] = []
without oracle (e ∷ list) =
    let rest = without oracle list in if e.address == oracle then rest else e ∷ rest

unfoldable pub remove_oracle : ℕ → ℕ → ℕ → Oracles → Result Oracles
unfolding registered without get_oracles save_oracles
remove_oracle base quote oracle s = do
  let list = get_oracles s base quote
  fail_if (not (registered oracle list)) oracle_not_found
  ok (save_oracles base quote (without oracle list) s)

abbrev pub queried_after : OracleEntry → OracleEntry → Bool
queried_after a b = ltb b.priority a.priority

unfoldable pub is_fresh : Ctx → PriceData → Bool
is_fresh c data_ = leb (c.timestamp - data_.timestamp) price_max_age_secs

unfoldable pub fresh_of : Ctx → Option PriceData → Option PriceData
unfolding is_fresh
fresh_of c none = none
fresh_of c (some p) = if is_fresh c p then some p else none

-- the early return of the loop, with what the later oracles give
unfoldable pub or_else : Option PriceData → Result (Option PriceData) → Result (Option PriceData)
or_else none rest = rest
or_else (some p) rest = ok (some p)

module _ (lastprice : ℕ → ℕ → ℕ → Option (Option PriceData)) where
  -- the loop over the sorted list; a call that traps ends it and the invocation with it
  unfoldable pub first_fresh : Ctx → ℕ → ℕ → List OracleEntry → Result (Option PriceData)
  unfolding fresh_of or_else or_trap
  first_fresh c base quote [] = ok none
  first_fresh c base quote (e ∷ list) =
      let rest = first_fresh c base quote list in
      or_trap (lastprice e.address base quote) >>= λ answer. or_else (fresh_of c answer) rest

  unfoldable pub get_price : Ctx → ℕ → ℕ → Oracles → Result PriceData
  unfolding get_oracles first_fresh insertion_sort
  get_price c base quote s = do
    let list = get_oracles s base quote
    fail_if (length list == 0) oracle_not_found
    found ← first_fresh c base quote (insertion_sort queried_after list)
    ok_or found oracle_unavailable

  unfoldable pub check_trigger : Ctx → PriceTrigger → Oracles → Result Bool
  unfolding get_price
  check_trigger c trigger s = do
    p ← get_price c trigger.base trigger.quote s
    ok (
        if trigger.trigger_above
        then leb_ℤ trigger.target_price p.price
        else leb_ℤ p.price trigger.target_price)
