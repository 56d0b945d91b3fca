-- ===== src/Queries.antt =====
-- contract/src/queries.rs: filtering, sorting and paging of trades, and statistics on them. The
-- number of trades, `get_trade_counter` in the source, which no file defines, is the argument `total`.
mod Slices
pub mod Matching
pub mod Pages
use stellar_escrow.Prelude.{
  ℕ, zero, suc, ◌+◌, ◌-◌, min, Bool, true, false, not, ◌&&◌, Option, none, some, List, [], ◌∷◌,
  ◌++◌, length, take, drop, ltb, ◌==◌, if◌then◌else◌,
}
use stellar_escrow.Prelude.Sort.{insertion_sort}
use stellar_escrow.Soroban.{u64_mod, saturating_add}
use stellar_escrow.Escrow.State.{TradeStatus, Trade, Escrow, is}

pub data TradeSortField : Type 0 where
  by_id : TradeSortField
  by_amount : TradeSortField

pub data SortDirection : Type 0 where
  asc : SortDirection
  desc : SortDirection

pub record TradeFilter : Type 0 where
  pub status : Option TradeStatus
  pub participant : Option ℕ
  pub min_amount : Option ℕ
  pub max_amount : Option ℕ
  pub from_trade_id : Option ℕ
  pub to_trade_id : Option ℕ

pub record PageParams : Type 0 where
  pub offset : ℕ
  pub limit : ℕ
  pub sort_by : TradeSortField
  pub direction : SortDirection

pub record TradeStats : Type 0 where
  pub total_count : ℕ
  pub total_volume : ℕ
  pub total_fees : ℕ
  pub min_amount : ℕ
  pub max_amount : ℕ

-- `if let Some(x) = criterion { if !holds(x) { return false; } }`
abbrev pub meets : {A : Type 0} → Option A → (A → Bool) → Bool
meets none holds = true
meets (some x) holds = holds x

unfoldable pub matches_filter : Trade → TradeFilter → Bool
matches_filter trade f =
    meets f.status (λ s. is trade.status s)
    && meets f.participant (λ p. not (not (trade.buyer == p) && not (trade.seller == p)))
    && meets f.min_amount (λ m. not (ltb trade.amount m))
    && meets f.max_amount (λ m. not (ltb m trade.amount))
    && meets f.from_trade_id (λ id. not (ltb trade.id id))
    && meets f.to_trade_id (λ id. not (ltb id trade.id))

-- The trades found under the ids 1 to `total` that match, in the order of the ids.
unfoldable pub add_matching : Option Trade → TradeFilter → List Trade → List Trade
add_matching none f found = found
add_matching (some trade) f found = if matches_filter trade f then found ++ (trade ∷ []) else found

unfoldable pub collect : {L : Type 0} → Escrow L → TradeFilter → ℕ → List Trade
collect s f zero = []
collect s f (suc id) = add_matching (s.trades (suc id)) f (collect s f id)

unfoldable pub swap_before : TradeSortField → SortDirection → Trade → Trade → Bool
swap_before by_id asc a b = ltb b.id a.id
swap_before by_id desc a b = ltb a.id b.id
swap_before by_amount asc a b = ltb b.amount a.amount
swap_before by_amount desc a b = ltb a.amount b.amount

unfoldable pub page_of : {A : Type 0} → ℕ → ℕ → List A → List A
page_of offset limit matched =
    let first = min offset (length matched) in
    let last = min (first + limit) (length matched) in take (last - first) (drop first matched)

unfoldable pub query_trades : {L : Type 0} → Escrow L → ℕ → TradeFilter → PageParams → List Trade
query_trades s total f page =
    page_of page.offset (min page.limit 100)
      (insertion_sort (swap_before page.sort_by page.direction) (collect s f total))

-- One trade of `aggregate_trades`; the count is of at most `total` trades and does not overflow.
unfoldable pub count_in : Trade → TradeStats → TradeStats
count_in trade r = record {
  total_count = r.total_count + 1;
  total_volume = saturating_add u64_mod r.total_volume trade.amount;
  total_fees = saturating_add u64_mod r.total_fees trade.fee;
  min_amount = if ltb trade.amount r.min_amount then trade.amount else r.min_amount;
  max_amount = if ltb r.max_amount trade.amount then trade.amount else r.max_amount;
}

unfoldable pub fold_stats : List Trade → TradeStats → TradeStats
fold_stats [] r = r
fold_stats (trade ∷ rest) r = fold_stats rest (count_in trade r)

unfoldable pub aggregate_trades : {L : Type 0} → Escrow L → ℕ → TradeFilter → TradeStats
aggregate_trades s total f =
    let r = fold_stats (collect s f total) (record {
      total_count = 0;
      total_volume = 0;
      total_fees = 0;
      min_amount = u64_mod - 1;
      max_amount = 0;
    }) in
    record r { min_amount = if r.total_count == 0 then 0 else r.min_amount }

unfoldable pub count_trades : {L : Type 0} → Escrow L → ℕ → TradeFilter → ℕ
count_trades s total f = length (collect s f total)
