-- ===== src/Queries/Pages.antt =====
-- What a page of `query_trades` holds.

use mathlib.Core.List.{Perm}
use stellar_escrow.Prelude.{
  ℕ, ◌+◌, ◌≤◌, ◌≡◌, ◌∙◌, min, arith, false, List, [], ◌∷◌, All, length, take, drop,
}
use stellar_escrow.Prelude.Sort.{
  SortOrder, insertion_sort, Sorted, insertion_sort-Perm, insertion_sort-Sorted,
}
use stellar_escrow.Escrow.State.{Trade, Escrow}
use stellar_escrow.Queries.{
  TradeSortField, SortDirection, by_id, by_amount, asc, desc, TradeFilter, PageParams, TradeStats,
  collect, swap_before, query_trades, count_in, fold_stats, aggregate_trades, count_trades,
}
use stellar_escrow.Queries.Matching.{Matching, collect-Matching}
use stellar_escrow.Queries.Slices.{page_of-slice}

page_order :
    (field : TradeSortField) (direction : SortDirection) → SortOrder (swap_before field direction)
unfolding swap_before
page_order by_id asc = record { asym = λ a b h. ground arith; trans = λ a b d h k. ground arith }
page_order by_id desc = record { asym = λ a b h. ground arith; trans = λ a b d h k. ground arith }
page_order by_amount asc = record {
  asym = λ a b h. ground arith;
  trans = λ a b d h k. ground arith;
}
page_order by_amount desc = record {
  asym = λ a b h. ground arith;
  trans = λ a b d h k. ground arith;
}

-- The order that is asked for, on the numbers of the trades.
abbrev pub InOrder : TradeSortField → SortDirection → Trade → Trade → Type 0
InOrder by_id asc a b = a.id ≤ b.id
InOrder by_id desc a b = b.id ≤ a.id
InOrder by_amount asc a b = a.amount ≤ b.amount
InOrder by_amount desc a b = b.amount ≤ a.amount

-- Each trade of the list stands in the order to all that follow it.
unfoldable pub Ordered : TradeSortField → SortDirection → List Trade → Type 0
Ordered field direction [] = Unit
Ordered field direction (t ∷ rest) =
    All (InOrder field direction t) rest × Ordered field direction rest

in_order :
    (field : TradeSortField) (direction : SortDirection) (a b : Trade)
    → swap_before field direction a b ≡ false
    → InOrder field direction a b
unfolding swap_before
in_order by_id asc a b h = ground arith
in_order by_id desc a b h = ground arith
in_order by_amount asc a b h = ground arith
in_order by_amount desc a b h = ground arith

module _ (field : TradeSortField) (direction : SortDirection) where
  all-InOrder :
      (t : Trade) (l : List Trade)
      → All (λ b. swap_before field direction t b ≡ false) l
      → All (InOrder field direction t) l
  all-InOrder t [] h = tt
  all-InOrder t (b ∷ l) (h, hs) = (in_order field direction t b h, all-InOrder t l hs)

  Sorted-Ordered :
      (l : List Trade) → Sorted (swap_before field direction) l → Ordered field direction l
  unfolding Sorted Ordered
  Sorted-Ordered [] h = tt
  Sorted-Ordered (t ∷ l) (h, hs) = (all-InOrder t l h, Sorted-Ordered l hs)

-- The result is the slice from the offset on, of at most the limit and of at most 100 trades, of a list
-- that holds exactly the matching trades in the order asked for.
pub record PageOf {L : Type 0} (s : Escrow L) (total : ℕ) (f : TradeFilter) (page : PageParams)
    (result : List Trade) : Type 0 where
  pub matching : List Trade
  pub sorted : List Trade
  pub are_matching : Matching s f total matching
  pub same_trades : Perm sorted matching
  pub ordered : Ordered page.sort_by page.direction sorted
  pub is_slice : result ≡ take (min page.limit 100) (drop page.offset sorted)

-- A query returns a page of exactly the stored trades that have the status, the party and the bounds of
-- the filter, put in the order of ids or amounts that is asked for: the slice that starts at the
-- offset and is as long as the limit, the cap of 100 and the number of trades left allow.
pub query_trades-PageOf :
    {L : Type 0} (s : Escrow L) (total : ℕ) (f : TradeFilter) (page : PageParams)
    → PageOf s total f page (query_trades s total f page)
unfolding query_trades
query_trades-PageOf s total f page =
    let found = collect s f total in
    let above = swap_before page.sort_by page.direction in
    record {
      matching = found;
      sorted = insertion_sort above found;
      are_matching = collect-Matching s f total;
      same_trades = insertion_sort-Perm above found;
      ordered =
          Sorted-Ordered page.sort_by page.direction (insertion_sort above found)
            (insertion_sort-Sorted above (page_order page.sort_by page.direction) found);
      is_slice = page_of-slice page.offset (min page.limit 100) (insertion_sort above found);
    }

fold_stats-count :
    (l : List Trade) (r : TradeStats) → (fold_stats l r).total_count ≡ length l + r.total_count
unfolding fold_stats count_in
fold_stats-count [] r = omega arith
fold_stats-count (t ∷ l) r = omega (arith, fold_stats-count l (count_in t r))

-- The count among the statistics is the one that `count_trades` gives for the same filter.
pub aggregate_trades-count_trades :
    {L : Type 0} (s : Escrow L) (total : ℕ) (f : TradeFilter)
    → (aggregate_trades s total f).total_count ≡ count_trades s total f
unfolding aggregate_trades count_trades
aggregate_trades-count_trades s total f = fold_stats-count (collect s f total) _ ∙ omega arith
