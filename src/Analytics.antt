-- ===== src/Analytics.antt =====
-- contract/src/analytics.rs: the metrics that the escrow's operations keep, and the queries on them.
pub mod Rates
pub mod Windows
use stellar_escrow.Prelude.{
  ℕ, ◌+◌, ◌-◌, ◌*◌, ◌/◌, min, Bool, true, false, not, ◌&&◌, Option, none, some, ltb, leb, ◌==◌,
  if◌then◌else◌, update, get_or,
}
use stellar_escrow.Soroban.{u64_mod, as_u32, saturating_add, Ctx}

pub record PlatformMetrics : Type 0 where
  pub total_volume : ℕ
  pub trades_created : ℕ
  pub trades_funded : ℕ
  pub trades_completed : ℕ
  pub trades_disputed : ℕ
  pub trades_cancelled : ℕ
  pub total_fees_collected : ℕ

pub record WindowMetrics : Type 0 where
  pub window_start : ℕ
  pub window_seconds : ℕ
  pub volume : ℕ
  pub trades_created : ℕ
  pub trades_completed : ℕ
  pub trades_cancelled : ℕ
  pub trades_disputed : ℕ

pub data TimeWindow : Type 0 where
  last_24h : TimeWindow
  last_7d : TimeWindow
  last_30d : TimeWindow
  all_time : TimeWindow

pub record ArbitratorMetrics : Type 0 where
  pub disputes_resolved : ℕ
  pub resolved_to_buyer : ℕ
  pub resolved_to_seller : ℕ
  pub resolved_partial : ℕ

pub record PlatformStats : Type 0 where
  pub metrics : PlatformMetrics
  pub success_rate_bps : ℕ
  pub dispute_rate_bps : ℕ
  pub active_trades : ℕ

pub record PeriodAnalytics : Type 0 where
  pub start_time : ℕ
  pub end_time : ℕ
  pub window_matched : Bool
  pub volume : ℕ
  pub trades_created : ℕ
  pub trades_completed : ℕ
  pub trades_disputed : ℕ
  pub trades_cancelled : ℕ
  pub success_rate_bps : ℕ
  pub active_escrows : ℕ
  pub unique_participants : ℕ
  pub total_fees_collected : ℕ

-- The storage of the module: a window is kept under its tag.
pub record Analytics : Type 0 where
  pub metrics : Option PlatformMetrics
  pub windows : ℕ → Option WindowMetrics
  pub unique_count : Option ℕ
  pub unique_addr : ℕ → Bool
  pub arb_stats : ℕ → Option ArbitratorMetrics

abbrev pub inc : ℕ → ℕ
inc n = saturating_add u64_mod n 1

pub no_metrics : PlatformMetrics
no_metrics = record {
  total_volume = 0;
  trades_created = 0;
  trades_funded = 0;
  trades_completed = 0;
  trades_disputed = 0;
  trades_cancelled = 0;
  total_fees_collected = 0;
}

unfoldable pub load_metrics : Analytics → PlatformMetrics
unfolding no_metrics
load_metrics s = get_or s.metrics no_metrics

unfoldable pub save_metrics : PlatformMetrics → Analytics → Analytics
save_metrics m s = record s { metrics = some m }

unfoldable pub window_tag : TimeWindow → ℕ
window_tag last_24h = 0
window_tag last_7d = 1
window_tag last_30d = 2
window_tag all_time = 3

unfoldable pub window_seconds : TimeWindow → ℕ
window_seconds last_24h = 86400
window_seconds last_7d = 604800
window_seconds last_30d = 2592000
window_seconds all_time = u64_mod - 1

unfoldable pub new_window : ℕ → ℕ → WindowMetrics
new_window now secs = record {
  window_start = now;
  window_seconds = secs;
  volume = 0;
  trades_created = 0;
  trades_completed = 0;
  trades_cancelled = 0;
  trades_disputed = 0;
}

unfoldable pub load_window : Ctx → TimeWindow → Analytics → WindowMetrics
unfolding new_window window_seconds window_tag
load_window c w s = get_or (s.windows (window_tag w)) (new_window c.timestamp (window_seconds w))

unfoldable pub load_or_reset_window : Ctx → TimeWindow → Analytics → WindowMetrics
unfolding load_window
load_or_reset_window c w s =
    let secs = window_seconds w in
    let wm = load_window c w s in
    if not (secs == (u64_mod - 1)) && leb secs (c.timestamp - wm.window_start)
    then new_window c.timestamp secs
    else wm

unfoldable pub save_window : TimeWindow → WindowMetrics → Analytics → Analytics
save_window w wm s = record s { windows = update s.windows (window_tag w) (some wm) }

unfoldable pub update_window :
    Ctx → (WindowMetrics → WindowMetrics) → TimeWindow → Analytics → Analytics
unfolding load_or_reset_window save_window
update_window c f w s = save_window w (f (load_or_reset_window c w s)) s

unfoldable pub update_all_windows : Ctx → (WindowMetrics → WindowMetrics) → Analytics → Analytics
unfolding update_window
update_all_windows c f s =
    let a = update_window c f last_24h s in
    let b = update_window c f last_7d a in
    let d = update_window c f last_30d b in update_window c f all_time d

unfoldable pub load_unique_count : Analytics → ℕ
load_unique_count s = get_or s.unique_count 0

unfoldable pub record_address : ℕ → Analytics → Analytics
unfolding load_unique_count
record_address addr s = if s.unique_addr addr then s else record s {
  unique_addr = update s.unique_addr addr true;
  unique_count = some (inc (load_unique_count s));
}

unfoldable pub load_arb_metrics : ℕ → Analytics → ArbitratorMetrics
load_arb_metrics arb s = get_or (s.arb_stats arb) (record {
  disputes_resolved = 0;
  resolved_to_buyer = 0;
  resolved_to_seller = 0;
  resolved_partial = 0;
})

unfoldable pub on_trade_created : Ctx → ℕ → ℕ → ℕ → Analytics → Analytics
unfolding load_metrics save_metrics update_all_windows record_address
on_trade_created c amount seller buyer s =
    let m = load_metrics s in
    let saved =
      save_metrics
        (record m {
          trades_created = inc m.trades_created;
          total_volume = saturating_add u64_mod m.total_volume amount;
        })
        s in
    let windows =
      update_all_windows c
        (λ wm. record wm {
          trades_created = inc wm.trades_created;
          volume = saturating_add u64_mod wm.volume amount;
        })
        saved in
    record_address buyer (record_address seller windows)

unfoldable pub on_trade_funded : Analytics → Analytics
unfolding load_metrics save_metrics
on_trade_funded s =
    let m = load_metrics s in save_metrics (record m { trades_funded = inc m.trades_funded }) s

unfoldable pub on_trade_completed : Ctx → ℕ → Analytics → Analytics
unfolding load_metrics save_metrics update_all_windows
on_trade_completed c fee s =
    let m = load_metrics s in
    let saved =
      save_metrics
        (record m {
          trades_completed = inc m.trades_completed;
          total_fees_collected = saturating_add u64_mod m.total_fees_collected fee;
        })
        s in
    update_all_windows c (λ wm. record wm { trades_completed = inc wm.trades_completed }) saved

unfoldable pub on_trade_disputed : Ctx → Analytics → Analytics
unfolding load_metrics save_metrics update_all_windows
on_trade_disputed c s =
    let m = load_metrics s in
    update_all_windows c (λ wm. record wm { trades_disputed = inc wm.trades_disputed })
      (save_metrics (record m { trades_disputed = inc m.trades_disputed }) s)

unfoldable pub on_trade_cancelled : Ctx → Analytics → Analytics
unfolding load_metrics save_metrics update_all_windows
on_trade_cancelled c s =
    let m = load_metrics s in
    update_all_windows c (λ wm. record wm { trades_cancelled = inc wm.trades_cancelled })
      (save_metrics (record m { trades_cancelled = inc m.trades_cancelled }) s)

unfoldable pub on_dispute_resolved : ℕ → ℕ → Analytics → Analytics
unfolding load_arb_metrics
on_dispute_resolved arb resolution s =
    let m = load_arb_metrics arb s in
    let n : ArbitratorMetrics = record m { disputes_resolved = inc m.disputes_resolved } in
    let r : ArbitratorMetrics =
      if resolution == 0
      then record n { resolved_to_buyer = inc n.resolved_to_buyer }
      else if resolution == 1
      then record n { resolved_to_seller = inc n.resolved_to_seller }
      else record n { resolved_partial = inc n.resolved_partial } in
    record s { arb_stats = update s.arb_stats arb (some r) }

-- `(part as u128 * 10_000 / whole as u128) as u32`, 0 where the whole is 0
unfoldable pub rate_bps : ℕ → ℕ → ℕ
rate_bps part whole = if whole == 0 then 0 else as_u32 (part * 10000 / whole)

unfoldable pub terminal_trades : PlatformMetrics → ℕ
terminal_trades m =
    saturating_add u64_mod (saturating_add u64_mod m.trades_completed m.trades_cancelled)
      m.trades_disputed

unfoldable pub compute_stats : PlatformMetrics → PlatformStats
unfolding rate_bps terminal_trades
compute_stats m = record {
  metrics = m;
  success_rate_bps = rate_bps m.trades_completed (terminal_trades m);
  dispute_rate_bps = rate_bps m.trades_disputed m.trades_funded;
  active_trades = m.trades_created - m.trades_completed - m.trades_cancelled - m.trades_disputed;
}

unfoldable pub period_window : ℕ → TimeWindow
period_window span =
    if leb span 86400
    then last_24h
    else if leb span 604800
    then last_7d
    else if leb span 2592000
    then last_30d
    else all_time

unfoldable pub get_analytics_by_period : Ctx → ℕ → ℕ → Analytics → PeriodAnalytics
unfolding period_window load_or_reset_window load_metrics compute_stats load_unique_count
get_analytics_by_period c start_time end_time s =
    let wm = load_or_reset_window c (period_window (end_time - start_time)) s in
    let stats = compute_stats (load_metrics s) in
    record {
      start_time = start_time;
      end_time = end_time;
      window_matched =
          leb start_time wm.window_start && leb wm.window_start (min end_time c.timestamp);
      volume = wm.volume;
      trades_created = wm.trades_created;
      trades_completed = wm.trades_completed;
      trades_disputed = wm.trades_disputed;
      trades_cancelled = wm.trades_cancelled;
      success_rate_bps = stats.success_rate_bps;
      active_escrows = stats.active_trades;
      unique_participants = load_unique_count s;
      total_fees_collected = stats.metrics.total_fees_collected;
    }
