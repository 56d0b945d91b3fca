-- ===== src/Analytics/Windows.antt =====
-- The rolling windows.
use stellar_escrow.Prelude.{◌-◌, ◌<◌, ◌≡◌, ◌≢◌, refl, arith, some}
use stellar_escrow.Soroban.{Ctx}
use stellar_escrow.Analytics.{
  WindowMetrics, TimeWindow, last_24h, last_7d, last_30d, all_time, Analytics, window_seconds,
  window_tag, load_or_reset_window, update_all_windows,
}

-- A rolling window that is read started less than its length ago.
pub load_or_reset_window_covers :
    (c : Ctx) (w : TimeWindow) (s : Analytics)
    → w ≢ all_time
    → c.timestamp - (load_or_reset_window c w s).window_start < window_seconds w
unfolding load_or_reset_window window_seconds
load_or_reset_window_covers c last_24h s ne = ground arith
load_or_reset_window_covers c last_7d s ne = ground arith
load_or_reset_window_covers c last_30d s ne = ground arith
load_or_reset_window_covers c all_time s ne = absurd (ne refl)

-- Each of the four windows is updated exactly once.
pub update_all_windows_each :
    (c : Ctx) (f : WindowMetrics → WindowMetrics) (w : TimeWindow) (s : Analytics)
    → (update_all_windows c f s).windows (window_tag w) ≡ some (f (load_or_reset_window c w s))
unfolding update_all_windows window_tag load_or_reset_window
update_all_windows_each c f last_24h s = refl
update_all_windows_each c f last_7d s = refl
update_all_windows_each c f last_30d s = refl
update_all_windows_each c f all_time s = refl
