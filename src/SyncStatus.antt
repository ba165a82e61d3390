-- ===== src/SyncStatus.antt =====
-- frontend/src/hooks/useSyncStatus.ts: how often the queue is tried, and when its length is
-- reported. The hook's refs and state are a record; each event of the browser is a function.
pub mod Alerts
mod Tests
use blend_posv.Prelude.{
  ℕ, ◌*◌, min, Bool, true, false, not, ◌&&◌, List, [], ◌∷◌, ltb, if◌then◌else◌,
}

pub data SyncState : Type 0 where
  idle syncing error : SyncState

pub record SyncStatus : Type 0 where
  pub pending : ℕ
  pub errors : ℕ
  pub sync_state : SyncState
  pub interval : ℕ
  pub alerted : Bool

abbrev pub base_interval_ms : ℕ
base_interval_ms = 30_000

abbrev pub max_interval_ms : ℕ
max_interval_ms = 300_000

abbrev pub queue_alert_limit : ℕ
queue_alert_limit = 100

abbrev pub first_status : SyncStatus
first_status = record {
  pending = 0;
  errors = 0;
  sync_state = idle;
  interval = base_interval_ms;
  alerted = false;
}

-- `attemptSync` at its end; `threw` says that `trySyncQueue` threw. Runs that other code starts are
-- not events of this hook.
unfoldable pub attempt_sync : Bool → Bool → SyncStatus → SyncStatus
attempt_sync online threw s =
    if not online
    then record s { sync_state = idle }
    else if threw
    then record s { interval = min (s.interval * 2) max_interval_ms; sync_state = idle }
    else record s { interval = base_interval_ms; sync_state = idle }

-- The statistics after a scheduled attempt.
unfoldable pub show_stats : ℕ → ℕ → SyncStatus → SyncStatus
show_stats pending errors s = record s { pending = pending; errors = errors }

-- The poll of every two seconds, and whether it shows the notification.
unfoldable pub poll_stats : ℕ → ℕ → SyncStatus → SyncStatus × Bool
unfolding show_stats
poll_stats pending errors s =
    let s' = show_stats pending errors s in
    if ltb queue_alert_limit pending
    then (record s' { alerted = true }, not s.alerted)
    else (record s' { alerted = false }, false)

-- `onOnline`, before the attempt that it starts.
unfoldable pub on_online : SyncStatus → SyncStatus
on_online s = record s { interval = base_interval_ms }
