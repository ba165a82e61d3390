-- ===== src/SyncStatus/Alerts.antt =====
-- The waiting time, and the notifications, over all events.
use blend_posv.Prelude.{
  ℕ, ◌+◌, ◌≤◌, ◌≡◌, refl, Bool, true, false, not, ◌&&◌, List, [], ◌∷◌, ltb, arith, if◌then◌else◌,
  Bool-cases, inl, inr, ap,
}
use blend_posv.SyncStatus.{
  SyncStatus, base_interval_ms, max_interval_ms, queue_alert_limit, attempt_sync, show_stats,
  poll_stats, on_online,
}

pub data Event : Type 0 where
  tries : Bool → Bool → Event
  shows polls : ℕ → ℕ → Event
  connects : Event

-- The status after an event, and the notifications that it shows.
unfoldable pub react : Event → SyncStatus → SyncStatus × ℕ
unfolding attempt_sync show_stats poll_stats on_online
react (tries online threw) s = (attempt_sync online threw s, 0)
react (shows pending errors) s = (show_stats pending errors s, 0)
react (polls pending errors) s =
    let (s', shown) = poll_stats pending errors s in (s', if shown then 1 else 0)
react connects s = (on_online s, 0)

unfoldable pub watch : List Event → SyncStatus → SyncStatus × ℕ
unfolding react
watch [] s = (s, 0)
watch (e ∷ es) s =
    let (s', here) = react e s in let (s'', later) = watch es s' in (s'', here + later)

-- How often the polled length of the queue goes from within the limit to above it; `above` says
-- that it was above.
abbrev pub rises : Bool → List Event → ℕ
rises above [] = 0
rises above (polls pending errors ∷ es) =
    let now = ltb queue_alert_limit pending in (if now && not above then 1 else 0) + rises now es
rises above (tries online threw ∷ es) = rises above es
rises above (shows pending errors ∷ es) = rises above es
rises above (connects ∷ es) = rises above es

-- Whatever happens, the time after which the next attempt is scheduled stays between 30 seconds and
-- 5 minutes if it was, and the user is told of a long queue exactly as often as a poll finds it
-- above the limit after one that did not. Attempts that other events start at once are not spaced
-- by it.
pub watch_lem :
    (es : List Event) (s : SyncStatus)
    → base_interval_ms ≤ s.interval
    → s.interval ≤ max_interval_ms
    → (base_interval_ms ≤ (watch es s).0.interval)
      × ((watch es s).0.interval ≤ max_interval_ms)
      × ((watch es s).1 ≡ rises s.alerted es)
unfolding watch react attempt_sync show_stats poll_stats on_online
watch_lem [] s low high = (low, high, refl)
watch_lem (tries false threw ∷ es) s low high =
    let (a, b, c) = watch_lem es (attempt_sync false threw s) low high in (a, b, omega (arith, c))
watch_lem (tries true true ∷ es) s low high =
    let (a, b, c) = watch_lem es (attempt_sync true true s) (omega arith) (omega arith) in
    (a, b, omega (arith, c))
watch_lem (tries true false ∷ es) s low high =
    let (a, b, c) = watch_lem es (attempt_sync true false s) (omega arith) (omega arith) in
    (a, b, omega (arith, c))
watch_lem (shows pending errors ∷ es) s low high =
    let (a, b, c) = watch_lem es (show_stats pending errors s) low high in (a, b, omega (arith, c))
watch_lem (polls pending errors ∷ es) s low high =
    elim (Bool-cases (ltb queue_alert_limit pending)) [
      | inl e ↦ rw e (
          let (a, b, c) =
            watch_lem es (record (show_stats pending errors s) { alerted = true }) low high in
          (a, b, ap (λ k. (if not s.alerted then 1 else 0) + k) c))
      | inr e ↦ rw e (
          let (a, b, c) =
            watch_lem es (record (show_stats pending errors s) { alerted = false }) low high in
          (a, b, ap (λ k. 0 + k) c))
    ]
watch_lem (connects ∷ es) s low high =
    let (a, b, c) = watch_lem es (on_online s) (omega arith) (omega arith) in
    (a, b, omega (arith, c))
