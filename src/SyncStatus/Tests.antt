-- ===== src/SyncStatus/Tests.antt =====
-- The status at a concrete sequence of events.
use blend_posv.Prelude.{◌≤◌, ◌≡◌, true, false, List, [], ◌∷◌, arith}
use blend_posv.SyncStatus.{first_status}
use blend_posv.SyncStatus.Alerts.{Event, polls, tries, connects, watch, rises, watch_lem}

abbrev day : List Event
day = polls 150 0 ∷ tries true true ∷ polls 160 0 ∷ polls 20 0 ∷ connects ∷ polls 101 0 ∷ []

watch_lem_example :
    (30_000 ≤ (watch day first_status).0.interval)
    × ((watch day first_status).0.interval ≤ 300_000)
    × ((watch day first_status).1 ≡ rises false day)
watch_lem_example = watch_lem day first_status (omega arith) (omega arith)
