-- ===== src/Sync.antt =====
-- frontend/src/offline/sync.ts and the tables of frontend/src/offline/db.ts: sales wait in a local
-- queue until the server takes them. IndexedDB, sorting and dates are the record `Store`.
pub mod Backoff
pub mod Queue
pub mod Recover
mod Tests
use blend_posv.Prelude.{
  ℕ, ◌+◌, ◌≡◌, ◌↔◌, Bool, true, false, not, ◌&&◌, ◌||◌, Option, none, some, List, [], ◌∷◌, map, In,
  ltb, leb, if◌then◌else◌,
}
use blend_posv.Text.{Text, codes, text_eq, includes}
pub use blend_posv.Text.{has_text}
use blend_posv.Dict.{Dict, lookup, insert}
use blend_posv.Table.{Table, IsTable}
use blend_posv.Sale.{LocalSale}

pub data Status : Type 0 where
  pending synced error : Status

-- `payload` is the `saleId` of the payload, `none` where it has none.
pub record SyncQueueItem : Type 0 where
  pub id : ℕ
  pub payload : Option Text
  pub created_at : Text
  pub updated_at : Option Text
  pub status : Status
  pub tries : ℕ
  pub next_attempt_at : Option Text
  pub last_error : Option Text

-- What the server says of one sale; `estado` as in the answer.
pub record SyncSaleResult : Type 0 where
  pub id : Option Text
  pub estado : Text
  pub offline_id : Option Text

-- What `syncSalesBatch` throws: `OfflineError`, a `TypeError`, or another value.
pub data Failure : Type 0 where
  offline_error : Text → Failure
  type_error : Text → Failure
  other : Text → Failure

pub data Reply : Type 0 where
  results : List SyncSaleResult → Reply
  failed : Failure → Reply

-- `sort` is `sortBy('createdAt')`, `next_id` the key that the table gives to a new row, `iso` and
-- `parse` are `toISOString` and `Date.parse`, with `none` for NaN.
pub record Store (N : Type 0) : Type 1 where
  pub sales : Table Text (LocalSale N)
  pub queue : Table ℕ SyncQueueItem
  pub next_id : queue.Rows → ℕ
  pub sort : List SyncQueueItem → List SyncQueueItem
  pub iso : ℕ → Text
  pub parse : Text → Option ℕ

pub record IsStore {N : Type 0} (st : Store N) : Type 0 where
  pub sales_table : IsTable st.sales
  pub queue_table : IsTable st.queue
  pub sale_key : (s : LocalSale N) → st.sales.key s ≡ s.id
  pub item_key : (q : SyncQueueItem) → st.queue.key q ≡ q.id
  pub fresh : (r : st.queue.Rows) → st.queue.get r (st.next_id r) ≡ none
  pub in_sort : (q : SyncQueueItem) (qs : List SyncQueueItem) → In q (st.sort qs) ↔ In q qs

-- `db.sales` and `db.sync_queue`.
pub record Db {N : Type 0} (st : Store N) : Type 0 where
  pub sales : st.sales.Rows
  pub queue : st.queue.Rows

abbrev pub sync_batch_size : ℕ
sync_batch_size = 25

abbrev pub max_tries_before_error : ℕ
max_tries_before_error = 3

abbrev pub min_backoff_ms : ℕ
min_backoff_ms = 5_000

abbrev pub max_backoff_ms : ℕ
max_backoff_ms = 300_000

abbrev pub is_pending : SyncQueueItem → Bool
is_pending q = elim q.status [ pending ↦ true | synced ↦ false | error ↦ false ]

abbrev pub is_error : SyncQueueItem → Bool
is_error q = elim q.status [ pending ↦ false | synced ↦ false | error ↦ true ]

unfoldable pub is_sync_success : SyncSaleResult → Bool
is_sync_success r =
    text_eq r.estado (codes "completada")
    || (has_text r.id
        && (not (text_eq r.estado (codes "error")) && not (text_eq r.estado (codes "rechazada"))))

-- ASCII letters in lower case, for the regular expression /fetch|network/i.
abbrev pub lower : ℕ → ℕ
lower c = if leb 65 c && leb c 90 then c + 32 else c

abbrev pub mentions_network : Text → Bool
mentions_network m =
    includes (codes "fetch") (map lower m) || includes (codes "network") (map lower m)

abbrev pub message : Failure → Text
message (offline_error m) = m
message (type_error m) = m
message (other m) = m

abbrev pub fails_offline : Failure → Bool
fails_offline (offline_error m) = true
fails_offline (type_error m) = mentions_network m
fails_offline (other m) = false

unfoldable pub is_offline_error : Failure → Bool → Bool
is_offline_error err online = fails_offline err || not online
