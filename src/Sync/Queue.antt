-- ===== src/Sync/Queue.antt =====
-- The operations on the queue: `enqueueSale`, `trySyncQueue`, `getSyncStats`.
pub mod Invariant
pub mod Coverage
pub mod NoLoss
pub mod Retry
pub mod Waiting
pub mod Drained
mod Tests
use blend_posv.Prelude.{
  ℕ, suc, ◌+◌, ◌==◌, Bool, true, false, not, ◌&&◌, ◌||◌, Option, none, some, List, [], ◌∷◌, ◌++◌,
  map, ltb, leb, if◌then◌else◌, or_else, take, filter, any, length, is_some,
}
use blend_posv.Text.{Text, codes, text_eq, truthy, member}
use blend_posv.Dict.{Dict, lookup, insert}
use blend_posv.Table.{Table, put_all, delete_all, get_all}
use blend_posv.Sale.{SaleRecord, LocalSale, to_local_sale}
use blend_posv.Sync.{
  Status, pending, synced, error, SyncQueueItem, SyncSaleResult, Failure, Reply, results, failed,
  Store, Db, sync_batch_size, max_tries_before_error, min_backoff_ms, is_pending, is_error,
  has_text, is_sync_success, message, is_offline_error,
}
use blend_posv.Sync.Backoff.{compute_backoff_ms}

-- `new Map(...)` from each sale to its queue item; a later item of a sale replaces an earlier one.
unfoldable pub by_sale_id : List SyncQueueItem → Dict SyncQueueItem → Dict SyncQueueItem
by_sale_id [] m = m
by_sale_id (q ∷ qs) m =
    by_sale_id qs (if has_text q.payload then insert (or_else q.payload []) q m else m)

unfoldable pub by_offline_id : List SyncSaleResult → Dict SyncSaleResult → Dict SyncSaleResult
by_offline_id [] m = m
by_offline_id (r ∷ rs) m =
    by_offline_id rs (if has_text r.offline_id then insert (or_else r.offline_id []) r m else m)

abbrev pub keys {ℓ} : {V : Type ℓ} → Dict V → List Text
keys [] = []
keys ((k, v) ∷ d) = k ∷ keys d

abbrev pub accepted : Dict SyncSaleResult → Text → Bool
accepted answers id = elim (lookup id answers) [ none ↦ false | some r ↦ is_sync_success r ]

abbrev pub estado_of : Dict SyncSaleResult → Text → Text
estado_of answers id = elim (lookup id answers) [ none ↦ codes "unknown" | some r ↦ r.estado ]

-- The sales of `okSaleIds` and of `failedEntries`.
abbrev pub ok_sales : {N : Type 0} → Dict SyncSaleResult → List (LocalSale N) → List (LocalSale N)
ok_sales answers = filter (λ s. accepted answers s.id)

abbrev pub failed_sales :
    {N : Type 0} → Dict SyncSaleResult → List (LocalSale N) → List (LocalSale N)
failed_sales answers = filter (λ s. not (accepted answers s.id))

-- `tries >= MAX_TRIES_BEFORE_ERROR ? 'error' : 'pending'`
abbrev pub status_after : ℕ → Status
status_after tries = if leb max_tries_before_error tries then error else pending

module _ {N : Type 0} (st : Store N) where
  open st use {sales, queue, next_id, sort, iso, parse}

  -- The item that `enqueueSale` and `recoverLostSales` add for a sale.
  abbrev pub new_item : ℕ → Text → Text → SyncQueueItem
  new_item id sale_id created_at = record {
    id = id;
    payload = some sale_id;
    created_at = created_at;
    updated_at = some created_at;
    status = pending;
    tries = 0;
    next_attempt_at = some created_at;
    last_error = none;
  }

  unfoldable pub enqueue_sale : ℕ → SaleRecord N → Db st → Db st
  enqueue_sale now sale db = record {
    sales = sales.put db.sales (to_local_sale iso sale);
    queue = queue.put db.queue (new_item (next_id db.queue) sale.id (iso now));
  }

  -- A time that does not parse counts as due.
  abbrev pub is_due : ℕ → SyncQueueItem → Bool
  is_due now q =
      if has_text q.next_attempt_at
      then (elim (parse (or_else q.next_attempt_at [])) [ none ↦ true | some ts ↦ leb ts now ])
      else true

  unfoldable pub next_batch : ℕ → Db st → List SyncQueueItem
  next_batch now db =
      take sync_batch_size
        (filter (is_due now) (sort (filter is_pending (queue.to_array db.queue))))

  -- A rejected item waits for its next attempt, or ends as an error.
  abbrev pub retried : (ℕ → ℕ) → ℕ → Text → SyncQueueItem → SyncQueueItem
  retried random now why q =
      let tries = q.tries + 1 in
      record q {
        tries = tries;
        last_error = some why;
        updated_at = some (iso now);
        next_attempt_at = some (iso (now + compute_backoff_ms (random q.id) tries));
        status = status_after tries;
      }

  abbrev pub postponed : ℕ → Text → SyncQueueItem → SyncQueueItem
  postponed now why q = record q {
    last_error = some why;
    updated_at = some (iso now);
    next_attempt_at = some (iso (now + min_backoff_ms));
  }

  abbrev pub rejection : Text → Text
  rejection estado = codes "Backend: estado=" ++ estado

  -- The loop over the sales that were not accepted.
  unfoldable pub retry_failed :
      (ℕ → ℕ)
      → ℕ
      → Dict SyncQueueItem
      → Dict SyncSaleResult
      → List (LocalSale N)
      → queue.Rows
      → queue.Rows
  retry_failed random now items answers [] rows = rows
  retry_failed random now items answers (s ∷ ss) rows =
      retry_failed random now items answers ss (elim (lookup s.id items) [
        | none ↦ rows
        | some q ↦ queue.put rows (retried random now (rejection (estado_of answers s.id)) q)
      ])

  abbrev pub mark_synced : LocalSale N → LocalSale N
  mark_synced s = record s { synced = true }

  abbrev pub item_ids : Dict SyncQueueItem → List (LocalSale N) → List ℕ
  item_ids items [] = []
  item_ids items (s ∷ ss) = elim (lookup s.id items) [
    | none ↦ item_ids items ss
    | some q ↦ q.id ∷ item_ids items ss
  ]

  -- The transaction after the server has answered.
  unfoldable pub settle :
      (ℕ → ℕ) → ℕ → Dict SyncQueueItem → List (LocalSale N) → List SyncSaleResult → Db st → Db st
  unfolding by_offline_id by_sale_id retry_failed
  settle random now items batch_sales answer db =
      let answers = by_offline_id answer [] in
      let ok = ok_sales answers batch_sales in
      record {
        sales = put_all sales (map mark_synced ok) db.sales;
        queue =
            retry_failed random now items answers (failed_sales answers batch_sales)
              (delete_all queue (item_ids items ok) db.queue);
      }

  -- The transaction after the request has failed.
  unfoldable pub settle_failure : (ℕ → ℕ) → ℕ → Bool → List SyncQueueItem → Failure → Db st → Db st
  settle_failure random now online batch err db =
      let offline = is_offline_error err online in
      let changed =
        map
          (λ (q : SyncQueueItem).
            if offline then postponed now (message err) q else retried random now (message err) q)
          batch in
      record db { queue = put_all queue changed db.queue }

  abbrev pub batch_ids : List SyncQueueItem → List ℕ
  batch_ids [] = []
  batch_ids (q ∷ qs) = q.id ∷ batch_ids qs

  -- The `try` block after the request, and its `catch`.
  unfoldable pub on_reply :
      (ℕ → ℕ) → ℕ → Bool → List SyncQueueItem → List (LocalSale N) → Reply → Db st → Db st
  unfolding settle settle_failure by_sale_id
  on_reply random now online batch batch_sales (results answer) db =
      settle random now (by_sale_id batch []) batch_sales answer db
  on_reply random now online batch batch_sales (failed err) db =
      settle_failure random now online batch err db

  -- The sales of a batch, in the order of the map.
  unfoldable pub batch_sales_of : List SyncQueueItem → Db st → List (LocalSale N)
  unfolding by_sale_id
  batch_sales_of batch db = get_all sales db.sales (keys (by_sale_id batch []))

  -- `start` is the time of the call and `now` that of the answer; `online` says so before the
  -- request, `online'` after it; `between` is what other code does to the tables meanwhile.
  unfoldable pub try_sync_queue :
      Bool → Bool → ℕ → ℕ → (ℕ → ℕ) → (List (LocalSale N) → Reply) → (Db st → Db st) → Db st → Db st
  unfolding next_batch batch_sales_of on_reply
  try_sync_queue online online' start now random server between db =
      let batch = next_batch start db in
      let batch_sales = batch_sales_of batch db in
      if not online || (length batch == 0)
      then db
      else if length batch_sales == 0
      then record db { queue = delete_all queue (batch_ids batch) db.queue }
      else on_reply random now online' batch batch_sales (server batch_sales) (between db)

  unfoldable pub get_sync_stats : Db st → ℕ × ℕ
  get_sync_stats db = (
    length (filter is_pending (queue.to_array db.queue)),
    length (filter is_error (queue.to_array db.queue)),
  )
