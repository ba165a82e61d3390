-- ===== src/Sync/Recover.antt =====
-- `recoverLostSales` of frontend/src/offline/sync.ts, which runs when the application starts.
pub mod Purge
pub mod Requeue
mod Tests
use blend_posv.Prelude.{
  ℕ, ◌+◌, Bool, true, false, not, Option, none, some, List, [], ◌∷◌, map, ltb, leb, if◌then◌else◌,
  or_else, filter, length,
}
use blend_posv.Text.{Text, member}
use blend_posv.Table.{put_all, delete_all}
use blend_posv.Sale.{LocalSale}
use blend_posv.Sync.{SyncQueueItem, pending, Store, Db, max_tries_before_error, is_error, has_text}
use blend_posv.Sync.Queue.{new_item, batch_ids}

-- The truthy `saleId`s of the queue.
abbrev pub queued_ids : List SyncQueueItem → List Text
queued_ids [] = []
queued_ids (q ∷ qs) =
    if has_text q.payload then or_else q.payload [] ∷ queued_ids qs else queued_ids qs

abbrev pub reset_item : Text → SyncQueueItem → SyncQueueItem
reset_item created_at q = record q {
  status = pending;
  tries = 0;
  next_attempt_at = some created_at;
  updated_at = some created_at;
}

module _ {N : Type 0} (st : Store N) where
  open st use {sales, queue, next_id, iso}

  abbrev pub error_items : Db st → List SyncQueueItem
  error_items db = filter is_error (queue.to_array db.queue)

  abbrev pub to_reset : Db st → List SyncQueueItem
  to_reset db = filter (λ (q : SyncQueueItem). ltb q.tries max_tries_before_error) (error_items db)

  abbrev pub to_purge : Db st → List SyncQueueItem
  to_purge db = filter (λ (q : SyncQueueItem). leb max_tries_before_error q.tries) (error_items db)

  -- Step 1: reset or purge the items in error.
  unfoldable pub reset_errors : ℕ → Db st → Db st
  reset_errors now db = record db {
    queue =
        delete_all queue (batch_ids st (to_purge db))
          (put_all queue (map (reset_item (iso now)) (to_reset db)) db.queue);
  }

  -- The loop of step 2, with the number of sales put back.
  unfoldable pub requeue : ℕ → List Text → List (LocalSale N) → Db st × ℕ → Db st × ℕ
  requeue now existing [] acc = acc
  requeue now existing (s ∷ ss) (db, count) = requeue now existing ss (
      if member s.id existing then (db, count) else (
        record {
          sales = sales.put db.sales (record s { synced = false });
          queue = queue.put db.queue (new_item st (next_id db.queue) s.id (iso now));
        },
        count + 1,
      ))

  -- The tables after the call, and the number that it returns.
  unfoldable pub recover_lost_sales : ℕ → Db st → Db st × ℕ
  unfolding reset_errors requeue
  recover_lost_sales now db =
      let db' = reset_errors now db in
      requeue now (queued_ids (queue.to_array db'.queue))
        (filter (λ (s : LocalSale N). s.synced) (sales.to_array db'.sales))
        (db', length (to_reset db))
