-- ===== src/Sync/Recover/Purge.antt =====
-- What the recovery does to sales that the server has refused three times.
use mathlib.Core.Option.{some-injective}
use blend_posv.Prelude.{
  ℕ, ◌+◌, ◌≤◌, ◌≡◌, ◌≢◌, refl, sym, subst, ap, ◌∙◌, inl, inr, true, false, none, some, List, [],
  ◌∷◌, arith, In, In-filter, filter-In, filter-eq-nil, filter, if_intro, length,
}
use blend_posv.Text.{Text, member}
use blend_posv.Table.{put_all}
use blend_posv.Table.Rows.{AllRows, AllRows-put, get-delete_all, get-delete_all_old}
use blend_posv.Sale.{LocalSale}
use blend_posv.Sync.{SyncQueueItem, Store, IsStore, Db, is_error}
use blend_posv.Sync.Queue.{new_item, batch_ids}
use blend_posv.Sync.Queue.Invariant.{IsSpent}
use blend_posv.Sync.Recover.{
  queued_ids, error_items, to_reset, to_purge, reset_errors, requeue, recover_lost_sales,
}

module _ {N : Type 0} (st : Store N) (laws : IsStore st) where
  listed :
      (db : Db st) (q : SyncQueueItem)
      → In q (st.queue.to_array db.queue)
      → st.queue.get db.queue q.id ≡ some q
  listed db q m =
      subst (λ (j : ℕ). st.queue.get db.queue j ≡ some q) (laws.item_key q)
        ((laws.queue_table.in_array db.queue q).0 m)

  -- No item is ever reset: an item in error has spent its attempts.
  to_reset-eq-nil : (db : Db st) → IsSpent st laws db → to_reset st db ≡ []
  to_reset-eq-nil db h = filter-eq-nil _ (error_items st db) λ q m.
      let (m', e) = In-filter is_error q _ m in
      let spent : 3 ≤ q.tries = h q.id q (listed db q m') e in ground arith

  In-batch_ids : (q : SyncQueueItem) (qs : List SyncQueueItem) → In q qs → In q.id (batch_ids st qs)
  In-batch_ids q [] m = m
  In-batch_ids q (r ∷ rs) (inl e) = inl (ap (λ (x : SyncQueueItem). x.id) e)
  In-batch_ids q (r ∷ rs) (inr m) = inr (In-batch_ids q rs m)

  In-to_purge :
      (db : Db st) (q : SyncQueueItem)
      → IsSpent st laws db
      → st.queue.get db.queue q.id ≡ some q
      → is_error q ≡ true
      → In q (to_purge st db)
  In-to_purge db q h e err =
      let spent : 3 ≤ q.tries = h q.id q e err in
      let there : In q (st.queue.to_array db.queue) =
        (laws.queue_table.in_array db.queue q).1
          (subst (λ (j : ℕ). st.queue.get db.queue j ≡ some q) (sym (laws.item_key q)) e) in
      filter-In _ q (error_items st db) (filter-In is_error q _ there err) (ground arith)

  -- The first step of the recovery deletes every item in error.
  reset_errors_purges :
      (now : ℕ) (db : Db st) (k : ℕ) (q : SyncQueueItem)
      → IsSpent st laws db
      → st.queue.get db.queue k ≡ some q
      → is_error q ≡ true
      → st.queue.get (reset_errors st now db).queue k ≡ none
  unfolding reset_errors put_all
  reset_errors_purges now db k q h e err =
      let same : q.id ≡ k = sym (laws.item_key q) ∙ laws.queue_table.get-key db.queue k q e in
      rw (to_reset-eq-nil db h) (
        get-delete_all st.queue laws.queue_table k _ db.queue (
          inl (
            subst (λ (j : ℕ). In j (batch_ids st (to_purge st db))) same
              (In-batch_ids q _ (
                In-to_purge db q h
                  (subst (λ (j : ℕ). st.queue.get db.queue j ≡ some q) (sym same) e) err)))))

  reset_errors_old :
      (now : ℕ) (db : Db st) (k : ℕ) (q : SyncQueueItem)
      → IsSpent st laws db
      → st.queue.get (reset_errors st now db).queue k ≡ some q
      → st.queue.get db.queue k ≡ some q
  unfolding reset_errors put_all
  reset_errors_old now db k q h e =
      get-delete_all_old st.queue laws.queue_table k (batch_ids st (to_purge st db)) db.queue q
        (rw (to_reset-eq-nil db h) at e)

  -- The second step adds items for other sales only.
  requeue_others :
      (now : ℕ) (id : Text) (existing : List Text) (ss : List (LocalSale N)) (acc : Db st × ℕ)
      → ((s : LocalSale N) → In s ss → s.id ≢ id)
      → AllRows st.queue laws.queue_table (λ q. q.payload ≢ some id) acc.0.queue
      → AllRows st.queue laws.queue_table
          (λ q. q.payload ≢ some id)
          (requeue st now existing ss acc).0.queue
  unfolding requeue
  requeue_others now id existing [] acc other h = h
  requeue_others now id existing (s ∷ ss) (db, count) other h =
      requeue_others now id existing ss _ (λ t m. other t (inr m))
        (if_intro
          (λ (a : Db st × ℕ).
            AllRows st.queue laws.queue_table (λ q. q.payload ≢ some id) a.0.queue)
          (member s.id existing) (db, count)
          (
            record {
              sales = st.sales.put db.sales (record s { synced = false });
              queue = st.queue.put db.queue (new_item st (st.next_id db.queue) s.id (st.iso now));
            },
            count + 1,
          )
          h
          (AllRows-put st.queue laws.queue_table (λ q. q.payload ≢ some id) db.queue _
            (λ e. other s (inl refl) (some-injective _ _ e)) h))

  -- A synced sale is another one than an unsynced sale.
  synced_others :
      (db : Db st) (id : Text) (s t : LocalSale N)
      → st.sales.get db.sales id ≡ some s
      → s.synced ≡ false
      → In t (filter (λ (u : LocalSale N). u.synced) (st.sales.to_array db.sales))
      → t.id ≢ id
  synced_others db id s t e unsynced m same =
      let (m', is) = In-filter (λ (u : LocalSale N). u.synced) t _ m in
      let key : st.sales.key t ≡ id = laws.sale_key t ∙ same in
      let found : some t ≡ some s =
        sym ((laws.sales_table.in_array db.sales t).0 m') ∙ ap (st.sales.get db.sales) key ∙ e in
      cc (ap (λ (u : LocalSale N). u.synced) (some-injective t s found))

  -- If an item in error has spent its three attempts, a sale that is not synced and whose queue
  -- items are all in error has no queue item after the recovery.
  pub recover_loses_failed_sale :
      (now : ℕ) (db : Db st) (id : Text) {s : LocalSale N}
      → IsSpent st laws db
      → st.sales.get db.sales id ≡ some s
      → s.synced ≡ false
      → AllRows st.queue laws.queue_table (λ q. q.payload ≡ some id → is_error q ≡ true) db.queue
      → AllRows st.queue laws.queue_table
          (λ q. q.payload ≢ some id)
          (recover_lost_sales st now db).0.queue
  unfolding recover_lost_sales
  recover_loses_failed_sale now db id {s} h e unsynced failed =
      requeue_others now id (queued_ids (st.queue.to_array (reset_errors st now db).queue))
        (filter (λ (u : LocalSale N). u.synced) (st.sales.to_array (reset_errors st now db).sales))
        (reset_errors st now db, length (to_reset st db))
        (λ t m. synced_others db id s t e unsynced (unfold reset_errors in m))
        (λ k q found pay. cc (
          found,
          reset_errors_purges now db k q h (reset_errors_old now db k q h found)
              (failed k q (reset_errors_old now db k q h found) pay),
        ))
