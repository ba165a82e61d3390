-- ===== src/Sync/Queue/NoLoss.antt =====
-- Sales that are not synced and the items of the queue, over `enqueueSale` and
-- `trySyncQueue`.
use mathlib.Core.Option.{some-injective}
use blend_posv.Prelude.{
  ℕ, ◌≡◌, refl, sym, subst, ap, ◌∙◌, inl, inr, Bool, some, List, [], ◌∷◌, In, In-map, if_intro,
  if◌then◌else◌,
}
use blend_posv.Text.{Text}
use blend_posv.Dict.{lookup}
use blend_posv.Table.{delete_all}
use blend_posv.Table.Rows.{
  HasRow, HasRow-put, HasRow-put_all, HasRow-delete_all, get-put_cases, get-put_self, get_all-nil,
}
use blend_posv.Sale.{SaleRecord, LocalSale, to_local_sale}
use blend_posv.Sync.{
  SyncQueueItem, SyncSaleResult, Failure, Reply, results, failed, Store, IsStore, Db,
  is_offline_error, message,
}
use blend_posv.Sync.Queue.{
  by_sale_id, by_offline_id, keys, ok_sales, failed_sales, item_ids, batch_ids, enqueue_sale,
  next_batch, retried, postponed, settle, settle_failure, on_reply, try_sync_queue, batch_sales_of,
  new_item,
}
use blend_posv.Sync.Queue.Invariant.{lookup-by_sale_id, In-next_batch, try_sync_queue_rule}
use blend_posv.Sync.Queue.Coverage.{
  IsFor, IsCovered, SamePayloads, lookup-by_sale_id-some, In-keys, retry_failed-HasRow,
  unsynced_old, not-In-item_ids,
}

module _ {N : Type 0} (st : Store N) (laws : IsStore st) where
  -- `enqueueSale` keeps that each unsynced sale with an id has a queue item.
  pub enqueue_sale-IsCovered :
      (now : ℕ) (sale : SaleRecord N) (db : Db st)
      → IsCovered st laws db
      → IsCovered st laws (enqueue_sale st now sale db)
  unfolding enqueue_sale to_local_sale
  enqueue_sale-IsCovered now sale db h id s t e unsynced =
      let item : SyncQueueItem = new_item st (st.next_id db.queue) sale.id (st.iso now) in
      elim (get-put_cases st.sales laws.sales_table db.sales (to_local_sale st.iso sale) id s e) [
        | inl new ↦ (
          st.next_id db.queue,
          (
            item,
            get-put_self st.queue laws.queue_table db.queue item _ (laws.item_key item),
            ap some (sym (laws.sale_key _) ∙ new.0),
          ),
        )
        | inr old ↦
            let (k, row) = h id s t old.1 unsynced in
            (
              k,
              HasRow-put st.queue laws.queue_table (IsFor st laws id) k db.queue item
                  (λ same. cc (laws.fresh db.queue, row.1, sym (laws.item_key item) ∙ same)) row,
            )
      ]

  -- An item of the map was in the queue before the request, under its own sale.
  item-was-queued :
      (start : ℕ) (db : Db st) (j : Text) (q : SyncQueueItem)
      → lookup j (by_sale_id (next_batch st start db) []) ≡ some q
      → (st.queue.get db.queue q.id ≡ some q) × (q.payload ≡ some j)
  item-was-queued start db j q e = elim (lookup-by_sale_id j q (next_batch st start db) [] e) [
    | inl no_item ↦ cc
    | inr (m, pay) ↦ (In-next_batch st laws start db q m, pay)
  ]

  -- An item of the map at a key is for the sale that the row of this key is still for.
  own-sale :
      (start : ℕ) (old db : Db st) (k : ℕ) (id j : Text) (r : SyncQueueItem)
      → SamePayloads st laws old db
      → HasRow st.queue laws.queue_table (IsFor st laws id) k db.queue
      → lookup j (by_sale_id (next_batch st start old) []) ≡ some r
      → r.id ≡ k
      → (r.payload ≡ some id) × (j ≡ id)
  own-sale start old db k id j r same row found is =
      let (queued, pay) = item-was-queued start old j r found in
      let here : st.queue.get old.queue k ≡ some r =
        subst (λ (x : ℕ). st.queue.get old.queue x ≡ some r) is queued in
      let mine : r.payload ≡ some id = sym (same k r row.0 here row.1) ∙ row.2 in
      (mine, some-injective _ _ (sym pay ∙ mine))

  settle-IsCovered :
      (random : ℕ → ℕ) (start now : ℕ) (old db : Db st) (ss : List (LocalSale N))
      (answer : List SyncSaleResult)
      → SamePayloads st laws old db
      → IsCovered st laws db
      → IsCovered st laws
          (settle st random now (by_sale_id (next_batch st start old) []) ss answer db)
  unfolding settle
  settle-IsCovered random start now old db ss answer same h id s t e unsynced =
      let items = by_sale_id (next_batch st start old) [] in
      let answers = by_offline_id answer [] in
      let (was, others) = unsynced_old st laws (ok_sales answers ss) db.sales id s e unsynced in
      let (k, row) = h id s t was unsynced in
      (
        k,
        retry_failed-HasRow st laws random now k id items answers (failed_sales answers ss) _
            (λ j r found is. (own-sale start old db k id j r same row found is).0)
            (HasRow-delete_all st.queue laws.queue_table (IsFor st laws id) k
              (item_ids st items (ok_sales answers ss)) db.queue
              (not-In-item_ids st laws k id items (ok_sales answers ss)
                (λ j r found is. (own-sale start old db k id j r same row found is).1) others)
              row),
      )

  -- The same for an item of the batch itself.
  own-item :
      (start : ℕ) (old db : Db st) (k : ℕ) (id : Text) (q : SyncQueueItem)
      → SamePayloads st laws old db
      → HasRow st.queue laws.queue_table (IsFor st laws id) k db.queue
      → In q (next_batch st start old)
      → q.id ≡ k
      → q.payload ≡ some id
  own-item start old db k id q same row m is =
      let here : st.queue.get old.queue k ≡ some q =
        subst (λ (x : ℕ). st.queue.get old.queue x ≡ some q) is
          (In-next_batch st laws start old q m) in
      sym (same k q row.0 here row.1) ∙ row.2

  settle_failure-IsCovered :
      (random : ℕ → ℕ) (start now : ℕ) (online : Bool) (old db : Db st) (err : Failure)
      → SamePayloads st laws old db
      → IsCovered st laws db
      → IsCovered st laws (settle_failure st random now online (next_batch st start old) err db)
  unfolding settle_failure
  settle_failure-IsCovered random start now online old db err same h id s t e unsynced =
      let (k, row) = h id s t e unsynced in
      let offline = is_offline_error err online in
      let later = λ (q : SyncQueueItem). postponed st now (message err) q in
      let again = λ (q : SyncQueueItem). retried st random now (message err) q in
      (
        k,
        HasRow-put_all st.queue laws.queue_table (IsFor st laws id) k _ db.queue
            (In-map (λ (q : SyncQueueItem). if offline then later q else again q)
              (λ w. st.queue.key w ≡ k → IsFor st laws id w) (next_batch st start old)
              (λ q m.
                if_intro (λ w. st.queue.key w ≡ k → IsFor st laws id w) offline (later q) (again q)
                  (λ is.
                    own-item start old db k id q same row m (sym (laws.item_key (later q)) ∙ is))
                  (λ is.
                    own-item start old db k id q same row m (sym (laws.item_key (again q)) ∙ is))))
            row,
      )

  on_reply-IsCovered :
      (random : ℕ → ℕ) (start now : ℕ) (online : Bool) (old db : Db st) (ss : List (LocalSale N))
      (r : Reply)
      → SamePayloads st laws old db
      → IsCovered st laws db
      → IsCovered st laws (on_reply st random now online (next_batch st start old) ss r db)
  unfolding on_reply
  on_reply-IsCovered random start now online old db ss (results answer) same h =
      settle-IsCovered random start now old db ss answer same h
  on_reply-IsCovered random start now online old db ss (failed err) same h =
      settle_failure-IsCovered random start now online old db err same h

  pub In-batch_ids_item :
      (k : ℕ) (qs : List SyncQueueItem)
      → In k (batch_ids st qs)
      → (q : SyncQueueItem) × In q qs × (q.id ≡ k)
  In-batch_ids_item k [] m = absurd m
  In-batch_ids_item k (q ∷ qs) (inl e) = (q, inl refl, sym e)
  In-batch_ids_item k (q ∷ qs) (inr m) = let (r, n, e) = In-batch_ids_item k qs m in (r, inr n, e)

  -- Items are removed as orphans only if no sale of theirs is there.
  orphans-IsCovered :
      (start : ℕ) (db : Db st)
      → batch_sales_of st (next_batch st start db) db ≡ []
      → IsCovered st laws db
      → IsCovered st laws (record db {
        queue = delete_all st.queue (batch_ids st (next_batch st start db)) db.queue;
      })
  unfolding batch_sales_of
  orphans-IsCovered start db none_there h id s t e unsynced =
      let (k, row) = h id s t e unsynced in
      let batch = next_batch st start db in
      let kept : ¬ (In k (batch_ids st batch)) = λ m.
        let (q, n, is) = In-batch_ids_item k batch m in
        let pay : q.payload ≡ some id =
          own-item start db db k id q
            (λ j a b p p'. ap (λ (x : SyncQueueItem). x.payload) (some-injective _ _ (sym p' ∙ p)))
            row n is in
        let asked : In id (keys (by_sale_id batch [])) =
          In-keys id _ (lookup-by_sale_id-some id batch [] t (inl (q, n, pay))) in
        cc (e, get_all-nil st.sales laws.sales_table db.sales _ id none_there asked) in
      (k, HasRow-delete_all st.queue laws.queue_table (IsFor st laws id) k _ db.queue kept row)

  -- Whatever the server answers or throws, and whatever the connection does, a run of the queue
  -- loses no sale: if each unsynced sale with an id has a queue item before, and the code that runs
  -- during the request keeps that and changes the sale of no item, then each has one after. Of the
  -- code of the queue, `recoverLostSales` does not keep it.
  pub try_sync_queue-IsCovered :
      (online online' : Bool) (start now : ℕ) (random : ℕ → ℕ) (server : List (LocalSale N) → Reply)
      (between : Db st → Db st) (db : Db st)
      → SamePayloads st laws db (between db)
      → (IsCovered st laws db → IsCovered st laws (between db))
      → IsCovered st laws db
      → IsCovered st laws (try_sync_queue st online online' start now random server between db)
  try_sync_queue-IsCovered online online' start now random server between db same keep h =
      try_sync_queue_rule st laws (IsCovered st laws) online online' start now random server between
        db h (λ e. orphans-IsCovered start db e h)
        (λ ss _.
          on_reply-IsCovered random start now online' db (between db) ss (server ss) same (keep h))
