-- ===== src/Sync/Queue/Retry.antt =====
-- What a run of the queue does to the attempts of an item, and to an accepted sale.
use blend_posv.Prelude.{
  ℕ, ◌≡◌, refl, sym, subst, ap, ◌∙◌, inl, inr, Bool, true, some, List, [], ◌∷◌, In, In-map,
  filter-In, map, if◌then◌else◌,
}
use mathlib.Core.Option.{some-injective}
use blend_posv.Text.{Text, truthy}
use blend_posv.Table.{put_all, delete_all}
use blend_posv.Table.Rows.{
  HasRow, HasRow-put_all, get-put_self, get-put_all_cases, get-delete_all_old, HasRow-delete_all,
  get_all-nil,
}
use blend_posv.Sale.{LocalSale}
use blend_posv.Sync.{
  SyncQueueItem, SyncSaleResult, Failure, failed, Store, IsStore, Db, is_offline_error, message,
}
use blend_posv.Sync.Queue.{
  by_sale_id, by_offline_id, accepted, ok_sales, mark_synced, next_batch, postponed, settle,
  settle_failure, on_reply, try_sync_queue, batch_ids, keys, batch_sales_of, retried,
}
use blend_posv.Sync.Queue.Coverage.{lookup-by_sale_id-some, In-keys}
use blend_posv.Sync.Queue.NoLoss.{In-batch_ids_item}
use blend_posv.Sync.Queue.Invariant.{In-next_batch, try_sync_queue_rule}

module _ {N : Type 0} (st : Store N) (laws : IsStore st) where
  -- The row has the attempts, the status and the sale of a row that was there.
  abbrev pub IsKept : Db st → ℕ → SyncQueueItem → Type 0
  IsKept old k q' =
      (q : SyncQueueItem) × (st.queue.get old.queue k ≡ some q)
      × (q'.tries ≡ q.tries)
      × (q'.status ≡ q.status)
      × (q'.payload ≡ q.payload)

  -- The row has the attempts, the status and the sale of this item.
  abbrev pub IsLike : SyncQueueItem → SyncQueueItem → Type 0
  IsLike q w = (w.tries ≡ q.tries) × (w.status ≡ q.status) × (w.payload ≡ q.payload)

  -- The sales are the same. Every row of the queue has the attempts, the status and the sale of the
  -- row that was there; and every row whose sale is stored still has a row.
  pub record AllKept (old db : Db st) : Type 0 where
    pub sales : db.sales ≡ old.sales
    pub kept : (k : ℕ) (q' : SyncQueueItem) → st.queue.get db.queue k ≡ some q' → IsKept old k q'
    pub there :
        (k : ℕ) (q : SyncQueueItem) (id : Text) (s : LocalSale N)
        → st.queue.get old.queue k ≡ some q
        → q.payload ≡ some id
        → truthy id ≡ true
        → st.sales.get old.sales id ≡ some s
        → HasRow st.queue laws.queue_table (IsLike q) k db.queue

  same-AllKept : (db : Db st) → AllKept db db
  same-AllKept db = record {
    sales = refl;
    kept = λ k q e. (q, e, refl, refl, refl);
    there = λ k q id s e p t e'. (q, e, (refl, refl, refl));
  }

  self-IsLike : (q r : SyncQueueItem) → r ≡ q → IsLike q r
  self-IsLike q r e = (
    ap (λ (x : SyncQueueItem). x.tries) e,
    ap (λ (x : SyncQueueItem). x.status) e,
    ap (λ (x : SyncQueueItem). x.payload) e,
  )

  postponed-AllKept :
      (random : ℕ → ℕ) (start now : ℕ) (online : Bool) (db : Db st) (err : Failure)
      → is_offline_error err online ≡ true
      → AllKept db (settle_failure st random now online (next_batch st start db) err db)
  unfolding settle_failure
  postponed-AllKept random start now online db err off = record {
    kept = λ k q' e.
        elim (get-put_all_cases st.queue laws.queue_table _ db.queue k q' (rw off at e)) [
          | inr old ↦ (q', old, refl, refl, refl)
          | inl (m, is) ↦
              In-map (postponed st now (message err)) (λ w. st.queue.key w ≡ k → IsKept db k w)
                (next_batch st start db)
                (λ q n is'. (
                  q,
                  subst (λ (j : ℕ). st.queue.get db.queue j ≡ some q)
                      (sym (laws.item_key (postponed st now (message err) q)) ∙ is')
                      (In-next_batch st laws start db q n),
                  refl,
                  refl,
                  refl,
                ))
                q' m is
        ];
    sales = refl;
    there = λ k q id s e p t e'.
        HasRow-put_all st.queue laws.queue_table (IsLike q) k _ db.queue
          (In-map
            (λ (r : SyncQueueItem).
              if is_offline_error err online
              then postponed st now (message err) r
              else retried st random now (message err) r)
            (λ w. st.queue.key w ≡ k → IsLike q w) (next_batch st start db)
            (λ r n. rw off (λ is. self-IsLike q r (
              some-injective _ _ (
                sym (
                  subst (λ (j : ℕ). st.queue.get db.queue j ≡ some r)
                    (sym (laws.item_key (postponed st now (message err) r)) ∙ is)
                    (In-next_batch st laws start db r n))
                ∙ e)))))
          (q, e, (refl, refl, refl));
  }

  -- A run that removes a batch as orphans removes no item whose sale is stored.
  orphans-AllKept :
      (start : ℕ) (db : Db st)
      → batch_sales_of st (next_batch st start db) db ≡ []
      → AllKept db (record db {
        queue = delete_all st.queue (batch_ids st (next_batch st start db)) db.queue;
      })
  unfolding batch_sales_of
  orphans-AllKept start db none_there = record {
    sales = refl;
    kept = λ k q e.
        (q, get-delete_all_old st.queue laws.queue_table k _ db.queue q e, refl, refl, refl);
    there = λ k q id s e p t e'.
        let batch = next_batch st start db in
        let out : ¬ (In k (batch_ids st batch)) = λ m.
          let (r, n, is) = In-batch_ids_item st laws k batch m in
          let same : r ≡ q = some-injective _ _ (
            sym (
              subst (λ (j : ℕ). st.queue.get db.queue j ≡ some r) is
                (In-next_batch st laws start db r n))
            ∙ e) in
          let pay : r.payload ≡ some id = ap (λ (x : SyncQueueItem). x.payload) same ∙ p in
          let asked : In id (keys (by_sale_id batch [])) =
            In-keys id _ (lookup-by_sale_id-some id batch [] t (inl (r, n, pay))) in
          cc (e', get_all-nil st.sales laws.sales_table db.sales _ id none_there asked) in
        HasRow-delete_all st.queue laws.queue_table (IsLike q) k _ db.queue out
          (q, e, (refl, refl, refl));
  }

  -- A failure of the connection burns no attempt and loses no item: if the request fails with an
  -- offline error, and nothing else writes to the tables, the sales are unchanged, every item of a
  -- stored sale with an id is still in the queue, and every item there has the attempts, the status
  -- and the sale that it had before.
  pub offline_keeps_tries :
      (online online' : Bool) (start now : ℕ) (random : ℕ → ℕ) (err : Failure) (db : Db st)
      → is_offline_error err online' ≡ true
      → AllKept db (try_sync_queue st online online' start now random (λ _. failed err) (λ t. t) db)
  offline_keeps_tries online online' start now random err db off =
      try_sync_queue_rule st laws (AllKept db) online online' start now random (λ _. failed err)
        (λ t. t) db (same-AllKept db) (orphans-AllKept start db)
        (λ ss _. unfold on_reply in postponed-AllKept random start now online' db err off)

  abbrev pub IsSynced : LocalSale N → Type 0
  IsSynced s = s.synced ≡ true

  marked-IsSynced :
      (ss : List (LocalSale N)) (rows : st.sales.Rows) (s : LocalSale N)
      → In s ss
      → HasRow st.sales laws.sales_table IsSynced s.id
          (put_all st.sales (map (mark_synced st) ss) rows)
  unfolding put_all
  marked-IsSynced [] rows s m = absurd m
  marked-IsSynced (t ∷ ts) rows s (inr m) =
      marked-IsSynced ts (st.sales.put rows (mark_synced st t)) s m
  marked-IsSynced (t ∷ ts) rows s (inl e) =
      HasRow-put_all st.sales laws.sales_table IsSynced s.id (map (mark_synced st) ts) _
        (λ w n _. In-map (mark_synced st) IsSynced ts (λ u k. refl) w n)
        (
          mark_synced st t,
          get-put_self st.sales laws.sales_table rows (mark_synced st t) s.id
              (laws.sale_key _ ∙ ap (λ (u : LocalSale N). u.id) (sym e)),
          refl,
        )

  -- Each sale of the batch that the server accepts is marked as synced by the transaction that
  -- follows the answer.
  pub settle_marks_accepted :
      (random : ℕ → ℕ) (now : ℕ) (batch : List SyncQueueItem) (ss : List (LocalSale N))
      (answer : List SyncSaleResult) (db : Db st) (s : LocalSale N)
      → In s ss
      → accepted (by_offline_id answer []) s.id ≡ true
      → HasRow st.sales laws.sales_table IsSynced s.id
          (settle st random now (by_sale_id batch []) ss answer db).sales
  unfolding settle
  settle_marks_accepted random now batch ss answer db s m ok =
      marked-IsSynced (ok_sales (by_offline_id answer []) ss) db.sales s (filter-In _ s ss m ok)
