-- ===== src/Sync/Queue/Drained.antt =====
-- How a queue empties: a run against a server that takes what it is sent.
use blend_posv.Prelude.{
  ℕ, ◌≤◌, ◌≡◌, refl, sym, ◌∙◌, inl, inr, Bool, true, some, List, [], ◌∷◌, In, filter, filter-In,
  length, Option-cases, arith, zero, suc, take,
}
use blend_posv.Text.{Text, truthy}
use blend_posv.Table.{get_all}
use blend_posv.Sale.{LocalSale}
use blend_posv.Sync.{SyncQueueItem, Reply, Store, IsStore, Db, is_pending}
use blend_posv.Sync.Queue.{by_sale_id, keys, next_batch, is_due, batch_sales_of}
use blend_posv.Sync.Queue.Coverage.{IsCovered, lookup-by_sale_id-some, In-keys}
use blend_posv.Sync.Queue.Waiting.{sync, takes, Sent, Waits, perform, sent_sales, perform-refines}

take-all : {A : Type 0} (n : ℕ) (x : A) (xs : List A) → length xs ≤ n → In x xs → In x (take n xs)
take-all n x [] h m = absurd m
take-all zero x (y ∷ ys) h m = absurd (omega arith)
take-all (suc n) x (y ∷ ys) h (inl e) = inl e
take-all (suc n) x (y ∷ ys) h (inr m) = inr (take-all n x ys (omega arith) m)

module _ {N : Type 0} (st : Store N) (laws : IsStore st) where
  -- The items of the queue that a run may take.
  abbrev pub ready : ℕ → Db st → List SyncQueueItem
  ready start db =
      filter (is_due st start) (st.sort (filter is_pending (st.queue.to_array db.queue)))

  -- Every item is pending and due, and they fit into one batch.
  pub record IsReady (start : ℕ) (db : Db st) : Type 0 where
    pub pending :
        (k : ℕ) (q : SyncQueueItem) → st.queue.get db.queue k ≡ some q → is_pending q ≡ true
    pub due :
        (k : ℕ) (q : SyncQueueItem) → st.queue.get db.queue k ≡ some q → is_due st start q ≡ true
    pub fits : length (ready start db) ≤ 25

  In-get_all :
      (ks : List Text) (rows : st.sales.Rows) (k : Text) (s : LocalSale N)
      → In k ks
      → st.sales.get rows k ≡ some s
      → In s (get_all st.sales rows ks)
  unfolding get_all
  In-get_all [] rows k s m e = absurd m
  In-get_all (j ∷ js) rows k s (inl same) e = rw (get_all, ← same, e) (inl refl)
  In-get_all (j ∷ js) rows k s (inr m) e = elim (Option-cases (st.sales.get rows j)) [
    | inl gone ↦ rw (gone, get_all) (In-get_all js rows k s m e)
    | inr (t, found) ↦ rw (found, get_all) (inr (In-get_all js rows k s m e))
  ]

  In-batch :
      (start : ℕ) (db : Db st) (k : ℕ) (q : SyncQueueItem)
      → IsReady start db
      → st.queue.get db.queue k ≡ some q
      → In q (next_batch st start db)
  unfolding next_batch
  In-batch start db k q r e =
      let key : st.queue.key q ≡ k = laws.queue_table.get-key db.queue k q e in
      let listed : In q (st.queue.to_array db.queue) =
        (laws.queue_table.in_array db.queue q).1 (rw key e) in
      take-all 25 q _ r.fits (
        filter-In (is_due st start) q _
          ((laws.in_sort q _).1 (filter-In is_pending q _ listed (r.pending k q e))) (r.due k q e))

  -- If each unsynced sale with an id has a queue item, every item is pending and due, there are
  -- at most 25 items, the browser is online, the server takes each sale that it is sent, and no other code
  -- writes to the tables meanwhile, then after one run no sale with an id waits any more.
  pub sync-drains :
      (online' : Bool) (start now : ℕ) (random : ℕ → ℕ) (server : List (LocalSale N) → Reply)
      (db : Db st)
      → IsCovered st laws db
      → IsReady start db
      → ((id : Text)
          → Sent id (sent_sales st start db)
          → takes (server (sent_sales st start db)) id ≡ true)
      → (id : Text) → truthy id ≡ true
      → ¬ (Waits st laws (perform st (sync true online' start now random server) db) id)
  unfolding batch_sales_of
  sync-drains online' start now random server db covered r generous id t waits =
      let ((s, e, u), not_taken) =
        (perform-refines st laws (sync true online' start now random server) db id).0 waits in
      let (k, (q, row, pay)) = covered id s t e u in
      let batch = next_batch st start db in
      let asked : In id (keys (by_sale_id batch [])) =
        In-keys id _
          (lookup-by_sale_id-some id batch [] t (inl (q, In-batch start db k q r row, pay))) in
      let sent : Sent id (sent_sales st start db) = (
        s,
        In-get_all _ db.sales id s asked e,
        sym (laws.sale_key s) ∙ laws.sales_table.get-key db.sales id s e,
      ) in
      not_taken (refl, sent, generous id sent)
