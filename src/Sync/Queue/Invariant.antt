-- ===== src/Sync/Queue/Invariant.antt =====
-- The status and the attempts of the items over a run of the queue.
use blend_posv.Prelude.{
  ℕ, ◌≤◌, ◌≡◌, refl, subst, sym, ap, ◌∙◌, ◌⊎◌, inl, inr, Bool, true, not, Option, none, some, List,
  [], ◌∷◌, arith, In, nil_of_length, ◌==◌, or_else, Bool-cases, In-filter, In-take, In-map, length,
  if_intro, if_split, option_intro, if◌then◌else◌, ◌||◌,
}
use mathlib.Core.Option.{some-injective}
use blend_posv.Text.{Text, text_eq, text_eq_iff}
use blend_posv.Dict.{Dict, lookup, insert, lookup-insert}
use blend_posv.Table.{delete_all}
use blend_posv.Table.Rows.{AllRows, AllRows-put, AllRows-put_all, AllRows-delete_all}
use blend_posv.Sale.{SaleRecord, LocalSale}
use blend_posv.Sync.{
  SyncQueueItem, SyncSaleResult, Reply, results, failed, Store, IsStore, Db, is_pending, is_error,
  has_text, is_offline_error, message,
}
use blend_posv.Sync.Queue.{
  by_sale_id, enqueue_sale, next_batch, retried, postponed, retry_failed, try_sync_queue, on_reply,
  rejection, estado_of, by_offline_id, failed_sales, ok_sales, item_ids, batch_ids, batch_sales_of,
  is_due,
}

-- The three attempts are spent.
abbrev pub IsCounted : SyncQueueItem → Type 0
IsCounted q = is_error q ≡ true → 3 ≤ q.tries

-- What the map holds for a sale is an item of the list with that sale.
pub lookup-by_sale_id :
    (id : Text) (q : SyncQueueItem) (qs : List SyncQueueItem) (m : Dict SyncQueueItem)
    → lookup id (by_sale_id qs m) ≡ some q
    → (lookup id m ≡ some q) ⊎ (In q qs × (q.payload ≡ some id))
unfolding by_sale_id
lookup-by_sale_id id q [] m e = inl e
lookup-by_sale_id id q (r ∷ rs) m e =
    elim (lookup-by_sale_id id q rs
      (if has_text r.payload then insert (or_else r.payload []) r m else m) e) [
        | inl here ↦ first r.payload refl here
        | inr later ↦ inr (inr later.0, later.1)
      ]
  where
    first :
        (p : Option Text)
        → r.payload ≡ p
        → lookup id (if has_text p then insert (or_else p []) r m else m) ≡ some q
        → (lookup id m ≡ some q) ⊎ (In q (r ∷ rs) × (q.payload ≡ some id))
    first none e' h = inl h
    first (some []) e' h = inl h
    first (some (c ∷ k)) e' h = elim (Bool-cases (text_eq (c ∷ k) id)) [
      | inl same ↦
          let is : r ≡ q = some-injective _ _ (rw (lookup-insert, same) at h) in
          inr (
            inl (sym is),
            subst (λ (x : SyncQueueItem). x.payload ≡ some id) is
                (e' ∙ ap some ((text_eq_iff _ _).0 same)),
          )
      | inr other ↦ inl (rw (lookup-insert, other) at h)
    ]

module _ {N : Type 0} (st : Store N) (laws : IsStore st) where
  -- Every item of the queue that is in error has spent its attempts.
  abbrev pub IsSpent : Db st → Type 0
  IsSpent db = AllRows st.queue laws.queue_table IsCounted db.queue

  pub In-next_batch :
      (now : ℕ) (db : Db st) (q : SyncQueueItem)
      → In q (next_batch st now db)
      → st.queue.get db.queue q.id ≡ some q
  unfolding next_batch
  In-next_batch now db q m =
      let listed : In q (st.queue.to_array db.queue) =
        (In-filter is_pending q _
          ((laws.in_sort q _).0 (In-filter (is_due st now) q _ (In-take 25 q _ m)).0)).0 in
      subst (λ (j : ℕ). st.queue.get db.queue j ≡ some q) (laws.item_key q)
        ((laws.queue_table.in_array db.queue q).0 listed)

  retried-IsCounted :
      (random : ℕ → ℕ) (now : ℕ) (why : Text) (q : SyncQueueItem)
      → IsCounted (retried st random now why q)
  retried-IsCounted random now why q = ground arith

  retry_failed-IsCounted :
      (random : ℕ → ℕ) (now : ℕ) (items : Dict SyncQueueItem) (answers : Dict SyncSaleResult)
      (ss : List (LocalSale N)) (rows : st.queue.Rows)
      → AllRows st.queue laws.queue_table IsCounted rows
      → AllRows st.queue laws.queue_table IsCounted
          (retry_failed st random now items answers ss rows)
  unfolding retry_failed
  retry_failed-IsCounted random now items answers [] rows h = h
  retry_failed-IsCounted random now items answers (s ∷ ss) rows h =
      retry_failed-IsCounted random now items answers ss _ (
        option_intro (AllRows st.queue laws.queue_table IsCounted) (lookup s.id items) rows
          (λ q. st.queue.put rows (retried st random now (rejection st (estado_of answers s.id)) q))
          h
          (λ q.
            AllRows-put st.queue laws.queue_table IsCounted rows _
              (retried-IsCounted random now (rejection st (estado_of answers s.id)) q) h))

  enqueue_sale-IsSpent :
      (now : ℕ) (sale : SaleRecord N) (db : Db st)
      → IsSpent db
      → IsSpent (enqueue_sale st now sale db)
  unfolding enqueue_sale
  enqueue_sale-IsSpent now sale db h =
      AllRows-put st.queue laws.queue_table IsCounted db.queue _ (λ e. cc) h

  on_reply-IsSpent :
      (random : ℕ → ℕ) (now : ℕ) (online : Bool) (start : ℕ) (old : Db st) (ss : List (LocalSale N))
      (r : Reply) (db : Db st)
      → IsSpent old
      → IsSpent db
      → IsSpent (on_reply st random now online (next_batch st start old) ss r db)
  unfolding on_reply
  on_reply-IsSpent random now online start old ss (results answer) db ho h =
      let items = by_sale_id (next_batch st start old) [] in
      let answers = by_offline_id answer [] in
      retry_failed-IsCounted random now items answers (failed_sales answers ss) _ (
        AllRows-delete_all st.queue laws.queue_table IsCounted
          (item_ids st items (ok_sales answers ss)) db.queue h)
  on_reply-IsSpent random now online start old ss (failed err) db ho h =
      AllRows-put_all st.queue laws.queue_table IsCounted _ db.queue
        (In-map _ IsCounted (next_batch st start old) (λ q m.
          if_intro IsCounted (is_offline_error err online) (postponed st now (message err) q)
            (retried st random now (message err) q) (ho q.id q (In-next_batch start old q m))
            (retried-IsCounted random now (message err) q)))
        h

  -- The ways in which `trySyncQueue` ends: at once, with the orphans removed, or with a reply.
  pub try_sync_queue_rule :
      (P : Db st → Type 0) (online online' : Bool) (start now : ℕ) (random : ℕ → ℕ)
      (server : List (LocalSale N) → Reply) (between : Db st → Db st) (db : Db st)
      → P db
      → (batch_sales_of st (next_batch st start db) db ≡ []
          → P (record db {
            queue = delete_all st.queue (batch_ids st (next_batch st start db)) db.queue;
          }))
      → ((ss : List (LocalSale N))
          → batch_sales_of st (next_batch st start db) db ≡ ss
          → P (on_reply st random now online' (next_batch st start db) ss (server ss) (between db)))
      → P (try_sync_queue st online online' start now random server between db)
  unfolding try_sync_queue
  try_sync_queue_rule P online online' start now random server between db h orphans answered =
      let batch = next_batch st start db in
      let ss = batch_sales_of st batch db in
      let last : Db st = on_reply st random now online' batch ss (server ss) (between db) in
      let cleared : Db st = record db {
        queue = delete_all st.queue (batch_ids st batch) db.queue;
      } in
      if_intro P (not online || (length batch == 0)) db (if length ss == 0 then cleared else last) h
        (if_split P (length ss == 0) cleared last (λ e. orphans (nil_of_length ss e))
          (λ _. answered ss refl))

  -- One run of the queue keeps the invariant that an item in error has spent at least three
  -- attempts, whatever the server answers, if what other code does during the request keeps it.
  pub try_sync_queue-IsSpent :
      (online online' : Bool) (start now : ℕ) (random : ℕ → ℕ) (server : List (LocalSale N) → Reply)
      (between : Db st → Db st) (db : Db st)
      → (IsSpent db → IsSpent (between db))
      → IsSpent db
      → IsSpent (try_sync_queue st online online' start now random server between db)
  try_sync_queue-IsSpent online online' start now random server between db other h =
      try_sync_queue_rule IsSpent online online' start now random server between db h
        (λ _.
          AllRows-delete_all st.queue laws.queue_table IsCounted
            (batch_ids st (next_batch st start db)) db.queue h)
        (λ ss _.
          on_reply-IsSpent random now online' start db ss (server ss) (between db) h (other h))
