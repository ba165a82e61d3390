-- ===== src/Sync/Queue/Waiting.antt =====
-- The queue as what it is for: the set of the sales that wait for the server. `Effect` says what each
-- operation does to that set, and knows no tables, items, attempts or times.
use blend_posv.Prelude.{
  ℕ, ◌≡◌, ◌≢◌, ◌↔◌, refl, sym, ◌∙◌, ◌⊎◌, inl, inr, Bool, true, false, not, ◌||◌, List, [], In,
  In-map, In-filter, filter-In, map, if_split, length, nil_of_length, ◌==◌, if◌then◌else◌,
}
use blend_posv.Text.{Text}
use blend_posv.Table.{put_all, get_all, delete_all}
use blend_posv.Table.Rows.{HasRow, HasRow-put_all, HasRow-put, get-put_cases, get-put_self}
use blend_posv.Sale.{SaleRecord, LocalSale, to_local_sale}
use blend_posv.Sync.{SyncQueueItem, SyncSaleResult, Reply, results, failed, Store, IsStore, Db}
use blend_posv.Sync.Queue.{
  by_sale_id, by_offline_id, accepted, ok_sales, mark_synced, enqueue_sale, next_batch, settle,
  settle_failure, on_reply, try_sync_queue, batch_sales_of, batch_ids,
}
use blend_posv.Sync.Queue.Coverage.{unsynced_old}

-- A sale that is made, and a run of the queue; the arguments are those of `enqueue_sale` and
-- `try_sync_queue`.
pub data Operation (N : Type 0) : Type 0 where
  sell : ℕ → SaleRecord N → Operation N
  sync : Bool → Bool → ℕ → ℕ → (ℕ → ℕ) → (List (LocalSale N) → Reply) → Operation N

-- The server says that it has taken the sale.
abbrev pub takes : Reply → Text → Bool
takes (results answer) id = accepted (by_offline_id answer []) id
takes (failed err) id = false

-- The sale is one of those sent.
abbrev pub Sent : {N : Type 0} → Text → List (LocalSale N) → Type 0
Sent {N} id ss = (s : LocalSale N) × In s ss × (s.id ≡ id)

Sent-nil : {N : Type 0} (id : Text) (ss : List (LocalSale N)) → ss ≡ [] → ¬ (Sent id ss)
Sent-nil id ss e (s, m, is) = rw e at m

module _ {N : Type 0} (st : Store N) where
  unfoldable pub perform : Operation N → Db st → Db st
  unfolding enqueue_sale try_sync_queue
  perform (sell now sale) db = enqueue_sale st now sale db
  perform (sync online online' start now random server) db =
      try_sync_queue st online online' start now random server (λ t. t) db

  -- The sales that a run sends.
  abbrev pub sent_sales : ℕ → Db st → List (LocalSale N)
  sent_sales start db = batch_sales_of st (next_batch st start db) db

  module _ (laws : IsStore st) where
    abbrev pub IsUnsynced : LocalSale N → Type 0
    IsUnsynced s = s.synced ≡ false

    -- The sale is kept in the browser and not marked as synced.
    abbrev pub Waits : Db st → Text → Type 0
    Waits db id = HasRow st.sales laws.sales_table IsUnsynced id db.sales

    -- What an operation does to a set of waiting sales: a new sale is added, and of those that are
    -- sent the ones that the server takes are removed.
    abbrev pub Effect : Operation N → Db st → (Text → Type 0) → Text → Type 0
    Effect (sell now sale) db Waiting id = (id ≡ sale.id) ⊎ Waiting id
    Effect (sync online online' start now random server) db Waiting id =
        Waiting id
        × ¬ (
            (online ≡ true)
            × Sent id (sent_sales start db)
            × (takes (server (sent_sales start db)) id ≡ true))

    marked-Waits :
        (ss : List (LocalSale N)) (rows : st.sales.Rows) (id : Text)
        → HasRow st.sales laws.sales_table IsUnsynced id
            (put_all st.sales (map (mark_synced st) ss) rows)
          ↔ (HasRow st.sales laws.sales_table IsUnsynced id rows
              × ((t : LocalSale N) → In t ss → t.id ≢ id))
    marked-Waits ss rows id = (
      λ (s, e, u).
          let (old, others) = unsynced_old st laws ss rows id s e u in ((s, old, u), others),
      λ (row, others).
          HasRow-put_all st.sales laws.sales_table IsUnsynced id (map (mark_synced st) ss) rows
            (In-map (mark_synced st) (λ w. st.sales.key w ≡ id → IsUnsynced w) ss
              (λ t m is. absurd (others t m (sym (laws.sale_key (mark_synced st t)) ∙ is))))
            row,
    )

    ok-apart :
        (answer : List SyncSaleResult) (ss : List (LocalSale N)) (id : Text)
        → let answers = by_offline_id answer [] in
          ((t : LocalSale N) → In t (ok_sales answers ss) → t.id ≢ id)
          ↔ ¬ (Sent id ss × (accepted answers id ≡ true))
    ok-apart answer ss id =
        let answers = by_offline_id answer [] in
        (
          λ apart ((s, m, e), ok).
              apart s (filter-In (λ (t : LocalSale N). accepted answers t.id) s ss m (rw e ok)) e,
          λ none_taken t m e.
              let (n, ok) = In-filter (λ (u : LocalSale N). accepted answers u.id) t ss m in
              none_taken ((t, n, e), (rw e at ok)),
        )

    on_reply-Waits :
        (random : ℕ → ℕ) (now : ℕ) (online : Bool) (batch : List SyncQueueItem)
        (ss : List (LocalSale N)) (r : Reply) (db : Db st) (id : Text)
        → Waits (on_reply st random now online batch ss r db) id
          ↔ (Waits db id × ¬ (Sent id ss × (takes r id ≡ true)))
    unfolding on_reply settle settle_failure
    on_reply-Waits random now online batch ss (results answer) db id =
        let marked = marked-Waits (ok_sales (by_offline_id answer []) ss) db.sales id in
        let apart = ok-apart answer ss id in
        (λ h. ((marked.0 h).0, apart.0 (marked.0 h).1), λ h. marked.1 (h.0, apart.1 h.1))
    on_reply-Waits random now online batch ss (failed err) db id =
        ((λ h. (h, λ t. cc (t.1))), λ h. h.0)

    Sent-empty :
        (start : ℕ) (db : Db st) (id : Text)
        → next_batch st start db ≡ []
        → ¬ (Sent id (sent_sales start db))
    unfolding batch_sales_of by_sale_id get_all
    Sent-empty start db id e = Sent-nil id (sent_sales start db) (rw e refl)

    enqueue_sale-Waits :
        (now : ℕ) (sale : SaleRecord N) (db : Db st) (id : Text)
        → Waits (enqueue_sale st now sale db) id ↔ ((id ≡ sale.id) ⊎ Waits db id)
    unfolding enqueue_sale to_local_sale
    enqueue_sale-Waits now sale db id =
        let new : LocalSale N = to_local_sale st.iso sale in
        (
          λ (s, e, u). elim (get-put_cases st.sales laws.sales_table db.sales new id s e) [
            | inl is ↦ inl (sym is.0 ∙ laws.sale_key new)
            | inr old ↦ inr (s, old.1, u)
          ],
          elim [
            | inl is ↦ (
              new,
              get-put_self st.sales laws.sales_table db.sales new id (laws.sale_key new ∙ sym is),
              refl,
            )
            | inr row ↦
                HasRow-put st.sales laws.sales_table IsUnsynced id db.sales new (λ _. refl) row
          ],
        )

    try_sync_queue-Waits :
        (online online' : Bool) (start now : ℕ) (random : ℕ → ℕ)
        (server : List (LocalSale N) → Reply) (db : Db st) (id : Text)
        → Waits (try_sync_queue st online online' start now random server (λ t. t) db) id
          ↔ Effect (sync online online' start now random server) db (Waits db) id
    unfolding try_sync_queue
    try_sync_queue-Waits false online' start now random server db id =
        ((λ h. (h, λ t. cc (t.0))), λ h. h.0)
    try_sync_queue-Waits true online' start now random server db id =
        let batch = next_batch st start db in
        let ss = sent_sales start db in
        let P : Db st → Type 0 = λ db'.
          Waits db' id
          ↔ (Waits db id × ¬ ((true ≡ true) × Sent id ss × (takes (server ss) id ≡ true))) in
        let cleared : Db st = record db {
          queue = delete_all st.queue (batch_ids st batch) db.queue;
        } in
        let last : Db st = on_reply st random now online' batch ss (server ss) db in
        let settled = on_reply-Waits random now online' batch ss (server ss) db id in
        if_split P (not true || (length batch == 0)) db (if length ss == 0 then cleared else last)
          (λ e. (λ h. (h, λ t. Sent-empty start db id (nil_of_length batch e) t.1), λ h. h.0))
          (λ _.
            if_split P (length ss == 0) cleared last
              (λ e. (λ h. (h, λ t. Sent-nil id ss (nil_of_length ss e) t.1), λ h. h.0))
              (λ _. (
                λ h. ((settled.0 h).0, λ t. (settled.0 h).1 (t.1, t.2)),
                λ h. settled.1 (h.0, λ t. h.1 (refl, t.0, t.1)),
              )))

    -- The tables and the queue refine a plain set: after a sale is made, the sales that wait for the
    -- server are those that did and the new one; after a run of the queue, they are those that did
    -- less those that were sent and that the server says it has taken, and without a connection
    -- or an answer they are the same.
    pub perform-refines :
        (op : Operation N) (db : Db st) (id : Text)
        → Waits (perform op db) id ↔ Effect op db (Waits db) id
    unfolding perform
    perform-refines (sell now sale) db id = enqueue_sale-Waits now sale db id
    perform-refines (sync online online' start now random server) db id =
        try_sync_queue-Waits online online' start now random server db id
