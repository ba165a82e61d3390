-- ===== src/Sync/Queue/Coverage.antt =====
-- `trySyncQueue` of frontend/src/offline/sync.ts: when a sale that is not synced has an item in the queue, and what
-- the writes of a run do to such items.
use blend_posv.Prelude.{
  ℕ, ◌≡◌, ◌≢◌, refl, sym, subst, ap, ◌∙◌, ◌⊎◌, inl, inr, true, false, Option, none, some, List, [],
  ◌∷◌, In, In-cons, map, if_intro, Option-cases, Bool-cases, or_else, if◌then◌else◌, is_some,
}
use blend_posv.Text.{Text, truthy, text_eq, text_eq_iff, text_eq_refl}
use blend_posv.Dict.{Dict, lookup, insert, lookup-insert}
use blend_posv.Table.{put_all}
use blend_posv.Table.Rows.{HasRow, HasRow-put, get-put_cases}
use blend_posv.Sale.{LocalSale}
use blend_posv.Sync.{SyncQueueItem, SyncSaleResult, Store, IsStore, Db, has_text}
use blend_posv.Sync.Queue.{by_sale_id, keys, mark_synced, item_ids, retry_failed}

-- A sale of the batch that has an id is found in the map, so its sale is asked for.
pub lookup-by_sale_id-some :
    (id : Text) (qs : List SyncQueueItem) (m : Dict SyncQueueItem)
    → truthy id ≡ true
    → ((q : SyncQueueItem) × In q qs × (q.payload ≡ some id)) ⊎ (is_some (lookup id m) ≡ true)
    → is_some (lookup id (by_sale_id qs m)) ≡ true
unfolding by_sale_id
lookup-by_sale_id-some id [] m t (inl h) = absurd h.1
lookup-by_sale_id-some id [] m t (inr h) = h
lookup-by_sale_id-some id (r ∷ rs) m t h = lookup-by_sale_id-some id rs _ t (next h)
  where
    kept :
        (p : Option Text)
        → is_some (lookup id m) ≡ true
        → is_some (lookup id (if has_text p then insert (or_else p []) r m else m)) ≡ true
    kept none e = e
    kept (some []) e = e
    kept (some (c ∷ k)) e = rw lookup-insert (
        if_intro (λ (o : Option SyncQueueItem). is_some o ≡ true) (text_eq (c ∷ k) id) (some r)
          (lookup id m) refl e)

    fresh :
        (p : Option Text)
        → p ≡ some id
        → is_some (lookup id (if has_text p then insert (or_else p []) r m else m)) ≡ true
    fresh p e = rw (e, t, lookup-insert, text_eq_refl id)

    next :
        ((q : SyncQueueItem) × In q (r ∷ rs) × (q.payload ≡ some id))
          ⊎ (is_some (lookup id m) ≡ true)
        → ((q : SyncQueueItem) × In q rs × (q.payload ≡ some id))
          ⊎ (is_some
                (lookup id (if has_text r.payload then insert (or_else r.payload []) r m else m))
              ≡ true)
    next (inr e) = inr (kept r.payload e)
    next (inl (q, inr m', e)) = inl (q, m', e)
    next (inl (q, inl same, e)) =
        inr (fresh r.payload (sym (ap (λ (x : SyncQueueItem). x.payload) same) ∙ e))

pub In-keys : {V : Type 0} (id : Text) (d : Dict V) → is_some (lookup id d) ≡ true → In id (keys d)
In-keys id [] e = cc
In-keys id ((k, v) ∷ d) e = elim (Bool-cases (text_eq k id)) [
  | inl same ↦ inl (sym ((text_eq_iff k id).0 same))
  | inr other ↦ inr (In-keys id d (rw other at e))
]

module _ {N : Type 0} (st : Store N) (laws : IsStore st) where
  abbrev pub IsFor : Text → SyncQueueItem → Type 0
  IsFor id q = q.payload ≡ some id

  -- Each sale with an id that is not synced has an item in the queue.
  abbrev pub IsCovered : Db st → Type 0
  IsCovered db =
      (id : Text) (s : LocalSale N)
      → truthy id ≡ true
      → st.sales.get db.sales id ≡ some s
      → s.synced ≡ false
      → (k : ℕ) × HasRow st.queue laws.queue_table (IsFor id) k db.queue

  -- Items that are in both states are for the same sale.
  abbrev pub SamePayloads : Db st → Db st → Type 0
  SamePayloads db db' =
      (k : ℕ) (q q' : SyncQueueItem)
      → st.queue.get db.queue k ≡ some q
      → st.queue.get db'.queue k ≡ some q'
      → q'.payload ≡ q.payload

  -- The rows that a retry writes are for the sale that the item was for.
  pub retry_failed-HasRow :
      (random : ℕ → ℕ) (now k : ℕ) (id : Text) (items : Dict SyncQueueItem)
      (answers : Dict SyncSaleResult) (ss : List (LocalSale N)) (rows : st.queue.Rows)
      → ((j : Text) (q : SyncQueueItem) → lookup j items ≡ some q → q.id ≡ k → q.payload ≡ some id)
      → HasRow st.queue laws.queue_table (IsFor id) k rows
      → HasRow st.queue laws.queue_table
          (IsFor id)
          k
          (retry_failed st random now items answers ss rows)
  unfolding retry_failed
  retry_failed-HasRow random now k id items answers [] rows own h = h
  retry_failed-HasRow random now k id items answers (s ∷ ss) rows own h =
      retry_failed-HasRow random now k id items answers ss _ own
        (elim (Option-cases (lookup s.id items)) [
          | inl gone ↦ rw gone h
          | inr (q, found) ↦ rw found (
              HasRow-put st.queue laws.queue_table (IsFor id) k rows _
                (λ e. own s.id q found (sym (laws.item_key _) ∙ e)) h)
        ])

  -- The sales that are still unsynced were not among those marked.
  pub unsynced_old :
      (ss : List (LocalSale N)) (rows : st.sales.Rows) (id : Text) (s : LocalSale N)
      → st.sales.get (put_all st.sales (map (mark_synced st) ss) rows) id ≡ some s
      → s.synced ≡ false
      → (st.sales.get rows id ≡ some s) × ((t : LocalSale N) → In t ss → t.id ≢ id)
  unfolding put_all
  unsynced_old [] rows id s e unsynced = (e, λ t m. absurd m)
  unsynced_old (t ∷ ts) rows id s e unsynced =
      let (old, others) = unsynced_old ts (st.sales.put rows (mark_synced st t)) id s e unsynced in
      elim (get-put_cases st.sales laws.sales_table rows (mark_synced st t) id s old) [
        | inl new ↦ cc (ap (λ (u : LocalSale N). u.synced) new.1, unsynced)
        | inr kept ↦ (
          kept.1,
          In-cons (λ (u : LocalSale N). u.id ≢ id) t ts (λ p. kept.0 (laws.sale_key _ ∙ p)) others,
        )
      ]

  -- The items that are deleted after the answer are those of the accepted sales.
  pub not-In-item_ids :
      (k : ℕ) (id : Text) (items : Dict SyncQueueItem) (ss : List (LocalSale N))
      → ((j : Text) (q : SyncQueueItem) → lookup j items ≡ some q → q.id ≡ k → j ≡ id)
      → ((t : LocalSale N) → In t ss → t.id ≢ id)
      → ¬ (In k (item_ids st items ss))
  not-In-item_ids k id items [] own others m = m
  not-In-item_ids k id items (s ∷ ss) own others m = elim (Option-cases (lookup s.id items)) [
    | inl gone ↦
        not-In-item_ids k id items ss own (λ t n. others t (inr n)) (rw (gone, item_ids) at m)
    | inr (q, found) ↦
        In-cons (λ (j : ℕ). j ≢ k) q.id (item_ids st items ss)
          (λ same. others s (inl refl) (own s.id q found same))
          (λ j n same.
            not-In-item_ids k id items ss own (λ t n'. others t (inr n'))
              (subst (λ (x : ℕ). In x (item_ids st items ss)) same n))
          k (rw (found, item_ids) at m) refl
  ]
