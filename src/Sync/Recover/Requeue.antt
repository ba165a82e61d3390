-- ===== src/Sync/Recover/Requeue.antt =====
-- What the recovery does to sales that the server has taken.
use blend_posv.Prelude.{
  ℕ, ◌≡◌, ◌≢◌, refl, sym, subst, ap, ◌∙◌, ◌⊎◌, inl, inr, true, false, Option, none, some, List, [],
  ◌∷◌, In, In-map, In-filter, filter-In, filter, length, Bool-cases, if◌then◌else◌, ltb, or_else,
}
use blend_posv.Text.{Text, member, text_eq, text_eq_iff, has_text}
use blend_posv.Table.Rows.{
  AllRows, HasRow, HasRow-put, get-put_self, get-put_all_cases, get-delete_all_old,
}
use blend_posv.Sale.{LocalSale}
use blend_posv.Sync.{SyncQueueItem, Store, IsStore, Db, is_error, max_tries_before_error}
use blend_posv.Sync.Queue.{new_item, batch_ids}
use blend_posv.Sync.Queue.Coverage.{IsFor}
use blend_posv.Sync.Recover.{
  queued_ids, reset_item, to_reset, to_purge, reset_errors, requeue, recover_lost_sales,
}

-- A sale that no item is for is not among the sales of the items.
not-queued_ids :
    (id : Text) (qs : List SyncQueueItem)
    → ((q : SyncQueueItem) → In q qs → q.payload ≢ some id)
    → member id (queued_ids qs) ≡ false
not-queued_ids id [] h = refl
not-queued_ids id (q ∷ qs) h =
    by_payload q.payload (h q (inl refl)) (not-queued_ids id qs (λ r m. h r (inr m)))
  where
    by_payload :
        (p : Option Text)
        → p ≢ some id
        → member id (queued_ids qs) ≡ false
        → member id (if has_text p then or_else p [] ∷ queued_ids qs else queued_ids qs) ≡ false
    by_payload none ne rest = rest
    by_payload (some []) ne rest = rest
    by_payload (some (c ∷ t)) ne rest = elim (Bool-cases (text_eq id (c ∷ t))) [
      | inl e ↦ absurd (ne (ap some (sym ((text_eq_iff id (c ∷ t)).0 e))))
      | inr e ↦ rw (e, rest) refl
    ]

module _ {N : Type 0} (st : Store N) (laws : IsStore st) where
  abbrev pub IsOpen : LocalSale N → Type 0
  IsOpen s = s.synced ≡ false

  -- The sale is open, and an item of the queue is for it.
  abbrev pub IsBack : Text → Db st → Type 0
  IsBack id db =
      HasRow st.sales laws.sales_table IsOpen id db.sales
      × ((k : ℕ) × HasRow st.queue laws.queue_table (IsFor st laws id) k db.queue)

  -- The body of the loop for a sale that is put back.
  abbrev put_back : ℕ → LocalSale N → Db st → Db st
  put_back now s db = record {
    sales = st.sales.put db.sales (record s { synced = false });
    queue = st.queue.put db.queue (new_item st (st.next_id db.queue) s.id (st.iso now));
  }

  put_back-IsBack : (now : ℕ) (s : LocalSale N) (db : Db st) → IsBack s.id (put_back now s db)
  put_back-IsBack now s db =
      let item : SyncQueueItem = new_item st (st.next_id db.queue) s.id (st.iso now) in
      (
        (
          record s { synced = false },
          get-put_self st.sales laws.sales_table db.sales _ s.id (laws.sale_key _),
          refl,
        ),
        (
          st.next_id db.queue,
          (item, get-put_self st.queue laws.queue_table db.queue item _ (laws.item_key item), refl),
        ),
      )

  put_back-keeps :
      (now : ℕ) (s : LocalSale N) (db : Db st) (id : Text)
      → IsBack id db
      → IsBack id (put_back now s db)
  put_back-keeps now s db id (sale, (k, row)) =
      let item : SyncQueueItem = new_item st (st.next_id db.queue) s.id (st.iso now) in
      (
        HasRow-put st.sales laws.sales_table IsOpen id db.sales _ (λ e. refl) sale,
        (
          k,
          HasRow-put st.queue laws.queue_table (IsFor st laws id) k db.queue item
              (λ same. cc (laws.fresh db.queue, row.1, sym (laws.item_key item) ∙ same)) row,
        ),
      )

  requeue-IsBack :
      (now : ℕ) (id : Text) (existing : List Text) (ss : List (LocalSale N)) (acc : Db st × ℕ)
      → member id existing ≡ false
      → ((s : LocalSale N) × In s ss × (s.id ≡ id)) ⊎ IsBack id acc.0
      → IsBack id (requeue st now existing ss acc).0
  unfolding requeue
  requeue-IsBack now id existing [] acc out (inl h) = absurd h.1
  requeue-IsBack now id existing [] acc out (inr h) = h
  requeue-IsBack now id existing (s ∷ ss) (db, count) out h =
      requeue-IsBack now id existing ss _ out (elim (Bool-cases (member s.id existing)) [
        | inl e ↦ rw e (skipped e h)
        | inr e ↦ rw e (done h)
      ])
    where
      skipped :
          member s.id existing ≡ true
          → ((t : LocalSale N) × In t (s ∷ ss) × (t.id ≡ id)) ⊎ IsBack id db
          → ((t : LocalSale N) × In t ss × (t.id ≡ id)) ⊎ IsBack id db
      skipped e (inr back) = inr back
      skipped e (inl (t, inr m, is)) = inl (t, m, is)
      skipped e (inl (t, inl same, is)) =
          let mine : s.id ≡ id = sym (ap (λ (x : LocalSale N). x.id) same) ∙ is in
          cc (ap (λ (x : Text). member x existing) mine, e, out)

      done :
          ((t : LocalSale N) × In t (s ∷ ss) × (t.id ≡ id)) ⊎ IsBack id db
          → ((t : LocalSale N) × In t ss × (t.id ≡ id)) ⊎ IsBack id (put_back now s db)
      done (inr back) = inr (put_back-keeps now s db id back)
      done (inl (t, inr m, is)) = inl (t, m, is)
      done (inl (t, inl same, is)) =
          let mine : s.id ≡ id = sym (ap (λ (x : LocalSale N). x.id) same) ∙ is in
          inr (subst (λ (x : Text). IsBack x (put_back now s db)) mine (put_back-IsBack now s db))

  -- The first step makes no item for another sale.
  reset_errors-others :
      (now : ℕ) (db : Db st) (id : Text)
      → AllRows st.queue laws.queue_table (λ q. q.payload ≢ some id) db.queue
      → AllRows st.queue laws.queue_table (λ q. q.payload ≢ some id) (reset_errors st now db).queue
  unfolding reset_errors
  reset_errors-others now db id h k q e =
      elim (get-put_all_cases st.queue laws.queue_table _ db.queue k q
        (get-delete_all_old st.queue laws.queue_table k (batch_ids st (to_purge st db)) _ q e)) [
          | inr old ↦ h k q old
          | inl new ↦
              In-map (reset_item (st.iso now)) (λ w. w.payload ≢ some id) (to_reset st db)
                (λ r m.
                  let (m', t) =
                    In-filter (λ (x : SyncQueueItem). ltb x.tries max_tries_before_error) r _ m in
                  let (m'', t') = In-filter is_error r _ m' in
                  h (st.queue.key r) r ((laws.queue_table.in_array db.queue r).0 m''))
                q new.0
        ]

  -- The recovery sends again what the server has taken: a synced sale without an item in the
  -- queue, as `trySyncQueue` leaves each accepted sale, is marked as not synced and has an item
  -- again.
  pub recover_requeues_synced :
      (now : ℕ) (db : Db st) (id : Text) (s : LocalSale N)
      → st.sales.get db.sales id ≡ some s
      → s.synced ≡ true
      → AllRows st.queue laws.queue_table (λ q. q.payload ≢ some id) db.queue
      → IsBack id (recover_lost_sales st now db).0
  unfolding recover_lost_sales
  recover_requeues_synced now db id s e synced none_there =
      let db' = reset_errors st now db in
      requeue-IsBack now id (queued_ids (st.queue.to_array db'.queue))
        (filter (λ (u : LocalSale N). u.synced) (st.sales.to_array db'.sales))
        (db', length (to_reset st db))
        (not-queued_ids id (st.queue.to_array db'.queue) (λ q m.
          reset_errors-others now db id none_there (st.queue.key q) q
            ((laws.queue_table.in_array db'.queue q).0 m)))
        (inl (s, unfold reset_errors in there, sym (laws.sale_key s) ∙ key))
    where
      key : st.sales.key s ≡ id
      key = laws.sales_table.get-key db.sales id s e

      there : In s (filter (λ (u : LocalSale N). u.synced) (st.sales.to_array db.sales))
      there =
          filter-In (λ (u : LocalSale N). u.synced) s (st.sales.to_array db.sales)
            ((laws.sales_table.in_array db.sales s).1
              (subst (λ (x : Text). st.sales.get db.sales x ≡ some s) (sym key) e))
            synced
