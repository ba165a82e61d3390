-- ===== src/Sync/Queue/Tests.antt =====
-- A sale that is sent, as a set of waiting sales.
use blend_posv.Prelude.{◌≡◌, ◌↔◌, refl, true, [], inl, inr, arith, ap, sym, ◌∙◌, subst}
use blend_posv.Text.{Text, codes}
use blend_posv.Number.{Decimal}
use blend_posv.Table.{get_all}
use blend_posv.Table.Rows.{AllRows-put}
use blend_posv.Sale.{LocalSale, to_local_sale}
use blend_posv.Sync.{is_sync_success}
use blend_posv.Sync.Tests.{
  store, store-IsStore, sale, queued, empty_db, empty-IsCovered, accepts, random,
}
use blend_posv.Sync.Queue.{
  is_due, enqueue_sale, next_batch, by_sale_id, batch_sales_of, by_offline_id,
}
use blend_posv.Sync.Queue.NoLoss.{enqueue_sale-IsCovered}
use blend_posv.Sync.Queue.Waiting.{
  Operation, sync, takes, Sent, Waits, Effect, perform, sent_sales, perform-refines,
}
use blend_posv.Sync.Queue.Drained.{IsReady, sync-drains}

abbrev attempt : Operation Decimal
attempt = sync true true 200 200 random accepts

perform-refines_example :
    Waits store store-IsStore (perform store attempt queued) (codes "t:d:1:00ff")
    ↔ Effect store store-IsStore attempt queued
        (Waits store store-IsStore queued)
        (codes "t:d:1:00ff")
perform-refines_example = perform-refines store store-IsStore attempt queued (codes "t:d:1:00ff")

queued-IsReady : IsReady store store-IsStore 200 queued
unfolding enqueue_sale
queued-IsReady = record {
  pending = λ k q e. ground arith;
  due =
      AllRows-put store.queue store-IsStore.queue_table (λ q. is_due store 200 q ≡ true) [] _ refl
        (λ k v e. cc);
  fits = omega arith;
}

taken :
    (id : Text)
    → Sent id (sent_sales store 200 queued)
    → takes (accepts (sent_sales store 200 queued)) id ≡ true
unfolding enqueue_sale next_batch batch_sales_of by_sale_id by_offline_id get_all is_sync_success
    to_local_sale
taken id (s, inl is, e) =
    subst (λ (x : Text). takes (accepts (sent_sales store 200 queued)) x ≡ true)
      (sym (ap (λ (u : LocalSale Decimal). u.id) is) ∙ e) refl
taken id (s, inr m, e) = elim m [ ]

sync-drains_example :
    ¬ (Waits store store-IsStore (perform store attempt queued) (codes "t:d:1:00ff"))
sync-drains_example =
    sync-drains store store-IsStore true 200 200 random accepts queued
      (enqueue_sale-IsCovered store store-IsStore 100 sale empty_db empty-IsCovered) queued-IsReady
      taken (codes "t:d:1:00ff") refl
