-- ===== src/Sync/Recover/Tests.antt =====
-- The recovery at concrete tables.
use blend_posv.Prelude.{◌≡◌, ◌≢◌, refl, true, some, [], ◌∷◌}
use blend_posv.Text.{codes}
use blend_posv.Number.{Decimal}
use blend_posv.Table.Rows.{AllRows, AllRows-put}
use blend_posv.Sale.{LocalSale, to_local_sale}
use blend_posv.Sync.{is_error, Db}
use blend_posv.Sync.Recover.{recover_lost_sales}
use blend_posv.Sync.Recover.Purge.{recover_loses_failed_sale}
use blend_posv.Sync.Recover.Requeue.{IsBack, recover_requeues_synced}
use blend_posv.Sync.Tests.{
  store, store-IsStore, local, refused_item, refused_db, no_items, refused-IsSpent,
}

recover_loses_failed_sale_example :
    AllRows store.queue store-IsStore.queue_table
      (λ q. q.payload ≢ some (codes "t:d:1:00ff"))
      (recover_lost_sales store 500 refused_db).0.queue
unfolding to_local_sale
recover_loses_failed_sale_example =
    recover_loses_failed_sale store store-IsStore 500 refused_db (codes "t:d:1:00ff")
      refused-IsSpent refl refl
      (AllRows-put store.queue store-IsStore.queue_table
        (λ q. q.payload ≡ some (codes "t:d:1:00ff") → is_error q ≡ true) no_items refused_item
        (λ e. refl) (λ k v e. cc))

abbrev taken : LocalSale Decimal
taken = record local { synced = true }

-- As a run of the queue leaves them once the server has taken the sale.
abbrev taken_db : Db store
taken_db = record { sales = taken ∷ []; queue = [] }

recover_requeues_synced_example :
    IsBack store store-IsStore (codes "t:d:1:00ff") (recover_lost_sales store 500 taken_db).0
unfolding to_local_sale
recover_requeues_synced_example =
    recover_requeues_synced store store-IsStore 500 taken_db (codes "t:d:1:00ff") taken refl refl
      (λ k q e. cc)
