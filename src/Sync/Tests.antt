-- ===== src/Sync/Tests.antt =====
-- The queue on concrete tables, and the theorems at them.
use blend_posv.Prelude.{
  ℕ, suc, ◌*◌, ◌≡◌, ◌≤◌, refl, max, Bool, true, Option, none, some, List, [], ◌∷◌, arith, ◌==◌,
  ==_iff,
}
use blend_posv.Text.{Text, codes, text_eq, text_eq_iff}
use blend_posv.Number.{Decimal}
use blend_posv.Table.Listed.{listed, find_row, listed-IsTable}
use blend_posv.Cart.{MetodoPago}
use blend_posv.Sale.{LocalSale, SaleRecord, TipoComprobante, to_local_sale}
use blend_posv.Sync.{
  is_offline_error, is_sync_success, Status, SyncQueueItem, SyncSaleResult, Failure, Reply, results,
  failed, Store, IsStore, Db,
}
use blend_posv.Sync.Backoff.{compute_backoff_ms, compute_backoff_ms_bounds, backoff_base}
use blend_posv.Sync.Queue.{new_item, enqueue_sale, try_sync_queue}
use blend_posv.Sync.Queue.Invariant.{IsCounted, IsSpent, try_sync_queue-IsSpent}
use blend_posv.Sync.Queue.Coverage.{IsCovered}
use blend_posv.Sync.Queue.NoLoss.{enqueue_sale-IsCovered, try_sync_queue-IsCovered}
use blend_posv.Sync.Queue.Retry.{AllKept, offline_keeps_tries}
use blend_posv.Table.{put_all, delete_all, get_all}
use blend_posv.Table.Rows.{AllRows-put}

abbrev next_key : List SyncQueueItem → ℕ
next_key [] = 0
next_key (q ∷ qs) = max (suc q.id) (next_key qs)

abbrev item_id : SyncQueueItem → ℕ
item_id q = q.id

abbrev sale_id : LocalSale Decimal → Text
sale_id s = s.id

abbrev same_nat : ℕ → ℕ → Bool
same_nat a b = a == b

next_key-fresh :
    (qs : List SyncQueueItem) (j : ℕ) → next_key qs ≤ j → find_row item_id same_nat qs j ≡ none
next_key-fresh [] j h = refl
next_key-fresh (q ∷ qs) j h = ground (arith, next_key-fresh qs j)

abbrev parse_date : Text → Option ℕ
parse_date [] = none
parse_date (t ∷ ts) = some t

abbrev pub store : Store Decimal
store = record {
  sales = listed sale_id text_eq;
  queue = listed item_id same_nat;
  next_id = next_key;
  sort = λ qs. qs;
  iso = λ t. t ∷ [];
  parse = parse_date;
}

pub store-IsStore : IsStore store
store-IsStore = record {
  sales_table = listed-IsTable sale_id text_eq text_eq_iff;
  queue_table = listed-IsTable item_id same_nat ==_iff;
  sale_key = λ s. refl;
  item_key = λ q. refl;
  fresh = λ r. next_key-fresh r (next_key r) (omega arith);
  in_sort = λ q qs. ((λ m. m), (λ m. m));
}

abbrev pub sale : SaleRecord Decimal
sale = record {
  id = codes "t:d:1:00ff";
  numero_ticket = codes "000001";
  fecha = 100;
  items = [];
  total = 0;
  total_con_descuento = 0;
  metodo_pago = MetodoPago.efectivo;
  pagos = none;
  efectivo_recibido = none;
  vuelto = none;
  cajero = codes "Ana";
  sesion_caja_id = none;
  cliente_email = none;
  cliente_id = none;
  cliente_nombre = none;
  tipo_comprobante = TipoComprobante.ticket_interno;
  cuit_receptor = none;
  tipo_doc_receptor = none;
  nro_doc_receptor = none;
  receptor_nombre = none;
  receptor_domicilio = none;
  descuento_global = none;
}

abbrev pub empty_db : Db store
empty_db = record { sales = []; queue = [] }

pub empty-IsCovered : IsCovered store store-IsStore empty_db
empty-IsCovered = λ id s t e u. cc

abbrev pub queued : Db store
queued = enqueue_sale store 100 sale empty_db

abbrev pub random : ℕ → ℕ
random k = 7

-- The server takes every sale.
abbrev pub accepts : List (LocalSale Decimal) → Reply
accepts [] = results []
accepts (s ∷ ss) =
    results (record { id = some s.id; estado = codes "completada"; offline_id = some s.id } ∷ [])

abbrev refuses : List (LocalSale Decimal) → Reply
refuses ss = results (record { id = none; estado = codes "rechazada"; offline_id = none } ∷ [])

-- One accepted run marks the sale and empties the queue.
sent :
    let db = try_sync_queue store true true 200 200 random accepts (λ t. t) queued in db.queue ≡ []
unfolding try_sync_queue enqueue_sale put_all delete_all get_all is_sync_success to_local_sale
sent = refl

compute_backoff_ms_bounds_example :
    (6250 ≤ compute_backoff_ms 9 4)
    × (compute_backoff_ms 9 4 ≤ 300_000)
    × (4 * compute_backoff_ms 9 4 ≤ 7 * backoff_base 4)
compute_backoff_ms_bounds_example = compute_backoff_ms_bounds 9 4 (omega arith)

queued-IsCovered : IsCovered store store-IsStore queued
queued-IsCovered = enqueue_sale-IsCovered store store-IsStore 100 sale empty_db empty-IsCovered

try_sync_queue-IsCovered_example :
    IsCovered store store-IsStore
      (try_sync_queue store true true 200 200 random refuses (λ t. t) queued)
try_sync_queue-IsCovered_example =
    try_sync_queue-IsCovered store store-IsStore true true 200 200 random refuses (λ t. t) queued
      (λ k q q' e e'. cc) (λ h. h) queued-IsCovered

offline_keeps_tries_example : AllKept store store-IsStore queued (
    try_sync_queue store true true 200 200 random
      (λ _. failed (Failure.type_error (codes "Failed to fetch")))
      (λ t. t)
      queued)
unfolding is_offline_error
offline_keeps_tries_example =
    offline_keeps_tries store store-IsStore true true 200 200 random
      (Failure.type_error (codes "Failed to fetch")) queued refl

abbrev pub local : LocalSale Decimal
local = to_local_sale (λ t. t ∷ []) sale

abbrev answer : List SyncSaleResult
answer =
    record { id = none; estado = codes "completada"; offline_id = some (codes "t:d:1:00ff") } ∷ []

-- An item that has been refused three times.
abbrev pub refused_item : SyncQueueItem
refused_item = record (new_item store 0 (codes "t:d:1:00ff") (100 ∷ [])) {
  status = Status.error;
  tries = 3;
}

abbrev pub refused_db : Db store
refused_db = record { sales = local ∷ []; queue = refused_item ∷ [] }

abbrev pub no_items : List SyncQueueItem
no_items = []

pub refused-IsSpent : IsSpent store store-IsStore refused_db
refused-IsSpent =
    AllRows-put store.queue store-IsStore.queue_table IsCounted no_items refused_item
      (λ e. omega arith) (λ k v e. cc)

try_sync_queue-IsSpent_example :
    IsSpent store store-IsStore
      (try_sync_queue store true true 200 200 random refuses (λ t. t) refused_db)
try_sync_queue-IsSpent_example =
    try_sync_queue-IsSpent store store-IsStore true true 200 200 random refuses (λ t. t) refused_db
      (λ h. h) refused-IsSpent
