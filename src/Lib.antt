-- ===== src/Lib.antt =====
-- The terminal of BlendPOS: the state and the logic of the web client under frontend/src, from the
-- cart to the queue of sales that wait for the server.
--
-- The parts and how they interact:
--   Cart, Cart/Store: frontend/src/store/useCartStore.ts. Each method of the store is a function on
--     `CartState` that also gives the notification shown. The stock that a method waits for is an
--     argument, `none` where the lookup throws. Store/Actions has a session at the till as a list
--     of methods.
--   Terminal: frontend/src/pages/PosTerminal.tsx with the dialog for weights. Terminal/Lookup finds
--     the product of a code, Terminal/Keys is `handleKey`, and Terminal/Events has a session on the
--     page as a list of events, in which the calls to the cart end in any order.
--   SalesTable: frontend/src/components/pos/SalesTable.tsx, the rows in which the cart is shown.
--   PosUi: frontend/src/store/usePOSUIStore.ts, which dialogs are open. Payment:
--     frontend/src/components/pos/PaymentModal.tsx, from the form to `confirmSale`. PostSale:
--     frontend/src/components/pos/PostSaleModal.tsx, which polls for the invoice. Discount:
--     frontend/src/components/pos/DiscountModal.tsx. Campo: the fields of numbers of the dialogs.
--   Promotions: `computePromoDescuentos` of frontend/src/store/usePromocionesStore.ts; the cart
--     takes its result by `setPromoDiscounts`.
--   Sale: the records of a sale and `toLocalSale`. Sale/Store: frontend/src/store/useSaleStore.ts,
--     where `confirmSale` makes a record of the cart, and hands it to the queue and the quantities
--     to the local stock. Sale/Request: `toRegistrarVentaRequest` of
--     frontend/src/services/api/sales.ts, which says what the server gets of a queued sale.
--   Sync: frontend/src/offline/sync.ts with the tables of frontend/src/offline/db.ts. Backoff is
--     `computeBackoffMs`; Queue is `enqueueSale`, `trySyncQueue` and `getSyncStats`; Queue/Waiting
--     has the set of waiting sales that they refine; Recover is `recoverLostSales`, which runs when
--     the application starts.
--   SyncStatus: frontend/src/hooks/useSyncStatus.ts, which runs the queue and watches its length.
--   Catalog: frontend/src/offline/catalog.ts, the copy of the products, its synchronisation, the
--     stock after a sale and the searches (Catalog/Search).
--   Caja: frontend/src/store/useCajaStore.ts, the session of the cash register. Caja/Steps has each
--     `set` as a step of a relation, so that the requests of several calls overlap in any order.
--   Auth: frontend/src/store/useAuthStore.ts, frontend/src/store/tokenStore.ts and the refresh and
--     the 401 branch of frontend/src/api/client.ts. Sucursal: frontend/src/store/useSucursalStore.ts.
--   Features: the cache of frontend/src/hooks/useFeature.ts. Plans: frontend/src/config/plans.ts.
--   Printer: frontend/src/services/ThermalPrinterService.ts, the ticket as lines and as bytes;
--     Printer/Port is the serial port, with `disconnect` in two halves around its wait.
--   ImportCsv: frontend/src/components/ImportProductosModal.tsx, from the text of a file to the
--     products that are sent; ImportCsv/RoundTrip has the files that are read back.
--   Compra: frontend/src/pages/admin/NuevaCompraPage.tsx, a purchase and its totals.
--   Prelude, Text, Digits, Dict, Number, Table and Answer are shared: lists over the native numbers
--     and integers, strings as UTF-16 code units, decimal digits, maps as association lists in
--     insertion order, numbers, tables of IndexedDB, and how an awaited call ends.
--
-- How code is modelled:
--   A JavaScript number is a value of an interface `Number` with the operators that the code calls;
--   theorems that need arithmetic take `IsLawful`, the laws of IEEE numbers other than NaN that they
--   rest on, and `Decimal` is an instance that meets them. Theorems on exact amounts also take
--   `IsExact`, sums that are not rounded, and those on counted units `IsCounting`; `IsAdditive` has
--   the sums and differences that stay above zero.
--   Counters, ids of queue items and times in milliseconds are natural numbers, below 2^53 in the
--   code. undefined and null are `none`. `parseFloat`, `parseInt` and `toLowerCase` are arguments.
--   A table of IndexedDB is an interface `Table` with its laws `IsTable`; Table/Listed is a list of
--   rows that meets it. Sorting, dates and new keys of the queue are fields of `Store`.
--   An asynchronous function is a function of the answers that it waits for. Where other code may
--   run meanwhile and a property depends on it, that is an argument (`between` of `trySyncQueue`)
--   or a step of its own (Caja/Steps, Features, Terminal).
--   All loops are structural recursion; that of the polls in PostSale counts down the code's own
--   bound. There is fuel in `to_text` of Digits, one unit more than the number, which has fewer
--   digits, and in `request` of Auth/Client, which calls itself: two steps, since a retry does not
--   try again.
--
-- Not modelled: the Go server and the Python sidecar, which the client sees as answers; the pages of
-- the administration but the import and the purchase; the markup, the focus and the timers of the
-- views; the URL and the headers of a request; the login of development builds without a server; the
-- request that loads the promotions; console output; requests that overlap while the tokens are
-- renewed.
pub mod Prelude
pub mod Terminal
pub mod Text
pub mod Dict
pub mod Number
pub mod Cart
pub mod Promotions
pub mod Table
pub mod Sale
pub mod Sync
pub mod Answer
pub mod Caja
pub mod Compra
pub mod Digits
pub mod Catalog
pub mod Auth
pub mod Sucursal
pub mod Printer
pub mod Features
pub mod PostSale
pub mod Plans
pub mod SyncStatus
pub mod PosUi
pub mod Campo
pub mod Discount
pub mod SalesTable
pub mod Payment
pub mod ImportCsv
