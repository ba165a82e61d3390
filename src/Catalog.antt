-- ===== src/Catalog.antt =====
-- frontend/src/offline/catalog.ts and the products of frontend/src/offline/db.ts: the copy of the
-- catalogue in IndexedDB. Prices and stocks are values of any `Number`.
pub mod Stock
pub mod Delta
pub mod Search
mod Tests
use blend_posv.Prelude.{
  ℕ, ◌≡◌, Bool, true, false, Option, none, some, List, [], ◌∷◌, map, filter, if◌then◌else◌, or_else,
}
use blend_posv.Text.{Text, codes, has_text}
use blend_posv.Number.{Number}
use blend_posv.Answer.{Answer, ok, thrown}
use blend_posv.Table.{Table, IsTable, put_all}

pub record LocalProduct (N : Type 0) : Type 0 where
  pub id : Text
  pub codigo_barras : Text
  pub nombre : Text
  pub precio : N
  pub stock : N
  pub unidad_medida : Option Text

pub record SyncMeta : Type 0 where
  pub key : Text
  pub value : Text

-- What the server says of a product; `precio_venta` after `parseFloat` where it is a text.
pub record Producto (N : Type 0) : Type 0 where
  pub id : Text
  pub codigo_barras : Text
  pub nombre : Text
  pub precio_venta : N
  pub stock_actual : Option N
  pub unidad_medida : Option Text
  pub activo : Bool

-- The tables, how a date is written, and the empty table that `clear` leaves.
pub record CatalogStore (N : Type 0) : Type 1 where
  pub products : Table Text (LocalProduct N)
  pub meta : Table Text SyncMeta
  pub cleared : products.Rows
  pub iso : ℕ → Text

pub record IsCatalogStore {N : Type 0} (st : CatalogStore N) : Type 0 where
  pub products_table : IsTable st.products
  pub meta_table : IsTable st.meta
  pub product_key : (p : LocalProduct N) → st.products.key p ≡ p.id
  pub meta_key : (m : SyncMeta) → st.meta.key m ≡ m.key

-- `db.products` and `db.sync_meta`.
pub record Catalog {N : Type 0} (st : CatalogStore N) : Type 0 where
  pub products : st.products.Rows
  pub meta : st.meta.Rows

abbrev pub last_sync_key : Text
last_sync_key = codes "catalogLastSyncAt"

-- `p.unidad_medida || 'unidad'`
abbrev pub unit_of : Option Text → Text
unit_of u = if has_text u then or_else u [] else codes "unidad"

module _ {N : Type 0} ⦃n : Number N⦄ where
  abbrev pub seed_of : Producto N → LocalProduct N
  seed_of p = record {
    id = p.id;
    codigo_barras = p.codigo_barras;
    nombre = p.nombre;
    precio = p.precio_venta;
    stock = or_else p.stock_actual (n.num 0);
    unidad_medida = some (unit_of p.unidad_medida);
  }

  -- A product that was deactivated gets no stock.
  abbrev pub upsert_of : Producto N → LocalProduct N
  upsert_of p = record {
    id = p.id;
    codigo_barras = p.codigo_barras;
    nombre = p.nombre;
    precio = p.precio_venta;
    stock = if p.activo then or_else p.stock_actual (n.num 0) else n.num 0;
    unidad_medida = some (unit_of p.unidad_medida);
  }

  module _ (st : CatalogStore N) where
    open st use {products, meta, cleared, iso}

    unfoldable pub get_last_sync_at : Catalog st → Option Text
    get_last_sync_at c = elim (meta.get c.meta last_sync_key) [
      | none ↦ none
      | some m ↦ some m.value
    ]

    unfoldable pub set_last_sync_at : Text → Catalog st → Catalog st
    set_last_sync_at text c = record c {
      meta = meta.put c.meta (record { key = last_sync_key; value = text });
    }

    -- The tables after the call and what it returns; `now` is the time after the writes. `none` is
    -- an answer without `data`.
    unfoldable pub seed_catalog_from_api :
        ℕ → Answer (Option (List (Producto N))) → Catalog st → Catalog st × Bool
    unfolding set_last_sync_at
    seed_catalog_from_api now (thrown m) c = (c, false)
    seed_catalog_from_api now (ok none) c = (c, false)
    seed_catalog_from_api now (ok (some [])) c = (c, false)
    seed_catalog_from_api now (ok (some (p ∷ ps))) c =
        let seed = map seed_of (filter (λ (q : Producto N). q.activo) (p ∷ ps)) in
        (set_last_sync_at (iso now) (record c { products = put_all products seed cleared }), true)

    -- The second half of `deltaSyncCatalog`, where there was a sync before; `start` is the time
    -- before the request.
    unfoldable pub delta : ℕ → Answer (Option (List (Producto N))) → Catalog st → Catalog st × Bool
    unfolding set_last_sync_at
    delta start (thrown m) c = (c, false)
    delta start (ok none) c = (set_last_sync_at (iso start) c, false)
    delta start (ok (some [])) c = (set_last_sync_at (iso start) c, false)
    delta start (ok (some (p ∷ ps))) c = (
      set_last_sync_at (iso start)
          (record c { products = put_all products (map upsert_of (p ∷ ps)) c.products }),
      true,
    )

    -- `server` is `listarProductos`, asked for all products or for those updated after a time.
    unfoldable pub delta_sync_catalog :
        ℕ → ℕ → (Option Text → Answer (Option (List (Producto N)))) → Catalog st → Catalog st × Bool
    unfolding seed_catalog_from_api delta get_last_sync_at
    delta_sync_catalog start now server c =
        if has_text (get_last_sync_at c)
        then delta start (server (get_last_sync_at c)) c
        else seed_catalog_from_api now (server none) c

    unfoldable pub get_local_stock : Text → Catalog st → N
    get_local_stock id c = elim (products.get c.products id) [ none ↦ n.num 0 | some p ↦ p.stock ]

    -- The body of the loop of `deductLocalStock`.
    abbrev pub deduct : Text → N → products.Rows → products.Rows
    deduct id cantidad rows = elim (products.get rows id) [
      | none ↦ rows
      | some p ↦ products.put rows (record p { stock = n.sub p.stock cantidad })
    ]

    unfoldable pub deduct_all : List (Text × N) → products.Rows → products.Rows
    deduct_all [] rows = rows
    deduct_all ((id, cantidad) ∷ rest) rows = deduct_all rest (deduct id cantidad rows)

    unfoldable pub deduct_local_stock : List (Text × N) → Catalog st → Catalog st
    unfolding deduct_all
    deduct_local_stock items c = record c { products = deduct_all items c.products }
