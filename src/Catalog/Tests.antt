-- ===== src/Catalog/Tests.antt =====
-- The catalogue at concrete states.
use blend_posv.Prelude.{
  ◌*◌, ◌≡◌, ◌≢◌, refl, inl, inr, false, Option, none, some, List, [], ◌∷◌, arith, In, ap,
}
use blend_posv.Text.{Text, codes, text_eq, text_eq_iff}
use blend_posv.Number.{Decimal, decimal_number, Decimal-IsLawful, unit}
use blend_posv.Answer.{Answer, ok}
use blend_posv.Table.Listed.{listed, listed-IsTable}
use blend_posv.Cart.{CartState, NewItem}
use blend_posv.Cart.Store.{init, add_item}
use blend_posv.Catalog.{
  LocalProduct, SyncMeta, Producto, CatalogStore, IsCatalogStore, Catalog, last_sync_key,
  delta_sync_catalog, get_last_sync_at, get_local_stock, deduct_local_stock,
}
use blend_posv.Catalog.Stock.{sold_from, deduct_local_stock_lem}
use blend_posv.Catalog.Delta.{IsOff, delta_blocks_sale}
use blend_posv.Catalog.Search.{IsOffer, search_catalog_products, search_catalog_products-IsOffer}

abbrev product_id : LocalProduct Decimal → Text
product_id p = p.id

abbrev meta_id : SyncMeta → Text
meta_id m = m.key

abbrev store : CatalogStore Decimal
store = record {
  products = listed product_id text_eq;
  meta = listed meta_id text_eq;
  cleared = [];
  iso = λ t. t ∷ [];
}

store-IsCatalogStore : IsCatalogStore store
store-IsCatalogStore = record {
  products_table = listed-IsTable product_id text_eq text_eq_iff;
  meta_table = listed-IsTable meta_id text_eq text_eq_iff;
  product_key = λ p. refl;
  meta_key = λ m. refl;
}

abbrev milk : LocalProduct Decimal
milk = record {
  id = codes "m";
  codigo_barras = codes "7790";
  nombre = codes "milk";
  precio = 100 * unit;
  stock = 5 * unit;
  unidad_medida = none;
}

abbrev catalog : Catalog store
catalog = record {
  products = milk ∷ [];
  meta = record { key = last_sync_key; value = codes "2026" } ∷ [];
}

abbrev no_milk : Producto Decimal
no_milk = record {
  id = codes "m";
  codigo_barras = codes "7790";
  nombre = codes "milk";
  precio_venta = 100 * unit;
  stock_actual = some (5 * unit);
  unidad_medida = none;
  activo = false;
}

abbrev item : NewItem Decimal
item = record {
  id = codes "m";
  nombre = codes "milk";
  precio = 100 * unit;
  codigo_barras = codes "7790";
  unidad_medida = none;
}

abbrev server : Option Text → Answer (Option (List (Producto Decimal)))
server since = ok (some (no_milk ∷ []))

abbrev cart : CartState Decimal
cart = init

abbrev sold : List (Text × Decimal)
sold = (codes "m", 2 * unit) ∷ (codes "x", unit) ∷ (codes "m", unit) ∷ []

deduct_local_stock_lem_example :
    store.products.get (deduct_local_stock store sold catalog).products (codes "m")
    ≡ sold_from (codes "m") sold (some milk)
deduct_local_stock_lem_example =
    deduct_local_stock_lem store store-IsCatalogStore sold catalog (codes "m")

delta_blocks_sale_example :
    let c' = (delta_sync_catalog store 7 8 server catalog).0 in
    let (s', note) = add_item (some (get_local_stock store (codes "m") c')) item cart in
    (get_local_stock store (codes "m") c' ≡ 0) × (s' ≡ cart) × (note ≢ none)
unfolding get_last_sync_at
delta_blocks_sale_example =
    delta_blocks_sale store store-IsCatalogStore Decimal-IsLawful 7 8 server catalog (no_milk ∷ [])
      no_milk item cart refl refl (inl refl) refl only_milk
  where
    only_milk : (q : Producto Decimal) → In q (no_milk ∷ []) → IsOff item.id q
    only_milk q (inl e) same = ap (λ (p : Producto Decimal). p.activo) e
    only_milk q (inr m) same = absurd m

search_catalog_products-IsOffer_example :
    IsOffer 1 (search_catalog_products (λ t. t) (codes "mil") 1 (milk ∷ []) (milk ∷ []) (milk ∷ []))
search_catalog_products-IsOffer_example =
    search_catalog_products-IsOffer (λ t. t) (codes "mil") 1 (milk ∷ []) (milk ∷ []) (milk ∷ [])
      (omega arith)
