-- ===== src/Terminal/Lookup.antt =====
-- The product of a text that is scanned or typed, `handleAddProduct` of
-- frontend/src/pages/PosTerminal.tsx up to the call that adds it.
use blend_posv.Prelude.{Bool, not, Option, none, some, List, [], ◌∷◌, if◌then◌else◌}
use blend_posv.Text.{Text, truthy}
use blend_posv.Text.Parts.{trim}
use blend_posv.Number.{Number}
use blend_posv.Catalog.{LocalProduct}
use blend_posv.Catalog.Search.{find_catalog_product_by_barcode, search_catalog_products}

-- What `addOrPromptWeight` takes.
pub record Scanned (N : Type 0) : Type 0 where
  pub id : Text
  pub nombre : Text
  pub precio : N
  pub codigo_barras : Text
  pub unidad_medida : Option Text

-- `ConsultaPreciosResponse`
pub record Precio (N : Type 0) : Type 0 where
  pub nombre : Text
  pub precio_venta : N
  pub stock_disponible : N

-- The catalogue at one of the lookups: what its two indices give, and its rows.
pub record CatalogView (N : Type 0) : Type 0 where
  pub by_barcode : List (LocalProduct N)
  pub by_name : List (LocalProduct N)
  pub rows : List (LocalProduct N)

-- What becomes of a text that is scanned or typed.
pub data Found (N : Type 0) : Type 0 where
  nothing_typed : Found N
  sin_stock : Found N
  found : Scanned N → Found N
  no_encontrado : Found N

module _ {N : Type 0} ⦃n : Number N⦄ where
  open n use {num, le}

  abbrev pub of_local : LocalProduct N → Scanned N
  of_local p = record {
    id = p.id;
    nombre = p.nombre;
    precio = p.precio;
    codigo_barras = p.codigo_barras;
    unidad_medida = p.unidad_medida;
  }

  abbrev pub barcode_product : Text → CatalogView N → Option (LocalProduct N)
  unfolding find_catalog_product_by_barcode
  barcode_product trimmed s = find_catalog_product_by_barcode trimmed s.by_barcode s.rows

  -- The lookups in the local catalogue.
  unfoldable pub find_locally : (Text → Text) → Text → CatalogView N → CatalogView N → Found N
  unfolding find_catalog_product_by_barcode search_catalog_products
  find_locally lower trimmed s1 s2 = elim (barcode_product trimmed s1) [
    | some p ↦ found (of_local p)
    | none ↦ elim (search_catalog_products lower trimmed 1 s2.by_barcode s2.by_name s2.rows) [
      | [] ↦ no_encontrado
      | p ∷ _ ↦ found (of_local p)
    ]
  ]

  -- `online` is `VITE_API_BASE && navigator.onLine`; `precio` is the answer of the server and
  -- `local` that of the catalogue after it, `none` where the call throws.
  unfoldable pub find_product :
      (Text → Text)
      → Text
      → Bool
      → Option (Precio N)
      → Option (CatalogView N)
      → CatalogView N
      → CatalogView N
      → Found N
  unfolding find_locally
  find_product lower value online precio local s1 s2 =
      let trimmed = trim value in
      let rest = find_locally lower trimmed s1 s2 in
      if not (truthy trimmed) then nothing_typed else if not online then rest else elim precio [
        | none ↦ rest
        | some a ↦ if le a.stock_disponible (num 0) then sin_stock else elim local [
          | none ↦ rest
          | some s ↦ elim (barcode_product trimmed s) [
            | none ↦ rest
            | some p ↦ found (record {
              id = p.id;
              nombre = a.nombre;
              precio = a.precio_venta;
              codigo_barras = trimmed;
              unidad_medida = p.unidad_medida;
            })
          ]
        ]
      ]
