-- ===== src/ImportCsv.antt =====
-- frontend/src/components/ImportProductosModal.tsx: products are read from a file of comma separated
-- values (ImportCsv/Reading), checked row by row, and those without errors are sent. The text of the
-- file and the answer of the server are arguments, `none` where the call throws.
pub mod Reading
pub mod Valid
pub mod RoundTrip
mod Tests
use blend_posv.Prelude.{
  ℕ, suc, ◌+◌, Bool, true, false, not, Option, none, some, List, [], ◌∷◌, ◌++◌, map, ltb, ◌==◌,
  if◌then◌else◌, or_else, length, get_elem?, filter,
}
use blend_posv.Text.{Text, codes, truthy, member}
use blend_posv.Text.Parts.{trim, underscores, split_on, split_lines, join}
use blend_posv.Dict.{Dict, lookup, insert}
use blend_posv.Number.{Number}
use blend_posv.ImportCsv.Reading.{ParsedRow, Parsed, parse_csv}

pub record CrearProducto (N : Type 0) : Type 0 where
  pub codigo_barras : Text
  pub nombre : Text
  pub precio_costo : N
  pub precio_venta : N
  pub categoria : Text
  pub stock_actual : N
  pub stock_minimo : N

pub record ImportState (N : Type 0) : Type 0 where
  pub active : ℕ
  pub file : Option Text
  pub parsed_rows : List (ParsedRow N)
  pub parse_error : Option Text
  pub importing : Bool
  pub import_progress : ℕ
  pub import_result : Option (List Bool)

pub data ImportNotice : Type 0 where
  completada : ℕ → ImportNotice
  parcial : ℕ → ℕ → ImportNotice
  fallida : ImportNotice

pub record ImportAnswer (N : Type 0) : Type 0 where
  pub state : ImportState N
  pub sent : Option (List (CrearProducto N))
  pub notice : Option ImportNotice
  pub imported : Bool

module _ {N : Type 0} ⦃n : Number N⦄ where
  open n use {num}

  unfoldable pub valid_rows : ImportState N → List (ParsedRow N)
  valid_rows s = filter (λ (r : ParsedRow N). length r.errors == 0) s.parsed_rows

  unfoldable pub reset : ImportState N
  reset = record {
    active = 0;
    file = none;
    parsed_rows = [];
    parse_error = none;
    importing = false;
    import_progress = 0;
    import_result = none;
  }

  unfoldable pub handle_file_change : Option Text → ImportState N → ImportState N
  handle_file_change f s = record s { file = f; parsed_rows = []; parse_error = none }

  abbrev pub take_parsed : Parsed N → ImportState N → ImportState N
  take_parsed parsed s = elim parsed.header_error [
    | some e ↦ record s { parse_error = some e }
    | none ↦ record s { parsed_rows = parsed.rows; parse_error = none; active = 1 }
  ]

  unfoldable pub handle_parse :
      (Text → Option N)
      → (Text → Option N)
      → (Text → Text)
      → Option Text
      → ImportState N
      → ImportState N
  unfolding parse_csv
  handle_parse parse_float parse_int lower text s = elim s.file [
    | none ↦ s
    | some f ↦ elim text [
      | none ↦ s
      | some t ↦ take_parsed (parse_csv parse_float parse_int lower t) s
    ]
  ]

  abbrev pub to_crear : ParsedRow N → CrearProducto N
  to_crear r = record {
    codigo_barras = r.codigo_barras;
    nombre = r.nombre;
    precio_costo = num 0;
    precio_venta = r.precio_venta;
    categoria = r.categoria;
    stock_actual = r.stock_actual;
    stock_minimo = num 0;
  }

  -- `result` is whether each product was created.
  unfoldable pub handle_import : Option (List Bool) → ImportState N → ImportAnswer N
  unfolding valid_rows
  handle_import result s =
      if length (valid_rows s) == 0
      then record { state = s; sent = none; notice = none; imported = false }
      else let products = map to_crear (valid_rows s) in
        elim result [
          | none ↦ record {
            state = record s { import_progress = 0; importing = false };
            sent = some products;
            notice = some fallida;
            imported = false;
          }
          | some rs ↦
              let created = length (filter (λ (b : Bool). b) rs) in
              let failed = length (filter not rs) in
              record {
                state = record s {
                  import_result = some rs;
                  import_progress = 100;
                  active = 2;
                  importing = false;
                };
                sent = some products;
                notice = some (if failed == 0 then completada created else parcial created failed);
                imported = true;
              }
        ]
