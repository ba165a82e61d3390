-- ===== src/ImportCsv/Tests.antt =====
-- A file of two products, and a dialog in which a file with a faulty line is imported.
use blend_posv.Prelude.{
  length, Bool, ◌&&◌, arith, ◌*◌, ◌/◌, ◌≡◌, refl, true, Option, none, some, List, [], ◌∷◌, All,
  if◌then◌else◌,
}
use blend_posv.Text.{Text, text_eq, text_eq_iff, codes, truthy}
use blend_posv.Text.Parts.{trim, without}
use blend_posv.Digits.{to_text, value_from}
use blend_posv.Number.{Decimal, decimal_number, unit}
use blend_posv.ImportCsv.Reading.{parse_csv}
use blend_posv.ImportCsv.{reset}
use blend_posv.ImportCsv.Valid.{
  ImportEvent, choose, validate, confirm, IsValid, wizard_run, wizard_run-AllValid,
}
use blend_posv.ImportCsv.RoundTrip.{Entry, IsField, IsEntry, write_csv, rows_of, parse_csv-write}

abbrev parse : Text → Option Decimal
parse t = if truthy t then some (value_from 0 t * unit) else none

abbrev show : Decimal → Text
show x = to_text 10 (x / unit)

abbrev same_text : Text → Text
same_text t = t

abbrev coca : Entry Decimal
coca = record {
  nombre = codes "Coca Cola 500ml";
  codigo_barras = codes "7790895000591";
  precio_venta = 850 * unit;
  categoria = codes "Bebidas";
  stock_actual = 24 * unit;
}

abbrev pan : Entry Decimal
pan = record {
  nombre = codes "Pan Lactal";
  codigo_barras = codes "7790040913004";
  precio_venta = 1200 * unit;
  categoria = codes "Almacen";
  stock_actual = 0;
}

abbrev is_field : Text → Bool
unfolding trim
is_field t = truthy t && text_eq (trim t) t && without 44 t && without 10 t && without 13 t

is_field-IsField : (t : Text) → is_field t ≡ true → IsField t
unfolding is_field
is_field-IsField t h = record {
  there = ground (arith, h);
  trimmed = (text_eq_iff (trim t) t).0 (ground (arith, h));
  no_comma = ground (arith, h);
  no_newline = ground (arith, h);
  no_return = ground (arith, h);
}

coca-IsEntry : IsEntry show show parse parse coca
unfolding to_text is_field
coca-IsEntry =
    let whole = is_field-IsField in
    record {
      fields_whole =
          (whole _ refl, (whole _ refl, (whole _ refl, (whole _ refl, (whole _ refl, tt)))));
      price_read = refl;
      stock_read = refl;
      price = refl;
      stock = refl;
    }

pan-IsEntry : IsEntry show show parse parse pan
unfolding to_text is_field
pan-IsEntry =
    let whole = is_field-IsField in
    record {
      fields_whole =
          (whole _ refl, (whole _ refl, (whole _ refl, (whole _ refl, (whole _ refl, tt)))));
      price_read = refl;
      stock_read = refl;
      price = refl;
      stock = refl;
    }

parse_csv-write_example :
    parse_csv parse parse same_text (write_csv show show true (coca ∷ pan ∷ []))
    ≡ record { rows = rows_of show show 1 (coca ∷ pan ∷ []); header_error = none }
parse_csv-write_example =
    parse_csv-write show show parse parse same_text true coca (pan ∷ [])
      (refl, (refl, (refl, (refl, (refl, tt))))) (coca-IsEntry, (pan-IsEntry, tt))

-- A product without a price between the two.
abbrev faulty_file : Text
faulty_file =
    codes
      "nombre,codigo_barras,precio_venta,categoria,stock_actual\nCoca,779,850,Bebidas,24\nPan,780,Almacen,1"

abbrev events : List ImportEvent
events =
    choose (some (codes "productos.csv"))
    ∷ validate (some faulty_file)
    ∷ confirm (some (true ∷ []))
    ∷ []

wizard_run-AllValid_example : All IsValid (wizard_run parse parse same_text events reset)
unfolding reset
wizard_run-AllValid_example = wizard_run-AllValid parse parse same_text events reset tt

one_is_sent : length (wizard_run parse parse same_text events reset) ≡ 1
unfolding wizard_run reset trim
one_is_sent = refl
