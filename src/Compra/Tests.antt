-- ===== src/Compra/Tests.antt =====
-- A purchase of two lines, at exact decimals.
use blend_posv.Prelude.{◌*◌, ◌≡◌, refl, [], ◌∷◌, none, some}
use blend_posv.Text.{codes}
use blend_posv.Text.Parts.{trim}
use blend_posv.Number.{
  Decimal, decimal_number, Decimal-IsLawful, Decimal-IsExact, Decimal-IsAdditive, unit,
}
use blend_posv.Compra.{
  ItemRow, Compra, veintiuno, cero, compra_total, handle_guardar, sin_productos, new_row,
}
use blend_posv.Compra.Sums.{sum_lines, compra_total-sum_lines}

abbrev harina : ItemRow Decimal
harina = record {
  key = 1;
  nombre = codes "Harina";
  precio = 1000 * unit;
  descuento = 10 * unit;
  impuesto = veintiuno;
  cantidad = 3 * unit;
  observaciones = [];
}

abbrev flete : ItemRow Decimal
flete = record {
  key = 2;
  nombre = codes "Flete";
  precio = 500 * unit;
  descuento = 0;
  impuesto = cero;
  cantidad = 1 * unit;
  observaciones = [];
}

-- 3267 and 500
two_lines : compra_total (harina ∷ flete ∷ []) ≡ 3767 * unit
unfolding compra_total
two_lines = refl

compra_total-sum_lines_example :
    compra_total (harina ∷ flete ∷ []) ≡ sum_lines 0 (harina ∷ flete ∷ [])
compra_total-sum_lines_example =
    compra_total-sum_lines Decimal-IsLawful Decimal-IsExact Decimal-IsAdditive (harina ∷ flete ∷ [])
      (record { discounted = refl; taxed = refl }, (record { discounted = refl; taxed = refl }, tt))

-- The page as it opens, with a supplier.
abbrev blank : Compra Decimal
blank = record {
  numero = [];
  fecha_compra = some (codes "2024-05-01");
  fecha_vence = none;
  moneda = codes "ARS";
  deposito = some (codes "Principal");
  notas = [];
  proveedor_id = some (codes "p1");
  items = new_row 1 ∷ [];
  next_key = 2;
  pagos = [];
  next_pago_key = 1;
}

nothing_bought : handle_guardar blank ≡ sin_productos
unfolding handle_guardar trim
nothing_bought = refl
