-- ===== src/SalesTable/Tests.antt =====
-- A cart with a complete combo and units left over, at exact decimals.
use blend_posv.Prelude.{◌*◌, ◌≡◌, refl, true, none, [], ◌∷◌}
use blend_posv.Text.{codes}
use blend_posv.Number.{
  Decimal, decimal_number, Decimal-IsLawful, Decimal-IsExact, Decimal-IsCounting, unit,
}
use blend_posv.Cart.{CartItem}
use blend_posv.Promotions.{Promocion, porcentaje}
use blend_posv.SalesTable.{build_display_rows}
use blend_posv.SalesTable.Units.{shown_units}
use blend_posv.SalesTable.Conserved.{build_display_rows-units}

abbrev coca : CartItem Decimal
coca = record {
  id = codes "c1";
  nombre = codes "Coca";
  precio = 1500 * unit;
  codigo_barras = codes "779";
  cantidad = 5 * unit;
  descuento = 0;
  promo_descuento = none;
  promo_nombre = none;
  subtotal = 7500 * unit;
  unidad_medida = none;
  peso = none;
}

abbrev pan : CartItem Decimal
pan = record {
  id = codes "p1";
  nombre = codes "Pan";
  precio = 800 * unit;
  codigo_barras = codes "780";
  cantidad = 2 * unit;
  descuento = 0;
  promo_descuento = none;
  promo_nombre = none;
  subtotal = 1600 * unit;
  unidad_medida = none;
  peso = none;
}

abbrev merienda : Promocion Decimal
merienda = record {
  nombre = codes "Merienda";
  activa = true;
  tipo = porcentaje;
  valor = 10 * unit;
  cantidad_requerida = none;
  productos =
      record { id = codes "c1"; precio_venta = 1500 * unit }
      ∷ record { id = codes "p1"; precio_venta = 800 * unit }
      ∷ [];
}

build_display_rows-units_example :
    shown_units (codes "c1") (build_display_rows (coca ∷ pan ∷ []) (merienda ∷ [])) ≡ 5 * unit
build_display_rows-units_example =
    build_display_rows-units Decimal-IsLawful Decimal-IsExact Decimal-IsCounting (coca ∷ pan ∷ [])
      (merienda ∷ []) (codes "c1") coca (refl, (refl, _)) ((refl, (refl, _)), _) refl refl
