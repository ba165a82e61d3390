-- ===== src/Promotions/Tests.antt =====
-- The promotions at exact decimals, in ten-thousandths.
use blend_posv.Prelude.{◌≡◌, refl, ◌*◌, true, some, List, [], ◌∷◌, inl, inr}
use blend_posv.Text.{codes}
use blend_posv.Number.{Decimal, decimal_number, Decimal-IsLawful, unit}
use blend_posv.Promotions.{
  TipoPromo, ProductoPromo, Promocion, CartView, compute_promo_descuentos, keep_best, clamp_pct,
  single_pct, combo_pct,
}
use blend_posv.Promotions.Bounds.{IsJustified, compute_promo_descuentos_lem}
use blend_posv.Promotions.Best.{pct_of, offered, best_offer}

abbrev coca : ProductoPromo Decimal
coca = record { id = codes "c1"; precio_venta = 1500 * unit }

abbrev alfajor : ProductoPromo Decimal
alfajor = record { id = codes "a1"; precio_venta = 500 * unit }

-- Both together, 20% off.
abbrev combo : Promocion Decimal
combo = record {
  nombre = codes "Merienda";
  activa = true;
  tipo = TipoPromo.porcentaje;
  valor = 20 * unit;
  cantidad_requerida = some (1 * unit);
  productos = coca ∷ alfajor ∷ [];
}

-- 2x1.
abbrev two_for_one : Promocion Decimal
two_for_one = record {
  nombre = codes "2x1";
  activa = true;
  tipo = TipoPromo.porcentaje;
  valor = 50 * unit;
  cantidad_requerida = some (2 * unit);
  productos = coca ∷ [];
}

abbrev promos : List (Promocion Decimal)
promos = combo ∷ two_for_one ∷ []

-- Two bottles and one alfajor.
abbrev view : CartView Decimal
view = record {
  product_ids = codes "c1" ∷ codes "a1" ∷ [];
  price_map = [];
  quantity_map = (codes "c1", 2 * unit) ∷ (codes "a1", 1 * unit) ∷ [];
}

-- The example of the code's comment: one bottle of the two is in the combo.
combo_alone :
    (compute_promo_descuentos (combo ∷ []) view).descuentos
    ≡ (codes "c1", 10 * unit) ∷ (codes "a1", 20 * unit) ∷ []
unfolding compute_promo_descuentos keep_best clamp_pct combo_pct
combo_alone = refl

both :
    (compute_promo_descuentos promos view).descuentos
    ≡ (codes "c1", 50 * unit) ∷ (codes "a1", 20 * unit) ∷ []
unfolding compute_promo_descuentos keep_best clamp_pct combo_pct single_pct
both = refl

compute_promo_descuentos_lem_example :
    IsJustified Decimal-IsLawful promos view (compute_promo_descuentos promos view) (codes "c1")
compute_promo_descuentos_lem_example =
    compute_promo_descuentos_lem Decimal-IsLawful promos view (codes "c1")

best_offer_example :
    decimal_number.le
      (offered combo alfajor view (1 * unit))
      (pct_of (codes "a1") (compute_promo_descuentos (two_for_one ∷ combo ∷ []) view))
    ≡ true
best_offer_example =
    best_offer Decimal-IsLawful (two_for_one ∷ combo ∷ []) combo alfajor (1 * unit) view
      (inr (inl refl))
      (record {
        active = refl;
        listed = inr (inl refl);
        present = refl;
        some_units = refl;
        least = 1 * unit;
        is_least = refl;
        whole = refl;
        some_sets = refl;
      })
