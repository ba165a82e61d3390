-- ===== src/Promotions.antt =====
-- frontend/src/store/usePromocionesStore.ts: the discounts that the active promotions give to the
-- products in the cart. A percentage is kept for a product only if it beats the one found so far.
pub mod Bounds
pub mod Best
mod Tests
use blend_posv.Prelude.{
  ℕ, zero, suc, Bool, true, false, not, ◌&&◌, Option, none, some, List, [], ◌∷◌, map, ◌==◌,
  if◌then◌else◌, or_else, length, all,
}
use blend_posv.Text.{Text, member}
use blend_posv.Dict.{Dict, lookup, insert}
use blend_posv.Number.{Number}

pub data TipoPromo : Type 0 where
  porcentaje monto_fijo : TipoPromo

pub record ProductoPromo (N : Type 0) : Type 0 where
  pub id : Text
  pub precio_venta : N

pub record Promocion (N : Type 0) : Type 0 where
  pub nombre : Text
  pub activa : Bool
  pub tipo : TipoPromo
  pub valor : N
  pub cantidad_requerida : Option N
  pub productos : List (ProductoPromo N)

-- The products in the cart, their prices and their quantities.
pub record CartView (N : Type 0) : Type 0 where
  pub product_ids : List Text
  pub price_map : Dict N
  pub quantity_map : Dict N

-- `{ descuentos, promoNombres }`
pub record Discounts (N : Type 0) : Type 0 where
  pub descuentos : Dict N
  pub promo_nombres : Dict Text

module _ {N : Type 0} ⦃n : Number N⦄ where
  open n use {num, add, sub, mul, div, max_of, min_of, floor, lt, le, eq}

  abbrev pub quantity : CartView N → Text → N
  quantity v id = or_else (lookup id v.quantity_map) (num 0)

  abbrev pub price : CartView N → ProductoPromo N → N
  price v p = or_else (lookup p.id v.price_map) p.precio_venta

  abbrev pub required : Promocion N → N
  required promo = max_of (num 1) (or_else promo.cantidad_requerida (num 1))

  unfoldable pub clamp_pct : N → N
  clamp_pct pct = min_of (num 100) (max_of (num 0) pct)

  -- The last step of both branches: keep the percentage if it beats the one that is there.
  unfoldable pub keep_best : Text → Text → N → Discounts N → Discounts N
  keep_best id nombre pct d =
      if lt (or_else (lookup id d.descuentos) (num 0)) pct
      then record {
        descuentos = insert id pct d.descuentos;
        promo_nombres = insert id nombre d.promo_nombres;
      }
      else d

  -- The percentage of a promotion of one product, for `Q` units of which `sets * n` are discounted.
  unfoldable pub single_pct : Promocion N → ProductoPromo N → CartView N → N → N
  single_pct promo p v sets =
      let q = quantity v p.id in
      elim promo.tipo [
        | porcentaje ↦ mul promo.valor (div (mul sets (required promo)) q)
        | monto_fijo ↦
            if lt (num 0) (price v p)
            then mul (div (mul sets promo.valor) (mul (price v p) q)) (num 100)
            else num 0
      ]

  unfoldable pub single_product :
      Promocion N → ProductoPromo N → CartView N → Discounts N → Discounts N
  unfolding clamp_pct
  single_product promo p v d =
      let sets = floor (div (quantity v p.id) (required promo)) in
      if not (member p.id v.product_ids)
      then d
      else if eq sets (num 0)
      then d
      else keep_best p.id promo.nombre (clamp_pct (single_pct promo p v sets)) d

  -- `Math.min(...xs)`; of no numbers it is infinite, which `none` stands for
  abbrev pub min_list : List N → Option N
  min_list [] = none
  min_list (x ∷ xs) = elim (min_list xs) [ none ↦ some x | some m ↦ some (min_of x m) ]

  abbrev pub combo_value : CartView N → N → N → List (ProductoPromo N) → N
  combo_value v units sum [] = sum
  combo_value v units sum (p ∷ ps) =
      combo_value v units (add sum (mul (price v p) (min_of units (quantity v p.id)))) ps

  unfoldable pub combo_pct : Promocion N → ProductoPromo N → CartView N → N → N
  combo_pct promo p v sets =
      let q = quantity v p.id in
      let units = mul sets (required promo) in
      elim promo.tipo [
        | porcentaje ↦ mul promo.valor (div units q)
        | monto_fijo ↦
            let whole = combo_value v units (num 0) promo.productos in
            let this = mul (price v p) units in
            if lt (num 0) whole && lt (num 0) (price v p)
            then mul (div (mul (mul sets promo.valor) (div this whole)) (mul (price v p) q))
                (num 100)
            else num 0
      ]

  -- The loop over the products of a combo.
  unfoldable pub combo_products :
      Promocion N → CartView N → N → List (ProductoPromo N) → Discounts N → Discounts N
  unfolding clamp_pct
  combo_products promo v sets [] d = d
  combo_products promo v sets (p ∷ ps) d = combo_products promo v sets ps (
      if eq (quantity v p.id) (num 0)
      then d
      else keep_best p.id promo.nombre (clamp_pct (combo_pct promo p v sets)) d)

  unfoldable pub combo : Promocion N → CartView N → Discounts N → Discounts N
  unfolding combo_products
  combo promo v d =
      if all (λ (p : ProductoPromo N). member p.id v.product_ids) promo.productos
      then elim (min_list
          (map (λ (p : ProductoPromo N). div (quantity v p.id) (required promo)) promo.productos)) [
            | none ↦ d
            | some m ↦
                if eq (floor m) (num 0)
                then d
                else combo_products promo v (floor m) promo.productos d
          ]
      else d

  abbrev pub by_products :
      Promocion N → List (ProductoPromo N) → CartView N → Discounts N → Discounts N
  by_products promo (p ∷ []) v d = single_product promo p v d
  by_products promo _ v d = combo promo v d

  -- The body of the loop over the promotions.
  unfoldable pub apply_promo : Promocion N → CartView N → Discounts N → Discounts N
  unfolding single_product combo
  apply_promo promo v d = if promo.activa then by_products promo promo.productos v d else d

  unfoldable pub apply_all : List (Promocion N) → CartView N → Discounts N → Discounts N
  unfolding apply_promo
  apply_all [] v d = d
  apply_all (promo ∷ rest) v d = apply_all rest v (apply_promo promo v d)

  abbrev pub no_discounts : Discounts N
  no_discounts = record { descuentos = []; promo_nombres = [] }

  unfoldable pub compute_promo_descuentos : List (Promocion N) → CartView N → Discounts N
  unfolding apply_all
  compute_promo_descuentos promociones v = apply_all promociones v no_discounts
