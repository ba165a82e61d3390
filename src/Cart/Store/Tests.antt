-- ===== src/Cart/Store/Tests.antt =====
-- The cart at exact decimals, in ten-thousandths.
use blend_posv.Prelude.{
  ◌≡◌, ◌≢◌, ◌⊎◌, refl, ◌*◌, true, false, none, some, List, [], ◌∷◌, arith, All,
}
use blend_posv.Text.{Text, codes, text_eq}
use blend_posv.Number.{Decimal, decimal_number, Decimal-IsLawful, unit}
use blend_posv.Cart.{
  CartState, NewItem, in_cart, UnidadMedida, NewWeightItem, effective_pct, compute_total,
  compute_total_con_descuento,
}
use blend_posv.Cart.Store.{
  init, set_global_discount, set_item_discount, add_weight_item, add_item, put_line, add_to_cart,
}
use blend_posv.Cart.Store.Actions.{Action, step, run}
use blend_posv.Cart.Store.Totals.{IsConsistent, init-IsConsistent, run-IsConsistent}
use blend_posv.Cart.Store.Prices.{IsPriced, run-IsPriced}
use blend_posv.Cart.Store.Stock.{add_item_lem}
use blend_posv.Cart.Store.Selection.{IsInRange, step-IsInRange}

abbrev coca : NewItem Decimal
coca = record {
  id = codes "c1";
  nombre = codes "Coca";
  precio = 1500 * unit;
  codigo_barras = codes "779";
  unidad_medida = none;
}

abbrev queso : NewWeightItem Decimal
queso = record {
  id = codes "q1";
  nombre = codes "Queso";
  precio = 8000 * unit;
  codigo_barras = codes "20";
  unidad_medida = UnidadMedida.kg;
  peso = 2500;
}

-- Two bottles, a quarter of cheese, and 50% off the bottles by hand.
abbrev session : List (Action Decimal)
session =
    Action.add (some (5 * unit)) coca
    ∷ Action.add (some (5 * unit)) coca
    ∷ Action.add_weight (codes "12345678-9abc") queso
    ∷ Action.item_discount (codes "c1") (50 * unit)
    ∷ Action.global_discount (10 * unit)
    ∷ []

session_total : (run session init).total_con_descuento ≡ 3150 * unit
unfolding run init effective_pct compute_total compute_total_con_descuento set_global_discount
    set_item_discount add_weight_item add_item
session_total = refl

run-IsConsistent_example : IsConsistent (run session init)
run-IsConsistent_example =
    run-IsConsistent Decimal-IsLawful session init (init-IsConsistent Decimal-IsLawful)

no_lines-IsPriced : All IsPriced (init {N = Decimal}).cart
unfolding init
no_lines-IsPriced = tt

run-IsPriced_example : All IsPriced (run session init).cart
run-IsPriced_example = run-IsPriced Decimal-IsLawful session init no_lines-IsPriced

abbrev one_bottle : CartState Decimal
one_bottle = add_to_cart coca init

add_item_lem_example :
    let (s', note) = add_item (some (1 * unit)) coca one_bottle in
    ((s' ≡ one_bottle)
      × (note ≢ none)
      × ((decimal_number.le (1 * unit) 0 ≡ true)
          ⊎ (decimal_number.lt
                (1 * unit)
                (decimal_number.add (in_cart (codes "c1") one_bottle.cart) unit)
              ≡ true)))
    ⊎ ((note ≡ none)
        × (in_cart (codes "c1") s'.cart
            ≡ decimal_number.add (in_cart (codes "c1") one_bottle.cart) unit)
        × (decimal_number.lt (1 * unit) (in_cart (codes "c1") s'.cart) ≡ false)
        × ((j : Text)
            → text_eq (codes "c1") j ≡ false
            → in_cart j s'.cart ≡ in_cart j one_bottle.cart))
add_item_lem_example = add_item_lem Decimal-IsLawful (1 * unit) coca one_bottle

step-IsInRange_example : IsInRange (step Action.remove_selected (add_to_cart coca init))
unfolding add_to_cart put_line init
step-IsInRange_example =
    step-IsInRange Action.remove_selected (add_to_cart coca init) tt (ground arith)
