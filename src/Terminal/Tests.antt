-- ===== src/Terminal/Tests.antt =====
-- A kilogram product that is scanned and weighed, and the key of the payment, at exact decimals.
use blend_posv.Prelude.{
  ◌+◌, ◌*◌, ◌≡◌, refl, true, false, Option, none, some, List, [], ◌∷◌, All, length, if◌then◌else◌,
}
use blend_posv.Text.{Text, codes, truthy}
use blend_posv.Text.Parts.{trim}
use blend_posv.Digits.{value_from}
use blend_posv.Number.{Decimal, decimal_number, unit}
use blend_posv.Campo.{numero}
use blend_posv.Cart.Store.{init, add_item, add_to_cart, add_weight_item}
use blend_posv.Catalog.{LocalProduct}
use blend_posv.PosUi.{init_pos_ui}
use blend_posv.Terminal.{Terminal, f10}
use blend_posv.Terminal.Lookup.{CatalogView}
use blend_posv.Terminal.Keys.{IsGuarded, handle_key, handle_key-IsGuarded}
use blend_posv.Terminal.Events.{PageEvent, scan, weigh, key, ended, pick, terminal_run}
use blend_posv.Terminal.Weighed.{IsWeighed, terminal_run-IsSafe}

abbrev parse : Text → Option Decimal
parse t = if truthy t then some (value_from 0 t * unit) else none

abbrev same_text : Text → Text
same_text t = t

abbrev queso : LocalProduct Decimal
queso = record {
  id = codes "q1";
  codigo_barras = codes "200";
  nombre = codes "Queso";
  precio = 9000 * unit;
  stock = 12 * unit;
  unidad_medida = some (codes "kg");
}

abbrev coca : LocalProduct Decimal
coca = record {
  id = codes "c1";
  codigo_barras = codes "779";
  nombre = codes "Coca";
  precio = 1500 * unit;
  stock = 6 * unit;
  unidad_medida = none;
}

abbrev catalog : CatalogView Decimal
catalog = record { by_barcode = queso ∷ []; by_name = queso ∷ coca ∷ []; rows = queso ∷ coca ∷ [] }

abbrev idle : Terminal Decimal
unfolding init init_pos_ui
idle = record {
  cart = init;
  pending = [];
  ui = init_pos_ui;
  history_open = false;
  weight_modal_open = false;
  weight_product = none;
  search_visible = false;
  search_initial_query = [];
  scanner_value = codes "200";
}

-- The cheese is scanned without a connection and weighed, a bottle is picked, and its call ends.
abbrev events : List (PageEvent Decimal)
events =
    scan (codes " 200") false none none catalog catalog
    ∷ weigh (codes "0123456789") (numero (unit + 2500))
    ∷ pick coca
    ∷ ended 0 (some (6 * unit))
    ∷ key f10
    ∷ []

terminal_run-IsSafe_example : All IsWeighed (terminal_run same_text parse events idle).cart.cart
unfolding idle init
terminal_run-IsSafe_example = terminal_run-IsSafe same_text parse events idle (tt, tt)

two_lines : length (terminal_run same_text parse events idle).cart.cart ≡ 2
unfolding terminal_run idle trim add_item add_weight_item
two_lines = refl

payment_is_open : (terminal_run same_text parse events idle).ui.is_payment_modal_open ≡ true
unfolding terminal_run idle trim add_item add_weight_item
payment_is_open = refl

-- The same page with a bottle in the cart.
abbrev ready : Terminal Decimal
unfolding idle add_to_cart
ready = record idle {
  cart =
      add_to_cart
        (record {
          id = codes "c1";
          nombre = codes "Coca";
          precio = 1500 * unit;
          codigo_barras = codes "779";
          unidad_medida = none;
        })
        idle.cart;
}

handle_key-IsGuarded_example : IsGuarded ready (handle_key f10 ready)
handle_key-IsGuarded_example = handle_key-IsGuarded f10 ready

-- The dialog after a sale is not among those that stop the keys.
payment_behind_post_sale :
    let t = record ready { ui = record init_pos_ui { is_post_sale_modal_open = true } } in
    ((handle_key f10 t).ui.is_payment_modal_open ≡ true)
    × ((handle_key f10 t).ui.is_post_sale_modal_open ≡ true)
unfolding handle_key init_pos_ui idle add_to_cart
payment_behind_post_sale = (refl, refl)
