-- ===== src/Discount/Tests.antt =====
-- A cashier and the dialog of the discounts, at exact decimals.
use blend_posv.Prelude.{
  ◌*◌, ◌≡◌, refl, true, false, Option, none, some, List, [], ◌∷◌, All, if◌then◌else◌,
}
use blend_posv.Text.{Text, codes, truthy}
use blend_posv.Digits.{value_from}
use blend_posv.Number.{Decimal, decimal_number, Decimal-IsLawful, Decimal-IsExact, unit}
use blend_posv.Campo.{numero, texto}
use blend_posv.Cart.{NewItem}
use blend_posv.Cart.Store.{init, add_item, set_global_discount, set_item_discount}
use blend_posv.Cart.Store.Actions.{Action}
use blend_posv.Auth.{Session, User, cajero, has_role}
use blend_posv.PosUi.{PosUiState, init_pos_ui, open_discount_modal, open_item_discount_modal}
use blend_posv.Discount.Guard.{
  TillEvent, apply, take_off, other, IsModest, ByCajero, till_run, till_run-IsModest,
}

abbrev parse : Text → Option Decimal
parse t = if truthy t then some (value_from 0 t * unit) else none

abbrev eva : User
eva = record {
  id = codes "u1";
  nombre = codes "Eva";
  email = codes "eva";
  rol = cajero;
  activo = true;
  creado_en = [];
  punto_de_venta = none;
  sucursal_id = none;
  sucursal_nombre = none;
}

abbrev session : Session
session = record {
  access = some (codes "a");
  refresh = some (codes "r");
  timer = true;
  user = some eva;
  is_authenticated = true;
  tenant_id = none;
  plan = none;
  must_change_password = false;
  sucursal = record {
    sucursal_id = none;
    sucursal_nombre = none;
    sucursales = [];
    switch_counter = 0;
  };
}

abbrev coca : NewItem Decimal
coca = record {
  id = codes "c1";
  nombre = codes "Coca";
  precio = 1500 * unit;
  codigo_barras = codes "779";
  unidad_medida = none;
}

abbrev whole_cart : PosUiState Decimal
whole_cart = open_discount_modal init_pos_ui

abbrev one_line : PosUiState Decimal
one_line = open_item_discount_modal (codes "c1") init_pos_ui

-- Half off the cart is refused; 20 per cent off the line, and 30 off the cart, are not.
abbrev events : List (TillEvent Decimal)
events =
    other (Action.add none coca) refl
    ∷ apply session (texto (codes "50")) whole_cart
    ∷ apply session (texto (codes "20")) one_line
    ∷ apply session (numero (30 * unit)) whole_cart
    ∷ take_off one_line
    ∷ []

discount_kept : (till_run parse events init).descuento_global ≡ 30 * unit
unfolding till_run init has_role open_discount_modal init_pos_ui open_item_discount_modal add_item
    set_global_discount set_item_discount
discount_kept = refl

all_by_eva : All ByCajero events
unfolding has_role
all_by_eva = (tt, (refl, (refl, (refl, (tt, tt)))))

empty_cart-IsModest : IsModest (init {N = Decimal})
unfolding init
empty_cart-IsModest = record { whole = refl; lines = tt }

till_run-IsModest_example : IsModest (till_run parse events init)
till_run-IsModest_example =
    till_run-IsModest Decimal-IsLawful Decimal-IsExact parse events init all_by_eva
      empty_cart-IsModest
