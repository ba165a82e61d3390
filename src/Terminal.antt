-- ===== src/Terminal.antt =====
-- frontend/src/pages/PosTerminal.tsx: the page of the till, with the dialog for weights,
-- frontend/src/components/pos/WeightInputModal.tsx. It owns what the stores do not: the dialogs of
-- the search, the history and the weights, and the field of the scanner. `addItem` and
-- `updateQuantity` wait for the local stock and are not awaited, so a call stands in `pending` until
-- `end_call` ends it, in any order. `toLowerCase` and `parseFloat` are arguments. The focus, the
-- timers and the texts of the notifications are left out.
pub mod Lookup
pub mod Keys
pub mod Events
pub mod Weighed
mod Tests
use blend_posv.Prelude.{
  ℕ, zero, suc, Bool, true, false, not, ◌&&◌, ◌||◌, Option, none, some, List, [], ◌∷◌, ◌++◌, map,
  if◌then◌else◌, or_else, length, get_elem?, ◌==◌, any, leb,
}
use blend_posv.Prelude.Int.{pos}
use blend_posv.Text.{Text, codes, text_eq, truthy, has_text}
use blend_posv.Text.Parts.{trim}
use blend_posv.Dict.{Dict, insert}
use blend_posv.Number.{Number}
use blend_posv.Campo.{Campo, numero, texto}
use blend_posv.Cart.{CartItem, CartState, NewItem, NewWeightItem, UnidadMedida, unidad, kg, gramo}
use blend_posv.Cart.Store.{
  add_item, add_weight_item, update_quantity, set_promo_discounts, move_selection_up,
  move_selection_down, item_at, remove_selected_item,
}
use blend_posv.Cart.Store.Actions.{Action, add, quantity, step}
use blend_posv.Catalog.{LocalProduct}
use blend_posv.Catalog.Search.{find_catalog_product_by_barcode, search_catalog_products}
use blend_posv.Terminal.Lookup.{Scanned, Found, found}
use blend_posv.PosUi.{
  PosUiState, open_payment_modal, close_payment_modal, open_price_check_modal,
  close_price_check_modal, open_discount_modal, close_discount_modal, open_item_discount_modal,
}
use blend_posv.Promotions.{Promocion, CartView, compute_promo_descuentos}

pub record Terminal (N : Type 0) : Type 0 where
  pub cart : CartState N
  pub pending : List (Action N)
  pub ui : PosUiState N
  pub history_open : Bool
  pub weight_modal_open : Bool
  pub weight_product : Option (NewItem N)
  pub search_visible : Bool
  pub search_initial_query : Text
  pub scanner_value : Text

pub data Key : Type 0 where
  f2 f3 f5 f7 f8 f10 escape arrow_up arrow_down delete plus minus : Key

-- `(unidadMedida ?? 'unidad') as UnidadMedida`; any other text counts as a unit.
abbrev pub unidad_of : Option Text → UnidadMedida
unidad_of none = unidad
unidad_of (some t) =
    if text_eq t (codes "kg") then kg else if text_eq t (codes "gramo") then gramo else unidad

-- `um === 'kg' || um === 'gramo'`
abbrev pub by_weight : UnidadMedida → Bool
by_weight kg = true
by_weight gramo = true
by_weight unidad = false

abbrev pub without_at : {A : Type 0} → ℕ → List A → List A
without_at i [] = []
without_at zero (x ∷ xs) = xs
without_at (suc i) (x ∷ xs) = x ∷ without_at i xs

-- `/[a-zA-ZáéíóúüñÁÉÍÓÚÜÑ]/`
abbrev pub is_letter : ℕ → Bool
is_letter c =
    leb 97 c && leb c 122
    || leb 65 c && leb c 90
    || any (λ (l : ℕ). c == l) (codes "áéíóúüñÁÉÍÓÚÜÑ")

module _ {N : Type 0} ⦃n : Number N⦄ where
  open n use {num, add, sub, lt, le}

  -- `anyModalOpen`, which leaves out the dialog after a sale and the one that opens the register.
  unfoldable pub any_modal_open : Terminal N → Bool
  any_modal_open t =
      t.ui.is_payment_modal_open || t.ui.is_price_check_modal_open || t.ui.is_discount_modal_open
      || t.history_open || t.weight_modal_open || t.search_visible

  abbrev pub to_new_item : Scanned N → NewItem N
  to_new_item p = record {
    id = p.id;
    nombre = p.nombre;
    precio = p.precio;
    codigo_barras = p.codigo_barras;
    unidad_medida = some (unidad_of p.unidad_medida);
  }

  -- `stock` is set by `end_call`, when the lookup that the call waits for ends.
  unfoldable pub add_or_prompt_weight : Scanned N → Terminal N → Terminal N
  add_or_prompt_weight p t =
      if by_weight (unidad_of p.unidad_medida)
      then record t { weight_product = some (to_new_item p); weight_modal_open = true }
      else record t { pending = t.pending ++ (Action.add none (to_new_item p) ∷ []) }

  -- What Enter does in the field of the scanner, once the product is looked up: a product that is
  -- added empties the field.
  unfoldable pub handle_add_product : Found N → Terminal N → Terminal N
  unfolding add_or_prompt_weight
  handle_add_product (found p) t = record (add_or_prompt_weight p t) { scanner_value = [] }
  handle_add_product _ t = t

  unfoldable pub open_search : Text → Terminal N → Terminal N
  open_search query t = record t { search_initial_query = query; search_visible = true }

  -- What is typed into the field of the scanner; letters open the search.
  unfoldable pub on_change : Text → Terminal N → Terminal N
  unfolding any_modal_open open_search
  on_change val t =
      let t' = record t { scanner_value = val } in
      if any is_letter val && not (any_modal_open t) then open_search val t' else t'

  unfoldable pub close_search : Terminal N → Terminal N
  close_search t = record t {
    search_visible = false;
    search_initial_query = [];
    scanner_value = [];
  }

  -- The parsed value of the field of the dialog, if it is a weight.
  abbrev pub numeric_peso : (Text → Option N) → Campo N → Option N
  numeric_peso parse_float (numero x) = some x
  numeric_peso parse_float (texto s) = parse_float s

  abbrev pub close_weight : Terminal N → Terminal N
  close_weight t = record t { weight_modal_open = false; weight_product = none }

  abbrev pub to_weight_item : NewItem N → N → NewWeightItem N
  to_weight_item p w = record {
    id = p.id;
    nombre = p.nombre;
    precio = p.precio;
    codigo_barras = p.codigo_barras;
    unidad_medida = or_else p.unidad_medida kg;
    peso = w;
  }

  -- `handleConfirm` of the dialog with the `onConfirm` of the page; `uuid` is for the new line.
  unfoldable pub confirm_weight : (Text → Option N) → Text → Campo N → Terminal N → Terminal N
  confirm_weight parse_float uuid peso t = elim (numeric_peso parse_float peso) [
    | none ↦ t
    | some w ↦ if not (lt (num 0) w) then t else elim t.weight_product [
      | none ↦ close_weight t
      | some p ↦ close_weight (record t { cart = add_weight_item uuid (to_weight_item p w) t.cart })
    ]
  ]

  -- The stock that a call waits for is there: the call ends.
  abbrev pub with_stock : Option N → Action N → Action N
  with_stock stock (Action.add _ item) = Action.add stock item
  with_stock stock (quantity _ id q) = quantity stock id q
  with_stock stock a = a

  unfoldable pub end_call : ℕ → Option N → Terminal N → Terminal N
  unfolding step
  end_call i stock t = elim (get_elem? t.pending i) [
    | none ↦ t
    | some a ↦ record t {
      cart = step (with_stock stock a) t.cart;
      pending = without_at i t.pending;
    }
  ]

  abbrev pub prices_of : List (CartItem N) → Dict N → Dict N
  prices_of [] d = d
  prices_of (c ∷ cs) d = prices_of cs (insert c.id c.precio d)

  abbrev pub quantities_of : List (CartItem N) → Dict N → Dict N
  quantities_of [] d = d
  quantities_of (c ∷ cs) d = quantities_of cs (insert c.id c.cantidad d)

  -- The effect that follows a change of the cart or of the promotions.
  unfoldable pub detect_promotions : List (Promocion N) → Terminal N → Terminal N
  unfolding compute_promo_descuentos set_promo_discounts
  detect_promotions promociones t =
      let d = compute_promo_descuentos promociones (record {
        product_ids = map (λ (c : CartItem N). c.id) t.cart.cart;
        price_map = prices_of t.cart.cart [];
        quantity_map = quantities_of t.cart.cart [];
      }) in
      record t { cart = set_promo_discounts d.descuentos d.promo_nombres t.cart }
