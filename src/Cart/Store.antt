-- ===== src/Cart/Store.antt =====
-- frontend/src/store/useCartStore.ts: the methods of the store. A method returns the new state,
-- and the notification that it shows, if any. `stock` is what `await getLocalStock(id)` gave, and
-- `none` if it threw; all reads of the state follow that wait, so a method is one step.
pub mod Actions
pub mod Totals
pub mod Lines
pub mod Prices
pub mod Selection
mod Tests
pub mod Stock
use blend_posv.Prelude.{
  not, ◌||◌, Option, none, some, List, [], ◌∷◌, ◌++◌, map, ◌==◌, if◌then◌else◌, or_else, length,
  get_elem?, take, filter, find, find_index, update_at, any,
}
use blend_posv.Prelude.Int.{ℤ, pos, negsuc, ◌+ℤ◌, ◌-ℤ◌, leb_ℤ, ltb_ℤ, min_ℤ, max_ℤ, sub_ℕ}
use blend_posv.Text.{Text, codes}
use blend_posv.Dict.{Dict}
use blend_posv.Number.{Number}
use blend_posv.Cart.{
  CartItem, CartState, NewItem, NewWeightItem, Notification, sin_stock, stock_insuficiente,
  stock_disponible, is_item, row_of, with_cart, one_more, new_line, fill_barcode, in_cart,
  set_quantity, name_of, exceeds, discount_line, promo_changed, promo_line,
  compute_total_con_descuento,
}

-- `uuid` is `crypto.randomUUID()`.
unfoldable pub weight_line_id : Text → Text → Text
weight_line_id uuid id = id ++ (codes "__w_" ++ take 8 uuid)

module _ {N : Type 0} ⦃n : Number N⦄ where
  open n use {num, add, mul, lt, le}

  unfoldable pub init : CartState N
  init = record {
    cart = [];
    total = num 0;
    descuento_global = num 0;
    total_con_descuento = num 0;
    last_added = none;
    selected_row_index = negsuc 0;
  }

  -- The `existingIndex >= 0` branch, or the append.
  unfoldable pub put_line : NewItem N → List (CartItem N) → List (CartItem N)
  put_line item cart = elim (find_index (is_item item.id) cart) [
    | some i ↦ update_at i one_more cart
    | none ↦ cart ++ (new_line item ∷ [])
  ]

  -- The second half of `addItem`, once the stock allows it.
  unfoldable pub add_to_cart : NewItem N → CartState N → CartState N
  unfolding put_line
  add_to_cart item s =
      let cart = map (fill_barcode item) (put_line item s.cart) in
      record (with_cart s cart) {
        last_added = find (is_item item.id) cart;
        selected_row_index = row_of (find_index (is_item item.id) cart);
      }

  unfoldable pub check_stock : Option N → NewItem N → List (CartItem N) → Option (Notification N)
  check_stock none item cart = none
  check_stock (some stock) item cart =
      if le stock (num 0)
      then some (sin_stock item.nombre)
      else if lt stock (add (in_cart item.id cart) (num 1))
      then some (stock_insuficiente item.nombre stock (in_cart item.id cart))
      else none

  unfoldable pub add_item :
      Option N → NewItem N → CartState N → CartState N × Option (Notification N)
  unfolding check_stock add_to_cart
  add_item stock item s = elim (check_stock stock item s.cart) [
    | some refusal ↦ (s, some refusal)
    | none ↦ (add_to_cart item s, none)
  ]

  -- The line of a weighed product.
  unfoldable pub weight_line : Text → NewWeightItem N → CartItem N
  unfolding weight_line_id
  weight_line uuid item = record {
    id = weight_line_id uuid item.id;
    nombre = item.nombre;
    precio = item.precio;
    codigo_barras = item.codigo_barras;
    cantidad = num 1;
    subtotal = mul item.precio item.peso;
    descuento = num 0;
    promo_descuento = some (num 0);
    promo_nombre = none;
    unidad_medida = some item.unidad_medida;
    peso = some item.peso;
  }

  unfoldable pub add_weight_item : Text → NewWeightItem N → CartState N → CartState N
  unfolding weight_line
  add_weight_item uuid item s =
      let cart = s.cart ++ (weight_line uuid item ∷ []) in
      record (with_cart s cart) {
        last_added = some (weight_line uuid item);
        selected_row_index = sub_ℕ (length cart) 1;
      }

  unfoldable pub remove_item : Text → CartState N → CartState N
  remove_item id s =
      let cart = filter (λ c. not (is_item id c)) s.cart in
      record (with_cart s cart) {
        selected_row_index = max_ℤ (pos 0) (min_ℤ s.selected_row_index (sub_ℕ (length cart) 1));
      }

  unfoldable pub update_quantity :
      Option N → Text → N → CartState N → CartState N × Option (Notification N)
  unfolding remove_item
  update_quantity stock id cantidad s =
      if le cantidad (num 0)
      then (remove_item id s, none)
      else if exceeds stock cantidad
      then (s, some (stock_disponible (name_of id s.cart) (or_else stock (num 0))))
      else (with_cart s (map (set_quantity id cantidad) s.cart), none)

  unfoldable pub set_item_discount : Text → N → CartState N → CartState N
  set_item_discount id descuento s = with_cart s (map (discount_line id descuento) s.cart)

  unfoldable pub set_promo_discounts : Dict N → Dict Text → CartState N → CartState N
  set_promo_discounts pcts nombres s =
      if any (promo_changed pcts nombres) s.cart
      then with_cart s (map (promo_line pcts nombres) s.cart)
      else s

  unfoldable pub set_global_discount : N → CartState N → CartState N
  set_global_discount descuento s = record s {
    descuento_global = descuento;
    total_con_descuento = compute_total_con_descuento s.total descuento;
  }

  unfoldable pub clear_cart : CartState N → CartState N
  unfolding init
  clear_cart s = init

  unfoldable pub set_selected_row_index : ℤ → CartState N → CartState N
  set_selected_row_index index s = record s { selected_row_index = index }

  unfoldable pub move_selection_up : CartState N → CartState N
  move_selection_up s = if length s.cart == 0 then s else record s {
    selected_row_index =
        if leb_ℤ s.selected_row_index (pos 0)
        then sub_ℕ (length s.cart) 1
        else s.selected_row_index -ℤ pos 1;
  }

  unfoldable pub move_selection_down : CartState N → CartState N
  move_selection_down s = if length s.cart == 0 then s else record s {
    selected_row_index =
        if leb_ℤ (sub_ℕ (length s.cart) 1) s.selected_row_index
        then pos 0
        else s.selected_row_index +ℤ pos 1;
  }

  -- `cart[index]`
  abbrev pub item_at : ℤ → List (CartItem N) → Option (CartItem N)
  item_at (pos i) cart = get_elem? cart i
  item_at (negsuc i) cart = none

  unfoldable pub remove_selected_item : CartState N → CartState N
  unfolding remove_item
  remove_selected_item s =
      if length s.cart == 0 || ltb_ℤ s.selected_row_index (pos 0)
      then s
      else elim (item_at s.selected_row_index s.cart) [
        | none ↦ s
        | some item ↦ remove_item item.id s
      ]
