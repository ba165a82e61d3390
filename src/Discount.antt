-- ===== src/Discount.antt =====
-- frontend/src/components/pos/DiscountModal.tsx: the dialog that sets the discount of a line or of
-- the whole cart, with the bound for cashiers.
pub mod Guard
mod Tests
use blend_posv.Prelude.{Bool, not, ◌&&◌, Option, none, some, ◌∷◌, [], if◌then◌else◌, find}
use blend_posv.Text.{Text, has_text, text_eq}
use blend_posv.Number.{Number}
use blend_posv.Campo.{Campo, numero, to_number}
use blend_posv.Cart.{CartItem, CartState, is_item}
use blend_posv.Cart.Store.{set_item_discount, set_global_discount}
use blend_posv.Auth.{Session, has_role, admin, supervisor}
use blend_posv.PosUi.{PosUiState, close_discount_modal}

abbrev pub is_cajero : Session → Bool
is_cajero session = not (has_role (admin ∷ supervisor ∷ []) session)

module _ {N : Type 0} ⦃n : Number N⦄ where
  open n use {num, sub, mul, div, max_of, min_of, lt}

  -- The line that the dialog is for, if it is for one that is there.
  abbrev pub target_item : PosUiState N → CartState N → Option (CartItem N)
  target_item ui cart = elim ui.discount_target_item_id [
    | none ↦ none
    | some id ↦ if has_text (some id) then find (is_item id) cart.cart else none
  ]

  -- What the dialog starts from, and what its buttons compare with.
  unfoldable pub initial_discount : PosUiState N → CartState N → N
  initial_discount ui cart = elim (target_item ui cart) [
    | none ↦ cart.descuento_global
    | some c ↦ c.descuento
  ]

  abbrev pub base_amount : PosUiState N → CartState N → N
  base_amount ui cart = elim (target_item ui cart) [
    | none ↦ cart.total
    | some c ↦ mul c.precio c.cantidad
  ]

  unfoldable pub clamped : (Text → Option N) → Campo N → N
  clamped parse_float local = max_of (num 0) (min_of (num 100) (to_number parse_float local))

  -- The total that is shown.
  unfoldable pub nuevo_total : (Text → Option N) → Campo N → PosUiState N → CartState N → N
  unfolding clamped
  nuevo_total parse_float local ui cart =
      let base = base_amount ui cart in
      sub base (mul base (div (clamped parse_float local) (num 100)))

  unfoldable pub exceeds_permission : (Text → Option N) → Session → Campo N → Bool
  unfolding clamped
  exceeds_permission parse_float session local =
      is_cajero session && lt (num 30) (clamped parse_float local)

  abbrev pub set_discount : PosUiState N → N → CartState N → CartState N
  set_discount ui pct cart = elim (target_item ui cart) [
    | none ↦ set_global_discount pct cart
    | some c ↦ set_item_discount c.id pct cart
  ]

  unfoldable pub handle_apply :
      (Text → Option N)
      → Session
      → Campo N
      → CartState N
      → PosUiState N
      → CartState N × PosUiState N
  unfolding exceeds_permission
  handle_apply parse_float session local cart ui =
      if exceeds_permission parse_float session local
      then (cart, ui)
      else (set_discount ui (clamped parse_float local) cart, close_discount_modal ui)

  -- The store, the dialogs and the field after the discount was taken away.
  unfoldable pub handle_remove : CartState N → PosUiState N → CartState N × PosUiState N × Campo N
  handle_remove cart ui = (set_discount ui (num 0) cart, close_discount_modal ui, numero (num 0))
