-- ===== src/Cart/Store/Actions.antt =====
-- The methods of the cart store as events, so that a session at the till is a list of them. An
-- `add` or `quantity` event carries what the lookup of the local stock gave.
use blend_posv.Prelude.{Option, List, [], ◌∷◌}
use blend_posv.Prelude.Int.{ℤ}
use blend_posv.Text.{Text}
use blend_posv.Dict.{Dict}
use blend_posv.Number.{Number}
use blend_posv.Cart.{CartState, NewItem, NewWeightItem}
use blend_posv.Cart.Store.{
  add_item, add_weight_item, remove_item, update_quantity, set_item_discount, set_promo_discounts,
  set_global_discount, clear_cart, set_selected_row_index, move_selection_up, move_selection_down,
  remove_selected_item,
}

pub data Action (N : Type 0) : Type 0 where
  add : Option N → NewItem N → Action N
  add_weight : Text → NewWeightItem N → Action N
  remove : Text → Action N
  quantity : Option N → Text → N → Action N
  item_discount : Text → N → Action N
  promo_discounts : Dict N → Dict Text → Action N
  global_discount : N → Action N
  clear up down remove_selected : Action N
  select : ℤ → Action N

module _ {N : Type 0} ⦃n : Number N⦄ where
  unfoldable pub step : Action N → CartState N → CartState N
  step (add stock item) s = (add_item stock item s).0
  step (add_weight uuid item) s = add_weight_item uuid item s
  step (remove id) s = remove_item id s
  step (quantity stock id q) s = (update_quantity stock id q s).0
  step (item_discount id d) s = set_item_discount id d s
  step (promo_discounts pcts nombres) s = set_promo_discounts pcts nombres s
  step (global_discount d) s = set_global_discount d s
  step clear s = clear_cart s
  step up s = move_selection_up s
  step down s = move_selection_down s
  step remove_selected s = remove_selected_item s
  step (select i) s = set_selected_row_index i s

  unfoldable pub run : List (Action N) → CartState N → CartState N
  unfolding step
  run [] s = s
  run (a ∷ rest) s = run rest (step a s)
