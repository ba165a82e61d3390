-- ===== src/Cart/Store/Selection.antt =====
-- The highlighted row.
use blend_posv.Prelude.{
  ℕ, ◌-◌, ◌<◌, ◌≡◌, Bool, List, map, arith, find_index, length, length-map, find_index-lt,
  Option-cases, inl, inr, if_intro,
}
use blend_posv.Prelude.Int.{ℤ, pos, negsuc, ◌≤ℤ◌, ◌+ℤ◌, ◌-ℤ◌, min_ℤ, max_ℤ}
use blend_posv.Text.{Text}
use blend_posv.Number.{Number}
use blend_posv.Cart.{
  CartItem, CartState, row_of, is_item, fill_barcode, set_quantity, discount_line, promo_line,
}
use blend_posv.Cart.Store.{
  item_at, init, put_line, add_to_cart, add_item, add_weight_item, remove_item, update_quantity,
  set_item_discount, set_promo_discounts, set_global_discount, clear_cart, set_selected_row_index,
  move_selection_up, move_selection_down, remove_selected_item,
}
use blend_posv.Cart.Store.Actions.{
  Action, add, add_weight, remove, quantity, item_discount, promo_discounts, global_discount, clear,
  up, down, remove_selected, select, step,
}

module _ {N : Type 0} ⦃n : Number N⦄ where
  abbrev pub IsRow : ℤ → List (CartItem N) → Type 0
  IsRow i cart = (negsuc 0 ≤ℤ i) × (i ≤ℤ pos (length cart - 1))

  abbrev pub IsInRange : CartState N → Type 0
  IsInRange s = IsRow s.selected_row_index s.cart

  -- A click selects a row that is on the screen.
  abbrev pub IsAllowed : Action N → CartState N → Type 0
  IsAllowed (select i) s = IsRow i s.cart
  IsAllowed _ s = Unit

  find_index-IsRow :
      (p : CartItem N → Bool) (cart : List (CartItem N)) → IsRow (row_of (find_index p cart)) cart
  find_index-IsRow p cart = elim (Option-cases (find_index p cart)) [
    | inl e ↦ rw (e, row_of) (omega arith)
    | inr (i, e) ↦ rw (e, row_of) (omega (arith, find_index-lt p cart e))
  ]

  remove_item-IsInRange : (id : Text) (s : CartState N) → IsInRange (remove_item id s)
  unfolding remove_item min_ℤ max_ℤ
  remove_item-IsInRange id s = ground arith

  -- A method of the store keeps the highlighted row on a line of the cart, or at 0 or -1, if an
  -- index that the caller passes to `setSelectedRowIndex` is such a row.
  pub step-IsInRange :
      (a : Action N) (s : CartState N) → IsAllowed a s → IsInRange s → IsInRange (step a s)
  unfolding step add_item add_to_cart add_weight_item update_quantity set_item_discount
      set_promo_discounts set_global_discount clear_cart init set_selected_row_index
      move_selection_up move_selection_down remove_selected_item ◌+ℤ◌ ◌-ℤ◌
  step-IsInRange (add stock item) s ok h =
      ground
        (arith, find_index-IsRow (is_item item.id) (map (fill_barcode item) (put_line item s.cart)))
  step-IsInRange (add_weight u item) s ok h = ground arith
  step-IsInRange (remove id) s ok h = remove_item-IsInRange id s
  step-IsInRange (quantity stock id q) s ok h =
      ground (arith, remove_item-IsInRange id s, length-map s.cart (set_quantity id q))
  step-IsInRange (item_discount id d) s ok h =
      ground (arith, length-map s.cart (discount_line id d))
  step-IsInRange (promo_discounts p q) s ok h = ground (arith, length-map s.cart (promo_line p q))
  step-IsInRange (global_discount d) s ok h = h
  step-IsInRange clear s ok h = omega arith
  step-IsInRange up s ok h = ground arith
  step-IsInRange down s ok h = ground arith
  step-IsInRange remove_selected s ok h =
      elim (Option-cases (item_at s.selected_row_index s.cart)) [
        | inl gone ↦ rw gone (if_intro IsInRange _ s s h h)
        | inr (item, found) ↦
            rw found (if_intro IsInRange _ s _ h (remove_item-IsInRange item.id s))
      ]
  step-IsInRange (select i) s ok h = ok

  -- From a row of the cart, an arrow down and then up comes back to the state, round the ends too.
  pub up-down :
      (s : CartState N) (i : ℕ)
      → s.selected_row_index ≡ pos i
      → i < length s.cart
      → move_selection_up (move_selection_down s) ≡ s
  unfolding move_selection_up move_selection_down ◌+ℤ◌ ◌-ℤ◌
  up-down s i e h = ground arith
