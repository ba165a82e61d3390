-- ===== src/Cart/Store/Totals.antt =====
-- The sums that the store keeps beside the lines.
use blend_posv.Prelude.{◌≡◌, refl, sym, List, [], ◌∷◌, arith}
use blend_posv.Number.{Number, IsLawful}
use blend_posv.Cart.{CartState, compute_total, compute_total_con_descuento}
use blend_posv.Cart.Store.{
  init, add_to_cart, add_item, add_weight_item, remove_item, update_quantity, set_item_discount,
  set_promo_discounts, set_global_discount, clear_cart, set_selected_row_index, move_selection_up,
  move_selection_down, remove_selected_item,
}
use blend_posv.Cart.Store.Actions.{
  Action, add, add_weight, remove, quantity, item_discount, promo_discounts, global_discount, clear,
  up, down, remove_selected, select, step, run,
}

module _ {N : Type 0} ⦃n : Number N⦄ where
  -- The stored sums are those of the lines.
  pub record IsConsistent (s : CartState N) : Type 0 where
    pub total_eq : s.total ≡ compute_total s.cart
    pub final_eq : s.total_con_descuento ≡ compute_total_con_descuento s.total s.descuento_global

  module _ (laws : IsLawful N) where
    pub init-IsConsistent : IsConsistent init
    unfolding init compute_total compute_total_con_descuento
    init-IsConsistent = record { total_eq = refl; final_eq = sym (laws.full_price (n.num 0)) }

    step-IsConsistent : (a : Action N) (s : CartState N) → IsConsistent s → IsConsistent (step a s)
    unfolding step add_item add_to_cart add_weight_item remove_item update_quantity
        set_item_discount set_promo_discounts set_global_discount clear_cart set_selected_row_index
        move_selection_up move_selection_down remove_selected_item compute_total
    step-IsConsistent (add stock item) s h = ground arith
    step-IsConsistent (add_weight u item) s h = ground arith
    step-IsConsistent (remove id) s h = ground arith
    step-IsConsistent (quantity stock id q) s h = ground arith
    step-IsConsistent (item_discount id d) s h = ground arith
    step-IsConsistent (promo_discounts p q) s h = ground arith
    step-IsConsistent (global_discount d) s h = ground arith
    step-IsConsistent clear s h = init-IsConsistent
    step-IsConsistent up s h = ground arith
    step-IsConsistent down s h = ground arith
    step-IsConsistent remove_selected s h = ground arith
    step-IsConsistent (select i) s h = ground arith

    -- After any sequence of cart methods from a consistent state, the stored total is the sum of
    -- the line subtotals, and the stored discounted total is that total less the global discount.
    pub run-IsConsistent :
        (events : List (Action N)) (s : CartState N) → IsConsistent s → IsConsistent (run events s)
    unfolding run
    run-IsConsistent [] s h = h
    run-IsConsistent (a ∷ rest) s h = run-IsConsistent rest (step a s) (step-IsConsistent a s h)
