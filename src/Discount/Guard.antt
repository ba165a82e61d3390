-- ===== src/Discount/Guard.antt =====
-- The discounts in a cart at which a cashier works.
use blend_posv.Prelude.{
  ◌≡◌, Bool, true, false, Option, List, [], ◌∷◌, arith, All, inl, inr, Option-cases, if_split,
}
use blend_posv.Text.{Text}
use blend_posv.Number.{Number, IsLawful, IsExact}
use blend_posv.Campo.{Campo}
use blend_posv.Cart.{CartItem, CartState}
use blend_posv.Cart.Store.{
  weight_line, set_item_discount, set_global_discount, add_to_cart, add_item, add_weight_item,
  remove_item, update_quantity, set_promo_discounts, clear_cart, init, set_selected_row_index,
  move_selection_up, move_selection_down, remove_selected_item,
}
use blend_posv.Cart.Store.Actions.{
  Action, add, add_weight, remove, quantity, item_discount, promo_discounts, global_discount, clear,
  up, down, remove_selected, select, step,
}
use blend_posv.Cart.Store.Lines.{KeepsLines, Allows, step-All}
use blend_posv.Auth.{Session}
use blend_posv.PosUi.{PosUiState, close_discount_modal}
use blend_posv.Discount.{
  clamped, exceeds_permission, is_cajero, set_discount, handle_apply, handle_remove, target_item,
}

-- The methods that no dialog but that of the discounts calls.
abbrev pub sets_discount : {N : Type 0} → Action N → Bool
sets_discount (item_discount id d) = true
sets_discount (global_discount d) = true
sets_discount _ = false

-- What happens at the till: the dialog's two buttons, with the session, the dialogs and the field as
-- they are then, and all other methods of the cart.
pub data TillEvent (N : Type 0) : Type 0 where
  apply : Session → Campo N → PosUiState N → TillEvent N
  take_off : PosUiState N → TillEvent N
  other : (a : Action N) → sets_discount a ≡ false → TillEvent N

module _ {N : Type 0} ⦃n : Number N⦄ (parse_float : Text → Option N) where
  unfoldable pub till_step : TillEvent N → CartState N → CartState N
  unfolding step handle_apply handle_remove
  till_step (apply session local ui) cart = (handle_apply parse_float session local cart ui).0
  till_step (take_off ui) cart = (handle_remove cart ui).0
  till_step (other a _) cart = step a cart

  unfoldable pub till_run : List (TillEvent N) → CartState N → CartState N
  unfolding till_step
  till_run [] cart = cart
  till_run (e ∷ rest) cart = till_run rest (till_step e cart)

module _ {N : Type 0} ⦃n : Number N⦄ where
  open n use {num, le, lt}

  -- At most 30 per cent.
  abbrev pub IsAllowed : N → Type 0
  IsAllowed pct = le pct (num 30) ≡ true

  -- No discount that is set by hand is above 30 per cent.
  pub record IsModest (cart : CartState N) : Type 0 where
    pub whole : IsAllowed cart.descuento_global
    pub lines : All (λ (c : CartItem N). IsAllowed c.descuento) cart.cart

  -- Whoever presses the button of the dialog is a cashier.
  abbrev pub ByCajero : TillEvent N → Type 0
  ByCajero (apply session local ui) = is_cajero session ≡ true
  ByCajero (take_off ui) = Unit
  ByCajero (other a h) = Unit

  module _ (laws : IsLawful N) (exact : IsExact N) (parse_float : Text → Option N) where
    modest-lines : KeepsLines (λ (c : CartItem N). IsAllowed c.descuento) (Allows IsAllowed)
    unfolding weight_line
    modest-lines = record {
      new = λ stock item _. exact.le_num 0 30 (omega arith);
      weighed = λ uuid item _. exact.le_num 0 30 (omega arith);
      more = λ c h. h;
      barcode = λ item c h. ground arith;
      quantity_set = λ id q c h. ground arith;
      discount = λ id d c ok h. ground arith;
      promo = λ p q c h. ground arith;
    }

    step-global :
        (a : Action N) (s : CartState N)
        → sets_discount a ≡ false
        → IsAllowed s.descuento_global
        → IsAllowed (step a s).descuento_global
    unfolding step add_item add_to_cart add_weight_item remove_item update_quantity
        set_promo_discounts clear_cart init set_selected_row_index move_selection_up
        move_selection_down remove_selected_item
    step-global (add stock item) s e h = ground arith
    step-global (add_weight u item) s e h = h
    step-global (remove id) s e h = h
    step-global (quantity stock id q) s e h = ground arith
    step-global (item_discount id d) s e h = cc
    step-global (promo_discounts p q) s e h = ground arith
    step-global (global_discount d) s e h = cc
    step-global clear s e h = exact.le_num 0 30 (omega arith)
    step-global up s e h = ground arith
    step-global down s e h = ground arith
    step-global remove_selected s e h = ground arith
    step-global (select i) s e h = h

    plain-Allows : (a : Action N) → sets_discount a ≡ false → Allows IsAllowed a
    plain-Allows (item_discount id d) e = cc
    plain-Allows _ e = tt

    set_discount-IsModest :
        (ui : PosUiState N) (pct : N) (cart : CartState N)
        → IsAllowed pct
        → IsModest cart
        → IsModest (set_discount ui pct cart)
    unfolding step set_item_discount set_global_discount
    set_discount-IsModest ui pct cart ok h = elim (Option-cases (target_item ui cart)) [
      | inl whole ↦ rw (whole, set_discount) (record { whole = ok; lines = h.lines })
      | inr (c, found) ↦
          rw (found, set_discount)
            (record {
              whole = h.whole;
              lines =
                  step-All _ (Allows IsAllowed) modest-lines (item_discount c.id pct) cart ok
                    h.lines;
            })
    ]

    till_step-IsModest :
        (e : TillEvent N) (cart : CartState N)
        → ByCajero e
        → IsModest cart
        → IsModest (till_step parse_float e cart)
    unfolding till_step exceeds_permission
    till_step-IsModest (apply session local ui) cart cashier h =
        if_split (λ (r : CartState N × PosUiState N). IsModest r.0)
          (exceeds_permission parse_float session local) (cart, ui)
          (set_discount ui (clamped parse_float local) cart, close_discount_modal ui) (λ _. h)
          (λ within.
            set_discount-IsModest ui (clamped parse_float local) cart
              (laws.le_of_not_lt _ _ (ground arith)) h)
    till_step-IsModest (take_off ui) cart cashier h =
        set_discount-IsModest ui (num 0) cart (exact.le_num 0 30 (omega arith)) h
    till_step-IsModest (other a e) cart cashier h = record {
      whole = step-global a cart e h.whole;
      lines = step-All _ (Allows IsAllowed) modest-lines a cart (plain-Allows a e) h.lines;
    }

    -- However a cashier uses the dialog of the discounts, and whatever other methods of the cart run
    -- between, no discount that is set by hand, of a line or of the cart, gets above 30 per cent.
    pub till_run-IsModest :
        (events : List (TillEvent N)) (cart : CartState N)
        → All ByCajero events
        → IsModest cart
        → IsModest (till_run parse_float events cart)
    unfolding till_run
    till_run-IsModest [] cart cashiers h = h
    till_run-IsModest (e ∷ rest) cart cashiers h =
        till_run-IsModest rest (till_step parse_float e cart) cashiers.1
          (till_step-IsModest e cart cashiers.0 h)
