-- ===== src/Cart/Store/Lines.antt =====
-- What holds of every line of the cart, over the methods of the store.
use blend_posv.Prelude.{
  ℕ, zero, suc, not, List, [], ◌∷◌, arith, All, All-append, All-filter, All-map, Option-cases, inl,
  inr, Option, if_intro, find_index, update_at,
}
use blend_posv.Text.{Text}
use blend_posv.Dict.{Dict}
use blend_posv.Number.{Number}
use blend_posv.Cart.{
  CartItem, CartState, NewItem, NewWeightItem, one_more, fill_barcode, set_quantity, discount_line,
  promo_line, new_line, is_item,
}
use blend_posv.Cart.Store.{
  item_at, weight_line, put_line, add_item, add_weight_item, remove_item, update_quantity,
  set_item_discount, set_promo_discounts, set_global_discount, clear_cart, set_selected_row_index,
  move_selection_up, move_selection_down, remove_selected_item,
}
use blend_posv.Cart.Store.Actions.{
  Action, add, add_weight, remove, quantity, item_discount, promo_discounts, global_discount, clear,
  up, down, remove_selected, select, step,
}

-- The actions that set no discount by hand but those that are allowed.
abbrev pub Allows : {N : Type 0} → (N → Type 0) → Action N → Type 0
Allows Allowed (item_discount id d) = Allowed d
Allows Allowed _ = Unit

module _ {N : Type 0} ⦃n : Number N⦄ (P : CartItem N → Type 0) (Ok : Action N → Type 0) where
  -- Every way in which an action that is `Ok` makes or changes a line keeps P.
  pub record KeepsLines : Type 0 where
    pub new : (stock : Option N) (item : NewItem N) → Ok (add stock item) → P (new_line item)
    pub weighed :
        (uuid : Text) (item : NewWeightItem N)
        → Ok (add_weight uuid item)
        → P (weight_line uuid item)
    pub more : (c : CartItem N) → P c → P (one_more c)
    pub barcode : (item : NewItem N) (c : CartItem N) → P c → P (fill_barcode item c)
    pub quantity_set : (id : Text) (q : N) (c : CartItem N) → P c → P (set_quantity id q c)
    pub discount :
        (id : Text) (d : N) (c : CartItem N)
        → Ok (item_discount id d)
        → P c
        → P (discount_line id d c)
    pub promo : (p : Dict N) (q : Dict Text) (c : CartItem N) → P c → P (promo_line p q c)

  module _ (keeps : KeepsLines) where
    update_at-All :
        (i : ℕ) (cart : List (CartItem N)) → All P cart → All P (update_at i one_more cart)
    update_at-All i [] h = tt
    update_at-All zero (c ∷ cs) h = (keeps.more c h.0, h.1)
    update_at-All (suc i) (c ∷ cs) h = (h.0, update_at-All i cs h.1)

    put_line-All :
        (stock : Option N) (item : NewItem N) (cart : List (CartItem N))
        → Ok (add stock item)
        → All P cart
        → All P (put_line item cart)
    unfolding put_line
    put_line-All stock item cart ok h = elim (Option-cases (find_index (is_item item.id) cart)) [
      | inl fresh ↦ rw (fresh, put_line) (All-append P cart _ h (keeps.new stock item ok, tt))
      | inr (i, found) ↦ rw (found, put_line) (update_at-All i cart h)
    ]

    pub step-All : (a : Action N) (s : CartState N) → Ok a → All P s.cart → All P (step a s).cart
    unfolding step add_item add_weight_item remove_item update_quantity set_item_discount
        set_promo_discounts set_global_discount clear_cart set_selected_row_index move_selection_up
        move_selection_down remove_selected_item
    step-All (add stock item) s ok h = ground (
      arith,
      All-map P (fill_barcode item) (keeps.barcode item) (put_line item s.cart)
          (put_line-All stock item s.cart ok h),
    )
    step-All (add_weight u item) s ok h = All-append P s.cart _ h (keeps.weighed u item ok, tt)
    step-All (remove id) s ok h = All-filter P _ s.cart h
    step-All (quantity stock id q) s ok h = ground (
      arith,
      All-filter P (λ c. not (is_item id c)) s.cart h,
      All-map P (set_quantity id q) (keeps.quantity_set id q) s.cart h,
    )
    step-All (item_discount id d) s ok h =
        All-map P (discount_line id d) (λ c. keeps.discount id d c ok) s.cart h
    step-All (promo_discounts p q) s ok h =
        ground (arith, All-map P (promo_line p q) (keeps.promo p q) s.cart h)
    step-All (global_discount d) s ok h = h
    step-All clear s ok h = tt
    step-All up s ok h = if_intro (λ (t : CartState N). All P t.cart) _ s _ h h
    step-All down s ok h = if_intro (λ (t : CartState N). All P t.cart) _ s _ h h
    step-All remove_selected s ok h = elim (Option-cases (item_at s.selected_row_index s.cart)) [
      | inl gone ↦ rw gone (if_intro (λ (t : CartState N). All P t.cart) _ s s h h)
      | inr (item, found) ↦
          rw found (if_intro (λ (t : CartState N). All P t.cart) _ s _ h (All-filter P _ s.cart h))
    ]
    step-All (select i) s ok h = h
