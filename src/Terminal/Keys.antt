-- ===== src/Terminal/Keys.antt =====
-- The keys of frontend/src/pages/PosTerminal.tsx that work anywhere on the page, `handleKey`.
use blend_posv.Prelude.{
  ℕ, ◌+◌, ◌≤◌, max, ◌≡◌, refl, ◌⊎◌, inl, inr, Bool, true, false, Option, none, some, List, [], ◌∷◌,
  ◌++◌, arith, if◌then◌else◌, length, ◌==◌, if_intro, if_split, option_intro,
}
use blend_posv.Prelude.Int.{pos}
use blend_posv.Number.{Number}
use blend_posv.Cart.{CartItem, CartState}
use blend_posv.Cart.Store.{item_at, move_selection_up, move_selection_down, remove_selected_item}
use blend_posv.Cart.Store.Actions.{Action, quantity}
use blend_posv.PosUi.{
  open_payment_modal, close_payment_modal, open_price_check_modal, close_price_check_modal,
  open_discount_modal, close_discount_modal, open_item_discount_modal,
}
use blend_posv.Terminal.{
  Terminal, Key, f2, f3, f5, f7, f8, f10, escape, arrow_up, arrow_down, delete, plus, minus,
  any_modal_open, open_search, close_search,
}

abbrev one_if : Bool → ℕ
one_if b = if b then 1 else 0

module _ {N : Type 0} ⦃n : Number N⦄ where
  open n use {num, add, sub, lt}

  abbrev pub is_empty : List (CartItem N) → Bool
  is_empty cart = length cart == 0

  -- The line that F3 takes: the selected one, or the first.
  abbrev pub safe_item : CartState N → Option (CartItem N)
  safe_item s = elim (item_at s.selected_row_index s.cart) [
    | some c ↦ some c
    | none ↦ item_at (pos 0) s.cart
  ]

  -- `updateQuantity` is called, and waits for the stock of the product.
  abbrev pub call_quantity : CartItem N → N → Terminal N → Terminal N
  call_quantity c q t = record t { pending = t.pending ++ (quantity none c.id q ∷ []) }

  unfoldable pub close_top : Terminal N → Terminal N
  unfolding close_payment_modal close_price_check_modal close_discount_modal close_search
  close_top t =
      if t.ui.is_payment_modal_open
      then record t { ui = close_payment_modal t.ui }
      else if t.ui.is_price_check_modal_open
      then record t { ui = close_price_check_modal t.ui }
      else if t.ui.is_discount_modal_open
      then record t { ui = close_discount_modal t.ui }
      else if t.history_open
      then record t { history_open = false }
      else if t.search_visible
      then close_search t
      else t

  -- The keys that work while no dialog is open.
  unfoldable pub free_key : Key → Terminal N → Terminal N
  unfolding open_search open_item_discount_modal open_price_check_modal open_discount_modal
      open_payment_modal move_selection_up move_selection_down remove_selected_item
  free_key f2 t = open_search [] t
  free_key f3 t = if is_empty t.cart.cart then t else elim (safe_item t.cart) [
    | none ↦ t
    | some c ↦ record t { ui = open_item_discount_modal c.id t.ui }
  ]
  free_key f5 t = record t { ui = open_price_check_modal t.ui }
  free_key f7 t = record t { history_open = true }
  free_key f8 t = if is_empty t.cart.cart then t else record t { ui = open_discount_modal t.ui }
  free_key f10 t = if is_empty t.cart.cart then t else record t { ui = open_payment_modal t.ui }
  free_key escape t = t
  free_key arrow_up t = record t { cart = move_selection_up t.cart }
  free_key arrow_down t = record t { cart = move_selection_down t.cart }
  free_key delete t =
      if is_empty t.cart.cart then t else record t { cart = remove_selected_item t.cart }
  free_key plus t = elim (item_at t.cart.selected_row_index t.cart.cart) [
    | none ↦ t
    | some c ↦ call_quantity c (add c.cantidad (num 1)) t
  ]
  free_key minus t = elim (item_at t.cart.selected_row_index t.cart.cart) [
    | none ↦ t
    | some c ↦ if lt (num 1) c.cantidad then call_quantity c (sub c.cantidad (num 1)) t else t
  ]

  unfoldable pub handle_key : Key → Terminal N → Terminal N
  unfolding any_modal_open free_key close_top
  handle_key escape t = record (close_top t) { scanner_value = [] }
  handle_key k t = if any_modal_open t then t else free_key k t

  -- How many of the six dialogs that `anyModalOpen` asks for are open: payment, price check,
  -- discount, history, weight and search. The dialog after a sale and the one that opens the register
  -- are not among them.
  unfoldable pub open_count : Terminal N → ℕ
  open_count t =
      one_if t.ui.is_payment_modal_open
      + (one_if t.ui.is_price_check_modal_open
          + (one_if t.ui.is_discount_modal_open
              + (one_if t.history_open + (one_if t.weight_modal_open + one_if t.search_visible))))

  -- What a key may do to the terminal.
  pub record IsGuarded (t t' : Terminal N) : Type 0 where
    pub locked : (any_modal_open t ≡ false) ⊎ ((t'.cart ≡ t.cart) × (t'.pending ≡ t.pending))
    pub single : open_count t' ≤ max 1 (open_count t)
    pub sellable :
        (t'.ui.is_payment_modal_open ≡ t.ui.is_payment_modal_open)
        ⊎ ((t'.ui.is_payment_modal_open ≡ false) ⊎ (is_empty t.cart.cart ≡ false))

  same-IsGuarded : (t : Terminal N) → IsGuarded t t
  same-IsGuarded t = record { locked = inr (refl, refl); single = omega arith; sellable = inl refl }

  close_top-IsGuarded : (t : Terminal N) → IsGuarded t (record (close_top t) { scanner_value = [] })
  unfolding close_top close_payment_modal close_price_check_modal close_discount_modal close_search
      open_count
  close_top-IsGuarded t = record {
    locked = inr (ground arith, ground arith);
    single = ground arith;
    sellable = ground arith;
  }

  -- While no dialog is open, a key may work on the cart.
  work-IsGuarded :
      (t : Terminal N) (s : CartState N) (q : List (Action N))
      → any_modal_open t ≡ false
      → IsGuarded t (record t { cart = s; pending = q })
  unfolding open_count any_modal_open
  work-IsGuarded t s q e = record { locked = inl e; single = omega arith; sellable = inl refl }

  -- While no dialog is open, a key may open one, but that of the payment.
  open-IsGuarded :
      (t t' : Terminal N)
      → any_modal_open t ≡ false
      → open_count t' ≤ 1
      → t'.ui.is_payment_modal_open ≡ t.ui.is_payment_modal_open
      → IsGuarded t t'
  open-IsGuarded t t' e one same = record {
    locked = inl e;
    single = omega (arith, one);
    sellable = inl same;
  }

  free_key-IsGuarded :
      (k : Key) (t : Terminal N) → any_modal_open t ≡ false → IsGuarded t (free_key k t)
  unfolding free_key open_count any_modal_open open_search open_item_discount_modal
      open_price_check_modal open_discount_modal open_payment_modal
  free_key-IsGuarded f2 t e = open-IsGuarded t _ e (ground arith) refl
  free_key-IsGuarded f3 t e = if_intro (IsGuarded t) (is_empty t.cart.cart) t _ (same-IsGuarded t) (
      option_intro (IsGuarded t) (safe_item t.cart) t _ (same-IsGuarded t)
        (λ c. open-IsGuarded t _ e (ground arith) refl))
  free_key-IsGuarded f5 t e = open-IsGuarded t _ e (ground arith) refl
  free_key-IsGuarded f7 t e = open-IsGuarded t _ e (ground arith) refl
  free_key-IsGuarded f8 t e =
      if_intro (IsGuarded t) (is_empty t.cart.cart) t _ (same-IsGuarded t)
        (open-IsGuarded t _ e (ground arith) refl)
  free_key-IsGuarded f10 t e =
      if_split (IsGuarded t) (is_empty t.cart.cart) t _ (λ _. same-IsGuarded t)
        (λ filled. record { locked = inl e; single = ground arith; sellable = inr (inr filled) })
  free_key-IsGuarded escape t e = same-IsGuarded t
  free_key-IsGuarded arrow_up t e = work-IsGuarded t _ t.pending e
  free_key-IsGuarded arrow_down t e = work-IsGuarded t _ t.pending e
  free_key-IsGuarded delete t e =
      if_intro (IsGuarded t) (is_empty t.cart.cart) t _ (same-IsGuarded t)
        (work-IsGuarded t _ t.pending e)
  free_key-IsGuarded plus t e =
      option_intro (IsGuarded t) (item_at t.cart.selected_row_index t.cart.cart) t _
        (same-IsGuarded t) (λ c. work-IsGuarded t t.cart _ e)
  free_key-IsGuarded minus t e =
      option_intro (IsGuarded t) (item_at t.cart.selected_row_index t.cart.cart) t _
        (same-IsGuarded t)
        (λ c.
          if_intro (IsGuarded t) (lt (num 1) c.cantidad) _ t (work-IsGuarded t t.cart _ e)
            (same-IsGuarded t))

  if_free : (k : Key) (t : Terminal N) → IsGuarded t (if any_modal_open t then t else free_key k t)
  if_free k t =
      if_split (IsGuarded t) (any_modal_open t) t (free_key k t) (λ _. same-IsGuarded t)
        (free_key-IsGuarded k t)

  -- Of the six dialogs that `anyModalOpen` asks for, which are not the one after a sale nor the one
  -- that opens the register: whatever key is pressed, while one of the six is open it changes
  -- neither the cart nor the calls under way; it never leaves more than one of them open, unless
  -- there were as many before; and the dialog of the payment opens only for a cart with lines. Behind
  -- the two others the keys work.
  pub handle_key-IsGuarded : (k : Key) (t : Terminal N) → IsGuarded t (handle_key k t)
  unfolding handle_key
  handle_key-IsGuarded escape t = close_top-IsGuarded t
  handle_key-IsGuarded k t = if_free k t
