-- ===== src/Cart/Store/Stock.antt =====
-- The guard of `addItem` on the local stock.
use blend_posv.Prelude.{
  ◌≡◌, ◌≢◌, refl, ◌⊎◌, inl, inr, true, false, none, some, List, [], ◌∷◌, map, arith, Option-cases,
}
use blend_posv.Text.{Text, text_eq, text_eq_iff, text_eq_refl}
use blend_posv.Number.{Number, IsLawful}
use blend_posv.Cart.{CartItem, CartState, NewItem, fill_barcode, in_cart}
use blend_posv.Cart.Store.{put_line, add_to_cart, check_stock, add_item}

module _ {N : Type 0} ⦃n : Number N⦄ where
  in_cart-fill_barcode :
      (item : NewItem N) (j : Text) (cart : List (CartItem N))
      → in_cart j (map (fill_barcode item) cart) ≡ in_cart j cart
  in_cart-fill_barcode item j [] = refl
  in_cart-fill_barcode item j (c ∷ cs) = ground (arith, in_cart-fill_barcode item j cs)

  put_line-other :
      (item : NewItem N) (j : Text) (cart : List (CartItem N))
      → text_eq item.id j ≡ false
      → in_cart j (put_line item cart) ≡ in_cart j cart
  unfolding put_line
  put_line-other item j [] ne = ground arith
  put_line-other item j (c ∷ cs) ne = ground (
    arith,
    put_line-other item j cs ne,
    text_eq_iff c.id j,
    text_eq_iff c.id item.id,
    text_eq_refl j,
    text_eq_iff item.id j,
  )

  add_to_cart-other :
      (item : NewItem N) (j : Text) (s : CartState N)
      → text_eq item.id j ≡ false
      → in_cart j (add_to_cart item s).cart ≡ in_cart j s.cart
  unfolding add_to_cart
  add_to_cart-other item j s ne = rw in_cart-fill_barcode (put_line-other item j s.cart ne)

  module _ (laws : IsLawful N) where
    put_line_self :
        (item : NewItem N) (cart : List (CartItem N))
        → in_cart item.id (put_line item cart) ≡ n.add (in_cart item.id cart) (n.num 1)
    unfolding put_line
    put_line_self item [] = ground (arith, text_eq_refl item.id, laws.zero_add (n.num 1))
    put_line_self item (c ∷ cs) = ground (arith, put_line_self item cs)

    check_stock-some :
        (stock : N) (item : NewItem N) (cart : List (CartItem N))
        → check_stock (some stock) item cart ≢ none
        → (n.le stock (n.num 0) ≡ true)
          ⊎ (n.lt stock (n.add (in_cart item.id cart) (n.num 1)) ≡ true)
    unfolding check_stock
    check_stock-some stock item cart h = ground arith

    check_stock-none :
        (stock : N) (item : NewItem N) (cart : List (CartItem N))
        → check_stock (some stock) item cart ≡ none
        → n.lt stock (n.add (in_cart item.id cart) (n.num 1)) ≡ false
    unfolding check_stock
    check_stock-none stock item cart h = ground arith

    in_cart-add_to_cart :
        (item : NewItem N) (s : CartState N)
        → in_cart item.id (add_to_cart item s).cart ≡ n.add (in_cart item.id s.cart) (n.num 1)
    unfolding add_to_cart
    in_cart-add_to_cart item s = rw (in_cart-fill_barcode) (put_line_self item s.cart)

    -- With a known stock, `addItem` either shows a notification and changes nothing, or counts one
    -- more unit of the product, within that stock, and leaves the quantity of all other lines alone.
    pub add_item_lem :
        (stock : N) (item : NewItem N) (s : CartState N)
        → let (s', note) = add_item (some stock) item s in
          ((s' ≡ s)
            × (note ≢ none)
            × ((n.le stock (n.num 0) ≡ true)
                ⊎ (n.lt stock (n.add (in_cart item.id s.cart) (n.num 1)) ≡ true)))
          ⊎ ((note ≡ none)
              × (in_cart item.id s'.cart ≡ n.add (in_cart item.id s.cart) (n.num 1))
              × (n.lt stock (in_cart item.id s'.cart) ≡ false)
              × ((j : Text) → text_eq item.id j ≡ false → in_cart j s'.cart ≡ in_cart j s.cart))
    unfolding add_item
    add_item_lem stock item s = elim (Option-cases (check_stock (some stock) item s.cart)) [
      | inr (refusal, e) ↦
          rw (e, add_item) (inl (refl, (λ h. cc), check_stock-some stock item s.cart (λ h. cc)))
      | inl e ↦
          rw (e, add_item)
            (inr (
              refl,
              in_cart-add_to_cart item s,
              rw (in_cart-add_to_cart item s) (check_stock-none stock item s.cart e),
              λ j ne. add_to_cart-other item j s ne,
            ))
    ]
