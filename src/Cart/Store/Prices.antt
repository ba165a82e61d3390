-- ===== src/Cart/Store/Prices.antt =====
-- The price of each line.
use blend_posv.Prelude.{◌≡◌, refl, none, List, [], ◌∷◌, arith, All}
use blend_posv.Text.{Text}
use blend_posv.Dict.{Dict}
use blend_posv.Number.{Number, IsLawful}
use blend_posv.Cart.{
  CartItem, CartState, NewItem, discounted, effective_pct, one_more, fill_barcode, set_quantity,
  discount_line, promo_line, new_line,
}
use blend_posv.Cart.Store.{weight_line}
use blend_posv.Cart.Store.Lines.{KeepsLines, step-All}
use blend_posv.Cart.Store.Actions.{Action, step, run}

module _ {N : Type 0} ⦃n : Number N⦄ where
  -- A line that is not weighed costs quantity times price, less the larger of its two discounts.
  abbrev pub IsPriced : CartItem N → Type 0
  IsPriced c = c.peso ≡ none → c.subtotal ≡ discounted (n.mul c.cantidad c.precio) (effective_pct c)

  one_more-IsPriced : (c : CartItem N) → IsPriced c → IsPriced (one_more c)
  unfolding effective_pct
  one_more-IsPriced c h e = refl

  fill_barcode-IsPriced :
      (item : NewItem N) (c : CartItem N) → IsPriced c → IsPriced (fill_barcode item c)
  unfolding effective_pct
  fill_barcode-IsPriced item c h e = ground (arith, h)

  set_quantity-IsPriced :
      (id : Text) (q : N) (c : CartItem N) → IsPriced c → IsPriced (set_quantity id q c)
  unfolding effective_pct
  set_quantity-IsPriced id q c h e = ground (arith, h)

  discount_line-IsPriced :
      (id : Text) (d : N) (c : CartItem N) → IsPriced c → IsPriced (discount_line id d c)
  unfolding effective_pct
  discount_line-IsPriced id d c h e = ground (arith, h)

  promo_line-IsPriced :
      (p : Dict N) (q : Dict Text) (c : CartItem N) → IsPriced c → IsPriced (promo_line p q c)
  unfolding effective_pct
  promo_line-IsPriced p q c h e = ground (arith, h)

  module _ (laws : IsLawful N) where
    new_line-IsPriced : (item : NewItem N) → IsPriced (new_line item)
    unfolding effective_pct
    new_line-IsPriced item e = rw (laws.max_self, laws.one_mul, laws.full_price)

    IsPriced-lines : KeepsLines IsPriced (λ _. Unit)
    unfolding weight_line
    IsPriced-lines = record {
      new = λ stock item _. new_line-IsPriced item;
      weighed = λ uuid item _ e. cc;
      more = one_more-IsPriced;
      barcode = fill_barcode-IsPriced;
      quantity_set = set_quantity-IsPriced;
      discount = λ id d c _. discount_line-IsPriced id d c;
      promo = promo_line-IsPriced;
    }

    step-IsPriced :
        (a : Action N) (s : CartState N) → All IsPriced s.cart → All IsPriced (step a s).cart
    step-IsPriced a s h = step-All IsPriced (λ _. Unit) IsPriced-lines a s tt h

    -- Whatever cart methods run from a cart that is priced, every line that is not weighed costs
    -- its quantity times its price, less the larger of its manual and its promotion discount.
    pub run-IsPriced :
        (events : List (Action N)) (s : CartState N)
        → All IsPriced s.cart
        → All IsPriced (run events s).cart
    unfolding run
    run-IsPriced [] s h = h
    run-IsPriced (a ∷ rest) s h = run-IsPriced rest (step a s) (step-IsPriced a s h)
