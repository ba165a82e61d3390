-- ===== src/SalesTable.antt =====
-- frontend/src/components/pos/SalesTable.tsx: the rows in which the terminal shows the cart, one for
-- each promotion of several products that is complete and one for what is left of each line; and the
-- buttons of the rows. The keys of React are left out. `Record<string, number>` is a `Dict`.
pub mod Units
pub mod Conserved
mod Tests
use blend_posv.Prelude.{
  ℕ, suc, ◌+◌, Bool, true, false, not, ◌&&◌, ◌||◌, Option, none, some, List, [], ◌∷◌, ◌++◌, map,
  leb, if◌then◌else◌, or_else, length, find, all,
}
use blend_posv.Text.{Text, member}
use blend_posv.Dict.{Dict, lookup, insert}
use blend_posv.Number.{Number}
use blend_posv.Cart.{CartItem, CartState, is_item, discounted, effective_pct}
use blend_posv.Cart.Store.{remove_item, update_quantity}
use blend_posv.Promotions.{Promocion, ProductoPromo, porcentaje, monto_fijo, required, min_list}

-- A line of a combo, with the units of it that the combo takes.
pub record ComboItem (N : Type 0) : Type 0 where
  pub cart_item : CartItem N
  pub qty : N

pub record ComboRow (N : Type 0) : Type 0 where
  pub promo : Promocion N
  pub complete_sets : N
  pub n : N
  pub items : List (ComboItem N)
  pub total_sin_descuento : N
  pub total_con_descuento : N

pub record IndividualRow (N : Type 0) : Type 0 where
  pub cart_item : CartItem N
  pub display_qty : N
  pub subtotal : N
  pub cart_index : ℕ
  pub is_combo_product : Bool

pub data DisplayRow (N : Type 0) : Type 0 where
  combo : ComboRow N → DisplayRow N
  individual : IndividualRow N → DisplayRow N

-- The variables of the loop over the promotions.
pub record Building (N : Type 0) : Type 0 where
  pub remaining : Dict N
  pub rows : List (DisplayRow N)
  pub combo_product_ids : List Text

module _ {N : Type 0} ⦃num : Number N⦄ where
  -- `remaining[id] ?? 0`
  abbrev pub left_of : Text → Dict N → N
  left_of id remaining = or_else (lookup id remaining) (num.num 0)

  unfoldable pub initial_remaining : List (CartItem N) → Dict N → Dict N
  initial_remaining [] d = d
  initial_remaining (c ∷ cs) d = initial_remaining cs (insert c.id c.cantidad d)

  -- The lines of the products that are in the cart, each with `qty` units.
  unfoldable pub combo_items : List (CartItem N) → N → List (ProductoPromo N) → List (ComboItem N)
  combo_items cart qty [] = []
  combo_items cart qty (p ∷ ps) = elim (find (is_item p.id) cart) [
    | none ↦ combo_items cart qty ps
    | some c ↦ record { cart_item = c; qty = qty } ∷ combo_items cart qty ps
  ]

  abbrev pub sum_sin_descuento : N → List (ComboItem N) → N
  sum_sin_descuento sum [] = sum
  sum_sin_descuento sum (i ∷ is) =
      sum_sin_descuento (num.add sum (num.mul i.cart_item.precio i.qty)) is

  abbrev pub combo_total : Promocion N → N → N → N
  combo_total promo sets whole = elim promo.tipo [
    | porcentaje ↦ discounted whole promo.valor
    | monto_fijo ↦ num.max_of (num.num 0) (num.sub whole (num.mul sets promo.valor))
  ]

  -- `remaining[p.id] -= qty` for each product
  unfoldable pub consume : N → List (ProductoPromo N) → Dict N → Dict N
  consume qty [] d = d
  consume qty (p ∷ ps) d = consume qty ps (insert p.id (num.sub (left_of p.id d) qty) d)

  abbrev pub product_ids : List (ProductoPromo N) → List Text
  product_ids [] = []
  product_ids (p ∷ ps) = p.id ∷ product_ids ps

  -- `Math.floor(Math.min(...))`, of the sets of each product; of no products it is infinite.
  abbrev pub ratios : N → Dict N → List (ProductoPromo N) → List N
  ratios n d [] = []
  ratios n d (p ∷ ps) = num.div (left_of p.id d) n ∷ ratios n d ps

  unfoldable pub combo_row : List (CartItem N) → Promocion N → N → ComboRow N
  unfolding combo_items
  combo_row cart promo sets =
      let items = combo_items cart (num.mul sets (required promo)) promo.productos in
      let whole = sum_sin_descuento (num.num 0) items in
      record {
        promo = promo;
        complete_sets = sets;
        n = required promo;
        items = items;
        total_sin_descuento = whole;
        total_con_descuento = combo_total promo sets whole;
      }

  -- The end of the body of the loop, for so many complete sets.
  unfoldable pub push_combo : List (CartItem N) → Promocion N → N → Building N → Building N
  unfolding combo_row consume
  push_combo cart promo sets b = record {
    remaining = consume (num.mul sets (required promo)) promo.productos b.remaining;
    rows = b.rows ++ (combo (combo_row cart promo sets) ∷ []);
    combo_product_ids = product_ids promo.productos ++ b.combo_product_ids;
  }

  abbrev pub all_present : Promocion N → Dict N → Bool
  all_present promo d =
      all (λ (p : ProductoPromo N). num.le (required promo) (left_of p.id d)) promo.productos

  unfoldable pub combo_step : List (CartItem N) → Promocion N → Building N → Building N
  unfolding push_combo
  combo_step cart promo b =
      if not promo.activa || leb (length promo.productos) 1
      then b
      else if not (all_present promo b.remaining)
      then b
      else elim (min_list (ratios (required promo) b.remaining promo.productos)) [
        | none ↦ b
        | some m ↦
            if num.eq (num.floor m) (num.num 0) then b else push_combo cart promo (num.floor m) b
      ]

  unfoldable pub combo_steps : List (CartItem N) → List (Promocion N) → Building N → Building N
  unfolding combo_step
  combo_steps cart [] b = b
  combo_steps cart (promo ∷ rest) b = combo_steps cart rest (combo_step cart promo b)

  unfoldable pub individual_row : Bool → N → ℕ → CartItem N → IndividualRow N
  unfolding effective_pct
  individual_row in_combo qty index item = record {
    cart_item = item;
    display_qty = qty;
    subtotal =
        discounted (num.mul qty item.precio)
          (if in_combo then item.descuento else effective_pct item);
    cart_index = index;
    is_combo_product = in_combo;
  }

  -- The second loop, from a row of the cart on.
  unfoldable pub individual_rows : Building N → ℕ → List (CartItem N) → List (DisplayRow N)
  unfolding individual_row
  individual_rows b index [] = []
  individual_rows b index (c ∷ cs) =
      let qty = left_of c.id b.remaining in
      let in_combo = member c.id b.combo_product_ids in
      let rest = individual_rows b (suc index) cs in
      if num.le qty (num.num 0)
      then rest
      else individual (individual_row in_combo qty index c) ∷ rest

  unfoldable pub build_display_rows : List (CartItem N) → List (Promocion N) → List (DisplayRow N)
  unfolding initial_remaining combo_steps individual_rows
  build_display_rows cart promociones =
      let b =
        combo_steps cart promociones
          (record { remaining = initial_remaining cart []; rows = []; combo_product_ids = [] }) in
      b.rows ++ individual_rows b 0 cart

  -- `stock` is what `updateQuantity` waits for. A row's units are taken off the line.
  unfoldable pub take_off : Option N → CartItem N → N → CartState N → CartState N
  take_off stock item qty s =
      let new_qty = num.sub item.cantidad qty in
      if num.le new_qty (num.num 0)
      then remove_item item.id s
      else (update_quantity stock item.id new_qty s).0

  unfoldable pub handle_delete_individual : Option N → IndividualRow N → CartState N → CartState N
  unfolding take_off
  handle_delete_individual stock row s = take_off stock row.cart_item row.display_qty s

  -- The calls for the lines of a combo, each with the stock of its product.
  unfoldable pub handle_delete_combo :
      (Text → Option N) → List (ComboItem N) → CartState N → CartState N
  unfolding take_off
  handle_delete_combo stock [] s = s
  handle_delete_combo stock (i ∷ is) s =
      handle_delete_combo stock is (take_off (stock i.cart_item.id) i.cart_item i.qty s)

  -- What is typed replaces the units of the row; `none` is NaN.
  unfoldable pub commit_edit : Option N → Option N → Text → N → N → CartState N → CartState N
  commit_edit stock val id total display_qty s = elim val [
    | none ↦ s
    | some v ↦
        if num.lt (num.num 0) v
        then (update_quantity stock id (num.add (num.sub total display_qty) v) s).0
        else s
  ]
