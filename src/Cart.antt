-- ===== src/Cart.antt =====
-- frontend/src/store/useCartStore.ts: the cart of the terminal. Prices, quantities and
-- percentages are values of any `Number`; a method returns the new state, and the notification
-- that it shows, if any. `stock` is what `await getLocalStock(id)` gave, `none` if it threw.
pub mod Store
use blend_posv.Prelude.{
  ℕ, Bool, true, false, not, ◌&&◌, Option, none, some, List, [], ◌∷◌, ◌++◌, map, ◌==◌,
  if◌then◌else◌, or_else, length, get_elem?, take, filter, find, find_index, update_at, any,
}
use blend_posv.Prelude.Int.{ℤ, pos, negsuc, ◌+ℤ◌, ◌-ℤ◌, leb_ℤ, min_ℤ, max_ℤ, sub_ℕ}
use blend_posv.Text.{Text, codes, text_eq, truthy}
use blend_posv.Dict.{Dict, lookup}
use blend_posv.Number.{Number}

pub data MetodoPago : Type 0 where
  efectivo debito credito qr transferencia mixto fiado : MetodoPago

pub data UnidadMedida : Type 0 where
  unidad kg gramo : UnidadMedida

-- `metodo` is never `mixto` in the source's type.
pub record PagoDetalle (N : Type 0) : Type 0 where
  pub metodo : MetodoPago
  pub monto : N

pub record CartItem (N : Type 0) : Type 0 where
  pub id : Text
  pub nombre : Text
  pub precio : N
  pub codigo_barras : Text
  pub cantidad : N
  pub subtotal : N
  pub descuento : N
  pub promo_descuento : Option N
  pub promo_nombre : Option Text
  pub unidad_medida : Option UnidadMedida
  pub peso : Option N

pub record CartState (N : Type 0) : Type 0 where
  pub cart : List (CartItem N)
  pub total : N
  pub descuento_global : N
  pub total_con_descuento : N
  pub last_added : Option (CartItem N)
  pub selected_row_index : ℤ

-- What the caller of `addItem` and `addWeightItem` passes.
pub record NewItem (N : Type 0) : Type 0 where
  pub id : Text
  pub nombre : Text
  pub precio : N
  pub codigo_barras : Text
  pub unidad_medida : Option UnidadMedida

pub record NewWeightItem (N : Type 0) : Type 0 where
  pub id : Text
  pub nombre : Text
  pub precio : N
  pub codigo_barras : Text
  pub unidad_medida : UnidadMedida
  pub peso : N

pub data Notification (N : Type 0) : Type 0 where
  sin_stock : Text → Notification N
  stock_insuficiente : Text → N → N → Notification N
  stock_disponible : Text → N → Notification N

abbrev pub is_item : {N : Type 0} → Text → CartItem N → Bool
is_item id c = text_eq c.id id

-- `findIndex`, with -1 where there is none
abbrev pub row_of : Option ℕ → ℤ
row_of none = negsuc 0
row_of (some i) = pos i

abbrev pub same_name : Option Text → Option Text → Bool
same_name none none = true
same_name (some a) (some b) = text_eq a b
same_name _ _ = false

module _ {N : Type 0} ⦃n : Number N⦄ where
  open n use {num, add, sub, mul, div, max_of, lt, le, eq}

  unfoldable pub effective_pct : CartItem N → N
  effective_pct item = max_of item.descuento (or_else item.promo_descuento (num 0))

  -- `cart.reduce((sum, item) => sum + item.subtotal, 0)`, from the left
  abbrev pub sum_from : N → List (CartItem N) → N
  sum_from acc [] = acc
  sum_from acc (c ∷ cs) = sum_from (add acc c.subtotal) cs

  unfoldable pub compute_total : List (CartItem N) → N
  compute_total cart = sum_from (num 0) cart

  -- `x * (1 - pct / 100)`
  abbrev pub discounted : N → N → N
  discounted x pct = mul x (sub (num 1) (div pct (num 100)))

  unfoldable pub compute_total_con_descuento : N → N → N
  compute_total_con_descuento total pct = discounted total pct

  -- The part of each `set` that stores the new lines and what they add up to.
  abbrev pub with_cart : CartState N → List (CartItem N) → CartState N
  with_cart s cart =
      let total = compute_total cart in
      record s {
        cart = cart;
        total = total;
        total_con_descuento = compute_total_con_descuento total s.descuento_global;
      }

  abbrev pub one_more : CartItem N → CartItem N
  one_more c =
      let cantidad = add c.cantidad (num 1) in
      record c {
        cantidad = cantidad;
        subtotal = discounted (mul cantidad c.precio) (effective_pct c);
      }

  abbrev pub new_line : NewItem N → CartItem N
  new_line item = record {
    id = item.id;
    nombre = item.nombre;
    precio = item.precio;
    codigo_barras = item.codigo_barras;
    cantidad = num 1;
    subtotal = item.precio;
    descuento = num 0;
    promo_descuento = some (num 0);
    promo_nombre = none;
    unidad_medida = item.unidad_medida;
    peso = none;
  }

  abbrev pub fill_barcode : NewItem N → CartItem N → CartItem N
  fill_barcode item c =
      if is_item item.id c && not (truthy c.codigo_barras)
      then record c { codigo_barras = item.codigo_barras }
      else c

  abbrev pub in_cart : Text → List (CartItem N) → N
  in_cart id cart = elim (find (is_item id) cart) [ none ↦ num 0 | some c ↦ c.cantidad ]

  abbrev pub set_quantity : Text → N → CartItem N → CartItem N
  set_quantity id cantidad c =
      if is_item id c
      then record c {
        cantidad = cantidad;
        subtotal = discounted (mul cantidad c.precio) (effective_pct c);
      }
      else c

  -- `none` is the text 'Producto' of a line that is gone.
  abbrev pub name_of : Text → List (CartItem N) → Text
  name_of id cart = elim (find (is_item id) cart) [ none ↦ codes "Producto" | some c ↦ c.nombre ]

  abbrev pub exceeds : Option N → N → Bool
  exceeds none cantidad = false
  exceeds (some stock) cantidad = lt stock cantidad

  -- `c.peso != null ? c.precio * c.peso : c.cantidad * c.precio`
  abbrev pub base_price : CartItem N → N
  base_price c = elim c.peso [ some peso ↦ mul c.precio peso | none ↦ mul c.cantidad c.precio ]

  abbrev pub discount_line : Text → N → CartItem N → CartItem N
  discount_line id descuento c =
      if is_item id c
      then record c {
        descuento = descuento;
        subtotal = discounted (base_price c) (max_of descuento (or_else c.promo_descuento (num 0)));
      }
      else c

  -- `a === b` on what may be undefined
  abbrev pub same_pct : Option N → N → Bool
  same_pct none new = false
  same_pct (some old) new = eq old new

  abbrev pub promo_changed : Dict N → Dict Text → CartItem N → Bool
  promo_changed pcts nombres c = not (
      same_pct c.promo_descuento (or_else (lookup c.id pcts) (num 0))
      && same_name c.promo_nombre (lookup c.id nombres))

  abbrev pub promo_line : Dict N → Dict Text → CartItem N → CartItem N
  promo_line pcts nombres c =
      let new_promo = or_else (lookup c.id pcts) (num 0) in
      if promo_changed pcts nombres c
      then record c {
        promo_descuento = some new_promo;
        promo_nombre = lookup c.id nombres;
        subtotal = discounted (base_price c) (max_of c.descuento new_promo);
      }
      else c
