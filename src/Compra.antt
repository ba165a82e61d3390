-- ===== src/Compra.antt =====
-- frontend/src/pages/admin/NuevaCompraPage.tsx: a purchase as it is typed in, its lines, its payments,
-- the totals that are shown, and the request that saves it. A tax is one of the options of its
-- selector; dates are texts; `trim` is that of strings.
pub mod Sums
mod Tests
use blend_posv.Prelude.{
  ℕ, ◌+◌, Bool, true, false, not, ◌||◌, Option, none, some, List, [], ◌∷◌, ◌++◌, map, ◌==◌,
  if◌then◌else◌, or_else, length, filter,
}
use blend_posv.Text.{Text, codes, truthy}
use blend_posv.Text.Parts.{trim}
use blend_posv.Number.{Number}

pub data Impuesto : Type 0 where
  cero diez_y_medio veintiuno : Impuesto

pub data MetodoCompra : Type 0 where
  efectivo transferencia cheque tarjeta_debito tarjeta_credito cuenta_corriente otro : MetodoCompra

pub record PagoRow (N : Type 0) : Type 0 where
  pub key : ℕ
  pub metodo : MetodoCompra
  pub monto : N
  pub referencia : Text

pub record ItemRow (N : Type 0) : Type 0 where
  pub key : ℕ
  pub nombre : Text
  pub precio : N
  pub descuento : N
  pub impuesto : Impuesto
  pub cantidad : N
  pub observaciones : Text

pub record Compra (N : Type 0) : Type 0 where
  pub numero : Text
  pub fecha_compra : Option Text
  pub fecha_vence : Option Text
  pub moneda : Text
  pub deposito : Option Text
  pub notas : Text
  pub proveedor_id : Option Text
  pub items : List (ItemRow N)
  pub next_key : ℕ
  pub pagos : List (PagoRow N)
  pub next_pago_key : ℕ

pub record CompraItem (N : Type 0) : Type 0 where
  pub nombre_producto : Text
  pub precio : N
  pub descuento_pct : N
  pub impuesto_pct : N
  pub cantidad : N
  pub observaciones : Option Text

pub record PagoCompra (N : Type 0) : Type 0 where
  pub metodo : MetodoCompra
  pub monto : N
  pub referencia : Option Text

pub record CrearCompra (N : Type 0) : Type 0 where
  pub numero : Option Text
  pub proveedor_id : Text
  pub fecha_compra : Text
  pub fecha_vencimiento : Option Text
  pub moneda : Text
  pub deposito : Option Text
  pub notas : Option Text
  pub items : List (CompraItem N)
  pub pagos : List (PagoCompra N)

-- What `handleGuardar` comes to: a warning, or the request.
pub data Guardar (N : Type 0) : Type 0 where
  sin_proveedor sin_fecha sin_productos : Guardar N
  enviar : CrearCompra N → Guardar N

-- `text.trim() || undefined`
unfoldable pub some_trimmed : Text → Option Text
unfolding trim
some_trimmed t = if truthy (trim t) then some (trim t) else none

module _ {N : Type 0} ⦃n : Number N⦄ where
  open n use {num, add, sub, mul, div, max_of, lt}

  -- `parseFloat(row.impuesto)`
  abbrev pub impuesto_pct : Impuesto → N
  impuesto_pct cero = num 0
  impuesto_pct diez_y_medio = div (num 21) (num 2)
  impuesto_pct veintiuno = num 21

  abbrev pub base_of : ItemRow N → N
  base_of r = mul r.precio r.cantidad

  abbrev pub desc_mon : ItemRow N → N
  desc_mon r = mul (base_of r) (div r.descuento (num 100))

  abbrev pub imp_mon : ItemRow N → N
  imp_mon r = mul (sub (base_of r) (desc_mon r)) (div (impuesto_pct r.impuesto) (num 100))

  unfoldable pub calc_line_total : ItemRow N → N
  calc_line_total r = max_of (num 0) (add (sub (base_of r) (desc_mon r)) (imp_mon r))

  -- The loop over the lines, from `sub` and `desc` on.
  unfoldable pub totals_from : N → N → List (ItemRow N) → N × N
  totals_from sub_total desc [] = (sub_total, desc)
  totals_from sub_total desc (r ∷ rs) =
      totals_from (add sub_total (add (base_of r) (imp_mon r))) (add desc (desc_mon r)) rs

  unfoldable pub compra_total : List (ItemRow N) → N
  unfolding totals_from
  compra_total items = let (s, d) = totals_from (num 0) (num 0) items in sub s d

  unfoldable pub total_pagado : N → List (PagoRow N) → N
  total_pagado s [] = s
  total_pagado s (p ∷ ps) = total_pagado (add s p.monto) ps

  abbrev pub new_row : ℕ → ItemRow N
  new_row key = record {
    key = key;
    nombre = [];
    precio = num 0;
    descuento = num 0;
    impuesto = veintiuno;
    cantidad = num 1;
    observaciones = [];
  }

  unfoldable pub add_row : Compra N → Compra N
  add_row c = record c { items = c.items ++ (new_row c.next_key ∷ []); next_key = c.next_key + 1 }

  unfoldable pub remove_row : ℕ → Compra N → Compra N
  remove_row key c = record c { items = filter (λ (r : ItemRow N). not (r.key == key)) c.items }

  -- `update` sets one field.
  unfoldable pub update_row : ℕ → (ItemRow N → ItemRow N) → Compra N → Compra N
  update_row key update c = record c {
    items = map (λ (r : ItemRow N). if r.key == key then update r else r) c.items;
  }

  unfoldable pub add_pago : Compra N → Compra N
  add_pago c = record c {
    pagos =
        c.pagos
        ++ (record { key = c.next_pago_key; metodo = efectivo; monto = num 0; referencia = [] }
            ∷ []);
    next_pago_key = c.next_pago_key + 1;
  }

  unfoldable pub remove_pago : ℕ → Compra N → Compra N
  remove_pago key c = record c { pagos = filter (λ (p : PagoRow N). not (p.key == key)) c.pagos }

  unfoldable pub update_pago : ℕ → (PagoRow N → PagoRow N) → Compra N → Compra N
  update_pago key update c = record c {
    pagos = map (λ (p : PagoRow N). if p.key == key then update p else p) c.pagos;
  }

  -- `r.nombre.trim() !== '' || r.precio > 0`
  abbrev pub is_filled : ItemRow N → Bool
  unfolding trim
  is_filled r = truthy (trim r.nombre) || lt (num 0) r.precio

  unfoldable pub compra_item_of : ItemRow N → CompraItem N
  unfolding some_trimmed
  compra_item_of r = record {
    nombre_producto = r.nombre;
    precio = r.precio;
    descuento_pct = r.descuento;
    impuesto_pct = impuesto_pct r.impuesto;
    cantidad = r.cantidad;
    observaciones = some_trimmed r.observaciones;
  }

  unfoldable pub pago_compra_of : PagoRow N → PagoCompra N
  unfolding some_trimmed
  pago_compra_of p = record {
    metodo = p.metodo;
    monto = p.monto;
    referencia = some_trimmed p.referencia;
  }

  unfoldable pub compra_request : Text → Text → List (ItemRow N) → Compra N → CrearCompra N
  unfolding compra_item_of pago_compra_of some_trimmed
  compra_request proveedor fecha valid_items c = record {
    numero = some_trimmed c.numero;
    proveedor_id = proveedor;
    fecha_compra = fecha;
    fecha_vencimiento = c.fecha_vence;
    moneda = or_else (some_trimmed c.moneda) (codes "ARS");
    deposito = c.deposito;
    notas = some_trimmed c.notas;
    items = map compra_item_of valid_items;
    pagos = map pago_compra_of (filter (λ (p : PagoRow N). lt (num 0) p.monto) c.pagos);
  }

  unfoldable pub handle_guardar : Compra N → Guardar N
  unfolding compra_request
  handle_guardar c = elim c.proveedor_id [
    | none ↦ sin_proveedor
    | some proveedor ↦ if not (truthy proveedor) then sin_proveedor else elim c.fecha_compra [
      | none ↦ sin_fecha
      | some fecha ↦
          let valid_items = filter is_filled c.items in
          if length valid_items == 0
          then sin_productos
          else enviar (compra_request proveedor fecha valid_items c)
    ]
  ]
