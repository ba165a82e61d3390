-- ===== src/Sale/Request.antt =====
-- `toRegistrarVentaRequest` of frontend/src/services/api/sales.ts: what the server gets of a sale
-- that waited in the queue. `fixed d x` is the number `+x.toFixed(d)`, `trim` the method of strings.
pub mod Fiscal
pub mod Paid
mod Tests
use blend_posv.Prelude.{
  ℕ, Bool, true, false, not, ◌&&◌, Option, none, some, List, [], ◌∷◌, map, if◌then◌else◌, or_else,
  ◌==◌, is_some,
}
use blend_posv.Text.{Text, codes, has_text, truthy}
use blend_posv.Number.{Number}
use blend_posv.Cart.{
  MetodoPago, efectivo, PagoDetalle, CartItem, base_price, discounted, effective_pct,
}
use blend_posv.Sale.{TipoComprobante, ticket_interno, factura_a, factura_b, factura_c, LocalSale}
use blend_posv.Sale.Store.{product_of, is_mixto}

pub record ItemRequest (N : Type 0) : Type 0 where
  pub producto_id : Text
  pub cantidad : N
  pub descuento : N
  pub peso : Option N

pub record VentaRequest (N : Type 0) : Type 0 where
  pub sesion_caja_id : Text
  pub items : List (ItemRequest N)
  pub pagos : List (PagoDetalle N)
  pub offline_id : Text
  pub cliente_id : Option Text
  pub cliente_email : Option Text
  pub tipo_comprobante : TipoComprobante
  pub receptor_nombre : Option Text
  pub receptor_domicilio : Option Text
  pub tipo_doc_receptor : Option ℕ
  pub nro_doc_receptor : Option Text

abbrev pub is_interno : TipoComprobante → Bool
is_interno t = elim t [
  | ticket_interno ↦ true
  | factura_a ↦ false
  | factura_b ↦ false
  | factura_c ↦ false
]

abbrev pub is_factura_a : TipoComprobante → Bool
is_factura_a t = elim t [
  | factura_a ↦ true
  | ticket_interno ↦ false
  | factura_b ↦ false
  | factura_c ↦ false
]

-- A number that may be undefined, and is not 0.
abbrev pub has_number : Option ℕ → Bool
has_number none = false
has_number (some k) = not (k == 0)

-- A text goes into the request where something is left of it after `trim`.
abbrev pub trimmed : (Text → Text) → Option Text → Option Text
trimmed trim none = none
trimmed trim (some t) = if truthy t && truthy (trim t) then some (trim t) else none

-- The kind and the number of the buyer's document.
unfoldable pub documento :
    TipoComprobante → Option ℕ → Option Text → Option Text → Option ℕ × Option Text
documento tipo tipo_doc nro_doc cuit =
    if has_number tipo_doc && has_text nro_doc
    then (tipo_doc, nro_doc)
    else if is_factura_a tipo && has_text cuit
    then (some 80, cuit)
    else if not (is_interno tipo)
    then (some 99, some (codes "0"))
    else (none, none)

module _ {N : Type 0} ⦃n : Number N⦄ where
  -- `lineTotal`
  abbrev pub line_total : CartItem N → N
  line_total item = elim item.peso [
    | some peso ↦ n.mul item.precio peso
    | none ↦ n.mul item.precio item.cantidad
  ]

  unfoldable pub item_request : (ℕ → N → N) → N → CartItem N → ItemRequest N
  unfolding product_of effective_pct
  item_request fixed global item =
      let whole = line_total item in
      let pct = n.div (effective_pct item) (n.num 100) in
      let part = n.mul (n.mul whole (n.sub (n.num 1) pct)) (n.sub (n.num 1) global) in
      let discount = n.sub whole part in
      record {
        producto_id = product_of item.id;
        cantidad = item.cantidad;
        descuento = if n.lt (n.num 0) discount then fixed 2 discount else n.num 0;
        peso = elim item.peso [ none ↦ none | some peso ↦ some (fixed 3 peso) ];
      }

  -- Older sales have no payments, and pay all by their method.
  unfoldable pub request_payments : LocalSale N → List (PagoDetalle N)
  request_payments sale = elim (or_else sale.pagos []) [
    | p ∷ ps ↦ p ∷ ps
    | [] ↦
        record {
          metodo = if is_mixto sale.metodo_pago then efectivo else sale.metodo_pago;
          monto = sale.total_con_descuento;
        }
        ∷ []
  ]

  unfoldable pub to_registrar_venta_request :
      (Text → Text) → (ℕ → N → N) → LocalSale N → VentaRequest N
  unfolding item_request request_payments documento
  to_registrar_venta_request trim fixed sale =
      let global = n.div (or_else sale.descuento_global (n.num 0)) (n.num 100) in
      let tipo = or_else sale.tipo_comprobante ticket_interno in
      let (tipo_doc, nro_doc) =
        documento tipo sale.tipo_doc_receptor sale.nro_doc_receptor sale.cuit_receptor in
      record {
        sesion_caja_id = or_else sale.sesion_caja_id [];
        items = map (item_request fixed global) sale.items;
        pagos = request_payments sale;
        offline_id = sale.id;
        cliente_id = if has_text sale.cliente_id then sale.cliente_id else none;
        cliente_email = trimmed trim sale.cliente_email;
        tipo_comprobante = tipo;
        receptor_nombre = trimmed trim sale.receptor_nombre;
        receptor_domicilio = trimmed trim sale.receptor_domicilio;
        tipo_doc_receptor = tipo_doc;
        nro_doc_receptor = nro_doc;
      }
