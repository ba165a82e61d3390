-- ===== src/Sale.antt =====
-- The records of a sale: `SaleRecord` of frontend/src/store/useSaleStore.ts, `LocalSale` of
-- frontend/src/offline/db.ts, and `toLocalSale` of frontend/src/offline/sync.ts between them. A
-- `Date` is its number of milliseconds.
pub mod Store
pub mod Request
use blend_posv.Prelude.{ℕ, Bool, false, Option, List}
use blend_posv.Text.{Text}
use blend_posv.Cart.{CartItem, MetodoPago, PagoDetalle}

pub data TipoComprobante : Type 0 where
  ticket_interno factura_a factura_b factura_c : TipoComprobante

pub record SaleRecord (N : Type 0) : Type 0 where
  pub id : Text
  pub numero_ticket : Text
  pub fecha : ℕ
  pub items : List (CartItem N)
  pub total : N
  pub total_con_descuento : N
  pub metodo_pago : MetodoPago
  pub pagos : Option (List (PagoDetalle N))
  pub efectivo_recibido : Option N
  pub vuelto : Option N
  pub cajero : Text
  pub sesion_caja_id : Option Text
  pub cliente_email : Option Text
  pub cliente_id : Option Text
  pub cliente_nombre : Option Text
  pub tipo_comprobante : TipoComprobante
  pub cuit_receptor : Option Text
  pub tipo_doc_receptor : Option ℕ
  pub nro_doc_receptor : Option Text
  pub receptor_nombre : Option Text
  pub receptor_domicilio : Option Text
  pub descuento_global : Option N

-- `synced` is the flag 0 or 1.
pub record LocalSale (N : Type 0) : Type 0 where
  pub id : Text
  pub numero_ticket : Text
  pub fecha : Text
  pub items : List (CartItem N)
  pub total : N
  pub total_con_descuento : N
  pub metodo_pago : MetodoPago
  pub pagos : Option (List (PagoDetalle N))
  pub efectivo_recibido : Option N
  pub vuelto : Option N
  pub cajero : Text
  pub sesion_caja_id : Option Text
  pub cliente_email : Option Text
  pub tipo_comprobante : Option TipoComprobante
  pub cuit_receptor : Option Text
  pub tipo_doc_receptor : Option ℕ
  pub nro_doc_receptor : Option Text
  pub receptor_nombre : Option Text
  pub receptor_domicilio : Option Text
  pub cliente_id : Option Text
  pub descuento_global : Option N
  pub synced : Bool

-- `iso` is `toISOString`.
unfoldable pub to_local_sale : {N : Type 0} → (ℕ → Text) → SaleRecord N → LocalSale N
to_local_sale iso sale = record {
  id = sale.id;
  numero_ticket = sale.numero_ticket;
  fecha = iso sale.fecha;
  items = sale.items;
  total = sale.total;
  total_con_descuento = sale.total_con_descuento;
  metodo_pago = sale.metodo_pago;
  pagos = sale.pagos;
  efectivo_recibido = sale.efectivo_recibido;
  vuelto = sale.vuelto;
  cajero = sale.cajero;
  sesion_caja_id = sale.sesion_caja_id;
  cliente_email = sale.cliente_email;
  tipo_comprobante = Option.some sale.tipo_comprobante;
  cuit_receptor = sale.cuit_receptor;
  tipo_doc_receptor = sale.tipo_doc_receptor;
  nro_doc_receptor = sale.nro_doc_receptor;
  receptor_nombre = sale.receptor_nombre;
  receptor_domicilio = sale.receptor_domicilio;
  cliente_id = sale.cliente_id;
  descuento_global = sale.descuento_global;
  synced = false;
}
