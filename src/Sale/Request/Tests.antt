-- ===== src/Sale/Request/Tests.antt =====
-- A request at a concrete sale.
use blend_posv.Prelude.{◌≡◌, refl, false, none, some, List, [], ◌∷◌}
use blend_posv.Text.{codes}
use blend_posv.Number.{Decimal, decimal_number}
use blend_posv.Cart.{MetodoPago, efectivo, PagoDetalle, CartState}
use blend_posv.Cart.Store.{init}
use blend_posv.Sale.Store.{Pago, init_sale, final_total}
use blend_posv.Sale.Request.Paid.{AllPlain, IsPaid, sent_payments, request-IsPaid}
use blend_posv.Sale.{LocalSale, factura_b}
use blend_posv.Sale.Request.{to_registrar_venta_request, request_payments}
use blend_posv.Sale.Request.Fiscal.{IsComplete, request-IsComplete}

abbrev old_sale : LocalSale Decimal
old_sale = record {
  id = codes "a";
  numero_ticket = codes "000001";
  fecha = codes "2026";
  items = [];
  total = 100;
  total_con_descuento = 90;
  metodo_pago = MetodoPago.mixto;
  pagos = none;
  efectivo_recibido = none;
  vuelto = none;
  cajero = codes "Ana";
  sesion_caja_id = none;
  cliente_email = none;
  tipo_comprobante = some factura_b;
  cuit_receptor = none;
  tipo_doc_receptor = none;
  nro_doc_receptor = none;
  receptor_nombre = none;
  receptor_domicilio = none;
  cliente_id = none;
  descuento_global = none;
  synced = false;
}

-- An old sale by several methods is sent as paid in cash.
old_payments : request_payments old_sale ≡ record { metodo = efectivo; monto = 90 } ∷ []
unfolding request_payments
old_payments = refl

request-IsComplete_example :
    let r = to_registrar_venta_request (λ t. t) (λ k x. x) old_sale in
    IsComplete r.tipo_comprobante (r.tipo_doc_receptor, r.nro_doc_receptor)
request-IsComplete_example = request-IsComplete (λ t. t) (λ k x. x) old_sale

abbrev pago : Pago Decimal
pago = record {
  metodo_pago = MetodoPago.mixto;
  pagos = some (
      record { metodo = MetodoPago.qr; monto = 60 }
      ∷ record { metodo = efectivo; monto = 30 }
      ∷ []);
  efectivo_recibido = none;
  vuelto = none;
  cliente_email = none;
  tipo_comprobante = none;
  cuit_receptor = none;
  tipo_doc_receptor = none;
  nro_doc_receptor = none;
  receptor_nombre = none;
  receptor_domicilio = none;
  cliente_id = none;
  cliente_nombre = none;
}

abbrev cart : CartState Decimal
cart = init

abbrev given : List (PagoDetalle Decimal)
given = sent_payments (λ t. t ∷ []) (λ t. t) (λ k x. x) 5 (codes "a") none pago cart init_sale

request-IsPaid_example :
    (AllPlain given) × (IsPaid MetodoPago.mixto (final_total cart) 0 pago.pagos given)
unfolding init
request-IsPaid_example =
    request-IsPaid (λ t. t ∷ []) (λ t. t) (λ k x. x) 5 (codes "a") none pago cart init_sale
      (refl, (refl, tt))
