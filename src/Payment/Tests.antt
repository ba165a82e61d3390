-- ===== src/Payment/Tests.antt =====
-- Payments at exact decimals: a mixed one with cash and change, and an invoice.
use blend_posv.Prelude.{
  ℕ, ◌+◌, ◌*◌, ◌≡◌, refl, Bool, true, false, Option, none, some, List, [], ◌∷◌, arith,
  if◌then◌else◌,
}
use blend_posv.Text.{Text, codes, truthy}
use blend_posv.Digits.{value_from}
use blend_posv.Number.{Decimal, decimal_number, Decimal-IsLawful, Decimal-IsExact, unit}
use blend_posv.Campo.{numero, texto}
use blend_posv.Cart.{CartState, mixto}
use blend_posv.Sale.{factura_b, to_local_sale}
use blend_posv.Sale.Store.{Confirmed, init_sale, confirm_sale}
use blend_posv.Sale.Request.{to_registrar_venta_request}
use blend_posv.PosUi.{
  PosUiState, TipoTicket, init_pos_ui, close_payment_modal, open_post_sale_modal,
}
use blend_posv.Payment.Fields.{Form, dni, on_open}
use blend_posv.Payment.{handle_confirm_payment, pago_of, vuelto_shown}
use blend_posv.Payment.Amounts.{IsSettled, handle_confirm_payment-IsSettled}
use blend_posv.Payment.Buyer.{NamesBuyer, confirmed-NamesBuyer}

abbrev parse : Text → Option Decimal
parse t = if truthy t then some (value_from 0 t * unit) else none

abbrev same : Text → Text
same t = t

-- A thousand pesos, 300 by card and the rest in cash, of a note of a thousand.
abbrev cart : CartState Decimal
cart = record {
  cart = [];
  total = 1_000 * unit;
  descuento_global = 0;
  total_con_descuento = 1_000 * unit;
  last_added = none;
  selected_row_index = blend_posv.Prelude.Int.negsuc 0;
}

abbrev mixed : Form Decimal
mixed = record {
  metodo_pago = mixto;
  monto_recibido = numero (1_000 * unit);
  mixto_debito = texto (codes "300");
  mixto_credito = texto [];
  mixto_qr = texto [];
  mixto_transferencia = texto [];
  cliente_email = [];
  tipo_comprobante = some factura_b;
  tipo_documento_receptor = dni;
  documento_receptor = codes "30.123.456";
  nombre_receptor = codes "Ana Paz";
  domicilio_receptor = codes "Mitre 1234";
  fiado_clientes = [];
  fiado_cliente_id = none;
  fiado_search = [];
  fiado_loading = false;
  is_submitting = false;
}

abbrev done : Confirmed Decimal
done = confirm_sale 7 (codes "v1") none (pago_of parse same mixed cart) cart init_sale

abbrev ui' : PosUiState Decimal
ui' = open_post_sale_modal done.sale (close_payment_modal init_pos_ui)

mixed_confirmed :
    handle_confirm_payment parse same 7 (codes "v1") none mixed cart init_sale init_pos_ui
    ≡ some (done, ui')
unfolding handle_confirm_payment
mixed_confirmed = refl

change_of_mixed : vuelto_shown parse mixed cart ≡ some (300 * unit)
unfolding vuelto_shown
change_of_mixed = refl

handle_confirm_payment-IsSettled_example : IsSettled done.sale (1_000 * unit)
handle_confirm_payment-IsSettled_example =
    handle_confirm_payment-IsSettled Decimal-IsLawful Decimal-IsExact parse same 7 (codes "v1") none
      mixed cart init_sale init_pos_ui ui' done
      (record { debito_ok = refl; credito_ok = refl; qr_ok = refl; transferencia_ok = refl })
      mixed_confirmed

abbrev iso : ℕ → Text
iso t = []

confirmed-NamesBuyer_example :
    let r = to_registrar_venta_request same (λ k x. x) (to_local_sale iso done.sale) in
    NamesBuyer (some factura_b) r.tipo_comprobante (r.tipo_doc_receptor, r.nro_doc_receptor)
confirmed-NamesBuyer_example =
    confirmed-NamesBuyer parse same 7 (codes "v1") none mixed cart init_sale init_pos_ui ui' done
      iso (λ k x. x) mixed_confirmed

-- The choice of the receipt dialog does not survive the opening.
opening_forgets : (on_open TipoTicket.factura_a mixed).tipo_comprobante ≡ none
unfolding on_open
opening_forgets = refl
