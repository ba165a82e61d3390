-- ===== src/Payment.antt =====
-- frontend/src/components/pos/PaymentModal.tsx: the dialog that takes a payment. The values that each
-- render derives are functions of the form (Payment/Fields) and the cart, and
-- `handle_confirm_payment` is what the button and the Enter key run.
--
-- `parse_float` is the function of JavaScript, with `none` for NaN, and `trim` the method of strings.
pub mod Fields
pub mod Checked
pub mod Amounts
pub mod Buyer
mod Tests
use blend_posv.Prelude.{
  ℕ, Bool, true, false, not, ◌&&◌, ◌||◌, Option, none, some, List, [], ◌∷◌, ◌++◌, if◌then◌else◌,
  or_else, ltb, leb, ◌==◌, length, filter, find, all, is_some,
}
use blend_posv.Text.{Text, codes, text_eq, has_text, truthy}
use blend_posv.Number.{Number}
use blend_posv.Campo.{Campo, texto, is_vacio, to_number}
use blend_posv.Answer.{Answer, ok, thrown}
use blend_posv.Cart.{
  MetodoPago, efectivo, debito, credito, qr, transferencia, mixto, fiado, PagoDetalle, CartState,
}
use blend_posv.Sale.{TipoComprobante, ticket_interno, factura_a, factura_b, factura_c, SaleRecord}
use blend_posv.Sale.Store.{Pago, SaleState, Confirmed, is_mixto, final_total, confirm_sale}
use blend_posv.Sale.Request.{is_interno, is_factura_a}
use blend_posv.Catalog.Search.{is_digit}
use blend_posv.PosUi.{PosUiState, TipoTicket, ticket, close_payment_modal, open_post_sale_modal}
use blend_posv.Payment.Fields.{
  Form, is_cuit, is_documento_valid, is_domicilio_valid, is_efectivo, is_fiado, is_nombre_valid,
  normalized_documento, requires_fiscal_buyer_data, resolved_doc_type, selected_fiado_cliente,
}

-- `b ? a : undefined`
abbrev pub when {ℓ} : {A : Type ℓ} → Bool → A → Option A
when b a = if b then some a else none

-- `if (x > 0) detalles.push({ metodo, monto: x })`
abbrev pub push_positive :
    {N : Type 0} ⦃n : Number N⦄ → MetodoPago → N → List (PagoDetalle N) → List (PagoDetalle N)
push_positive ⦃n⦄ metodo x detalles =
    if n.lt (n.num 0) x then detalles ++ (record { metodo = metodo; monto = x } ∷ []) else detalles

module _ {N : Type 0} ⦃n : Number N⦄ (parse_float : Text → Option N) where
  open n use {num, add, sub, lt, le, eq}

  -- What the client may still buy on credit; `none` is `Infinity`.
  abbrev pub fiado_credito_disponible : Form N → Option N
  fiado_credito_disponible f = elim (selected_fiado_cliente f) [
    | none ↦ some (num 0)
    | some c ↦ if lt (num 0) c.limite_credito then some c.credito_disponible else none
  ]

  unfoldable pub fiado_exceeds_credit : Form N → CartState N → Bool
  fiado_exceeds_credit f cart =
      is_fiado f.metodo_pago
      && (is_some (selected_fiado_cliente f) && (elim (fiado_credito_disponible f) [
        | none ↦ false
        | some d ↦ lt d (final_total cart)
      ]))

  abbrev pub non_cash_total : Form N → N
  non_cash_total f =
      if is_mixto f.metodo_pago
      then add
          (add (add (to_number parse_float f.mixto_debito) (to_number parse_float f.mixto_credito))
            (to_number parse_float f.mixto_qr))
          (to_number parse_float f.mixto_transferencia)
      else num 0

  abbrev pub cash_due : Form N → CartState N → N
  cash_due f cart =
      if is_mixto f.metodo_pago then sub (final_total cart) (non_cash_total f) else num 0

  abbrev pub is_recibido_vacio : Form N → Bool
  is_recibido_vacio f =
      (is_efectivo f.metodo_pago || is_mixto f.metodo_pago) && is_vacio f.monto_recibido

  abbrev pub efectivo_recibido : Form N → CartState N → N
  efectivo_recibido f cart =
      if is_efectivo f.metodo_pago
      then (if is_recibido_vacio f
          then final_total cart
          else to_number parse_float f.monto_recibido)
      else if is_mixto f.metodo_pago
      then (if lt (num 0) (cash_due f cart)
          then (if is_recibido_vacio f
              then cash_due f cart
              else to_number parse_float f.monto_recibido)
          else num 0)
      else num 0

  -- The change that is shown.
  unfoldable pub vuelto_shown : Form N → CartState N → Option N
  vuelto_shown f cart =
      if is_efectivo f.metodo_pago
      then some (sub (efectivo_recibido f cart) (final_total cart))
      else if is_mixto f.metodo_pago
      then some (
          if lt (num 0) (cash_due f cart)
          then sub (efectivo_recibido f cart) (cash_due f cart)
          else num 0)
      else none

  unfoldable pub detalles_of : Form N → CartState N → List (PagoDetalle N)
  detalles_of f cart = push_positive efectivo (cash_due f cart) (
      push_positive transferencia (to_number parse_float f.mixto_transferencia) (
        push_positive qr (to_number parse_float f.mixto_qr) (
          push_positive credito (to_number parse_float f.mixto_credito)
            (push_positive debito (to_number parse_float f.mixto_debito) []))))

  -- `pagos`, `efectivoRecibidoToSave` and `vueltoCalc`.
  unfoldable pub pagos_of : Form N → CartState N → Option (List (PagoDetalle N))
  unfolding detalles_of
  pagos_of f cart =
      if is_fiado f.metodo_pago
      then some (record { metodo = fiado; monto = final_total cart } ∷ [])
      else if is_mixto f.metodo_pago
      then some (detalles_of f cart)
      else none

  abbrev pub efectivo_recibido_to_save : Form N → CartState N → Option N
  efectivo_recibido_to_save f cart =
      if is_efectivo f.metodo_pago || (is_mixto f.metodo_pago && lt (num 0) (cash_due f cart))
      then some (efectivo_recibido f cart)
      else none

  abbrev pub vuelto_calc : Form N → CartState N → Option N
  vuelto_calc f cart =
      if is_efectivo f.metodo_pago
      then some (sub (efectivo_recibido f cart) (final_total cart))
      else if is_mixto f.metodo_pago && lt (num 0) (cash_due f cart)
      then some (sub (efectivo_recibido f cart) (cash_due f cart))
      else none

  module _ (trim : Text → Text) where
    unfoldable pub can_confirm : Form N → CartState N → Bool
    unfolding is_documento_valid is_nombre_valid is_domicilio_valid fiado_exceeds_credit
    can_confirm f cart =
        if requires_fiscal_buyer_data f
          && (not (is_documento_valid f)
              || (not (is_nombre_valid trim f) || not (is_domicilio_valid trim f)))
        then false
        else if is_fiado f.metodo_pago
        then has_text f.fiado_cliente_id && not (fiado_exceeds_credit f cart)
        else if is_efectivo f.metodo_pago
        then le (final_total cart) (efectivo_recibido f cart)
        else if not (is_mixto f.metodo_pago)
        then true
        else if lt (cash_due f cart) (num 0)
        then false
        else if eq (cash_due f cart) (num 0)
        then eq (non_cash_total f) (final_total cart)
        else le (cash_due f cart) (efectivo_recibido f cart)

    -- What `confirmSale` is called with.
    unfoldable pub pago_of : Form N → CartState N → Pago N
    unfolding pagos_of
    pago_of f cart =
        let fiscal = requires_fiscal_buyer_data f in
        let doc = normalized_documento f in
        record {
          metodo_pago = f.metodo_pago;
          pagos = pagos_of f cart;
          efectivo_recibido = efectivo_recibido_to_save f cart;
          vuelto = vuelto_calc f cart;
          cliente_email = when (truthy (trim f.cliente_email)) (trim f.cliente_email);
          tipo_comprobante = f.tipo_comprobante;
          cuit_receptor = when (fiscal && is_cuit (resolved_doc_type f)) doc;
          tipo_doc_receptor = when fiscal (if is_cuit (resolved_doc_type f) then 80 else 96);
          nro_doc_receptor = when fiscal doc;
          receptor_nombre = when fiscal (trim f.nombre_receptor);
          receptor_domicilio = when fiscal (trim f.domicilio_receptor);
          cliente_id = if is_fiado f.metodo_pago then f.fiado_cliente_id else none;
          cliente_nombre =
              if is_fiado f.metodo_pago
              then (elim (selected_fiado_cliente f) [ none ↦ none | some c ↦ some c.nombre ])
              else none;
        }

    -- `now`, `id` and `sesion` are what `confirmSale` reads. `none` is the early return; else the
    -- sale, with the two stores after it, and the dialogs.
    unfoldable pub handle_confirm_payment :
        ℕ
        → Text
        → Option Text
        → Form N
        → CartState N
        → SaleState N
        → PosUiState N
        → Option (Confirmed N × PosUiState N)
    unfolding can_confirm pago_of confirm_sale
    handle_confirm_payment now id sesion f cart s ui =
        if not (can_confirm f cart) || f.is_submitting
        then none
        else let done = confirm_sale now id sesion (pago_of f cart) cart s in
          some (done, open_post_sale_modal done.sale (close_payment_modal ui))

    -- A key while the dialog is open.
    unfoldable pub on_enter :
        ℕ
        → Text
        → Option Text
        → Form N
        → CartState N
        → SaleState N
        → PosUiState N
        → Option (Confirmed N × PosUiState N)
    unfolding handle_confirm_payment
    on_enter now id sesion f cart s ui =
        if can_confirm f cart && not (is_efectivo f.metodo_pago)
        then handle_confirm_payment now id sesion f cart s ui
        else none
