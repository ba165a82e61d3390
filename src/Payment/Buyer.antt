-- ===== src/Payment/Buyer.antt =====
-- The buyer of an invoice, from the payment dialog to the request that the server gets.
use blend_posv.Prelude.{
  ℕ, ◌≡◌, refl, sym, subst, ◌⊎◌, inl, inr, Bool, true, false, not, ◌&&◌, Option, none, some, [],
  ◌∷◌, arith, or_else, if◌then◌else◌,
}
use blend_posv.Text.{Text}
use blend_posv.Number.{Number}
use blend_posv.Cart.{CartState}
use blend_posv.Sale.{
  TipoComprobante, ticket_interno, factura_a, factura_b, factura_c, to_local_sale,
}
use blend_posv.Sale.Store.{SaleState, Confirmed, confirm_sale, sale_record}
use blend_posv.Sale.Request.{is_interno, is_factura_a, documento, to_registrar_venta_request}
use blend_posv.PosUi.{PosUiState}
use blend_posv.Payment.Fields.{
  Form, is_cuit, all_digits, is_documento_valid, is_a, requires_fiscal_buyer_data,
  resolved_doc_type, normalized_documento,
}
use blend_posv.Payment.{when, can_confirm, pago_of, handle_confirm_payment}
use blend_posv.Payment.Checked.{handle_confirm_payment-some}

-- Kind 80 is a CUIT of 11 digits, kind 96 a DNI of 7 or 8.
abbrev pub IsDocument : ℕ → Text → Type 0
IsDocument kind number =
    ((kind ≡ 80) × (all_digits 11 11 number ≡ true))
    ⊎ ((kind ≡ 96) × (all_digits 7 8 number ≡ true))

-- The receipt that was chosen is the one that is asked for, an invoice names its buyer by a valid
-- document, an invoice A by a CUIT, and nothing else names one.
pub record NamesBuyer (chosen : Option TipoComprobante) (tipo : TipoComprobante)
    (d : Option ℕ × Option Text) : Type 0 where
  pub asked : tipo ≡ or_else chosen ticket_interno
  pub named :
      is_interno tipo ≡ false
      → (kind : ℕ) × (number : Text) × (d.0 ≡ some kind)
        × (d.1 ≡ some number)
        × IsDocument kind number
        × (is_factura_a tipo ≡ true → kind ≡ 80)
  pub unnamed : is_interno tipo ≡ true → (d.0 ≡ none) × (d.1 ≡ none)

-- The document as the dialog passes it on, for an invoice.
invoice-documento :
    (tipo : TipoComprobante) (by_cuit : Bool) (c : ℕ) (doc : Text)
    → is_interno tipo ≡ false
    → (if by_cuit then all_digits 11 11 (c ∷ doc) else all_digits 7 8 (c ∷ doc)) ≡ true
    → (is_factura_a tipo ≡ true → by_cuit ≡ true)
    → let d =
        documento tipo
          (some (if by_cuit then 80 else 96))
          (some (c ∷ doc))
          (when by_cuit (c ∷ doc)) in
      NamesBuyer (some tipo) tipo d
unfolding documento
invoice-documento tipo true c doc h valid a = record {
  asked = refl;
  named = λ _. (80, c ∷ doc, refl, refl, inl (refl, valid), λ _. refl);
  unnamed = λ e. cc;
}
invoice-documento tipo false c doc h valid a = record {
  asked = refl;
  named = λ _. (96, c ∷ doc, refl, refl, inr (refl, valid), λ e. cc (a e));
  unnamed = λ e. cc;
}

-- A valid document is not empty.
filled-documento :
    (tipo : TipoComprobante) (by_cuit : Bool) (doc : Text)
    → is_interno tipo ≡ false
    → (if by_cuit then all_digits 11 11 doc else all_digits 7 8 doc) ≡ true
    → (is_factura_a tipo ≡ true → by_cuit ≡ true)
    → NamesBuyer
        (some tipo)
        tipo
        (documento tipo (some (if by_cuit then 80 else 96)) (some doc) (when by_cuit doc))
filled-documento tipo by_cuit (c ∷ doc) h valid a = invoice-documento tipo by_cuit c doc h valid a
filled-documento tipo true [] h valid a = cc
filled-documento tipo false [] h valid a = cc

abbrev is_fiscal : Option TipoComprobante → Bool
is_fiscal chosen = elim chosen [ none ↦ false | some t ↦ not (is_interno t) ]

no_documento :
    (chosen : Option TipoComprobante)
    → or_else chosen ticket_interno ≡ ticket_interno
    → NamesBuyer chosen ticket_interno (documento ticket_interno none none none)
unfolding documento
no_documento chosen e = record { asked = sym e; named = λ h. cc; unnamed = λ h. (refl, refl) }

chosen-documento :
    (chosen : Option TipoComprobante) (by_cuit : Bool) (doc : Text)
    → (is_fiscal chosen ≡ true
        → (if by_cuit then all_digits 11 11 doc else all_digits 7 8 doc) ≡ true)
    → (is_a chosen ≡ true → by_cuit ≡ true)
    → NamesBuyer chosen (or_else chosen ticket_interno) (
        documento
          (or_else chosen ticket_interno)
          (when (is_fiscal chosen) (if by_cuit then 80 else 96))
          (when (is_fiscal chosen) doc)
          (when (is_fiscal chosen && by_cuit) doc))
chosen-documento none by_cuit doc valid a = no_documento none refl
chosen-documento (some ticket_interno) by_cuit doc valid a = no_documento (some ticket_interno) refl
chosen-documento (some factura_a) by_cuit doc valid a =
    filled-documento factura_a by_cuit doc refl (valid refl) a
chosen-documento (some factura_b) by_cuit doc valid a =
    filled-documento factura_b by_cuit doc refl (valid refl) a
chosen-documento (some factura_c) by_cuit doc valid a =
    filled-documento factura_c by_cuit doc refl (valid refl) a

module _ {N : Type 0} ⦃n : Number N⦄ (parse_float : Text → Option N) (trim : Text → Text) where
  can_confirm-document :
      (f : Form N) (cart : CartState N)
      → requires_fiscal_buyer_data f ≡ true
      → can_confirm parse_float trim f cart ≡ true
      → is_documento_valid f ≡ true
  unfolding can_confirm
  can_confirm-document f cart r h = ground arith

  by_cuit : Form N → Bool
  by_cuit f = is_cuit (resolved_doc_type f)

  checked-document :
      (f : Form N) (cart : CartState N)
      → can_confirm parse_float trim f cart ≡ true
      → requires_fiscal_buyer_data f ≡ true
      → (if by_cuit f
          then all_digits 11 11 (normalized_documento f)
          else all_digits 7 8 (normalized_documento f))
        ≡ true
  unfolding is_documento_valid by_cuit
  checked-document f cart h r = ground (arith, can_confirm-document f cart r h)

  -- From the dialog to the server: the request of a sale that the dialog confirmed asks for the
  -- receipt that was chosen, where 'auto' is an internal ticket; an invoice has the buyer's document,
  -- a CUIT of 11 digits or, unless it is an invoice A, a DNI of 7 or 8; an internal ticket has none.
  pub confirmed-NamesBuyer :
      (now : ℕ) (id : Text) (sesion : Option Text) (f : Form N) (cart : CartState N)
      (s : SaleState N) (ui ui' : PosUiState N) (done : Confirmed N) (iso : ℕ → Text)
      (fixed : ℕ → N → N)
      → handle_confirm_payment parse_float trim now id sesion f cart s ui ≡ some (done, ui')
      → let r = to_registrar_venta_request trim fixed (to_local_sale iso done.sale) in
        NamesBuyer f.tipo_comprobante r.tipo_comprobante (r.tipo_doc_receptor, r.nro_doc_receptor)
  unfolding to_registrar_venta_request to_local_sale confirm_sale sale_record pago_of by_cuit
  confirmed-NamesBuyer now id sesion f cart s ui ui' done iso fixed e =
      let (checked, same) =
        handle_confirm_payment-some parse_float trim now id sesion f cart s ui ui' done e in
      subst
        (λ (d : Confirmed N).
          let r = to_registrar_venta_request trim fixed (to_local_sale iso d.sale) in
          NamesBuyer f.tipo_comprobante r.tipo_comprobante
            (r.tipo_doc_receptor, r.nro_doc_receptor))
        same
        (chosen-documento f.tipo_comprobante (by_cuit f) (normalized_documento f)
          (checked-document f cart checked) (λ a. rw a))
