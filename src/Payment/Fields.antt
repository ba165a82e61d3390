-- ===== src/Payment/Fields.antt =====
-- The form of frontend/src/components/pos/PaymentModal.tsx: its React state, what each render tells
-- from it about the buyer, and the effects of an opening. `trim` is the method of strings.
use blend_posv.Prelude.{
  ℕ, Bool, true, false, not, ◌&&◌, ◌||◌, Option, none, some, List, [], ◌∷◌, ◌++◌, if◌then◌else◌,
  leb, length, filter, find, all,
}
use blend_posv.Text.{Text, codes, text_eq}
use blend_posv.Campo.{Campo, texto}
use blend_posv.Answer.{Answer, ok, thrown}
use blend_posv.Cart.{MetodoPago, efectivo, debito, credito, qr, transferencia, mixto, fiado}
use blend_posv.Sale.{TipoComprobante, ticket_interno, factura_a, factura_b, factura_c}
use blend_posv.Sale.Request.{is_interno, is_factura_a}
use blend_posv.Catalog.Search.{is_digit}
use blend_posv.PosUi.{TipoTicket, ticket}

pub data TipoDocumento : Type 0 where
  dni cuit : TipoDocumento

pub record Cliente (N : Type 0) : Type 0 where
  pub id : Text
  pub nombre : Text
  pub limite_credito : N
  pub credito_disponible : N

-- `tipo_comprobante` is `none` for 'auto'.
pub record Form (N : Type 0) : Type 0 where
  pub metodo_pago : MetodoPago
  pub monto_recibido : Campo N
  pub mixto_debito : Campo N
  pub mixto_credito : Campo N
  pub mixto_qr : Campo N
  pub mixto_transferencia : Campo N
  pub cliente_email : Text
  pub tipo_comprobante : Option TipoComprobante
  pub tipo_documento_receptor : TipoDocumento
  pub documento_receptor : Text
  pub nombre_receptor : Text
  pub domicilio_receptor : Text
  pub fiado_clientes : List (Cliente N)
  pub fiado_cliente_id : Option Text
  pub fiado_search : Text
  pub fiado_loading : Bool
  pub is_submitting : Bool

abbrev pub is_efectivo : MetodoPago → Bool
is_efectivo m = elim m [
  | efectivo ↦ true
  | debito ↦ false
  | credito ↦ false
  | qr ↦ false
  | transferencia ↦ false
  | mixto ↦ false
  | fiado ↦ false
]

abbrev pub is_fiado : MetodoPago → Bool
is_fiado m = elim m [
  | fiado ↦ true
  | efectivo ↦ false
  | debito ↦ false
  | credito ↦ false
  | qr ↦ false
  | transferencia ↦ false
  | mixto ↦ false
]

abbrev pub is_cuit : TipoDocumento → Bool
is_cuit d = elim d [ cuit ↦ true | dni ↦ false ]

-- `/^\d{11}$/` and `/^\d{7,8}$/`
abbrev pub all_digits : ℕ → ℕ → Text → Bool
all_digits least most t = all is_digit t && (leb least (length t) && leb (length t) most)

abbrev pub is_a : Option TipoComprobante → Bool
is_a tipo = elim tipo [ none ↦ false | some t ↦ is_factura_a t ]

-- `mapping` of the first effect, which gives a type for each choice.
abbrev pub mapped_tipo : TipoTicket → TipoComprobante
mapped_tipo t = elim t [
  | ticket ↦ ticket_interno
  | TipoTicket.factura_b ↦ factura_b
  | TipoTicket.factura_a ↦ factura_a
  | TipoTicket.factura_c ↦ factura_c
]

-- The choices of the selector, for the fiscal condition of the shop.
unfoldable pub opciones_comprobante : Option Text → List (Option TipoComprobante)
opciones_comprobante condicion =
    let base_options = none ∷ some ticket_interno ∷ some factura_c ∷ [] in
    elim condicion [
      | none ↦ base_options
      | some c ↦
          if text_eq c (codes "Monotributo")
          then base_options
          else if text_eq c (codes "Responsable Inscripto")
          then base_options ++ (some factura_b ∷ some factura_a ∷ [])
          else base_options
    ]

module _ {N : Type 0} where
  abbrev pub requires_fiscal_buyer_data : Form N → Bool
  requires_fiscal_buyer_data f = elim f.tipo_comprobante [
    | none ↦ false
    | some t ↦ not (is_interno t)
  ]

  abbrev pub resolved_doc_type : Form N → TipoDocumento
  resolved_doc_type f = if is_a f.tipo_comprobante then cuit else f.tipo_documento_receptor

  abbrev pub normalized_documento : Form N → Text
  normalized_documento f = filter is_digit f.documento_receptor

  unfoldable pub is_documento_valid : Form N → Bool
  is_documento_valid f =
      not (requires_fiscal_buyer_data f)
      || (if is_cuit (resolved_doc_type f)
          then all_digits 11 11 (normalized_documento f)
          else all_digits 7 8 (normalized_documento f))

  unfoldable pub is_nombre_valid : (Text → Text) → Form N → Bool
  is_nombre_valid trim f =
      not (requires_fiscal_buyer_data f) || leb 3 (length (trim f.nombre_receptor))

  unfoldable pub is_domicilio_valid : (Text → Text) → Form N → Bool
  is_domicilio_valid trim f =
      not (requires_fiscal_buyer_data f) || leb 5 (length (trim f.domicilio_receptor))

  abbrev pub selected_fiado_cliente : Form N → Option (Cliente N)
  selected_fiado_cliente f = elim f.fiado_cliente_id [
    | none ↦ none
    | some id ↦ find (λ (c : Cliente N). text_eq c.id id) f.fiado_clientes
  ]

  -- The answer of `listarClientes` to a search.
  unfoldable pub fetch_fiado_clientes : Answer (List (Cliente N)) → Form N → Form N
  fetch_fiado_clientes (ok clientes) f = record f {
    fiado_clientes = clientes;
    fiado_loading = false;
  }
  fetch_fiado_clientes (thrown m) f = record f { fiado_clientes = []; fiado_loading = false }

  -- The effects of an opening, in the order in which React runs them.
  unfoldable pub choose_mapped : TipoTicket → Form N → Form N
  choose_mapped tipo f = record f { tipo_comprobante = some (mapped_tipo tipo) }

  unfoldable pub reset_form : Form N → Form N
  reset_form f = record f {
    metodo_pago = efectivo;
    monto_recibido = texto [];
    mixto_debito = texto [];
    mixto_credito = texto [];
    mixto_qr = texto [];
    nombre_receptor = [];
    mixto_transferencia = texto [];
    fiado_cliente_id = none;
    fiado_search = [];
    fiado_clientes = [];
    cliente_email = [];
    tipo_comprobante = none;
    tipo_documento_receptor = dni;
    documento_receptor = [];
    domicilio_receptor = [];
  }

  unfoldable pub on_open : TipoTicket → Form N → Form N
  unfolding choose_mapped reset_form
  on_open tipo f = record (reset_form (choose_mapped tipo f)) { is_submitting = false }
