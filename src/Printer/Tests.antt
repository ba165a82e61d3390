-- ===== src/Printer/Tests.antt =====
-- Tickets and the printer at concrete states.
use blend_posv.Prelude.{ℕ, ◌≡◌, refl, true, false, Option, none, some, List, [], ◌∷◌, All}
use blend_posv.Text.{codes}
use blend_posv.Number.{Decimal, decimal_number}
use blend_posv.Cart.{MetodoPago}
use blend_posv.Sale.{TipoComprobante, SaleRecord}
use blend_posv.Printer.{PrinterConfig, Formats, left_right, remove_first}
use blend_posv.Printer.EscPos.{encode_text, encode_from, build_esc_pos_buffer}
use blend_posv.Printer.Bytes.{IsByte, build_esc_pos_buffer-IsByte}
use blend_posv.Printer.Port.{PortInfo, Printer}
use blend_posv.Printer.Port.Wired.{Use, Service, use_all, IsWired, use_all-IsWired}

cut : left_right (codes "a long name") (codes "$1") 8 ≡ codes "a lo… $1"
unfolding left_right
cut = refl

-- The two units of an emoji are one question mark.
emoji : encode_text (55_357 ∷ 56_832 ∷ 233 ∷ []) ≡ 63 ∷ 233 ∷ []
unfolding encode_text encode_from
emoji = refl

bare_id : remove_first (codes "T-") (codes "xT-1T-") ≡ codes "x1T-"
unfolding remove_first
bare_id = refl

abbrev formats : Formats Decimal
formats = record {
  price = λ x. x ∷ [];
  number = λ x. x ∷ [];
  date = λ t. t ∷ [];
  time = λ t. t ∷ [];
}

abbrev config : PrinterConfig
config = record {
  store_name = none;
  store_subtitle = none;
  store_address = none;
  store_phone = none;
  store_footer = none;
  paper_width = none;
  open_drawer = none;
  code_page = none;
}

abbrev sale : SaleRecord Decimal
sale = record {
  id = codes "T-1";
  numero_ticket = codes "000001";
  fecha = 1_700;
  items = [];
  total = 100;
  total_con_descuento = 90;
  metodo_pago = MetodoPago.qr;
  pagos = none;
  efectivo_recibido = none;
  vuelto = none;
  cajero = codes "Ana";
  sesion_caja_id = none;
  cliente_email = none;
  cliente_id = none;
  cliente_nombre = none;
  tipo_comprobante = TipoComprobante.ticket_interno;
  cuit_receptor = none;
  tipo_doc_receptor = none;
  nro_doc_receptor = none;
  receptor_nombre = none;
  receptor_domicilio = none;
  descuento_global = none;
}

build_esc_pos_buffer-IsByte_example : All IsByte (build_esc_pos_buffer formats 2 config sale)
build_esc_pos_buffer-IsByte_example = build_esc_pos_buffer-IsByte formats 2 config sale

abbrev info_of : ℕ → Option PortInfo
info_of p = some (record { vendor = some p; product = none })

abbrev unplugged : Printer ℕ
unplugged = record { port = none; writer = false; is_connected = false; info = none }

abbrev uses : List (Use ℕ)
uses =
    Use.connects true (λ p. true) (some 7)
    ∷ Use.prints true (λ p. true) (some (7 ∷ [])) true 2
    ∷ Use.begins_disconnect true
    ∷ Use.opens_drawer true (λ p. true) (some (7 ∷ [])) true
    ∷ Use.ends_disconnect false
    ∷ Use.disconnects true false
    ∷ []

unplugged-IsWired : IsWired 0 unplugged
unplugged-IsWired = record { has_writer = λ e z. cc; has_port = λ e. cc }

abbrev service : Service ℕ
service = record { printer = unplugged; closing = 0 }

use_all-IsWired_example :
    IsWired (use_all info_of uses service).closing (use_all info_of uses service).printer
use_all-IsWired_example = use_all-IsWired info_of uses service unplugged-IsWired

-- While `disconnect` waits for the port to close, the printer counts as connected and has no
-- writer.
half_disconnected :
    let half : List (Use ℕ) =
      Use.connects true (λ p. true) (some 7) ∷ Use.begins_disconnect true ∷ [] in
    let s = (use_all info_of half service).printer in (s.is_connected ≡ true) × (s.writer ≡ false)
unfolding use_all
half_disconnected = (refl, refl)
