-- ===== src/Printer.antt =====
-- frontend/src/services/ThermalPrinterService.ts: the text and the ESC/POS bytes of a ticket. The
-- texts of prices, numbers, dates and times, which the browser makes, are the record `Formats`.
pub mod EscPos
pub mod Port
pub mod Width
pub mod Bytes
mod Tests
use blend_posv.Prelude.{
  ℕ, zero, suc, ◌+◌, ◌-◌, ◌/◌, min, max, Bool, true, false, not, ◌&&◌, Option, none, some, List, [],
  ◌∷◌, ◌++◌, map, ltb, leb, if◌then◌else◌, or_else, length, take, replicate,
}
use blend_posv.Text.{Text, codes, truthy, starts_with}
use blend_posv.Number.{Number}
use blend_posv.Digits.{to_text}
use blend_posv.Cart.{
  MetodoPago, efectivo, debito, credito, qr, transferencia, mixto, fiado, PagoDetalle, CartItem,
}
use blend_posv.Sale.{SaleRecord}
use blend_posv.Sale.Store.{is_mixto}

pub data CodePage : Type 0 where
  pc437 pc850 pc858 : CodePage

-- `Partial<PrinterConfig>`, less the baud rate and the number of copies.
pub record PrinterConfig : Type 0 where
  pub store_name : Option Text
  pub store_subtitle : Option Text
  pub store_address : Option Text
  pub store_phone : Option Text
  pub store_footer : Option Text
  pub paper_width : Option ℕ
  pub open_drawer : Option Bool
  pub code_page : Option CodePage

pub record Formats (N : Type 0) : Type 0 where
  pub price : N → Text
  pub number : N → Text
  pub date : ℕ → Text
  pub time : ℕ → Text

abbrev pub default_width : ℕ
default_width = 32

-- The spaces, dashes and equal signs of a line.
abbrev pub repeat : ℕ → ℕ → Text
repeat ch k = replicate k ch

unfoldable pub center : Text → ℕ → Text
center text width =
    let pad = width - length text in
    let left = pad / 2 in repeat 32 left ++ (text ++ repeat 32 (pad - left))

-- `left.length > maxLeft` with `maxLeft = width - right.length - 1`, which may be negative.
unfoldable pub left_right : Text → Text → ℕ → Text
left_right left right width =
    let trimmed =
      if ltb width (length left + length right + 1)
      then take (width - length right - 2) left ++ (8230 ∷ [])
      else left in
    trimmed ++ (repeat 32 (max 1 (width - length trimmed - length right)) ++ right)

-- `s.replace(p, '')`
abbrev pub drop : ℕ → Text → Text
drop zero s = s
drop (suc k) [] = []
drop (suc k) (c ∷ s) = drop k s

unfoldable pub remove_first : Text → Text → Text
remove_first p [] = []
remove_first p (c ∷ s) =
    let rest = remove_first p s in
    if starts_with p (c ∷ s) then drop (length p) (c ∷ s) else c ∷ rest

unfoldable pub metodo_label : MetodoPago → Text
metodo_label m = elim m [
  | efectivo ↦ codes "Efectivo"
  | debito ↦ codes "Tarjeta Débito"
  | credito ↦ codes "Tarjeta Crédito"
  | qr ↦ codes "QR"
  | transferencia ↦ codes "Transferencia"
  | mixto ↦ codes "Mixto"
  | fiado ↦ codes "fiado"
]

abbrev pub concat {ℓ} : {A : Type ℓ} → List (List A) → List A
concat [] = []
concat (xs ∷ xss) = xs ++ concat xss

abbrev pub copy_text : ℕ → Text
unfolding to_text
copy_text copy = codes "[ COPIA " ++ (to_text 10 copy ++ codes " ]")

-- A name that does not fit is cut.
abbrev pub fit : Text → ℕ → Text
fit nombre width =
    if ltb width (length nombre) then take (width - 1) nombre ++ (8230 ∷ []) else nombre

module _ {N : Type 0} ⦃n : Number N⦄ where
  open n use {num, sub, mul, div, lt, eq}

  -- The line of a discount: its name, and what it is worth.
  abbrev pub discount_text : Formats N → Text → CartItem N → N → ℕ → Text
  discount_text f name item pct width =
      left_right (name ++ (f.number pct ++ codes "%"))
        (codes "- " ++ f.price (mul (mul item.precio item.cantidad) (div pct (num 100)))) width

  -- `promoDescuento ?? 0 > 0` is `promoDescuento ?? (0 > 0)`: a percentage other than 0.
  abbrev pub promo_of : CartItem N → Option N
  promo_of item = elim item.promo_descuento [
    | none ↦ none
    | some pct ↦ if eq pct (num 0) then none else some pct
  ]

  unfoldable pub item_lines : Formats N → ℕ → CartItem N → List Text
  unfolding left_right
  item_lines f width item =
      fit item.nombre width
      ∷ left_right (f.number item.cantidad ++ (codes " x " ++ f.price item.precio))
          (f.price item.subtotal) width
      ∷ (if lt (num 0) item.descuento
          then discount_text f (codes "  Dto. ") item item.descuento width ∷ []
          else elim (promo_of item) [
            | none ↦ []
            | some pct ↦ discount_text f (codes "  Dto.promo ") item pct width ∷ []
          ])

  abbrev pub all_item_lines : Formats N → ℕ → List (CartItem N) → List Text
  all_item_lines f width [] = []
  all_item_lines f width (item ∷ items) = item_lines f width item ++ all_item_lines f width items

  unfoldable pub discount_lines : Formats N → ℕ → SaleRecord N → List Text
  unfolding left_right
  discount_lines f width sale =
      if lt sale.total_con_descuento sale.total
      then left_right (codes "Subtotal:") (f.price sale.total) width
        ∷ left_right (codes "Descuento:")
            (codes "- " ++ f.price (sub sale.total sale.total_con_descuento)) width
        ∷ repeat 45 width
        ∷ []
      else []

  -- The rest of a sale by several methods, where there is any.
  abbrev pub vuelto_lines : Formats N → ℕ → Option N → List Text
  vuelto_lines f width none = []
  vuelto_lines f width (some v) =
      if lt (num 0) v then left_right (codes "  Vuelto:") (f.price v) width ∷ [] else []

  abbrev pub pago_line : Formats N → ℕ → PagoDetalle N → Text
  unfolding left_right metodo_label
  pago_line f width p =
      left_right (codes "  " ++ (metodo_label p.metodo ++ codes ":")) (f.price p.monto) width

  abbrev pub mixed_lines : Formats N → ℕ → Option N → List (PagoDetalle N) → List Text
  mixed_lines f width vuelto [] = []
  mixed_lines f width vuelto (p ∷ ps) =
      map (pago_line f width) (p ∷ ps) ++ vuelto_lines f width vuelto

  unfoldable pub payment_lines : Formats N → ℕ → SaleRecord N → List Text
  unfolding left_right metodo_label pago_line
  payment_lines f width sale =
      left_right (codes "Forma de pago:") (metodo_label sale.metodo_pago) width
      ∷ (if is_mixto sale.metodo_pago
          then mixed_lines f width sale.vuelto (or_else sale.pagos [])
          else [])

  -- The lines of `buildTicketBuffer`, which joins them by new lines; `copy` counts from 1.
  unfoldable pub build_ticket_lines : Formats N → ℕ → SaleRecord N → List Text
  unfolding center left_right remove_first item_lines discount_lines payment_lines to_text
  build_ticket_lines f copy sale =
      let w = default_width in
      concat (
        ([]
          ∷ center (codes "★ BLEND POS ★") w
          ∷ center (codes "Sistema de Punto de Venta") w
          ∷ repeat 45 w
          ∷ left_right (codes "Fecha:") (f.date sale.fecha) w
          ∷ left_right (codes "Hora:") (f.time sale.fecha) w
          ∷ left_right (codes "Cajero:") sale.cajero w
          ∷ left_right (codes "Ticket N°:") (remove_first (codes "SALE-") sale.id) w
          ∷ [])
        ∷ (if ltb 1 copy then center (copy_text copy) w ∷ [] else [])
        ∷ (repeat 61 w ∷ center (codes "DETALLE DE VENTA") w ∷ repeat 45 w ∷ [])
        ∷ all_item_lines f w sale.items
        ∷ (repeat 45 w ∷ [])
        ∷ discount_lines f w sale
        ∷ (left_right (codes "TOTAL:") (f.price sale.total_con_descuento) w ∷ repeat 61 w ∷ [])
        ∷ payment_lines f w sale
        ∷ (repeat 45 w
            ∷ []
            ∷ center (codes "¡Gracias por su compra!") w
            ∷ center (codes "Conserve su ticket") w
            ∷ []
            ∷ center (repeat 61 16) w
            ∷ []
            ∷ [])
        ∷ [])
