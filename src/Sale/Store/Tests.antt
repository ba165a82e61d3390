-- ===== src/Sale/Store/Tests.antt =====
-- Sales at concrete states.
use blend_posv.Prelude.{◌≡◌, refl, none, List, [], ◌∷◌, arith, length}
use blend_posv.Text.{codes}
use blend_posv.Number.{Decimal, decimal_number}
use blend_posv.Digits.{to_text}
use blend_posv.Answer.{ok}
use blend_posv.Cart.{MetodoPago, CartState}
use blend_posv.Cart.Store.{init, weight_line_id}
use blend_posv.Sale.Store.{Pago, SaleState, init_sale, sale_record, product_of, generate_offline_id}
use blend_posv.Sale.Store.Tickets.{Event, history, IsNumbered, history-IsNumbered}
use blend_posv.Sale.Store.Payments.{product_of-weight_line_id}

abbrev pago : Pago Decimal
pago = record {
  metodo_pago = MetodoPago.qr;
  pagos = none;
  efectivo_recibido = none;
  vuelto = none;
  cliente_email = none;
  tipo_comprobante = none;
  cuit_receptor = none;
  tipo_doc_receptor = none;
  nro_doc_receptor = none;
  receptor_nombre = none;
  receptor_domicilio = none;
  cliente_id = none;
  cliente_nombre = none;
}

abbrev cart : CartState Decimal
cart = init

abbrev state : SaleState Decimal
state = init_sale

offline_id : generate_offline_id (codes "t") (codes "d") 1700 255 ≡ codes "t:d:1700:00ff"
unfolding generate_offline_id
offline_id = refl

first_ticket : (sale_record 5 (codes "a") none pago cart state).numero_ticket ≡ codes "000001"
unfolding sale_record init_sale to_text
first_ticket = refl

state-IsNumbered : IsNumbered state
unfolding init_sale
state-IsNumbered = record { short = omega arith; falls = tt }

abbrev day : List (Event Decimal)
day =
    Event.sells 5 (codes "a") none pago cart
    ∷ Event.syncs (ok 40)
    ∷ Event.reloads (λ d. d ∷ []) (λ t. length t)
    ∷ Event.sells 9 (codes "b") none pago cart
    ∷ []

history-IsNumbered_example : IsNumbered (history day state)
history-IsNumbered_example = history-IsNumbered day state state-IsNumbered

product_of-weight_line_id_example :
    (product_of (weight_line_id (codes "12345678-9") (codes "p-1")) ≡ codes "p-1")
    × (product_of (codes "p-1") ≡ codes "p-1")
product_of-weight_line_id_example =
    product_of-weight_line_id (codes "12345678-9") (codes "p-1") (refl, (refl, (refl, tt)))
