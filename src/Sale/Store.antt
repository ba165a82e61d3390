-- ===== src/Sale/Store.antt =====
-- frontend/src/store/useSaleStore.ts, with `generateOfflineId` of frontend/src/offline/sync.ts: a
-- confirmed sale becomes a record with the next ticket number. What `confirmSale` hands to
-- `enqueueSale` and `deductLocalStock` is part of its result.
pub mod Tickets
pub mod Payments
mod Tests
use blend_posv.Prelude.{
  ℕ, suc, ◌+◌, Bool, true, false, ◌⊎◌, inl, inr, Option, none, some, List, [], ◌∷◌, ◌++◌, map, ltb,
  if◌then◌else◌, or_else, take,
}
use blend_posv.Text.{Text, codes, has_text, includes, split_head, pad_start}
use blend_posv.Number.{Number}
use blend_posv.Answer.{Answer, ok, thrown}
use blend_posv.Digits.{to_text, digits_on}
use blend_posv.Cart.{
  MetodoPago, efectivo, debito, credito, qr, transferencia, mixto, fiado, PagoDetalle, CartItem,
  CartState,
}
use blend_posv.Cart.Store.{clear_cart}
use blend_posv.Sale.{TipoComprobante, ticket_interno, SaleRecord}

-- What `confirmSale` is called with.
pub record Pago (N : Type 0) : Type 0 where
  pub metodo_pago : MetodoPago
  pub pagos : Option (List (PagoDetalle N))
  pub efectivo_recibido : Option N
  pub vuelto : Option N
  pub cliente_email : Option Text
  pub tipo_comprobante : Option TipoComprobante
  pub cuit_receptor : Option Text
  pub tipo_doc_receptor : Option ℕ
  pub nro_doc_receptor : Option Text
  pub receptor_nombre : Option Text
  pub receptor_domicilio : Option Text
  pub cliente_id : Option Text
  pub cliente_nombre : Option Text

pub record SaleState (N : Type 0) : Type 0 where
  pub historial : List (SaleRecord N)
  pub cajero : Text
  pub ticket_counter : ℕ

-- The record that is returned, queued and printed, the two stores after the call, and the list
-- for `deductLocalStock`.
pub record Confirmed (N : Type 0) : Type 0 where
  pub sale : SaleRecord N
  pub state : SaleState N
  pub cart : CartState N
  pub sold : List (Text × N)

-- A sale as it is in the browser's storage: the date may be a text.
pub record StoredSale (N : Type 0) : Type 0 where
  pub fecha : Text ⊎ ℕ
  pub sale : SaleRecord N

pub record Persisted (N : Type 0) : Type 0 where
  pub historial : Option (List (StoredSale N))
  pub ticket_counter : Option ℕ

abbrev pub max_historial : ℕ
max_historial = 200

unfoldable pub generate_offline_id : Text → Text → ℕ → ℕ → Text
unfolding to_text
generate_offline_id tenant device ts random =
    tenant
    ++ (codes ":"
        ++ (device
            ++ (codes ":" ++ (to_text 10 ts ++ (codes ":" ++ pad_start 4 48 (to_text 16 random))))))

-- The product of a line: the id of a weighed line has a suffix.
unfoldable pub product_of : Text → Text
product_of id = if includes (codes "__w_") id then split_head (codes "__w_") id else id

abbrev pub is_mixto : MetodoPago → Bool
is_mixto m = elim m [
  | mixto ↦ true
  | efectivo ↦ false
  | debito ↦ false
  | credito ↦ false
  | qr ↦ false
  | transferencia ↦ false
  | fiado ↦ false
]

-- `nextCounter.toString().padStart(6, '0')`
abbrev pub ticket_text : ℕ → Text
ticket_text n = pad_start 6 48 (to_text 10 n)

module _ {N : Type 0} where
  -- The `pagos` of the record.
  unfoldable pub payments :
      Option (List (PagoDetalle N)) → MetodoPago → N → Option (List (PagoDetalle N))
  payments (some (p ∷ ps)) metodo monto = some (p ∷ ps)
  payments (some []) metodo monto =
      if is_mixto metodo then some [] else some (record { metodo = metodo; monto = monto } ∷ [])
  payments none metodo monto =
      if is_mixto metodo then none else some (record { metodo = metodo; monto = monto } ∷ [])

  unfoldable pub init_sale : SaleState N
  init_sale = record { historial = []; cajero = codes "Cajero"; ticket_counter = 0 }

  unfoldable pub set_cajero : Text → SaleState N → SaleState N
  set_cajero nombre s = record s { cajero = nombre }

  unfoldable pub sync_ticket_counter : Answer ℕ → SaleState N → SaleState N
  sync_ticket_counter (ok last) s =
      if ltb s.ticket_counter last then record s { ticket_counter = last } else s
  sync_ticket_counter (thrown m) s = s

  -- `parse` is `new Date(text)`.
  abbrev pub revive : (Text → ℕ) → StoredSale N → SaleRecord N
  revive parse r = record r.sale {
    fecha = elim r.fecha [ inl text ↦ parse text | inr date ↦ date ];
  }

  unfoldable pub merge : (Text → ℕ) → Option (Persisted N) → SaleState N → SaleState N
  merge parse none s = record s { historial = [] }
  merge parse (some p) s = record s {
    historial = take max_historial (map (revive parse) (or_else p.historial []));
    ticket_counter = or_else p.ticket_counter s.ticket_counter;
  }

  -- What `partialize` stores; `iso` is how a date is written.
  unfoldable pub stored : (ℕ → Text) → SaleState N → Persisted N
  stored iso s = record {
    historial =
        some
          (map (λ (r : SaleRecord N). record { fecha = inl (iso r.fecha); sale = r }) s.historial);
    ticket_counter = some s.ticket_counter;
  }

module _ {N : Type 0} ⦃n : Number N⦄ where
  -- `finalTotal`
  abbrev pub final_total : CartState N → N
  final_total cart =
      if n.lt (n.num 0) cart.descuento_global then cart.total_con_descuento else cart.total

  -- The record of a sale.
  unfoldable pub sale_record :
      ℕ → Text → Option Text → Pago N → CartState N → SaleState N → SaleRecord N
  unfolding payments
  sale_record now id sesion pago cart s = record {
    id = id;
    numero_ticket = ticket_text (s.ticket_counter + 1);
    fecha = now;
    items = cart.cart;
    total = cart.total;
    total_con_descuento = cart.total_con_descuento;
    metodo_pago = pago.metodo_pago;
    pagos = payments pago.pagos pago.metodo_pago (final_total cart);
    efectivo_recibido = pago.efectivo_recibido;
    vuelto = pago.vuelto;
    cajero = s.cajero;
    sesion_caja_id = sesion;
    cliente_email = pago.cliente_email;
    cliente_id = pago.cliente_id;
    cliente_nombre = pago.cliente_nombre;
    tipo_comprobante = or_else pago.tipo_comprobante ticket_interno;
    cuit_receptor = pago.cuit_receptor;
    tipo_doc_receptor = pago.tipo_doc_receptor;
    nro_doc_receptor = pago.nro_doc_receptor;
    receptor_nombre = pago.receptor_nombre;
    receptor_domicilio = pago.receptor_domicilio;
    descuento_global =
        if n.lt (n.num 0) cart.descuento_global then some cart.descuento_global else none;
  }

  -- `id` is `generateOfflineId(tenantId)`, or a random UUID where there is no tenant.
  unfoldable pub confirm_sale :
      ℕ → Text → Option Text → Pago N → CartState N → SaleState N → Confirmed N
  unfolding sale_record product_of clear_cart
  confirm_sale now id sesion pago cart s =
      let sale = sale_record now id sesion pago cart s in
      record {
        sale = sale;
        state = record s {
          historial = take max_historial (sale ∷ s.historial);
          ticket_counter = s.ticket_counter + 1;
        };
        cart = clear_cart cart;
        sold = map (λ (c : CartItem N). (product_of c.id, c.cantidad)) cart.cart;
      }
