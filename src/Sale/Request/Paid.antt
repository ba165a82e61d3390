-- ===== src/Sale/Request/Paid.antt =====
-- The payments of a sale, from the payment dialog to the request that the queue sends.
use blend_posv.Prelude.{
  ℕ, ◌≡◌, inl, inr, Bool, Bool-cases, true, false, Option, none, some, List, [], ◌∷◌, All, refl,
  or_else, if◌then◌else◌,
}
use blend_posv.Text.{Text}
use blend_posv.Number.{Number}
use blend_posv.Cart.{MetodoPago, efectivo, PagoDetalle, CartState}
use blend_posv.Sale.{to_local_sale}
use blend_posv.Sale.Store.{Pago, SaleState, payments, is_mixto, sale_record, final_total}
use blend_posv.Sale.Request.{request_payments, to_registrar_venta_request}

module _ {N : Type 0} where
  -- No payment is `mixto`, which the type of `PagoDetalle` asks for.
  abbrev pub AllPlain : List (PagoDetalle N) → Type 0
  AllPlain = All (λ (p : PagoDetalle N). is_mixto p.metodo ≡ false)

  -- The negation of `!pagos || pagos.length === 0`.
  abbrev pub has_payments : Option (List (PagoDetalle N)) → Bool
  has_payments none = false
  has_payments (some []) = false
  has_payments (some (p ∷ ps)) = true

  abbrev pub pays : MetodoPago → N → List (PagoDetalle N)
  pays metodo monto = record { metodo = metodo; monto = monto } ∷ []

  -- What the server is told of a sale by this method, for this final total and this total with
  -- discount: the payments that were given; without any, the whole by the method; and where the
  -- method names none, cash.
  pub data IsPaid (metodo : MetodoPago) (final reduced : N)
      : Option (List (PagoDetalle N)) → List (PagoDetalle N) → Type 0 where
    as_given :
        {ps : List (PagoDetalle N)}
        → has_payments (some ps) ≡ true
        → IsPaid metodo final reduced (some ps) ps
    by_method :
        {given : Option (List (PagoDetalle N))}
        → has_payments given ≡ false
        → is_mixto metodo ≡ false
        → IsPaid metodo final reduced given (pays metodo final)
    in_cash :
        {given : Option (List (PagoDetalle N))}
        → has_payments given ≡ false
        → is_mixto metodo ≡ true
        → IsPaid metodo final reduced given (pays efectivo reduced)

  abbrev pub AllPlainIn : Option (List (PagoDetalle N)) → Type 0
  AllPlainIn none = Unit
  AllPlainIn (some ps) = AllPlain ps

module _ {N : Type 0} where
  -- What `request_payments` makes of the payments of a record.
  abbrev sent : Option (List (PagoDetalle N)) → MetodoPago → N → List (PagoDetalle N)
  sent paid metodo reduced = elim (or_else paid []) [
    | p ∷ ps ↦ p ∷ ps
    | [] ↦ record { metodo = if is_mixto metodo then efectivo else metodo; monto = reduced } ∷ []
  ]

  sent-IsPaid :
      (given : Option (List (PagoDetalle N))) (metodo : MetodoPago) (final reduced : N)
      → AllPlainIn given
      → (AllPlain (sent (payments given metodo final) metodo reduced))
        × (IsPaid metodo final reduced given (sent (payments given metodo final) metodo reduced))
  unfolding payments
  sent-IsPaid (some (p ∷ ps)) metodo final reduced h = (h, as_given refl)
  sent-IsPaid (some []) metodo final reduced h = elim (Bool-cases (is_mixto metodo)) [
    | inl m ↦ rw m (rw m ((refl, tt), in_cash refl m))
    | inr m ↦ rw m ((m, tt), by_method refl m)
  ]
  sent-IsPaid none metodo final reduced h = elim (Bool-cases (is_mixto metodo)) [
    | inl m ↦ rw m (rw m ((refl, tt), in_cash refl m))
    | inr m ↦ rw m ((m, tt), by_method refl m)
  ]

module _ {N : Type 0} ⦃n : Number N⦄ where
  -- The request for a sale that was confirmed with this, by the cashier of this state.
  abbrev pub sent_payments :
      (ℕ → Text)
      → (Text → Text)
      → (ℕ → N → N)
      → ℕ
      → Text
      → Option Text
      → Pago N
      → CartState N
      → SaleState N
      → List (PagoDetalle N)
  sent_payments iso trim fixed now id sesion pago cart s =
      let sale = to_local_sale iso (sale_record now id sesion pago cart s) in
      (to_registrar_venta_request trim fixed sale).pagos

  -- If no payment that the dialog passes is `mixto`, the server gets none that is. It gets the
  -- payments passed, if there are any; else one payment of the final total by the method of the
  -- sale; and if that method is `mixto`, one payment in cash of the total with the discount.
  pub request-IsPaid :
      (iso : ℕ → Text) (trim : Text → Text) (fixed : ℕ → N → N) (now : ℕ) (id : Text)
      (sesion : Option Text) (pago : Pago N) (cart : CartState N) (s : SaleState N)
      → AllPlainIn pago.pagos
      → (AllPlain (sent_payments iso trim fixed now id sesion pago cart s))
        × (IsPaid pago.metodo_pago
            (final_total cart)
            cart.total_con_descuento
            pago.pagos
            (sent_payments iso trim fixed now id sesion pago cart s))
  unfolding sale_record to_local_sale to_registrar_venta_request request_payments payments
  request-IsPaid iso trim fixed now id sesion pago cart s h =
      sent-IsPaid pago.pagos pago.metodo_pago (final_total cart) cart.total_con_descuento h
