-- ===== src/Payment/Amounts.antt =====
-- The amounts of a payment: what the dialog lets through, and the record of the sale.
use mathlib.Core.Option.{some-injective}
use blend_posv.Prelude.{
  ℕ, ◌≡◌, refl, sym, ap, subst, ◌∙◌, true, false, Option, none, some, List, [], ◌∷◌, ◌++◌, arith,
  Bool-cases, if◌then◌else◌, inl, inr, or_else, All, All-append, if_intro,
}
use blend_posv.Text.{Text}
use blend_posv.Number.{Number, IsLawful, IsExact}
use blend_posv.Campo.{to_number}
use blend_posv.Cart.{
  MetodoPago, efectivo, debito, credito, qr, transferencia, mixto, PagoDetalle, CartState,
}
use blend_posv.Sale.{SaleRecord}
use blend_posv.Sale.Store.{SaleState, Confirmed, final_total, confirm_sale, sale_record, payments}
use blend_posv.Payment.Checked.{handle_confirm_payment-some}
use blend_posv.PosUi.{PosUiState}
use blend_posv.Payment.Fields.{Form, is_efectivo}
use blend_posv.Payment.{
  cash_due, non_cash_total, efectivo_recibido, can_confirm, push_positive, pagos_of, pago_of,
  handle_confirm_payment, vuelto_calc, efectivo_recibido_to_save,
}

module _ {N : Type 0} ⦃n : Number N⦄ where
  open n use {num, add, sub, lt, le, eq}

  abbrev pub sum_pagos : N → List (PagoDetalle N) → N
  sum_pagos acc [] = acc
  sum_pagos acc (p ∷ ps) = sum_pagos (add acc p.monto) ps

  -- What the payments of a record add up to.
  abbrev pub total_paid : Option (List (PagoDetalle N)) → N
  total_paid pagos = sum_pagos (num 0) (or_else pagos [])

  -- The payment in cash.
  abbrev pub cash_part : List (PagoDetalle N) → N
  cash_part [] = num 0
  cash_part (p ∷ ps) = if is_efectivo p.metodo then p.monto else cash_part ps

  -- The payments are the total; and change is given only of cash: it is not negative, and with the
  -- payment in cash it is what was received.
  abbrev pub Settled : Option (List (PagoDetalle N)) → Option N → Option N → N → Type 0
  Settled pagos received vuelto total =
      (total_paid pagos ≡ total)
      × ((v : N)
          → vuelto ≡ some v
          → (r : N) × (received ≡ some r)
            × (le (num 0) v ≡ true)
            × (add (cash_part (or_else pagos [])) v ≡ r))

  abbrev pub IsSettled : SaleRecord N → N → Type 0
  IsSettled sale total = Settled sale.pagos sale.efectivo_recibido sale.vuelto total

  sum_pagos-append :
      (acc : N) (ps qs : List (PagoDetalle N))
      → sum_pagos acc (ps ++ qs) ≡ sum_pagos (sum_pagos acc ps) qs
  sum_pagos-append acc [] qs = refl
  sum_pagos-append acc (p ∷ ps) qs = sum_pagos-append (add acc p.monto) ps qs

  payments-mixto : (ps : List (PagoDetalle N)) (t : N) → payments (some ps) mixto t ≡ some ps
  unfolding payments
  payments-mixto [] t = refl
  payments-mixto (p ∷ ps) t = refl

  NoCash : List (PagoDetalle N) → Type 0
  NoCash = All (λ (p : PagoDetalle N). is_efectivo p.metodo ≡ false)

  NoCash-push_positive :
      (m : MetodoPago) (x : N) (ps : List (PagoDetalle N))
      → is_efectivo m ≡ false
      → NoCash ps
      → NoCash (push_positive m x ps)
  unfolding NoCash
  NoCash-push_positive m x ps e h =
      if_intro NoCash (lt (num 0) x) (ps ++ (record { metodo = m; monto = x } ∷ [])) ps
        (All-append (λ (p : PagoDetalle N). is_efectivo p.metodo ≡ false) ps _ h (e, tt)) h

  cash_part-append :
      (c : N) (ps : List (PagoDetalle N))
      → NoCash ps
      → cash_part (ps ++ (record { metodo = efectivo; monto = c } ∷ [])) ≡ c
  unfolding NoCash
  cash_part-append c [] h = refl
  cash_part-append c (p ∷ ps) h = rw (h.0) (cash_part-append c ps h.1)

  module _ (laws : IsLawful N) (exact : IsExact N) (parse_float : Text → Option N)
      (trim : Text → Text) where
    zero_of : (x : N) → lt (num 0) x ≡ false → le (num 0) x ≡ true → x ≡ num 0
    zero_of x h k = exact.le_antisymm x (num 0) (laws.le_of_not_lt (num 0) x h) k

    sum_pagos-push_positive :
        (metodo : MetodoPago) (x : N) (ps : List (PagoDetalle N)) (a : N)
        → le (num 0) x ≡ true
        → sum_pagos (num 0) ps ≡ a
        → sum_pagos (num 0) (push_positive metodo x ps) ≡ add a x
    sum_pagos-push_positive metodo x ps a h e = elim (Bool-cases (lt (num 0) x)) [
      | inl pos ↦ rw (pos, sum_pagos-append, e) refl
      | inr zero ↦ rw zero (e ∙ sym (ap (λ (y : N). add a y) (zero_of x zero h) ∙ exact.add_zero a))
    ]

    -- The four parts that are typed are not negative.
    pub record NonNegative (f : Form N) : Type 0 where
      pub debito_ok : le (num 0) (to_number parse_float f.mixto_debito) ≡ true
      pub credito_ok : le (num 0) (to_number parse_float f.mixto_credito) ≡ true
      pub qr_ok : le (num 0) (to_number parse_float f.mixto_qr) ≡ true
      pub transferencia_ok : le (num 0) (to_number parse_float f.mixto_transferencia) ≡ true

    -- What the dialog has checked of a mixed payment.
    can_confirm-mixto :
        (f : Form N) (cart : CartState N)
        → f.metodo_pago ≡ mixto
        → can_confirm parse_float trim f cart ≡ true
        → let c = cash_due parse_float f cart in
          (lt c (num 0) ≡ false)
          × (eq c (num 0) ≡ true → eq (non_cash_total parse_float f) (final_total cart) ≡ true)
          × (eq c (num 0) ≡ false → le c (efectivo_recibido parse_float f cart) ≡ true)
    unfolding can_confirm
    can_confirm-mixto f cart m h = ground arith

    can_confirm-efectivo :
        (f : Form N) (cart : CartState N)
        → f.metodo_pago ≡ efectivo
        → can_confirm parse_float trim f cart ≡ true
        → le (final_total cart) (efectivo_recibido parse_float f cart) ≡ true
    unfolding can_confirm
    can_confirm-efectivo f cart m h = ground arith

    -- The four parts, in the order of the form.
    abbrev parts : N → N → N → N → List (PagoDetalle N)
    parts d c q t =
        push_positive transferencia t
          (push_positive qr q (push_positive credito c (push_positive debito d [])))

    abbrev parts_sum : N → N → N → N → N
    parts_sum d c q t = add (add (add d c) q) t

    parts-whole :
        (d c q t : N)
        → le (num 0) d ≡ true
        → le (num 0) c ≡ true
        → le (num 0) q ≡ true
        → le (num 0) t ≡ true
        → sum_pagos (num 0) (parts d c q t) ≡ parts_sum d c q t
    parts-whole d c q t hd hc hq ht = sum_pagos-push_positive transferencia t _ _ ht (
        sum_pagos-push_positive qr q _ _ hq (
          sum_pagos-push_positive credito c _ _ hc
            (sum_pagos-push_positive debito d [] (num 0) hd refl ∙ exact.zero_add d)))

    parts-NoCash : (d c q t : N) → NoCash (parts d c q t)
    unfolding NoCash
    parts-NoCash d c q t = NoCash-push_positive transferencia t _ refl (
        NoCash-push_positive qr q _ refl
          (NoCash-push_positive credito c _ refl (NoCash-push_positive debito d [] refl tt)))

    -- A mixed payment of which `due` is left for cash.
    mixed-Settled :
        (ps : List (PagoDetalle N)) (sum total r : N)
        → NoCash ps
        → sum_pagos (num 0) ps ≡ sum
        → let due = sub total sum in
          lt due (num 0) ≡ false
          → (eq due (num 0) ≡ true → eq sum total ≡ true)
          → (eq due (num 0) ≡ false → le due r ≡ true)
          → Settled
              (some (push_positive efectivo due ps))
              (if lt (num 0) due then some r else none)
              (if lt (num 0) due then some (sub r due) else none)
              total
    mixed-Settled ps sum total r plain whole ge zero more =
        let due = sub total sum in
        elim (Bool-cases (lt (num 0) due)) [
          | inr nothing ↦
              let is_zero : due ≡ num 0 = zero_of due nothing (laws.le_of_not_lt due (num 0) ge) in
              rw nothing (
                whole ∙ laws.eq_sound sum total (zero (rw is_zero (laws.eq_refl (num 0)))),
                λ v e. cc,
              )
          | inl pos ↦ rw pos (
            sum_pagos-append (num 0) ps _
                ∙ ap (λ (a : N). add a due) whole
                ∙ exact.add_sub sum total (exact.le_of_sub_pos sum total pos),
            λ v e.
                let same : sub r due ≡ v = some-injective _ _ e in
                let enough : le due r ≡ true = elim (Bool-cases (eq due (num 0))) [
                  | inr more' ↦ more more'
                  | inl is ↦ cc (pos, laws.eq_sound due (num 0) is, exact.lt_irrefl (num 0))
                ] in
                (
                  r,
                  refl,
                  rw (← same) (exact.sub_nonneg due r enough),
                  rw (cash_part-append due ps plain, ← same) (exact.add_sub due r enough),
                ),
          )
        ]

    one-Settled :
        (m : MetodoPago) (t : N)
        → Settled (some (record { metodo = m; monto = t } ∷ [])) none none t
    one-Settled m t = (exact.zero_add t, λ v e. cc)

    cash-Settled :
        (t r : N)
        → le t r ≡ true
        → Settled (some (record { metodo = efectivo; monto = t } ∷ [])) (some r) (some (sub r t)) t
    cash-Settled t r h = (
      exact.zero_add t,
      λ v e.
          let same : sub r t ≡ v = some-injective _ _ e in
          (r, refl, rw (← same) (exact.sub_nonneg t r h), rw (← same) (exact.add_sub t r h)),
    )

    -- A payment that the dialog confirms.
    pago-Settled :
        (f : Form N) (cart : CartState N) (m : MetodoPago)
        → f.metodo_pago ≡ m
        → can_confirm parse_float trim f cart ≡ true
        → NonNegative f
        → Settled
            (payments (pagos_of parse_float f cart) f.metodo_pago (final_total cart))
            (efectivo_recibido_to_save parse_float f cart)
            (vuelto_calc parse_float f cart)
            (final_total cart)
    unfolding pagos_of payments
    pago-Settled f cart efectivo m h pos =
        rw m (cash-Settled (final_total cart) _ (rw m at (can_confirm-efectivo f cart m h)))
    pago-Settled f cart mixto m h pos =
        let d = to_number parse_float f.mixto_debito in
        let c = to_number parse_float f.mixto_credito in
        let q = to_number parse_float f.mixto_qr in
        let t = to_number parse_float f.mixto_transferencia in
        let (ge, zero, more) = can_confirm-mixto f cart m h in
        rw (m, payments-mixto)
          (mixed-Settled (parts d c q t) (parts_sum d c q t) (final_total cart) _
            (parts-NoCash d c q t)
            (parts-whole d c q t pos.debito_ok pos.credito_ok pos.qr_ok pos.transferencia_ok)
            (rw m at ge) (rw m at zero) (rw m at more))
    pago-Settled f cart m' m h pos = rw m (one-Settled m' (final_total cart))

    -- A sale that the dialog confirms is paid in full, if no part that is typed for a mixed payment
    -- is negative and sums are not rounded: its payments add up to the final total of the cart; and
    -- a change, if there is one, is not negative and is what was received less the payment in cash.
    pub handle_confirm_payment-IsSettled :
        (now : ℕ) (id : Text) (sesion : Option Text) (f : Form N) (cart : CartState N)
        (s : SaleState N) (ui ui' : PosUiState N) (done : Confirmed N)
        → NonNegative f
        → handle_confirm_payment parse_float trim now id sesion f cart s ui ≡ some (done, ui')
        → IsSettled done.sale (final_total cart)
    unfolding confirm_sale sale_record pago_of
    handle_confirm_payment-IsSettled now id sesion f cart s ui ui' done pos e =
        let (checked, same) =
          handle_confirm_payment-some parse_float trim now id sesion f cart s ui ui' done e in
        subst (λ (d : Confirmed N). IsSettled d.sale (final_total cart)) same
          (pago-Settled f cart f.metodo_pago refl checked pos)
