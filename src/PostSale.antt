-- ===== src/PostSale.antt =====
-- frontend/src/components/pos/PostSaleModal.tsx: the dialog after a sale. For an invoice it asks the
-- server for the document until it is issued or refused, at most `max_polls` times; it opens the
-- document and sends it by e-mail. What the server answers is an argument, `none` where the call
-- throws. The waits between the polls, the window that prints and the notifications are left out.
pub mod Polls
mod Tests
use blend_posv.Prelude.{
  ℕ, zero, suc, Bool, true, false, not, ◌&&◌, ◌||◌, Option, none, some, List, [], ◌∷◌, any,
  if◌then◌else◌, or_else, ◌==◌,
}
use blend_posv.Text.{Text, truthy}
use blend_posv.Text.Parts.{trim, is_space, split_on}

pub data EstadoComprobante : Type 0 where
  pendiente emitido error rechazado : EstadoComprobante

pub record Comprobante : Type 0 where
  pub id : Text
  pub estado : EstadoComprobante

pub record PostSale : Type 0 where
  pub comprobante : Option Comprobante
  pub loading_comprobante : Bool
  pub email_cliente : Text
  pub sending_email : Bool

abbrev pub max_polls : ℕ
max_polls = 10

-- `comp.estado === 'emitido' || comp.estado === 'error' || comp.estado === 'rechazado'`
abbrev pub is_final : EstadoComprobante → Bool
is_final pendiente = false
is_final emitido = true
is_final error = true
is_final rechazado = true

abbrev pub set_comprobante : Option Comprobante → PostSale → PostSale
set_comprobante none s = s
set_comprobante (some c) s = record s { comprobante = some c }

-- What ends the loop: an answer that is final, while the effect is not cancelled.
abbrev pub is_done : Bool → Option Comprobante → Bool
is_done gone none = false
is_done gone (some c) = not gone && is_final c.estado

-- The loop, for so many attempts, with the number of requests that it makes. `gone` and
-- `gone_after` say whether the effect is cancelled before an attempt and when its answer is there.
unfoldable pub poll_attempts :
    ℕ → (ℕ → Bool) → (ℕ → Bool) → (ℕ → Option Comprobante) → PostSale → PostSale × ℕ
poll_attempts zero gone gone_after answers s =
    (if gone 0 then s else record s { loading_comprobante = false }, 0)
poll_attempts (suc left) gone gone_after answers s =
    let s' = set_comprobante (answers 0) s in
    let (last, asked) =
      poll_attempts left (λ i. gone (suc i)) (λ i. gone_after (suc i)) (λ i. answers (suc i)) s' in
    if gone 0
    then (s, 0)
    else if is_done (gone_after 0) (answers 0)
    then (record s' { loading_comprobante = false }, 1)
    else (last, suc asked)

unfoldable pub poll : (ℕ → Bool) → (ℕ → Bool) → (ℕ → Option Comprobante) → PostSale → PostSale × ℕ
unfolding poll_attempts
poll gone gone_after answers s =
    poll_attempts max_polls gone gone_after answers (record s { loading_comprobante = true })

-- The effect when there is no record, it is no invoice, or the dialog is closed.
unfoldable pub no_comprobante : PostSale → PostSale
no_comprobante s = record s { comprobante = none; loading_comprobante = false }

-- The effect that fills the field of the e-mail.
unfoldable pub reset_email : Bool → Option Text → PostSale → PostSale
reset_email is_open cliente_email s = record s {
  email_cliente = if is_open then or_else cliente_email [] else [];
}

unfoldable pub handle_refresh_comprobante : Bool → Option Comprobante → PostSale → PostSale
handle_refresh_comprobante is_fiscal answer s =
    if not is_fiscal then s else record (set_comprobante answer s) { loading_comprobante = false }

-- The document that is opened.
unfoldable pub handle_open_factura : PostSale → Option Text
handle_open_factura s = elim s.comprobante [ none ↦ none | some c ↦ some c.id ]

abbrev pub dot_before_end : Text → Bool
dot_before_end [] = false
dot_before_end (c ∷ []) = false
dot_before_end (c ∷ d ∷ s) = c == 46 || dot_before_end (d ∷ s)

-- `/^[^\s@]+@[^\s@]+\.[^\s@]+$/`
abbrev pub is_email_parts : List Text → Bool
is_email_parts (user ∷ (c ∷ domain) ∷ []) = truthy user && dot_before_end domain
is_email_parts _ = false

unfoldable pub is_email : Text → Bool
is_email s = not (any is_space s) && is_email_parts (split_on 64 s)

-- The request that is made, if any, and the state when it is answered; `sent` says whether the
-- server took it.
unfoldable pub handle_enviar_email : Bool → PostSale → PostSale × Option (Text × Text)
unfolding is_email trim
handle_enviar_email sent s = elim s.comprobante [
  | none ↦ (s, none)
  | some c ↦
      let email = trim s.email_cliente in
      if not (truthy email) || not (is_email email) then (s, none) else (
        record s { email_cliente = if sent then [] else s.email_cliente; sending_email = false },
        some (c.id, email),
      )
]
