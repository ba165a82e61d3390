-- ===== src/PostSale/Tests.antt =====
-- An invoice that the third answer issues, and what is sent by e-mail.
use blend_posv.Prelude.{ℕ, ◌≡◌, refl, zero, suc, Bool, true, false, Option, none, some}
use blend_posv.Text.{codes}
use blend_posv.Text.Parts.{trim}
use blend_posv.PostSale.{
  Comprobante, pendiente, emitido, PostSale, poll, is_email, handle_enviar_email,
}
use blend_posv.PostSale.Polls.{IsPolled, poll-IsPolled}

abbrev never : ℕ → Bool
never i = false

abbrev issued : Comprobante
issued = record { id = codes "f1"; estado = emitido }

-- No document yet, one that is pending, and then the invoice.
abbrev answers : ℕ → Option Comprobante
answers zero = none
answers (suc zero) = some (record { id = codes "f1"; estado = pendiente })
answers (suc (suc i)) = some issued

abbrev opened : PostSale
opened = record {
  comprobante = none;
  loading_comprobante = false;
  email_cliente = codes " eva@blend.com ";
  sending_email = false;
}

poll-IsPolled_example : IsPolled answers (poll never never answers opened)
poll-IsPolled_example = poll-IsPolled never never answers opened (λ i. refl) (λ i. refl)

three_requests : (poll never never answers opened).1 ≡ 3
unfolding poll
three_requests = refl

eva : is_email (codes "eva@blend.com") ≡ true
unfolding is_email
eva = refl

no_dot : is_email (codes "eva@blend") ≡ false
unfolding is_email
no_dot = refl

two_ats : is_email (codes "eva@blend@x.com") ≡ false
unfolding is_email
two_ats = refl

mailed :
    (handle_enviar_email true (record opened { comprobante = some issued })).1
    ≡ some (codes "f1", codes "eva@blend.com")
unfolding handle_enviar_email trim
mailed = refl
