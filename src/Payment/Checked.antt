-- ===== src/Payment/Checked.antt =====
-- What holds where the payment dialog confirms a sale.
use mathlib.Core.Option.{some-injective}
use blend_posv.Prelude.{ℕ, ◌≡◌, ap, true, not, ◌||◌, Option, some, inl, inr, arith, Bool-cases}
use blend_posv.Text.{Text}
use blend_posv.Number.{Number}
use blend_posv.Cart.{CartState}
use blend_posv.Sale.Store.{SaleState, Confirmed, confirm_sale}
use blend_posv.PosUi.{PosUiState}
use blend_posv.Payment.Fields.{Form}
use blend_posv.Payment.{can_confirm, pago_of, handle_confirm_payment}

module _ {N : Type 0} ⦃n : Number N⦄ (parse_float : Text → Option N) (trim : Text → Text) where
  -- The dialog confirms only what it has checked, and hands on what `confirmSale` returns.
  pub handle_confirm_payment-some :
      (now : ℕ) (id : Text) (sesion : Option Text) (f : Form N) (cart : CartState N)
      (s : SaleState N) (ui ui' : PosUiState N) (done : Confirmed N)
      → handle_confirm_payment parse_float trim now id sesion f cart s ui ≡ some (done, ui')
      → (can_confirm parse_float trim f cart ≡ true)
        × (confirm_sale now id sesion (pago_of parse_float trim f cart) cart s ≡ done)
  unfolding handle_confirm_payment
  handle_confirm_payment-some now id sesion f cart s ui ui' done e =
      elim (Bool-cases (not (can_confirm parse_float trim f cart) || f.is_submitting)) [
        | inl refused ↦ cc (rw refused at e)
        | inr passed ↦ (
          ground arith,
          ap (λ (r : Confirmed N × PosUiState N). r.0) (some-injective _ _ (rw passed at e)),
        )
      ]
