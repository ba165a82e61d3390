-- ===== src/Sale/Request/Fiscal.antt =====
-- The fiscal part of a request.
use blend_posv.Prelude.{
  ℕ, ◌≡◌, refl, true, false, not, ◌&&◌, Option, none, some, [], ◌∷◌, arith, or_else, is_some,
  if_split,
}
use blend_posv.Text.{Text, has_text}
use blend_posv.Number.{Number}
use blend_posv.Sale.{TipoComprobante, ticket_interno, LocalSale}
use blend_posv.Sale.Request.{
  is_interno, documento, has_number, to_registrar_venta_request, is_factura_a,
}

-- The document has a kind exactly when it has a number, the number is not empty, and every invoice
-- has one.
pub record IsComplete (tipo : TipoComprobante) (d : Option ℕ × Option Text) : Type 0 where
  pub both : is_some d.0 ≡ is_some d.1
  pub filled : is_some d.1 ≡ true → has_text d.1 ≡ true
  pub invoiced : is_interno tipo ≡ false → is_some d.0 ≡ true

documento-IsComplete :
    (tipo : TipoComprobante) (k : Option ℕ) (nro cuit : Option Text)
    → IsComplete tipo (documento tipo k nro cuit)
unfolding documento
documento-IsComplete tipo k nro cuit =
    if_split (IsComplete tipo) (has_number k && has_text nro) _ _ (λ e. given k nro e)
      (λ _.
        if_split (IsComplete tipo) (is_factura_a tipo && has_text cuit) _ _ (λ e. by_cuit cuit e)
          (λ _.
            if_split (IsComplete tipo) (not (is_interno tipo)) _ _
              (λ e. record { both = refl; filled = λ _. refl; invoiced = λ _. refl })
              (λ e. record { both = refl; filled = λ x. x; invoiced = λ x. ground arith })))
  where
    given :
        (k : Option ℕ) (nro : Option Text)
        → has_number k && has_text nro ≡ true
        → IsComplete tipo (k, nro)
    given none nro e = absurd (ground arith)
    given (some k) none e = absurd (ground arith)
    given (some k) (some []) e = absurd (ground arith)
    given (some k) (some (c ∷ t)) e = record {
      both = refl;
      filled = λ _. refl;
      invoiced = λ _. refl;
    }

    by_cuit :
        (cuit : Option Text)
        → is_factura_a tipo && has_text cuit ≡ true
        → IsComplete tipo (some 80, cuit)
    by_cuit none e = absurd (ground arith)
    by_cuit (some []) e = absurd (ground arith)
    by_cuit (some (c ∷ t)) e = record { both = refl; filled = λ _. refl; invoiced = λ _. refl }

module _ {N : Type 0} ⦃n : Number N⦄ where
  -- In the request of a sale, the buyer's document has a kind exactly when it has a number, its
  -- number is not empty, and every sale that is not an internal ticket has one.
  pub request-IsComplete :
      (trim : Text → Text) (fixed : ℕ → N → N) (sale : LocalSale N)
      → let r = to_registrar_venta_request trim fixed sale in
        IsComplete r.tipo_comprobante (r.tipo_doc_receptor, r.nro_doc_receptor)
  unfolding to_registrar_venta_request
  request-IsComplete trim fixed sale =
      documento-IsComplete (or_else sale.tipo_comprobante ticket_interno) sale.tipo_doc_receptor
        sale.nro_doc_receptor sale.cuit_receptor
