-- ===== src/Catalog/Stock.antt =====
-- The local stock after a sale.
use blend_posv.Prelude.{
  ◌≡◌, refl, sym, ap, ◌∙◌, inl, inr, false, Option, none, some, List, [], ◌∷◌, if◌then◌else◌,
  Bool-cases, Option-cases,
}
use blend_posv.Text.{Text, text_eq, text_eq_iff, text_eq_refl}
use blend_posv.Number.{Number}
use blend_posv.Table.Rows.{get-put_self, get-put_other}
use blend_posv.Catalog.{
  LocalProduct, CatalogStore, IsCatalogStore, Catalog, deduct, deduct_all, deduct_local_stock,
}

module _ {N : Type 0} ⦃n : Number N⦄ where
  -- The stock after taking off, from the left, what the list sells of a product.
  abbrev pub remaining : Text → List (Text × N) → N → N
  remaining id [] stock = stock
  remaining id ((j, cantidad) ∷ rest) stock =
      remaining id rest (if text_eq j id then n.sub stock cantidad else stock)

  abbrev pub sold_from : Text → List (Text × N) → Option (LocalProduct N) → Option (LocalProduct N)
  sold_from id items none = none
  sold_from id items (some p) = some (record p { stock = remaining id items p.stock })

  -- Selling nothing of a product leaves it.
  sold_from-other :
      (j id : Text) (cantidad : N) (o : Option (LocalProduct N))
      → text_eq j id ≡ false
      → sold_from id ((j, cantidad) ∷ []) o ≡ o
  sold_from-other j id cantidad none e = refl
  sold_from-other j id cantidad (some p) e = rw e refl

  sold_from-cons :
      (j id : Text) (cantidad : N) (rest : List (Text × N)) (o : Option (LocalProduct N))
      → sold_from id rest (sold_from id ((j, cantidad) ∷ []) o)
        ≡ sold_from id ((j, cantidad) ∷ rest) o
  sold_from-cons j id cantidad rest none = refl
  sold_from-cons j id cantidad rest (some p) = refl

  module _ (st : CatalogStore N) (laws : IsCatalogStore st) where
    stored_key :
        (rows : st.products.Rows) (j : Text) (p : LocalProduct N) (stock : N)
        → st.products.get rows j ≡ some p
        → st.products.key (record p { stock = stock }) ≡ j
    stored_key rows j p stock found =
        laws.product_key _ ∙ sym (laws.product_key p) ∙ laws.products_table.get-key rows j p found

    -- One sale takes its quantity off its product, and leaves the others.
    get-deduct :
        (j : Text) (cantidad : N) (rows : st.products.Rows) (id : Text)
        → st.products.get (deduct st j cantidad rows) id
          ≡ sold_from id ((j, cantidad) ∷ []) (st.products.get rows id)
    get-deduct j cantidad rows id = elim (Bool-cases (text_eq j id)) [
      | inr isnt ↦
          rw (sold_from-other j id cantidad (st.products.get rows id) isnt)
            (elim (Option-cases (st.products.get rows j)) [
              | inl gone ↦ rw (gone, deduct) refl
              | inr (p, found) ↦
                  rw (found, deduct)
                    (get-put_other st.products laws.products_table rows _ id
                      (λ e. cc ((text_eq_iff j id).1 (sym (stored_key rows j p _ found) ∙ e))))
            ])
      | inl is ↦ same ((text_eq_iff j id).0 is)
    ]
      where
        same :
            j ≡ id
            → st.products.get (deduct st j cantidad rows) id
              ≡ sold_from id ((j, cantidad) ∷ []) (st.products.get rows id)
        same e = rw (← e) (elim (Option-cases (st.products.get rows j)) [
          | inl gone ↦ rw (gone, deduct) gone
          | inr (p, found) ↦
              rw (found, deduct, text_eq_refl j)
                (get-put_self st.products laws.products_table rows _ j
                  (stored_key rows j p _ found))
        ])

    -- After a sale each product that is in the catalogue has its old stock less, one after the
    -- other, the quantities that the list has for it; nothing else of it changes, and no product
    -- comes or goes.
    pub deduct_local_stock_lem :
        (items : List (Text × N)) (c : Catalog st) (id : Text)
        → st.products.get (deduct_local_stock st items c).products id
          ≡ sold_from id items (st.products.get c.products id)
    unfolding deduct_local_stock deduct_all
    deduct_local_stock_lem items c id = get-deduct_all items c.products
      where
        sold_from-nil : (o : Option (LocalProduct N)) → o ≡ sold_from id [] o
        sold_from-nil none = refl
        sold_from-nil (some p) = refl

        get-deduct_all :
            (items : List (Text × N)) (rows : st.products.Rows)
            → st.products.get (deduct_all st items rows) id
              ≡ sold_from id items (st.products.get rows id)
        get-deduct_all [] rows = sold_from-nil (st.products.get rows id)
        get-deduct_all ((j, cantidad) ∷ rest) rows =
            get-deduct_all rest (deduct st j cantidad rows)
            ∙ ap (sold_from id rest) (get-deduct j cantidad rows id)
            ∙ sold_from-cons j id cantidad rest (st.products.get rows id)
