-- ===== src/Promotions/Bounds.antt =====
-- Which discounts the promotions give, and to which products.
use blend_posv.Prelude.{
  ◌≡◌, refl, subst, ◌⊎◌, inl, inr, true, false, none, some, List, [], ◌∷◌, arith, all, any, In,
  or_else, Bool-cases, if_intro, if_split, option_intro, map,
}
use blend_posv.Text.{Text, member, text_eq, text_eq_iff, text_eq_refl}
use blend_posv.Dict.{lookup, insert, lookup-insert}
use blend_posv.Number.{Number, IsLawful}
use blend_posv.Promotions.{
  ProductoPromo, Promocion, CartView, Discounts, clamp_pct, keep_best, single_product,
  combo_products, combo, by_products, apply_promo, apply_all, compute_promo_descuentos,
  no_discounts, required, quantity, min_list,
}

module _ {N : Type 0} ⦃n : Number N⦄ where
  -- The promotion is active, all its products are in the cart, and `id` is one of them.
  pub record IsEligible (promo : Promocion N) (id : Text) (v : CartView N) : Type 0 where
    pub active : promo.activa ≡ true
    pub present : all (λ (q : ProductoPromo N). member q.id v.product_ids) promo.productos ≡ true
    pub listed : any (λ (q : ProductoPromo N). text_eq q.id id) promo.productos ≡ true

  -- What every `keep_best` step of a promotion of the list keeps, the whole loop keeps.
  module _ (v : CartView N) (P : Discounts N → Type 0) where
    abbrev pub Keeps : Promocion N → Type 0
    Keeps promo =
        (id : Text) (pct : N) (d : Discounts N)
        → IsEligible promo id v
        → P d
        → P (keep_best id promo.nombre (clamp_pct pct) d)

    single_product-Keeps :
        (promo : Promocion N) (p : ProductoPromo N) (d : Discounts N)
        → promo.activa ≡ true
        → promo.productos ≡ p ∷ []
        → Keeps promo
        → P d
        → P (single_product promo p v d)
    unfolding single_product
    single_product-Keeps promo p d active e keep h = elim (Bool-cases (member p.id v.product_ids)) [
      | inl here ↦ rw here (
          if_intro P _ d _ h (
            keep p.id _ d
              (record {
                active = active;
                present = rw (e, here);
                listed = rw (e, text_eq_refl p.id);
              })
              h))
      | inr gone ↦ rw gone h
    ]

    -- The products still to come are among those of the promotion.
    combo_products-Keeps :
        (promo : Promocion N) (sets : N) (ps : List (ProductoPromo N)) (d : Discounts N)
        → ((p : ProductoPromo N) → In p ps → IsEligible promo p.id v)
        → Keeps promo
        → P d
        → P (combo_products promo v sets ps d)
    unfolding combo_products
    combo_products-Keeps promo sets [] d ok keep h = h
    combo_products-Keeps promo sets (p ∷ ps) d ok keep h =
        combo_products-Keeps promo sets ps _ (λ q at. ok q (inr at)) keep
          (if_intro P _ d _ h (keep p.id _ d (ok p (inl refl)) h))

    In-listed :
        (p : ProductoPromo N) (ps : List (ProductoPromo N))
        → In p ps
        → any (λ (q : ProductoPromo N). text_eq q.id p.id) ps ≡ true
    In-listed p [] at = absurd at
    In-listed p (q ∷ qs) (inl e) = rw (e, text_eq_refl q.id)
    In-listed p (q ∷ qs) (inr at) = ground (arith, In-listed p qs at)

    combo-Keeps :
        (promo : Promocion N) (d : Discounts N)
        → promo.activa ≡ true
        → Keeps promo
        → P d
        → P (combo promo v d)
    unfolding combo
    combo-Keeps promo d active keep h =
        elim (Bool-cases
          (all (λ (q : ProductoPromo N). member q.id v.product_ids) promo.productos)) [
            | inr missing ↦ rw missing h
            | inl present ↦ rw present (
                option_intro P
                  (min_list (
                    map (λ (p : ProductoPromo N). n.div (quantity v p.id) (required promo))
                      promo.productos))
                  d _ h
                  (λ m. if_intro P (n.eq (n.floor m) (n.num 0)) d _ h (
                    combo_products-Keeps promo (n.floor m) promo.productos d
                      (λ p at. record {
                        active = active;
                        present = present;
                        listed = In-listed p promo.productos at;
                      })
                      keep h)))
          ]

    by_products-Keeps :
        (promo : Promocion N) (ps : List (ProductoPromo N)) (d : Discounts N)
        → promo.activa ≡ true
        → promo.productos ≡ ps
        → Keeps promo
        → P d
        → P (by_products promo ps v d)
    by_products-Keeps promo [] d active e keep h = combo-Keeps promo d active keep h
    by_products-Keeps promo (p ∷ []) d active e keep h =
        single_product-Keeps promo p d active e keep h
    by_products-Keeps promo (p ∷ q ∷ ps) d active e keep h = combo-Keeps promo d active keep h

    apply_promo-Keeps :
        (promo : Promocion N) (d : Discounts N) → Keeps promo → P d → P (apply_promo promo v d)
    unfolding apply_promo
    apply_promo-Keeps promo d keep h =
        if_split P promo.activa (by_products promo promo.productos v d) d
          (λ active. by_products-Keeps promo promo.productos d active refl keep h) (λ off. h)

    pub apply_all-Keeps :
        (promos : List (Promocion N)) (d : Discounts N)
        → ((promo : Promocion N) → In promo promos → Keeps promo)
        → P d
        → P (apply_all promos v d)
    unfolding apply_all
    apply_all-Keeps [] d keep h = h
    apply_all-Keeps (promo ∷ rest) d keep h =
        apply_all-Keeps rest _ (λ q at. keep q (inr at))
          (apply_promo-Keeps promo d (keep promo (inl refl)) h)

  module _ (laws : IsLawful N) (promos : List (Promocion N)) (v : CartView N) where
    -- A product has no discount, or one in (0, 100] that an eligible promotion of the list gave, under its name.
    abbrev pub IsJustified : Discounts N → Text → Type 0
    IsJustified d id =
        ((lookup id d.descuentos ≡ none) × (lookup id d.promo_nombres ≡ none))
        ⊎ ((pct : N) × (promo : Promocion N) × In promo promos
            × IsEligible promo id v
            × (lookup id d.descuentos ≡ some pct)
            × (lookup id d.promo_nombres ≡ some promo.nombre)
            × (n.lt (n.num 0) pct ≡ true)
            × (n.le pct (n.num 100) ≡ true))

    abbrev AllJustified : Discounts N → Type 0
    AllJustified d = (id : Text) → IsJustified d id

    nonneg :
        (d : Discounts N) (id : Text)
        → IsJustified d id
        → n.le (n.num 0) (or_else (lookup id d.descuentos) (n.num 0)) ≡ true
    nonneg d id (inl h) = rw h.0 (laws.le_refl (n.num 0))
    nonneg d id (inr h) = rw (h.4) (laws.le_of_lt _ _ h.6)

    keep_best-AllJustified : (promo : Promocion N) → In promo promos → Keeps v AllJustified promo
    unfolding keep_best clamp_pct
    keep_best-AllJustified promo at id pct d ok h j =
        if_split (λ t. IsJustified t j)
          (n.lt (or_else (lookup id d.descuentos) (n.num 0)) (clamp_pct pct)) _ d
          (λ beats.
            stored (Bool-cases (text_eq id j))
              (laws.lt_of_le_of_lt _ _ _ (nonneg d id (h id)) beats))
          (λ loses. h j)
      where
        stored :
            (text_eq id j ≡ true) ⊎ (text_eq id j ≡ false)
            → n.lt (n.num 0) (clamp_pct pct) ≡ true
            → IsJustified
                (record {
                  descuentos = insert id (clamp_pct pct) d.descuentos;
                  promo_nombres = insert id promo.nombre d.promo_nombres;
                })
                j
        stored (inl same) positive = inr (
          clamp_pct pct,
          promo,
          at,
          subst (λ (k : Text). IsEligible promo k v) ((text_eq_iff id j).0 same) ok,
          rw (lookup-insert, same),
          rw (lookup-insert, same),
          positive,
          laws.min_le _ _,
        )
        stored (inr other) positive = simp (lookup-insert, other) (h j)

    -- Whatever the promotions and the cart, a product ends with no discount and no promotion name,
    -- or with a percentage above 0 and at most 100 and the name of a promotion of the list that is
    -- active, lists the product and has all its products in the cart.
    pub compute_promo_descuentos_lem :
        (id : Text) → IsJustified (compute_promo_descuentos promos v) id
    unfolding compute_promo_descuentos
    compute_promo_descuentos_lem =
        apply_all-Keeps v AllJustified promos no_discounts keep_best-AllJustified
          (λ id. inl (refl, refl))
