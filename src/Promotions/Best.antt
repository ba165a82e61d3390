-- ===== src/Promotions/Best.antt =====
-- What one promotion offers for a product, and what the product ends with.
use blend_posv.Prelude.{
  ◌≡◌, ◌⊎◌, inl, inr, true, false, List, [], ◌∷◌, In, or_else, Bool-cases, if_split, subst, some,
  all, map, if_intro, ap, refl, ◌∙◌,
}
use mathlib.Core.Option.{some-injective}
use blend_posv.Text.{Text, member, text_eq, text_eq_iff, text_eq_refl}
use blend_posv.Dict.{lookup, insert, lookup-insert}
use blend_posv.Number.{Number, IsLawful}
use blend_posv.Promotions.{
  ProductoPromo, Promocion, CartView, Discounts, clamp_pct, keep_best, single_product, single_pct,
  apply_promo, combo_pct, combo_products, combo, by_products, min_list, apply_all,
  compute_promo_descuentos, no_discounts, required, quantity,
}
use blend_posv.Promotions.Bounds.{apply_all-Keeps}

module _ {N : Type 0} ⦃n : Number N⦄ where
  abbrev pub pct_of : Text → Discounts N → N
  pct_of id d = or_else (lookup id d.descuentos) (n.num 0)

  -- How often the quantity of a product covers what the promotion asks of it.
  abbrev pub ratio : Promocion N → CartView N → ProductoPromo N → N
  ratio promo v p = n.div (quantity v p.id) (required promo)

  -- The promotion is active and lists the product, all its products are in the cart, the product
  -- in some quantity, and `sets` whole sets of the promotion are there, which is not zero.
  pub record IsComplete (promo : Promocion N) (p : ProductoPromo N) (sets : N) (v : CartView N)
      : Type 0 where
    pub active : promo.activa ≡ true
    pub listed : In p promo.productos
    pub present : all (λ (q : ProductoPromo N). member q.id v.product_ids) promo.productos ≡ true
    pub some_units : n.eq (quantity v p.id) (n.num 0) ≡ false
    pub least : N
    pub is_least : min_list (map (ratio promo v) promo.productos) ≡ some least
    pub whole : n.floor least ≡ sets
    pub some_sets : n.eq sets (n.num 0) ≡ false

  -- The percentage of a promotion of one product, or of more.
  abbrev pub pct_by : Promocion N → List (ProductoPromo N) → ProductoPromo N → CartView N → N → N
  pct_by promo (q ∷ []) p v sets = single_pct promo p v sets
  pct_by promo _ p v sets = combo_pct promo p v sets

  abbrev pub offered : Promocion N → ProductoPromo N → CartView N → N → N
  offered promo p v sets = clamp_pct (pct_by promo promo.productos p v sets)

  module _ (laws : IsLawful N) where
    pct_of-keep_best :
        (j nombre : Text) (pct : N) (d : Discounts N)
        → n.le pct (pct_of j (keep_best j nombre pct d)) ≡ true
    unfolding keep_best
    pct_of-keep_best j nombre pct d =
        if_split (λ t. n.le pct (pct_of j t) ≡ true) (n.lt (pct_of j d) pct) _ d
          (λ beats. rw (lookup-insert, text_eq_refl j) (laws.le_refl pct))
          (λ loses. laws.le_of_not_lt _ _ loses)

    keep_best-grows :
        (id j nombre : Text) (pct : N) (d : Discounts N)
        → n.le (pct_of id d) (pct_of id (keep_best j nombre pct d)) ≡ true
    unfolding keep_best
    keep_best-grows id j nombre pct d =
        if_split (λ t. n.le (pct_of id d) (pct_of id t) ≡ true) (n.lt (pct_of j d) pct) _ d
          (λ beats. stored (Bool-cases (text_eq j id)) beats) (λ loses. laws.le_refl _)
      where
        stored :
            (text_eq j id ≡ true) ⊎ (text_eq j id ≡ false)
            → n.lt (pct_of j d) pct ≡ true
            → n.le (pct_of id d) (or_else (lookup id (insert j pct d.descuentos)) (n.num 0)) ≡ true
        stored (inl same) beats =
            rw (lookup-insert, same)
              (subst (λ k. n.le (pct_of k d) pct ≡ true) ((text_eq_iff j id).0 same)
                (laws.le_of_lt _ _ beats))
        stored (inr other) beats = rw (lookup-insert, other) (laws.le_refl _)

    -- A discount only grows while the promotions are applied.
    apply_all-grows :
        (promos : List (Promocion N)) (v : CartView N) (id : Text) (x : N) (d : Discounts N)
        → n.le x (pct_of id d) ≡ true
        → n.le x (pct_of id (apply_all promos v d)) ≡ true
    apply_all-grows promos v id x d h =
        apply_all-Keeps v (λ t. n.le x (pct_of id t) ≡ true) promos d
          (λ promo at j pct t ok k.
            laws.le_trans _ _ _ k (keep_best-grows id j promo.nombre (clamp_pct pct) t))
          h

    combo_products-grows :
        (promo : Promocion N) (v : CartView N) (sets : N) (ps : List (ProductoPromo N)) (id : Text)
        (x : N) (d : Discounts N)
        → n.le x (pct_of id d) ≡ true
        → n.le x (pct_of id (combo_products promo v sets ps d)) ≡ true
    unfolding combo_products
    combo_products-grows promo v sets [] id x d h = h
    combo_products-grows promo v sets (p ∷ ps) id x d h =
        combo_products-grows promo v sets ps id x _ (
          if_intro (λ t. n.le x (pct_of id t) ≡ true) (n.eq (quantity v p.id) (n.num 0)) d _ h
            (laws.le_trans _ _ _ h (keep_best-grows id p.id promo.nombre _ d)))

    combo_products-offers :
        (promo : Promocion N) (p : ProductoPromo N) (v : CartView N) (sets : N)
        (ps : List (ProductoPromo N)) (d : Discounts N)
        → In p ps
        → n.eq (quantity v p.id) (n.num 0) ≡ false
        → n.le
            (clamp_pct (combo_pct promo p v sets))
            (pct_of p.id (combo_products promo v sets ps d))
          ≡ true
    unfolding combo_products
    combo_products-offers promo p v sets [] d at units = absurd at
    combo_products-offers promo p v sets (q ∷ qs) d (inr at) units =
        combo_products-offers promo p v sets qs _ at units
    combo_products-offers promo p v sets (q ∷ qs) d (inl e) units =
        combo_products-grows promo v sets qs p.id _ _
          (rw (← e, units) (pct_of-keep_best p.id promo.nombre _ d))

    single_product-offers :
        (promo : Promocion N) (p : ProductoPromo N) (sets : N) (v : CartView N) (d : Discounts N)
        → n.eq sets (n.num 0) ≡ false
        → all (λ (x : ProductoPromo N). member x.id v.product_ids) (p ∷ []) ≡ true
        → n.floor (ratio promo v p) ≡ sets
        → n.le (clamp_pct (single_pct promo p v sets)) (pct_of p.id (single_product promo p v d))
          ≡ true
    unfolding single_product
    single_product-offers promo p sets v d some_sets here whole =
        elim (Bool-cases (member p.id v.product_ids)) [
          | inr gone ↦ cc (rw gone at here)
          | inl there ↦ rw (there, whole, some_sets) (pct_of-keep_best p.id promo.nombre _ d)
        ]

    by_products-offers :
        (promo : Promocion N) (p : ProductoPromo N) (sets : N) (v : CartView N) (d : Discounts N)
        (ps : List (ProductoPromo N))
        → promo.productos ≡ ps
        → IsComplete promo p sets v
        → n.le (clamp_pct (pct_by promo ps p v sets)) (pct_of p.id (by_products promo ps v d))
          ≡ true
    unfolding combo
    by_products-offers promo p sets v d [] e c = absurd (rw e at c.listed)
    by_products-offers promo p sets v d (q ∷ []) e c =
        alone (rw e at c.listed) (rw e at c.present) (rw e at c.is_least)
      where
        alone :
            In p (q ∷ [])
            → all (λ (r : ProductoPromo N). member r.id v.product_ids) (q ∷ []) ≡ true
            → some (ratio promo v q) ≡ some c.least
            → n.le
                (clamp_pct (single_pct promo p v sets))
                (pct_of p.id (single_product promo q v d))
              ≡ true
        alone (inr at) here least = absurd at
        alone (inl is) here least =
            subst
              (λ r.
                all (λ (x : ProductoPromo N). member x.id v.product_ids) (r ∷ []) ≡ true
                → n.floor (ratio promo v r) ≡ sets
                → n.le (clamp_pct (single_pct promo p v sets))
                    (pct_of p.id (single_product promo r v d))
                  ≡ true)
              is (single_product-offers promo p sets v d c.some_sets) here
              (ap n.floor (some-injective _ _ least) ∙ c.whole)
    by_products-offers promo p sets v d (q ∷ r ∷ rs) e c =
        simp (c.present, c.is_least, c.whole, c.some_sets)
          (combo_products-offers promo p v sets promo.productos d c.listed c.some_units)

    apply_promo-offers :
        (promo : Promocion N) (p : ProductoPromo N) (sets : N) (v : CartView N) (d : Discounts N)
        → IsComplete promo p sets v
        → n.le (offered promo p v sets) (pct_of p.id (apply_promo promo v d)) ≡ true
    unfolding apply_promo
    apply_promo-offers promo p sets v d c =
        if_split (λ t. n.le (offered promo p v sets) (pct_of p.id t) ≡ true) promo.activa _ d
          (λ _. by_products-offers promo p sets v d promo.productos refl c)
          (λ off. cc (c.active, off))

    apply_all-offers :
        (promos : List (Promocion N)) (promo : Promocion N) (p : ProductoPromo N) (sets : N)
        (v : CartView N) (d : Discounts N)
        → In promo promos
        → IsComplete promo p sets v
        → n.le (offered promo p v sets) (pct_of p.id (apply_all promos v d)) ≡ true
    unfolding apply_all
    apply_all-offers [] promo p sets v d at c = absurd at
    apply_all-offers (q ∷ qs) promo p sets v d (inl e) c =
        apply_all-grows qs v p.id _ (apply_promo q v d)
          (rw (← e) (apply_promo-offers promo p sets v d c))
    apply_all-offers (q ∷ qs) promo p sets v d (inr at) c =
        apply_all-offers qs promo p sets v (apply_promo q v d) at c

    -- For each active promotion of the list, of one product or of several, that is complete in the
    -- cart at least once, each of its products that is there in some quantity ends with at least the
    -- percentage that this promotion offers it.
    pub best_offer :
        (promos : List (Promocion N)) (promo : Promocion N) (p : ProductoPromo N) (sets : N)
        (v : CartView N)
        → In promo promos
        → IsComplete promo p sets v
        → n.le (offered promo p v sets) (pct_of p.id (compute_promo_descuentos promos v)) ≡ true
    unfolding compute_promo_descuentos
    best_offer promos promo p sets v at c = apply_all-offers promos promo p sets v no_discounts at c
