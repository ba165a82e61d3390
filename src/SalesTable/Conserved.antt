-- ===== src/SalesTable/Conserved.antt =====
-- The loop over the promotions of frontend/src/components/pos/SalesTable.tsx takes units from what is
-- left of a product and shows them, and the rows of single products show what is left.
use mathlib.Core.Option.{some-injective}
use blend_posv.Prelude.{
  ◌≡◌, refl, sym, ap, subst, ◌∙◌, inl, inr, true, false, not, ◌||◌, none, some, List, [], ◌∷◌, leb,
  Bool-cases, Option-cases, if_intro, if◌then◌else◌, find, length,
}
use blend_posv.Text.{Text, member, text_eq_refl, text_eq_cases}
use blend_posv.Dict.{Dict}
use blend_posv.Number.{Number, IsLawful, IsExact, IsCounting}
use blend_posv.Cart.{CartItem, is_item}
use blend_posv.Promotions.{Promocion, ProductoPromo, required, min_list}
use blend_posv.SalesTable.{
  Building, left_of, initial_remaining, product_ids, ratios, combo_row, push_combo, all_present,
  combo_step, combo_steps, build_display_rows,
}
use blend_posv.SalesTable.Units.{
  Once, ids_of, shown_units, units_from-append, left_of-consume, item_units-combo_items,
  individual_rows-own, initial_remaining-own,
}

module _ {N : Type 0} ⦃n : Number N⦄ where
  open n use {num, add, sub, mul, div, floor, le, eq, min_of}

  -- What is known of a product in the cart while the rows are built: it has units left, and with those
  -- that are shown already they are all that the cart has.
  pub record IsKept (id : Text) (all : N) (b : Building N) : Type 0 where
    pub rest : le (num 0) (left_of id b.remaining) ≡ true
    pub whole : add (shown_units id b.rows) (left_of id b.remaining) ≡ all

  abbrev pub AllOnce : List (Promocion N) → Type 0
  AllOnce [] = Unit
  AllOnce (p ∷ ps) = Once (product_ids p.productos) × AllOnce ps

  find-member :
      (id : Text) (cs : List (CartItem N)) (c : CartItem N)
      → find (is_item id) cs ≡ some c
      → member id (ids_of cs) ≡ true
  find-member id [] c e = cc
  find-member id (x ∷ xs) c e = elim (text_eq_cases x.id id) [
    | inl same ↦ rw (same, text_eq_refl) refl
    | inr other ↦ rw (other.1) (find-member id xs c (rw (other.0) at e))
  ]

  module _ (laws : IsLawful N) (exact : IsExact N) (counting : IsCounting N) where
    min_list-none :
        (id : Text) (k : N) (d : Dict N) (ps : List (ProductoPromo N))
        → min_list (ratios k d ps) ≡ none
        → member id (product_ids ps) ≡ false
    min_list-none id k d [] e = refl
    min_list-none id k d (p ∷ ps) e = elim (Option-cases (min_list (ratios k d ps))) [
      | inl alone ↦ cc (rw alone at e)
      | inr (y, least) ↦ cc (rw least at e)
    ]

    min_list-le :
        (id : Text) (k : N) (d : Dict N) (ps : List (ProductoPromo N)) (m : N)
        → min_list (ratios k d ps) ≡ some m
        → member id (product_ids ps) ≡ true
        → le m (div (left_of id d) k) ≡ true
    min_list-le id k d [] m e h = cc
    min_list-le id k d (p ∷ ps) m e h =
        let x = div (left_of p.id d) k in
        elim (text_eq_cases p.id id) [
          | inl same ↦ elim (Option-cases (min_list (ratios k d ps))) [
            | inl alone ↦
                rw (← some-injective _ _ (rw alone at e), same)
                  (laws.le_refl (div (left_of id d) k))
            | inr (y, least) ↦ rw (← some-injective _ _ (rw least at e)) (
                subst (λ (j : Text). le (min_of x y) (div (left_of j d) k) ≡ true) same
                  (laws.min_le x y))
          ]
          | inr other ↦ elim (Option-cases (min_list (ratios k d ps))) [
            | inl alone ↦ cc (min_list-none id k d ps alone, rw (other.1) at h)
            | inr (y, least) ↦ rw (← some-injective _ _ (rw least at e)) (
                laws.le_trans (min_of x y) y _ (counting.min_right x y)
                  (min_list-le id k d ps y least (rw (other.1) at h)))
          ]
        ]

    push_combo-IsKept :
        (cart : List (CartItem N)) (promo : Promocion N) (m : N) (b : Building N) (id : Text)
        (c : CartItem N) (total : N)
        → find (is_item id) cart ≡ some c
        → Once (product_ids promo.productos)
        → min_list (ratios (required promo) b.remaining promo.productos) ≡ some m
        → IsKept id total b
        → IsKept id total (push_combo cart promo (floor m) b)
    unfolding push_combo combo_row
    push_combo-IsKept cart promo m b id c total found once least h =
        let q = mul (floor m) (required promo) in
        let r = left_of id b.remaining in
        let u = shown_units id b.rows in
        let items = item_units-combo_items cart id c u q promo.productos found once in
        let rest = left_of-consume id q promo.productos b.remaining once in
        elim (Bool-cases (member id (product_ids promo.productos))) [
          | inr apart ↦ record {
            rest = rw (rest, apart) h.rest;
            whole = rw (units_from-append, items, rest, apart) h.whole;
          }
          | inl inside ↦
              let fits : le q r ≡ true =
                counting.sets_fit m r (required promo) (counting.le_max_left _ _)
                  (min_list-le id (required promo) b.remaining promo.productos m least inside) in
              record {
                rest = rw (rest, inside) (exact.sub_nonneg q r fits);
                whole =
                    rw (units_from-append, items, rest, inside)
                      (exact.add_assoc u q (sub r q)
                        ∙ ap (λ (y : N). add u y) (exact.add_sub q r fits)
                        ∙ h.whole);
              }
        ]

    combo_step-IsKept :
        (cart : List (CartItem N)) (promo : Promocion N) (b : Building N) (id : Text)
        (c : CartItem N) (total : N)
        → find (is_item id) cart ≡ some c
        → Once (product_ids promo.productos)
        → IsKept id total b
        → IsKept id total (combo_step cart promo b)
    unfolding combo_step
    combo_step-IsKept cart promo b id c total found once h =
        let Kept = λ (x : Building N). IsKept id total x in
        if_intro Kept (not promo.activa || leb (length promo.productos) 1) _ _ h (
          if_intro Kept (not (all_present promo b.remaining)) _ _ h
            (elim (Option-cases (min_list (ratios (required promo) b.remaining promo.productos))) [
              | inl nothing ↦ rw nothing h
              | inr (m, least) ↦ rw least (
                  if_intro Kept (eq (floor m) (num 0)) _ _ h
                    (push_combo-IsKept cart promo m b id c total found once least h))
            ]))

    combo_steps-IsKept :
        (cart : List (CartItem N)) (promociones : List (Promocion N)) (b : Building N) (id : Text)
        (c : CartItem N) (total : N)
        → find (is_item id) cart ≡ some c
        → AllOnce promociones
        → IsKept id total b
        → IsKept id total (combo_steps cart promociones b)
    unfolding combo_steps
    combo_steps-IsKept cart [] b id c total found once h = h
    combo_steps-IsKept cart (p ∷ ps) b id c total found once h =
        combo_steps-IsKept cart ps _ id c total found once.1
          (combo_step-IsKept cart p b id c total found once.0 h)

    last_row :
        (id : Text) (total : N) (b : Building N)
        → IsKept id total b
        → (if le (left_of id b.remaining) (num 0)
            then shown_units id b.rows
            else add (shown_units id b.rows) (left_of id b.remaining))
          ≡ total
    last_row id total b h = elim (Bool-cases (le (left_of id b.remaining) (num 0))) [
      | inl nothing ↦
          let none_left : left_of id b.remaining ≡ num 0 = exact.le_antisymm _ _ nothing h.rest in
          rw nothing (
            sym (exact.add_zero (shown_units id b.rows))
            ∙ ap (λ (y : N). add (shown_units id b.rows) y) (sym none_left)
            ∙ h.whole)
      | inr some_left ↦ rw some_left h.whole
    ]

    -- Whatever promotions are active, the rows show each product of the cart in exactly the
    -- quantity that the cart has: the units of the complete combos and those of its own row make
    -- it up. The arithmetic is exact; no product stands twice in the cart or in one promotion, and
    -- the quantity is not negative.
    pub build_display_rows-units :
        (cart : List (CartItem N)) (promociones : List (Promocion N)) (id : Text) (c : CartItem N)
        → Once (ids_of cart)
        → AllOnce promociones
        → find (is_item id) cart ≡ some c
        → le (num 0) c.cantidad ≡ true
        → shown_units id (build_display_rows cart promociones) ≡ c.cantidad
    unfolding build_display_rows
    build_display_rows-units cart promociones id c once promos found positive =
        let b0 : Building N = record {
          remaining = initial_remaining cart [];
          rows = [];
          combo_product_ids = [];
        } in
        let start = initial_remaining-own id cart [] c once found in
        let kept0 : IsKept id c.cantidad b0 = record {
          rest = rw start positive;
          whole = rw start (exact.zero_add c.cantidad);
        } in
        let kept = combo_steps-IsKept cart promociones b0 id c c.cantidad found promos kept0 in
        let b = combo_steps cart promociones b0 in
        let own =
          individual_rows-own b 0 id (shown_units id b.rows) cart once
            (find-member id cart c found) in
        units_from-append id (num 0) b.rows _ ∙ own ∙ last_row id c.cantidad b kept
