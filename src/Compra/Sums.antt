-- ===== src/Compra/Sums.antt =====
-- The total of frontend/src/pages/admin/NuevaCompraPage.tsx and the totals of its lines.
use blend_posv.Prelude.{◌≡◌, refl, sym, ap, ◌∙◌, true, List, [], ◌∷◌, All}
use blend_posv.Number.{Number, IsLawful, IsExact, IsAdditive}
use blend_posv.Compra.{
  ItemRow, base_of, desc_mon, imp_mon, calc_line_total, totals_from, compra_total,
}

module _ {N : Type 0} ⦃n : Number N⦄ where
  open n use {num, add, sub, le}

  -- The totals that the lines show, added up.
  unfoldable pub sum_lines : N → List (ItemRow N) → N
  unfolding calc_line_total
  sum_lines s [] = s
  sum_lines s (r ∷ rs) = sum_lines (add s (calc_line_total r)) rs

  -- The discount of the line is no more than its price, and its tax is not negative.
  pub record IsFair (r : ItemRow N) : Type 0 where
    pub discounted : le (desc_mon r) (base_of r) ≡ true
    pub taxed : le (num 0) (imp_mon r) ≡ true

  module _ (laws : IsLawful N) (exact : IsExact N) (additive : IsAdditive N) where
    line_total :
        (r : ItemRow N)
        → IsFair r
        → calc_line_total r ≡ sub (add (base_of r) (imp_mon r)) (desc_mon r)
    unfolding calc_line_total
    line_total r fair =
        additive.max_zero _
          (additive.add_nonneg _ _ (exact.sub_nonneg _ _ fair.discounted) fair.taxed)
        ∙ additive.sub_add (base_of r) (desc_mon r) (imp_mon r) fair.discounted

    totals_from-sum :
        (s d : N) (rs : List (ItemRow N))
        → le d s ≡ true
        → All IsFair rs
        → sub (totals_from s d rs).0 (totals_from s d rs).1 ≡ sum_lines (sub s d) rs
    unfolding totals_from sum_lines
    totals_from-sum s d [] h fair = refl
    totals_from-sum s d (r ∷ rs) h fair =
        let gross = add (base_of r) (imp_mon r) in
        let fits : le (desc_mon r) gross ≡ true =
          additive.le_add _ _ _ fair.0.discounted fair.0.taxed in
        totals_from-sum (add s gross) (add d (desc_mon r)) rs
          (additive.le_sum s d gross (desc_mon r) h fits) fair.1
        ∙ ap (λ (x : N). sum_lines x rs)
            (additive.sub_sum s d gross (desc_mon r) h fits
              ∙ ap (λ (x : N). add (sub s d) x) (sym (line_total r fair.0)))

    -- The total of a purchase is the sum of the totals that its lines show, if no discount is more
    -- than the price of its line and no tax is negative, in exact arithmetic.
    pub compra_total-sum_lines :
        (items : List (ItemRow N)) → All IsFair items → compra_total items ≡ sum_lines (num 0) items
    unfolding compra_total
    compra_total-sum_lines items fair =
        totals_from-sum (num 0) (num 0) items (laws.le_refl (num 0)) fair
        ∙ ap (λ (x : N). sum_lines x items) (additive.sub_self (num 0))
