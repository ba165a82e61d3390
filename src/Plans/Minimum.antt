-- ===== src/Plans/Minimum.antt =====
-- The plan that a locked feature asks for.
use blend_posv.Prelude.{◌≤◌, ◌≡◌, refl, true, false, arith}
use blend_posv.Plans.{
  Feature, multi_sucursal, transferencias, stock_sucursal, usuarios_extra, vencimientos,
  proveedores, compras, facturacion_afip, facturacion_ri, reportes_avanzados, ai_assistant,
  apariencia, clientes_management, api_access, PlanId, basico, profesional, enterprise, PlanConfig,
  plan_rank, has_feature, get_plan_config, get_minimum_plan_for_feature,
}

-- The plan has the feature, and so has every plan from it on and none below.
abbrev pub IsMinimum : PlanConfig → Feature → Type 0
IsMinimum plan f =
    (has_feature plan f ≡ true)
    × ((id : PlanId) → has_feature (get_plan_config id) f ≡ true → plan_rank plan.id ≤ plan_rank id)
    × ((id : PlanId) → plan_rank plan.id ≤ plan_rank id → has_feature (get_plan_config id) f ≡ true)

from_profesional :
    (f : Feature)
    → has_feature (get_plan_config basico) f ≡ false
    → has_feature (get_plan_config profesional) f ≡ true
    → has_feature (get_plan_config enterprise) f ≡ true
    → IsMinimum (get_plan_config profesional) f
unfolding get_plan_config
from_profesional f b p e = (p, least, above)
  where
    least : (id : PlanId) → has_feature (get_plan_config id) f ≡ true → 1 ≤ plan_rank id
    least basico h = cc
    least profesional h = omega arith
    least enterprise h = omega arith

    above : (id : PlanId) → 1 ≤ plan_rank id → has_feature (get_plan_config id) f ≡ true
    above basico h = absurd (omega arith)
    above profesional h = p
    above enterprise h = e

from_enterprise :
    (f : Feature)
    → has_feature (get_plan_config basico) f ≡ false
    → has_feature (get_plan_config profesional) f ≡ false
    → has_feature (get_plan_config enterprise) f ≡ true
    → IsMinimum (get_plan_config enterprise) f
unfolding get_plan_config
from_enterprise f b p e = (e, least, above)
  where
    least : (id : PlanId) → has_feature (get_plan_config id) f ≡ true → 2 ≤ plan_rank id
    least basico h = cc
    least profesional h = cc
    least enterprise h = omega arith

    above : (id : PlanId) → 2 ≤ plan_rank id → has_feature (get_plan_config id) f ≡ true
    above basico h = absurd (omega arith)
    above profesional h = absurd (omega arith)
    above enterprise h = e

-- The plan that is named for a feature has it; a plan has the feature exactly when it is that one or
-- a higher one.
pub get_minimum_plan_for_feature-IsMinimum :
    (f : Feature) → IsMinimum (get_minimum_plan_for_feature f) f
unfolding get_minimum_plan_for_feature get_plan_config
get_minimum_plan_for_feature-IsMinimum multi_sucursal =
    from_profesional multi_sucursal refl refl refl
get_minimum_plan_for_feature-IsMinimum transferencias =
    from_profesional transferencias refl refl refl
get_minimum_plan_for_feature-IsMinimum stock_sucursal =
    from_profesional stock_sucursal refl refl refl
get_minimum_plan_for_feature-IsMinimum usuarios_extra =
    from_profesional usuarios_extra refl refl refl
get_minimum_plan_for_feature-IsMinimum vencimientos = from_profesional vencimientos refl refl refl
get_minimum_plan_for_feature-IsMinimum proveedores = from_profesional proveedores refl refl refl
get_minimum_plan_for_feature-IsMinimum compras = from_profesional compras refl refl refl
get_minimum_plan_for_feature-IsMinimum facturacion_afip =
    from_profesional facturacion_afip refl refl refl
get_minimum_plan_for_feature-IsMinimum reportes_avanzados =
    from_profesional reportes_avanzados refl refl refl
get_minimum_plan_for_feature-IsMinimum apariencia = from_profesional apariencia refl refl refl
get_minimum_plan_for_feature-IsMinimum clientes_management =
    from_profesional clientes_management refl refl refl
get_minimum_plan_for_feature-IsMinimum facturacion_ri =
    from_enterprise facturacion_ri refl refl refl
get_minimum_plan_for_feature-IsMinimum ai_assistant = from_enterprise ai_assistant refl refl refl
get_minimum_plan_for_feature-IsMinimum api_access = from_enterprise api_access refl refl refl
