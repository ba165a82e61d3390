-- ===== src/Plans.antt =====
-- frontend/src/config/plans.ts: the plans and the features that each includes. `plain` is
-- `toLowerCase` and the removal of accents.
pub mod Minimum
use blend_posv.Prelude.{
  ℕ, Bool, true, false, ◌||◌, Option, none, some, List, [], ◌∷◌, any, find, or_else, ◌==◌,
  if◌then◌else◌,
}
use blend_posv.Text.{Text, codes, starts_with}

pub data Feature : Type 0 where
  multi_sucursal transferencias stock_sucursal usuarios_extra vencimientos proveedores : Feature
  compras facturacion_afip facturacion_ri reportes_avanzados ai_assistant apariencia : Feature
  clientes_management api_access : Feature

pub data PlanId : Type 0 where
  basico profesional enterprise : PlanId

-- 0 is no limit.
pub record PlanLimits : Type 0 where
  pub sucursales : ℕ
  pub terminales : ℕ
  pub usuarios : ℕ
  pub productos : ℕ

pub record PlanConfig : Type 0 where
  pub id : PlanId
  pub name : Text
  pub features : List Feature
  pub limits : PlanLimits

abbrev pub plan_basico : PlanConfig
plan_basico = record {
  id = basico;
  name = codes "Basico";
  features = [];
  limits = record { sucursales = 1; terminales = 1; usuarios = 1; productos = 500 };
}

abbrev pub plan_profesional : PlanConfig
plan_profesional = record {
  id = profesional;
  name = codes "Profesional";
  features =
      multi_sucursal ∷ transferencias ∷ stock_sucursal ∷ usuarios_extra ∷ vencimientos ∷ proveedores
      ∷ compras ∷ facturacion_afip ∷ reportes_avanzados ∷ apariencia ∷ clientes_management ∷ [];
  limits = record { sucursales = 3; terminales = 5; usuarios = 10; productos = 5_000 };
}

abbrev pub plan_enterprise : PlanConfig
plan_enterprise = record {
  id = enterprise;
  name = codes "Enterprise";
  features =
      multi_sucursal ∷ transferencias ∷ stock_sucursal ∷ usuarios_extra ∷ vencimientos ∷ proveedores
      ∷ compras ∷ facturacion_afip ∷ facturacion_ri ∷ reportes_avanzados ∷ ai_assistant ∷ apariencia
      ∷ clientes_management ∷ api_access ∷ [];
  limits = record { sucursales = 0; terminales = 0; usuarios = 0; productos = 0 };
}

abbrev pub all_plans : List PlanConfig
all_plans = plan_basico ∷ plan_profesional ∷ plan_enterprise ∷ []

abbrev pub plan_rank : PlanId → ℕ
plan_rank basico = 0
plan_rank profesional = 1
plan_rank enterprise = 2

abbrev pub feature_index : Feature → ℕ
feature_index multi_sucursal = 0
feature_index transferencias = 1
feature_index stock_sucursal = 2
feature_index usuarios_extra = 3
feature_index vencimientos = 4
feature_index proveedores = 5
feature_index compras = 6
feature_index facturacion_afip = 7
feature_index facturacion_ri = 8
feature_index reportes_avanzados = 9
feature_index ai_assistant = 10
feature_index apariencia = 11
feature_index clientes_management = 12
feature_index api_access = 13

-- `plan.features.includes(feature)`
abbrev pub has_feature : PlanConfig → Feature → Bool
has_feature plan f = any (λ g. feature_index g == feature_index f) plan.features

unfoldable pub resolve_plan_id : (Text → Text) → Text → PlanId
resolve_plan_id plain nombre =
    let name = plain nombre in
    if starts_with (codes "enterprise") name
    then enterprise
    else if starts_with (codes "profesional") name || starts_with (codes "pro") name
    then profesional
    else basico

unfoldable pub get_plan_config : PlanId → PlanConfig
get_plan_config id =
    or_else (find (λ (p : PlanConfig). plan_rank p.id == plan_rank id) all_plans) plan_basico

unfoldable pub get_minimum_plan_for_feature : Feature → PlanConfig
get_minimum_plan_for_feature f =
    if has_feature plan_basico f
    then plan_basico
    else if has_feature plan_profesional f
    then plan_profesional
    else plan_enterprise
