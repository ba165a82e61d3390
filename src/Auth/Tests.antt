-- ===== src/Auth/Tests.antt =====
-- Sessions at concrete states.
use blend_posv.Prelude.{ℕ, arith, refl, true, false, Option, none, some, List, [], ◌∷◌}
use blend_posv.Text.{Text, codes}
use blend_posv.Answer.{Answer, ok, thrown}
use blend_posv.Sucursal.{SucursalState}
use blend_posv.Auth.{ApiUser, LoginAnswer, RefreshResult, Session, Jwt}
use blend_posv.Auth.Client.{Http, request}
use blend_posv.Auth.Guest.{Call, calls, IsClean, calls-IsClean}
use blend_posv.Auth.Retry.{IsSafe, request-IsSafe}

abbrev jwt : Jwt
jwt = record { tid = λ t. some t; lasts = λ t. true }

abbrev no_branch : SucursalState
no_branch = record {
  sucursal_id = some (codes "old");
  sucursal_nombre = none;
  sucursales = [];
  switch_counter = 0;
}

abbrev nobody : Session
nobody = record {
  access = none;
  refresh = none;
  timer = false;
  user = none;
  is_authenticated = false;
  tenant_id = none;
  plan = none;
  must_change_password = false;
  sucursal = no_branch;
}

nobody-IsClean : IsClean jwt nobody
nobody-IsClean = record {
  no_access = λ e. refl;
  no_refresh = λ e. refl;
  no_user = λ e. refl;
  no_tenant = λ e. refl;
}

abbrev ana : ApiUser
ana = record {
  id = codes "u1";
  nombre = codes "Ana";
  rol = codes "administrador";
  punto_de_venta = none;
  sucursal_id = some (codes "b1");
  sucursal_nombre = none;
}

abbrev welcome_ana : LoginAnswer
welcome_ana = LoginAnswer.welcome (record {
  access_token = codes "a1";
  refresh_token = codes "r1";
  user = ana;
  must_change_password = none;
})

abbrev refuses : Text → Answer RefreshResult
refuses t = thrown none

abbrev rejects : ℕ → Option Text → Http
rejects k t = Http.reply 401 []

abbrev renews : Text → Answer RefreshResult
renews t = ok (record { access_token = codes "a2"; refresh_token = []; user = none })

abbrev day : List Call
day =
    Call.logs_in (codes "now") (codes "ana@x") welcome_ana
    ∷ Call.requests renews rejects
    ∷ Call.starts (codes "now") refuses
    ∷ []

calls-IsClean_example : IsClean jwt (calls jwt day nobody)
calls-IsClean_example = calls-IsClean jwt day nobody nobody-IsClean

abbrev signed_in : Session
signed_in = record nobody {
  access = some (codes "a1");
  refresh = some (codes "r1");
  is_authenticated = true;
}

request-IsSafe_example : IsSafe 2 1 (request 2 false jwt renews rejects signed_in)
request-IsSafe_example = request-IsSafe 2 jwt renews rejects signed_in (omega arith)
