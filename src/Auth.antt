-- ===== src/Auth.antt =====
-- frontend/src/store/useAuthStore.ts, frontend/src/store/tokenStore.ts and the renewal of tokens of
-- frontend/src/api/client.ts: who is signed in, and the two tokens. Reading a token is the record
-- `Jwt`.
pub mod Client
pub mod Guest
pub mod Retry
mod Tests
use blend_posv.Prelude.{
  ℕ, Bool, true, false, not, ◌&&◌, ◌||◌, Option, none, some, List, [], ◌∷◌, any, ◌==◌,
  if◌then◌else◌, or_else, is_some, map, leb,
}
use blend_posv.Text.{Text, codes, has_text, truthy, text_eq, includes}
use blend_posv.Answer.{Answer, ok, thrown}
use blend_posv.Sync.{mentions_network}
use blend_posv.Sucursal.{SucursalState, set_sucursal}

pub data Rol : Type 0 where
  cajero supervisor admin superadmin : Rol

-- A user of the server's answers.
pub record ApiUser : Type 0 where
  pub id : Text
  pub nombre : Text
  pub rol : Text
  pub punto_de_venta : Option ℕ
  pub sucursal_id : Option Text
  pub sucursal_nombre : Option Text

pub record User : Type 0 where
  pub id : Text
  pub nombre : Text
  pub email : Text
  pub rol : Rol
  pub activo : Bool
  pub creado_en : Text
  pub punto_de_venta : Option ℕ
  pub sucursal_id : Option Text
  pub sucursal_nombre : Option Text

pub record LoginResponse : Type 0 where
  pub access_token : Text
  pub refresh_token : Text
  pub user : ApiUser
  pub must_change_password : Option Bool

pub record RefreshResult : Type 0 where
  pub access_token : Text
  pub refresh_token : Text
  pub user : Option ApiUser

-- The stores of auth and tokens, whether a refresh is scheduled, and the store of branches.
pub record Session : Type 0 where
  pub access : Option Text
  pub refresh : Option Text
  pub timer : Bool
  pub user : Option User
  pub is_authenticated : Bool
  pub tenant_id : Option Text
  pub plan : Option Text
  pub must_change_password : Bool
  pub sucursal : SucursalState

-- The claim `tid` of a token, and whether its end is more than a minute away.
pub record Jwt : Type 0 where
  pub tid : Text → Option Text
  pub lasts : Text → Bool

-- What `login` throws: the name and the message of an `Error`.
pub record LoginError : Type 0 where
  pub name : Text
  pub message : Text

pub data LoginResult : Type 0 where
  signed_in rejected : LoginResult
  rethrown : LoginError → LoginResult

unfoldable pub map_rol : Text → Rol
map_rol rol =
    if text_eq rol (codes "administrador")
    then admin
    else if text_eq rol (codes "supervisor")
    then supervisor
    else if text_eq rol (codes "superadmin")
    then superadmin
    else cajero

abbrev pub same_rol : Rol → Rol → Bool
same_rol cajero cajero = true
same_rol supervisor supervisor = true
same_rol admin admin = true
same_rol superadmin superadmin = true
same_rol _ _ = false

unfoldable pub has_role : List Rol → Session → Bool
has_role roles s = elim s.user [ none ↦ false | some u ↦ any (same_rol u.rol) roles ]

unfoldable pub set_tokens : Text → Text → Session → Session
set_tokens access refresh s = record s {
  access = some access;
  refresh = if truthy refresh then some refresh else s.refresh;
}

unfoldable pub clear_tokens : Session → Session
clear_tokens s = record s { access = none; refresh = none }

unfoldable pub cancel_proactive_refresh : Session → Session
cancel_proactive_refresh s = record s { timer = false }

-- A space or a tab, a new line and the like.
abbrev pub is_space : ℕ → Bool
is_space c = c == 32 || leb 9 c && leb c 13

-- `/^5\d{2}\s/`
abbrev pub is_server_error : Text → Bool
is_server_error (a ∷ b ∷ c ∷ d ∷ rest) =
    a == 53 && (leb 48 b && leb b 57 && (leb 48 c && leb c 57 && is_space d))
is_server_error _ = false

abbrev pub is_rethrown : LoginError → Bool
is_rethrown e =
    text_eq e.name (codes "OfflineError")
    || (is_server_error e.message || mentions_network e.message)

-- The user of an answer; `creado_en` is the time as a text.
abbrev pub user_of : Text → Text → Option ℕ → ApiUser → User
unfolding map_rol
user_of creado_en email punto u = record {
  id = u.id;
  nombre = u.nombre;
  email = email;
  rol = map_rol u.rol;
  activo = true;
  creado_en = creado_en;
  punto_de_venta = punto;
  sucursal_id = u.sucursal_id;
  sucursal_nombre = u.sucursal_nombre;
}

-- A user with a branch selects it.
abbrev pub adopt_sucursal : ApiUser → Session → Session
unfolding set_sucursal
adopt_sucursal u s =
    if has_text u.sucursal_id
    then record s { sucursal = set_sucursal u.sucursal_id u.sucursal_nombre s.sucursal }
    else s

-- `scheduleProactiveRefresh`
abbrev pub schedule : Jwt → Text → Session → Session
schedule jwt token s = record s { timer = jwt.lasts token }

-- The effects of a login on the stores; the answer's error is none where it is no `Error`.
unfoldable pub signed : Jwt → Text → Text → LoginResponse → Session → Session
unfolding set_tokens user_of adopt_sucursal
signed jwt creado_en name r s =
    adopt_sucursal r.user
      (record (schedule jwt r.access_token (set_tokens r.access_token r.refresh_token s)) {
        user = some (
            user_of creado_en (if includes (codes "@") name then name else []) r.user.punto_de_venta
              r.user);
        is_authenticated = true;
        tenant_id = jwt.tid r.access_token;
        must_change_password = or_else r.must_change_password false;
      })

unfoldable pub login_failed : Option LoginError → LoginResult
login_failed none = rejected
login_failed (some e) = if is_rethrown e then rethrown e else rejected

-- The answer's right side is the thrown `Error`.
pub data LoginAnswer : Type 0 where
  welcome : LoginResponse → LoginAnswer
  refused : Option LoginError → LoginAnswer

unfoldable pub login : Jwt → Text → Text → LoginAnswer → Session → Session × LoginResult
unfolding signed login_failed
login jwt creado_en name (welcome r) s = (signed jwt creado_en name r s, signed_in)
login jwt creado_en name (refused e) s = (s, login_failed e)

-- The name of the plan arrives later.
abbrev pub plan_arrives : Text → Session → Session
plan_arrives name s = record s { plan = some name }

unfoldable pub logout : Session → Session
unfolding clear_tokens cancel_proactive_refresh set_sucursal
logout s = record (clear_tokens (cancel_proactive_refresh s)) {
  sucursal = set_sucursal none none s.sucursal;
  user = none;
  is_authenticated = false;
  tenant_id = none;
  plan = none;
  must_change_password = false;
}

-- The session after the call, and the result where nothing was thrown.
unfoldable pub refresh_access_token :
    Jwt → (Text → Answer RefreshResult) → Session → Session × Option RefreshResult
unfolding set_tokens
refresh_access_token jwt server s =
    if has_text s.refresh
    then (elim (server (or_else s.refresh [])) [
      | ok r ↦ (schedule jwt r.access_token (set_tokens r.access_token r.refresh_token s), some r)
      | thrown m ↦ (s, none)
    ])
    else (s, none)

-- What `refresh` sets when it has an answer.
unfoldable pub renewed : Jwt → Text → RefreshResult → Session → Session
unfolding user_of adopt_sucursal
renewed jwt creado_en r s = elim r.user [
  | some u ↦ adopt_sucursal u (record s {
    user = some (user_of creado_en [] none u);
    is_authenticated = true;
    tenant_id = jwt.tid r.access_token;
  })
  | none ↦ record s { is_authenticated = true; tenant_id = jwt.tid r.access_token }
]

-- The `catch` of `refresh`.
unfoldable pub forget : Session → Session
unfolding clear_tokens cancel_proactive_refresh
forget s = record (clear_tokens (cancel_proactive_refresh s)) {
  user = none;
  is_authenticated = false;
  tenant_id = none;
  plan = none;
}

-- The end of `refresh`.
abbrev pub after_refresh : Jwt → Text → Session × Option RefreshResult → Session × Bool
after_refresh jwt creado_en (s, some r) = (renewed jwt creado_en r s, true)
after_refresh jwt creado_en (s, none) = (forget s, false)

unfoldable pub refresh : Jwt → Text → (Text → Answer RefreshResult) → Session → Session × Bool
unfolding refresh_access_token renewed forget
refresh jwt creado_en server s =
    if has_text s.refresh
    then after_refresh jwt creado_en (refresh_access_token jwt server s)
    else (s, false)

unfoldable pub init_auth : Jwt → Text → (Text → Answer RefreshResult) → Session → Session
unfolding refresh clear_tokens
init_auth jwt creado_en server s =
    if not s.is_authenticated || has_text s.access
    then s
    else let (s', fine) = refresh jwt creado_en server s in
      if fine then s' else record (clear_tokens s') {
        user = none;
        is_authenticated = false;
        tenant_id = none;
        plan = none;
      }

unfoldable pub clear_must_change_password : Session → Session
clear_must_change_password s = record s { must_change_password = false }
