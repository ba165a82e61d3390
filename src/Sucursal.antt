-- ===== src/Sucursal.antt =====
-- frontend/src/store/useSucursalStore.ts: the branch that the administration looks at.
pub mod Known
use blend_posv.Prelude.{
  ℕ, ◌+◌, Bool, true, false, not, ◌&&◌, Option, none, some, List, [], ◌∷◌, find, is_some, length,
  ◌==◌, if◌then◌else◌, or_else,
}
use blend_posv.Text.{Text, has_text, text_eq}
use blend_posv.Answer.{Answer, ok, thrown}

pub record Sucursal : Type 0 where
  pub id : Text
  pub nombre : Text

pub record SucursalState : Type 0 where
  pub sucursal_id : Option Text
  pub sucursal_nombre : Option Text
  pub sucursales : List Sucursal
  pub switch_counter : ℕ

-- `a === b` on ids that may be null
abbrev pub same_id : Option Text → Option Text → Bool
same_id none none = true
same_id (some a) (some b) = text_eq a b
same_id _ _ = false

unfoldable pub set_sucursal : Option Text → Option Text → SucursalState → SucursalState
set_sucursal id nombre s = record s {
  sucursal_id = id;
  sucursal_nombre = nombre;
  switch_counter = if same_id s.sucursal_id id then s.switch_counter else s.switch_counter + 1;
}

abbrev pub is_listed : Text → List Sucursal → Bool
is_listed id xs = is_some (find (λ (x : Sucursal). text_eq x.id id) xs)

-- The only branch of a list of one is selected, and of other lists none.
unfoldable pub select_only : List Sucursal → SucursalState → SucursalState
unfolding set_sucursal
select_only (x ∷ []) s = set_sucursal (some x.id) (some x.nombre) s
select_only _ s = set_sucursal none none s

-- `none` is an answer without `data`.
unfoldable pub fetch_sucursales : Answer (Option (List Sucursal)) → SucursalState → SucursalState
unfolding select_only
fetch_sucursales (thrown m) s = record s { sucursales = [] }
fetch_sucursales (ok data') s =
    let xs = or_else data' [] in
    let s' = record s { sucursales = xs } in
    if has_text s.sucursal_id
    then (if is_listed (or_else s.sucursal_id []) xs then s' else select_only xs s')
    else if length xs == 1
    then select_only xs s'
    else s'
