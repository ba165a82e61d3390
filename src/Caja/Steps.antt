-- ===== src/Caja/Steps.antt =====
-- The changes of the cash register's state as a step relation: each `set` is a step, and the
-- requests of different calls may overlap in any order.
use blend_posv.Prelude.{◌≡◌, is_some, arith}
use blend_posv.Answer.{Answer, ok, thrown}
use blend_posv.Caja.{
  Reporte, CajaState, init, begin, abrir_ends, cerrar_ends, movimiento_ends, recargar_ends, limpiar,
  restored, reload,
}

pub data Step {N : Type 0} : CajaState N → CajaState N → Type 0 where
  begins : (s : CajaState N) → Step s (begin s)
  opens : (a : Answer (Reporte N)) (s : CajaState N) → Step s (abrir_ends a s)
  closes : (a : Answer {0} Unit) (s : CajaState N) → Step s (cerrar_ends a s)
  moves : (a : Answer {0} Unit) (s : CajaState N) → Step s (movimiento_ends a s)
  reports : (a : Answer (Reporte N)) (s : CajaState N) → Step s (recargar_ends a s)
  restores : (r : Reporte N) (s : CajaState N) → Step s (restored r s)
  cleans : (s : CajaState N) → Step s (limpiar s)
  reloads : (s : CajaState N) → Step s (reload s)

pub data Reach {N : Type 0} (s : CajaState N) : CajaState N → Type 0 where
  here : Reach s s
  next : {t u : CajaState N} → Reach s t → Step t u → Reach s u

-- The fields of a session are all there, or none is.
pub record IsWhole {N : Type 0} (s : CajaState N) : Type 0 where
  pub punto_eq : is_some s.punto_de_venta ≡ is_some s.sesion_id
  pub monto_eq : is_some s.monto_inicial ≡ is_some s.sesion_id
  pub abierta_eq : is_some s.abierta_en ≡ is_some s.sesion_id
  pub usuario_eq : is_some s.usuario_nombre ≡ is_some s.sesion_id

Step-IsWhole : {N : Type 0} {s t : CajaState N} → Step s t → IsWhole s → IsWhole t
unfolding abrir_ends cerrar_ends movimiento_ends recargar_ends limpiar reload
Step-IsWhole (begins s) h = ground arith
Step-IsWhole (opens (ok r) s) h = ground arith
Step-IsWhole (opens (thrown m) s) h = ground arith
Step-IsWhole (closes (ok r) s) h = ground arith
Step-IsWhole (closes (thrown m) s) h = ground arith
Step-IsWhole (moves (ok r) s) h = ground arith
Step-IsWhole (moves (thrown m) s) h = ground arith
Step-IsWhole (reports (ok r) s) h = ground arith
Step-IsWhole (reports (thrown m) s) h = ground arith
Step-IsWhole (restores r s) h = ground arith
Step-IsWhole (cleans s) h = ground arith
Step-IsWhole (reloads s) h = ground arith

init-IsWhole : {N : Type 0} → IsWhole (init {N = N})
unfolding init
init-IsWhole = ground arith

-- In every state that the store reaches from its first one, however the requests of its methods
-- overlap, the point of sale, the opening amount, the opening time and the user are there exactly
-- when the session's id is.
pub Reach-IsWhole : {N : Type 0} {t : CajaState N} → Reach init t → IsWhole t
Reach-IsWhole here = init-IsWhole
Reach-IsWhole (next r st) = Step-IsWhole st (Reach-IsWhole r)
