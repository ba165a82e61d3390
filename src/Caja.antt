-- ===== src/Caja.antt =====
-- frontend/src/store/useCajaStore.ts, with the report of frontend/src/services/api/caja.ts: the
-- session of the cash register. A method is what it does before its request and what it does with
-- the answer; `set` merges fields into the state of that moment, so other steps may come between.
pub mod Steps
pub mod Session
mod Tests
use blend_posv.Prelude.{
  Bool, true, false, not, ◌≡◌, Option, none, some, List, [], ◌∷◌, if◌then◌else◌, or_else,
}
use blend_posv.Text.{Text, codes, has_text}
use blend_posv.Answer.{Answer, ok, thrown}

pub data Estado : Type 0 where
  abierta cerrada : Estado

-- The fields of the report that the store reads.
pub record Reporte (N : Type 0) : Type 0 where
  pub sesion_caja_id : Text
  pub punto_de_venta : N
  pub usuario : Text
  pub monto_inicial : N
  pub estado : Estado
  pub opened_at : Text

pub record CajaState (N : Type 0) : Type 0 where
  pub sesion_id : Option Text
  pub punto_de_venta : Option N
  pub estado : Option Estado
  pub monto_inicial : Option N
  pub abierta_en : Option Text
  pub usuario_nombre : Option Text
  pub loading : Bool
  pub error : Option Text

module _ {N : Type 0} where
  unfoldable pub init : CajaState N
  init = record {
    sesion_id = none;
    punto_de_venta = none;
    estado = none;
    monto_inicial = none;
    abierta_en = none;
    usuario_nombre = none;
    loading = false;
    error = none;
  }

  -- `set({ loading: true, error: null })`
  abbrev pub begin : CajaState N → CajaState N
  begin s = record s { loading = true; error = none }

  -- The session of a report.
  abbrev pub with_session : Reporte N → CajaState N → CajaState N
  with_session r s = record s {
    sesion_id = some r.sesion_caja_id;
    punto_de_venta = some r.punto_de_venta;
    estado = some abierta;
    monto_inicial = some r.monto_inicial;
    abierta_en = some r.opened_at;
    usuario_nombre = some r.usuario;
  }

  abbrev pub without_session : Option Estado → CajaState N → CajaState N
  without_session estado s = record s {
    sesion_id = none;
    punto_de_venta = none;
    estado = estado;
    monto_inicial = none;
    abierta_en = none;
    usuario_nombre = none;
  }

  abbrev pub opened : Reporte N → CajaState N → CajaState N
  opened r s = record (with_session r s) { loading = false }

  abbrev pub closed : CajaState N → CajaState N
  closed s = record (without_session (some cerrada) s) { loading = false }

  abbrev pub moved : CajaState N → CajaState N
  moved s = record s { loading = false }

  abbrev pub failed : Text → CajaState N → CajaState N
  failed msg s = record s { loading = false; error = some msg }

  abbrev pub reported : Reporte N → CajaState N → CajaState N
  reported r s = record s { estado = some r.estado; loading = false }

  abbrev pub restored : Reporte N → CajaState N → CajaState N
  restored r s = record (with_session r s) { error = none }

  unfoldable pub limpiar : CajaState N → CajaState N
  limpiar s = record (without_session none s) { error = none }

  -- The end of `abrir`, and likewise below.
  unfoldable pub abrir_ends : Answer (Reporte N) → CajaState N → CajaState N
  abrir_ends (ok r) s = opened r s
  abrir_ends (thrown m) s = failed (or_else m (codes "Error al abrir la caja")) s

  unfoldable pub cerrar_ends : Answer {0} Unit → CajaState N → CajaState N
  cerrar_ends (ok r) s = closed s
  cerrar_ends (thrown m) s = failed (or_else m (codes "Error al cerrar la caja")) s

  unfoldable pub movimiento_ends : Answer {0} Unit → CajaState N → CajaState N
  movimiento_ends (ok r) s = moved s
  movimiento_ends (thrown m) s = failed (or_else m (codes "Error al registrar movimiento")) s

  unfoldable pub recargar_ends : Answer (Reporte N) → CajaState N → CajaState N
  recargar_ends (ok r) s = reported r s
  recargar_ends (thrown m) s = failed (or_else m (codes "Error al recargar reporte")) s

  -- The methods when nothing comes between the request and the answer.
  unfoldable pub abrir : Answer (Reporte N) → CajaState N → CajaState N
  unfolding abrir_ends
  abrir answer s = abrir_ends answer (begin s)

  unfoldable pub cerrar : Answer {0} Unit → CajaState N → CajaState N
  unfolding cerrar_ends
  cerrar answer s = cerrar_ends answer (begin s)

  unfoldable pub movimiento : Answer {0} Unit → CajaState N → CajaState N
  unfolding movimiento_ends
  movimiento answer s = movimiento_ends answer (begin s)

  unfoldable pub recargar_reporte : Answer (Reporte N) → CajaState N → CajaState N
  unfolding recargar_ends
  recargar_reporte answer s = if has_text s.sesion_id then recargar_ends answer (begin s) else s

  -- `reporte && reporte.estado === 'abierta'`
  unfoldable pub open_report : Option (Reporte N) → Option (Reporte N)
  open_report none = none
  open_report (some r) = elim r.estado [ abierta ↦ some r | cerrada ↦ none ]

  -- What `getCajaActiva` says decides.
  unfoldable pub adopt : Answer (Option (Reporte N)) → CajaState N → CajaState N
  unfolding limpiar
  adopt (thrown m) s = s
  adopt (ok (some r)) s = restored r s
  adopt (ok none) s = limpiar s

  -- `check` is `getReporteCaja` and `active` the answer of `getCajaActiva`.
  unfoldable pub verify :
      Answer (Option (Reporte N)) → Answer (Option (Reporte N)) → CajaState N → CajaState N
  unfolding adopt open_report
  verify (thrown m) active s = s
  verify (ok r) active s = elim (open_report r) [ some q ↦ restored q s | none ↦ adopt active s ]

  unfoldable pub restaurar :
      Bool
      → (Text → Answer (Option (Reporte N)))
      → Answer (Option (Reporte N))
      → CajaState N
      → CajaState N
  unfolding verify
  restaurar online check active s =
      if not online
      then s
      else if has_text s.sesion_id
      then verify (check (or_else s.sesion_id [])) active s
      else adopt active s

  -- `partialize`: what is kept in the browser's storage; the rest starts again.
  unfoldable pub reload : CajaState N → CajaState N
  reload s = record s { loading = false; error = none }
