-- ===== src/Caja/Tests.antt =====
-- The cash register at concrete states.
use blend_posv.Prelude.{ℕ, ◌≡◌, refl, none, some, [], ◌∷◌}
use blend_posv.Text.{codes}
use blend_posv.Answer.{ok}
use blend_posv.Caja.{
  Estado, Reporte, CajaState, init, begin, abrir_ends, cerrar_ends, recargar_ends,
}
use blend_posv.Caja.Steps.{here, next, begins, opens, closes, reports, IsWhole, Reach-IsWhole}
use blend_posv.Caja.Session.{Call, calls, IsHonest, calls-IsHonest}

abbrev reporte : Reporte ℕ
reporte = record {
  sesion_caja_id = codes "s1";
  punto_de_venta = 2;
  usuario = codes "ana";
  monto_inicial = 500;
  estado = Estado.abierta;
  opened_at = codes "2026-01-01";
}

-- A report that arrives after the register was closed.
abbrev late : CajaState ℕ
late =
    recargar_ends (ok reporte) (cerrar_ends (ok tt) (begin (abrir_ends (ok reporte) (begin init))))

late-estado : (late.estado ≡ some Estado.abierta) × (late.sesion_id ≡ none)
unfolding recargar_ends cerrar_ends abrir_ends
late-estado = (refl, refl)

Reach-IsWhole_example : IsWhole late
Reach-IsWhole_example = Reach-IsWhole (
    next
      (next
        (next (next (next here (begins init)) (opens (ok reporte) (begin init)))
          (begins (abrir_ends (ok reporte) (begin init))))
        (closes (ok tt) (begin (abrir_ends (ok reporte) (begin init)))))
      (reports (ok reporte) (cerrar_ends (ok tt) (begin (abrir_ends (ok reporte) (begin init))))))

init-IsHonest : IsHonest (init {N = ℕ})
unfolding init
init-IsHonest = record { not_open = λ e o. cc }

calls-IsHonest_example :
    IsHonest
      (calls (Call.abre (ok reporte) ∷ Call.cierra (ok tt) ∷ Call.recarga (ok reporte) ∷ []) init)
calls-IsHonest_example =
    calls-IsHonest (Call.abre (ok reporte) ∷ Call.cierra (ok tt) ∷ Call.recarga (ok reporte) ∷ [])
      init init-IsHonest

abbrev open_state : CajaState ℕ
open_state = record (abrir_ends (ok reporte) init) { sesion_id = some (codes "s1") }
