-- ===== src/Caja/Session.antt =====
-- The session of the cash register and its state: what the methods keep when none overlaps another.
use blend_posv.Prelude.{
  ◌≡◌, ◌≢◌, refl, ◌⊎◌, inl, inr, Bool, true, false, not, Option, none, some, List, [], ◌∷◌, or_else,
  arith, Bool-cases, Option-cases, if_intro,
}
use blend_posv.Text.{Text, has_text}
use blend_posv.Answer.{Answer, ok, thrown}
use blend_posv.Caja.{
  abierta, Reporte, CajaState, begin, open_report, abrir, cerrar, movimiento, recargar_reporte,
  limpiar, adopt, verify, restaurar, reload, recargar_ends, abrir_ends, cerrar_ends,
  movimiento_ends,
}

-- A call of a method, with what the server answered.
pub data Call (N : Type 0) : Type 0 where
  abre : Answer (Reporte N) → Call N
  cierra : Answer {0} Unit → Call N
  mueve : Answer {0} Unit → Call N
  recarga : Answer (Reporte N) → Call N
  restaura : Bool → (Text → Answer (Option (Reporte N))) → Answer (Option (Reporte N)) → Call N
  limpia recarga_pagina : Call N

module _ {N : Type 0} where
  unfoldable pub call : Call N → CajaState N → CajaState N
  call (abre a) s = abrir a s
  call (cierra a) s = cerrar a s
  call (mueve a) s = movimiento a s
  call (recarga a) s = recargar_reporte a s
  call (restaura online check active) s = restaurar online check active s
  call limpia s = limpiar s
  call recarga_pagina s = reload s

  unfoldable pub calls : List (Call N) → CajaState N → CajaState N
  unfolding call
  calls [] s = s
  calls (c ∷ cs) s = calls cs (call c s)

  -- Without a session the register is not open.
  pub record IsHonest (s : CajaState N) : Type 0 where
    pub not_open : s.sesion_id ≡ none → s.estado ≢ some abierta

  adopt-IsHonest :
      (a : Answer (Option (Reporte N))) (s : CajaState N) → IsHonest s → IsHonest (adopt a s)
  unfolding adopt limpiar
  adopt-IsHonest (thrown m) s h = h
  adopt-IsHonest (ok none) s h = record { not_open = λ e o. cc }
  adopt-IsHonest (ok (some r)) s h = record { not_open = λ e o. cc }

  verify-IsHonest :
      (c a : Answer (Option (Reporte N))) (s : CajaState N) → IsHonest s → IsHonest (verify c a s)
  unfolding verify
  verify-IsHonest (thrown m) a s h = h
  verify-IsHonest (ok r) a s h = elim (Option-cases (open_report r)) [
    | inl e ↦ rw (e, verify) (adopt-IsHonest a s h)
    | inr (q, e) ↦ rw (e, verify) (record { not_open = λ e' o. cc })
  ]

  recargar-IsHonest :
      (a : Answer (Reporte N)) (s : CajaState N) → IsHonest s → IsHonest (recargar_reporte a s)
  unfolding recargar_reporte recargar_ends
  recargar-IsHonest a s h = elim (Bool-cases (has_text s.sesion_id)) [
    | inr gone ↦ rw gone h
    | inl there ↦ rw there (kept a s.sesion_id refl there)
  ]
    where
      kept :
          (a : Answer (Reporte N)) (i : Option Text)
          → s.sesion_id ≡ i
          → has_text i ≡ true
          → IsHonest (recargar_ends a (begin s))
      kept (ok r) none e t = absurd (ground arith)
      kept (ok r) (some i) e t = record { not_open = λ e' o. cc }
      kept (thrown m) i e t = record { not_open = λ e' o. h.not_open e' o }

  call-IsHonest : (c : Call N) (s : CajaState N) → IsHonest s → IsHonest (call c s)
  unfolding call abrir cerrar movimiento limpiar reload abrir_ends cerrar_ends movimiento_ends
      restaurar
  call-IsHonest (abre (ok r)) s h = record { not_open = λ e o. cc }
  call-IsHonest (abre (thrown m)) s h = record { not_open = λ e o. h.not_open e o }
  call-IsHonest (cierra (ok r)) s h = record { not_open = λ e o. cc }
  call-IsHonest (cierra (thrown m)) s h = record { not_open = λ e o. h.not_open e o }
  call-IsHonest (mueve (ok r)) s h = record { not_open = λ e o. h.not_open e o }
  call-IsHonest (mueve (thrown m)) s h = record { not_open = λ e o. h.not_open e o }
  call-IsHonest (recarga a) s h = recargar-IsHonest a s h
  call-IsHonest (restaura online check active) s h = if_intro IsHonest (not online) _ _ h (
      if_intro IsHonest (has_text s.sesion_id) _ _
        (verify-IsHonest (check (or_else s.sesion_id [])) active s h) (adopt-IsHonest active s h))
  call-IsHonest limpia s h = record { not_open = λ e o. cc }
  call-IsHonest recarga_pagina s h = record { not_open = λ e o. h.not_open e o }

  -- Whatever the server answers, calls that do not overlap keep that a register without a session
  -- is not open.
  pub calls-IsHonest : (cs : List (Call N)) (s : CajaState N) → IsHonest s → IsHonest (calls cs s)
  unfolding calls
  calls-IsHonest [] s h = h
  calls-IsHonest (c ∷ cs) s h = calls-IsHonest cs (call c s) (call-IsHonest c s h)

  -- `restaurar` changes nothing when the browser is offline, when the check of a stored session
  -- throws, whatever the other request would give, and when no session is stored and the request
  -- for the active one throws.
  pub restaurar_keeps :
      (online : Bool) (check : Text → Answer (Option (Reporte N)))
      (active : Answer (Option (Reporte N))) (s : CajaState N) (m : Option Text)
      → (online ≡ false)
        ⊎ (((has_text s.sesion_id ≡ true) × (check (or_else s.sesion_id []) ≡ thrown m))
            ⊎ ((has_text s.sesion_id ≡ false) × (active ≡ thrown m)))
      → restaurar online check active s ≡ s
  unfolding restaurar verify adopt
  restaurar_keeps online check active s m (inl off) = rw off refl
  restaurar_keeps true check active s m (inr (inl (t, e))) = rw (t, e) refl
  restaurar_keeps true check active s m (inr (inr (t, e))) = rw (t, e) refl
  restaurar_keeps false check active s m (inr h) = refl
