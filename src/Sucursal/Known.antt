-- ===== src/Sucursal/Known.antt =====
-- frontend/src/store/useSucursalStore.ts: the selected branch and the list of branches.
use blend_posv.Prelude.{
  ◌≡◌, refl, ◌⊎◌, inl, inr, true, false, Option, List, [], ◌∷◌, or_else, if_split, if_intro,
}
use blend_posv.Text.{has_text, text_eq_refl}
use blend_posv.Answer.{ok}
use blend_posv.Sucursal.{
  Sucursal, SucursalState, is_listed, set_sucursal, select_only, fetch_sucursales,
}

-- No branch is selected, or one of the list.
pub record IsKnown (s : SucursalState) : Type 0 where
  pub known :
      (has_text s.sucursal_id ≡ false) ⊎ (is_listed (or_else s.sucursal_id []) s.sucursales ≡ true)

select_only-IsKnown :
    (xs : List Sucursal) (s : SucursalState)
    → IsKnown (select_only xs (record s { sucursales = xs }))
unfolding select_only set_sucursal
select_only-IsKnown [] s = record { known = inl refl }
select_only-IsKnown (x ∷ []) s = record { known = inr (rw (text_eq_refl x.id) refl) }
select_only-IsKnown (x ∷ y ∷ xs) s = record { known = inl refl }

-- After an answer of the server the selected branch, if there is one, is on the new list.
pub fetch_sucursales-IsKnown :
    (a : Option (List Sucursal)) (s : SucursalState) → IsKnown (fetch_sucursales (ok a) s)
unfolding fetch_sucursales
fetch_sucursales-IsKnown a s =
    let xs = or_else a [] in
    if_split IsKnown (has_text s.sucursal_id) _ _
      (λ e.
        if_split IsKnown (is_listed (or_else s.sucursal_id []) xs) _ _
          (λ there. record { known = inr there }) (λ gone. select_only-IsKnown xs s))
      (λ e. if_intro IsKnown _ _ _ (select_only-IsKnown xs s) (record { known = inl e }))
