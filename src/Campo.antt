-- ===== src/Campo.antt =====
-- What a number input of the dialogs holds, and the number that the code reads from it.
use blend_posv.Prelude.{Bool, false, not, Option, or_else}
use blend_posv.Text.{Text, truthy}
use blend_posv.Number.{Number}

-- A number, or the text that is being typed.
pub data Campo (N : Type 0) : Type 0 where
  numero : N → Campo N
  texto : Text → Campo N

-- `campo === ''`
abbrev pub is_vacio : {N : Type 0} → Campo N → Bool
is_vacio (numero x) = false
is_vacio (texto t) = not (truthy t)

-- `typeof x === 'string' ? parseFloat(x) || 0 : x`; `parse_float` is `none` for NaN.
abbrev pub to_number : {N : Type 0} ⦃n : Number N⦄ → (Text → Option N) → Campo N → N
to_number parse_float (numero x) = x
to_number ⦃n⦄ parse_float (texto t) = or_else (parse_float t) (n.num 0)
