-- ===== src/Printer/Width.antt =====
-- The width of the lines of a ticket.
use blend_posv.Prelude.{
  ℕ, ◌+◌, ◌-◌, ◌/◌, ◌≤◌, ◌≡◌, inl, inr, [], ◌∷◌, ◌++◌, max, arith, Bool-cases, ltb, length, take,
  length-append, length-take, length-replicate, if◌then◌else◌,
}
use blend_posv.Text.{Text}
use blend_posv.Printer.{left_right, center, repeat}

trim_length :
    (left right : Text) (width : ℕ)
    → length right + 2 ≤ width
    → length (
          if ltb width (length left + length right + 1)
          then take (width - length right - 2) left ++ (8230 ∷ [])
          else left)
        + (length right + 1)
      ≤ width
trim_length left right width h = elim (Bool-cases (ltb width (length left + length right + 1))) [
  | inl e ↦ rw e (
      omega (
        arith,
        length-append (take (width - length right - 2) left) (8230 ∷ []),
        length-take (width - length right - 2) left,
      ))
  | inr e ↦ rw e (ground arith)
]

-- A line with a left and a right part is exactly as wide as the paper, however long the left part
-- is, if the right part leaves two columns; and a centred text is too, if it fits.
pub left_right-length :
    (left right text : Text) (width : ℕ)
    → length right + 2 ≤ width
    → length text ≤ width
    → (length (left_right left right width) ≡ width) × (length (center text width) ≡ width)
unfolding left_right center
left_right-length left right text width h k = (
  filled
      (if ltb width (length left + length right + 1)
        then take (width - length right - 2) left ++ (8230 ∷ [])
        else left)
      (trim_length left right width h),
  (let pad = width - length text in
      let s = repeat 32 (pad / 2) in
      let e = repeat 32 (pad - pad / 2) in
      omega (
        arith,
        length-append s (text ++ e),
        length-append text e,
        length-replicate {A = ℕ} (pad / 2) 32,
        length-replicate {A = ℕ} (pad - pad / 2) 32,
      )),
)
  where
    filled :
        (trimmed : Text)
        → length trimmed + (length right + 1) ≤ width
        → length (trimmed ++ (repeat 32 (max 1 (width - length trimmed - length right)) ++ right))
          ≡ width
    filled trimmed le =
        let gap = max 1 (width - length trimmed - length right) in
        omega (
          arith,
          length-append trimmed (repeat 32 gap ++ right),
          length-append (repeat 32 gap) right,
          length-replicate {A = ℕ} gap 32,
        )
